-- ===== src/Openvpn/Reliable/Sender/Retry.antt =====
-- `reliable_unique_retry` of vpn/openvpn-2.2.1/reliable.c ends, with a time of its own.
use seguridad_en_redes.Base.{
  ℕ, zero, suc, ◌+◌, ◌-◌, ◌≤◌, ◌<◌, ◌≡◌, refl, ap, ◌∙◌, true, false, ◌&&◌, inl, inr, List, [], ◌∷◌,
  some, length, leb, ltb, ◌==◌, if◌then◌else◌, Bool-cases, arith,
}
use seguridad_en_redes.Openvpn.Reliable.Entries.{ReliableEntry}
use seguridad_en_redes.Openvpn.Reliable.Sender.{is_retry, unique_retry, reliable_unique_retry}

-- How many entries have a time from `retry` on and before `retry + k`.
unfoldable times : List ReliableEntry → ℕ → ℕ → ℕ
times [] retry k = 0
times (e ∷ array) retry k =
    (if leb retry e.next_try && ltb e.next_try (retry + k) then 1 else 0) + times array retry k

times-length : (array : List ReliableEntry) (retry k : ℕ) → times array retry k ≤ length array
unfolding times
times-length [] retry k = omega arith
times-length (e ∷ array) retry k = ground (arith, times-length array retry k)

times_mono :
    (array : List ReliableEntry) (retry k : ℕ) → times array retry k ≤ times array retry (suc k)
unfolding times
times_mono [] retry k = omega arith
times_mono (e ∷ array) retry k = ground (arith, times_mono array retry k)

-- A time that an entry has counts.
times-suc :
    (array : List ReliableEntry) (retry k : ℕ)
    → is_retry array (retry + k) ≡ true
    → suc (times array retry k) ≤ times array retry (suc k)
unfolding times is_retry
times-suc [] retry k h = absurd (cc h)
times-suc (e ∷ array) retry k h = elim (Bool-cases (is_retry array (retry + k))) [
  | inl later ↦ ground (arith, times-suc array retry k later)
  | inr here ↦ ground (arith, times_mono array retry k, here, h)
]

-- `k` times in a row, all of them taken, need `k` entries.
taken-le :
    (array : List ReliableEntry) (retry k : ℕ)
    → ((j : ℕ) → j < k → is_retry array (retry + j) ≡ true)
    → k ≤ times array retry k
taken-le array retry zero h = omega arith
taken-le array retry (suc k) h = omega (
  arith,
  taken-le array retry k λ j lt. h j (omega arith),
  times-suc array retry k (h k (omega arith)),
)

-- The search from `retry + k` on, where the times before are taken.
unique_retry_lem :
    (array : List ReliableEntry) (retry k n : ℕ)
    → ((j : ℕ) → j < k → is_retry array (retry + j) ≡ true)
    → length array < k + n
    → (t : ℕ) × (unique_retry n array (retry + k) ≡ some t)
      × (retry + k ≤ t)
      × (is_retry array t ≡ false)
      × ((u : ℕ) → retry ≤ u → u < t → is_retry array u ≡ true)
unfolding unique_retry
unique_retry_lem array retry k zero taken enough =
    absurd (omega (arith, taken-le array retry k taken, times-length array retry k))
unique_retry_lem array retry k (suc n) taken enough =
    elim (Bool-cases (is_retry array (retry + k))) [
      | inr free ↦ (
        retry + k,
        rw free refl,
        omega arith,
        free,
        λ u low high. at u low (taken (u - retry) (omega arith)),
      )
      | inl busy ↦
          let (t, found, low, own, before) =
            unique_retry_lem array retry (suc k) n (more busy) (omega arith) in
          let next : retry + k + 1 ≡ retry + suc k = omega arith in
          (t, rw (busy, next) found, omega arith, own, before)
    ]
  where
    at : (u : ℕ) → retry ≤ u → is_retry array (retry + (u - retry)) ≡ true → is_retry array u ≡ true
    at u low h = let same : u ≡ retry + (u - retry) = omega arith in ap (is_retry array) same ∙ h

    more :
        is_retry array (retry + k) ≡ true → (j : ℕ) → j < suc k → is_retry array (retry + j) ≡ true
    more busy j lt = elim (Bool-cases (j == k)) [
      | inl last ↦
          let same : j ≡ k = ground (arith, last) in
          ap (λ i. is_retry array (retry + i)) same ∙ busy
      | inr other ↦ taken j (ground (arith, other, lt))
    ]

-- `reliable_unique_retry` ends within one round more than there are entries, with the first time
-- from `retry` on that no active entry has.
pub reliable_unique_retry_lem :
    (array : List ReliableEntry) (retry : ℕ)
    → (t : ℕ) × (reliable_unique_retry array retry ≡ some t)
      × (retry ≤ t)
      × (is_retry array t ≡ false)
      × ((u : ℕ) → retry ≤ u → u < t → is_retry array u ≡ true)
unfolding reliable_unique_retry
reliable_unique_retry_lem array retry =
    let (t, found, low, own, before) =
      unique_retry_lem array retry 0 (suc (length array)) (λ j lt. absurd (omega arith))
        (omega arith) in
    let start : retry ≡ retry + 0 = omega arith in
    (t, ap (unique_retry (suc (length array)) array) start ∙ found, omega arith, own, before)
