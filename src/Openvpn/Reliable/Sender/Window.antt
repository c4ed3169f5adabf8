-- ===== src/Openvpn/Reliable/Sender/Window.antt =====
-- The packets that wait for an acknowledgment keep to a window (vpn/openvpn-2.2.1/reliable.c).
use seguridad_en_redes.Base.{
  ℕ, ◌+◌, ◌≤◌, ◌<◌, ◌≡◌, ◌^◌, refl, true, ◌⊎◌, inl, inr, List, [], ◌∷◌, Option, none, some,
  if◌then◌else◌, Bool-cases, arith,
}
use mathlib.Core.Path.{subst}
use seguridad_en_redes.Openvpn.Reliable.{reliable_pid_in_range1, reliable_pid_min}
use seguridad_en_redes.Openvpn.Reliable.Entries.{ReliableEntry}
use seguridad_en_redes.Openvpn.Reliable.Sender.{precedes, min_id}

-- Every active id is one of the `n` before `next`.
abbrev pub AreOutstanding : ℕ → ℕ → List ReliableEntry → Type 0
AreOutstanding next n [] = Unit
AreOutstanding next n (e ∷ array) =
    (e.active ≡ true → (e.packet_id < next) × (next ≤ e.packet_id + n))
    × AreOutstanding next n array

-- An id is at most each active one.
abbrev pub IsLowest : ℕ → List ReliableEntry → Type 0
IsLowest m [] = Unit
IsLowest m (e ∷ array) = (e.active ≡ true → m ≤ e.packet_id) × IsLowest m array

abbrev pub BoundsLeast : Option ℕ → ℕ → Type 0
BoundsLeast none m = Unit
BoundsLeast (some least) m = m ≤ least

IsLowest-mono : (m n : ℕ) (array : List ReliableEntry) → m ≤ n → IsLowest n array → IsLowest m array
IsLowest-mono m n [] le h = tt
IsLowest-mono m n (e ∷ array) le (low, h) =
    (λ on. omega (arith, low on), IsLowest-mono m n array le h)

-- The least id so far after an active entry.
least-step :
    (next id : ℕ) (least : Option ℕ)
    → id < next
    → next < 2 ^ 31
    → ((l : ℕ) → least ≡ some l → l < next)
    → (x : ℕ) × ((if precedes id least then some id else least) ≡ some x)
      × (x < next)
      × (x ≤ id)
      × BoundsLeast least x
unfolding precedes reliable_pid_min reliable_pid_in_range1
least-step next id none lt near below = (id, refl, lt, omega arith, tt)
least-step next id (some l) lt near below =
    let before = below l refl in
    elim (Bool-cases (precedes id (some l))) [
      | inl earlier ↦ (id, rw earlier refl, lt, omega arith, ground (arith, earlier))
      | inr later ↦ (l, rw later refl, before, ground (arith, later), omega arith)
    ]

-- Of ids below 2^31 the loop finds the least; it finds none only where no entry is active.
pub min_id-IsLowest :
    (next n : ℕ) (array : List ReliableEntry) (least : Option ℕ)
    → AreOutstanding next n array
    → next < 2 ^ 31
    → ((l : ℕ) → least ≡ some l → l < next)
    → ((min_id array least ≡ none) × (least ≡ none) × ((m : ℕ) → IsLowest m array))
      ⊎ ((m : ℕ) × (min_id array least ≡ some m)
          × (m < next)
          × BoundsLeast least m
          × IsLowest m array)
unfolding min_id precedes reliable_pid_min reliable_pid_in_range1
min_id-IsLowest next n [] none w near below = inl (refl, refl, λ m. tt)
min_id-IsLowest next n [] (some l) w near below = inr (l, refl, below l refl, omega arith, tt)
min_id-IsLowest next n (e ∷ array) least (here, w) near below = elim (Bool-cases e.active) [
  | inr off ↦ rw off elim (min_id-IsLowest next n array least w near below) [
    | inl (nothing, start, all) ↦ inl (nothing, start, λ m. (λ on. absurd (cc on), all m))
    | inr (m, found, lt, bounds, low) ↦ inr (m, found, lt, bounds, (λ on. absurd (cc on), low))
  ]
  | inl on ↦
      let (x, e', lt, le, bounds) = least-step next e.packet_id least (here on).0 near below in
      let lower : (l : ℕ) → some x ≡ some l → l < next = λ l eq. subst (λ k. k < next) (cc eq) lt in
      rw (on, e')
        elim (min_id-IsLowest next n array (some x) w near lower) [
          | inl (nothing, start, all) ↦ absurd (cc start)
          | inr (m, found, lt', le', low) ↦
              inr (m, found, lt', further least x m bounds le', (λ on'. omega arith, low))
        ]
]
  where
    further : (least' : Option ℕ) (x m : ℕ) → BoundsLeast least' x → m ≤ x → BoundsLeast least' m
    further none x m b le = tt
    further (some l) x m b le = omega arith
