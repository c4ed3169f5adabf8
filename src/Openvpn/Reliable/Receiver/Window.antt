-- ===== src/Openvpn/Reliable/Receiver/Window.antt =====
-- The entries of a `struct reliable` that receives (vpn/openvpn-2.2.1/reliable.c): the packets they
-- hold, and the window of ids they keep to.
use seguridad_en_redes.Base.{
  ℕ, zero, suc, ◌+◌, ◌-◌, ◌≤◌, ◌<◌, ◌≡◌, refl, sym, ap, ◌∙◌, leb, Bool, true, false, ◌&&◌, inl, inr,
  List, [], ◌∷◌, Option, none, some, length, ◌==◌, if◌then◌else◌, Bytes, Bool-cases, arith,
}
use seguridad_en_redes.Openvpn.Reliable.Entries.{ReliableEntry, is_active, reliable_can_get}
use seguridad_en_redes.Openvpn.Reliable.Entries.Laws.{AreUnique}

-- The content of the active entry with an id.
unfoldable pub pending : List ReliableEntry → ℕ → Option Bytes
pending [] id = none
pending (e ∷ array) id =
    if e.active && e.packet_id == id then some e.buf.content else pending array id

abbrev pub is_some {ℓ} : {A : Type ℓ} → Option A → Bool
is_some none = false
is_some (some a) = true

pub pending-is_active :
    (array : List ReliableEntry) (id : ℕ) → is_some (pending array id) ≡ is_active array id
unfolding pending is_active
pending-is_active [] id = refl
pending-is_active (e ∷ array) id = ground (arith, pending-is_active array id)

-- Every active id is one of the `n` from `base` on.
abbrev pub AreInWindow : ℕ → ℕ → List ReliableEntry → Type 0
AreInWindow base n [] = Unit
AreInWindow base n (e ∷ array) =
    (e.active ≡ true → (base ≤ e.packet_id) × (e.packet_id < base + n)) × AreInWindow base n array

-- How many active entries have the id.
unfoldable count_id : List ReliableEntry → ℕ → ℕ
count_id [] id = 0
count_id (e ∷ array) id = (if e.active && e.packet_id == id then 1 else 0) + count_id array id

-- How many active entries have one of the `k` ids from `base` on.
unfoldable count_ids : List ReliableEntry → ℕ → ℕ → ℕ
count_ids array base zero = 0
count_ids array base (suc k) = count_ids array base k + count_id array (base + k)

count_id-absent :
    (array : List ReliableEntry) (id : ℕ) → is_active array id ≡ false → count_id array id ≡ 0
unfolding count_id is_active
count_id-absent [] id h = refl
count_id-absent (e ∷ array) id h =
    let rest = count_id-absent array id (ground arith) in ground (arith, rest)

count_id-AreUnique : (array : List ReliableEntry) (id : ℕ) → AreUnique array → count_id array id ≤ 1
unfolding count_id is_active
count_id-AreUnique [] id u = omega arith
count_id-AreUnique (e ∷ array) id (alone, u) = elim (Bool-cases (e.active && e.packet_id == id)) [
  | inl hit ↦
      let same : e.packet_id ≡ id = ground arith in
      rw (hit, count_id-absent array id (rw (sym same) ground (arith, alone))) omega arith
  | inr miss ↦ rw miss (omega (arith, count_id-AreUnique array id u))
]

-- Each id counts at most once, and one that is not active does not count.
count_ids-le :
    (array : List ReliableEntry) (base k : ℕ) → AreUnique array → count_ids array base k ≤ k
unfolding count_ids
count_ids-le array base zero u = omega arith
count_ids-le array base (suc k) u =
    omega (arith, count_ids-le array base k u, count_id-AreUnique array (base + k) u)

count_ids-lt :
    (array : List ReliableEntry) (base k j : ℕ)
    → AreUnique array
    → j < k
    → is_active array (base + j) ≡ false
    → count_ids array base k < k
unfolding count_ids
count_ids-lt array base zero j u lt off = absurd (omega arith)
count_ids-lt array base (suc k) j u lt off = elim (Bool-cases (j == k)) [
  | inl last ↦
      let same : j ≡ k = ground (arith, last) in
      omega (
        arith,
        count_ids-le array base k u,
        count_id-absent array (base + k) (ap (λ i. is_active array (base + i)) (sym same) ∙ off),
      )
  | inr before ↦
      let lt' : j < k = ground (arith, before) in
      omega (arith, count_ids-lt array base k j u lt' off, count_id-AreUnique array (base + k) u)
]

-- One more entry, with an id of the window, adds one.
count_ids-cons :
    (e : ReliableEntry) (array : List ReliableEntry) (base k : ℕ)
    → e.active ≡ true
    → base ≤ e.packet_id
    → count_ids (e ∷ array) base k
      ≡ count_ids array base k + (if leb (base + k) e.packet_id then 0 else 1)
unfolding count_ids count_id
count_ids-cons e array base zero on le = ground arith
count_ids-cons e array base (suc k) on le = ground (arith, count_ids-cons e array base k on le)

count_ids-length :
    (array : List ReliableEntry) (base n : ℕ)
    → AreInWindow base n array
    → reliable_can_get array ≡ false
    → count_ids array base n ≡ length array
unfolding reliable_can_get count_ids count_id
count_ids-length [] base n w full = nothing n
  where
    nothing : (k : ℕ) → count_ids [] base k ≡ 0
    nothing zero = refl
    nothing (suc k) = omega (arith, nothing k)
count_ids-length (e ∷ array) base n (in_window, w) full =
    let on : e.active ≡ true = ground arith in
    let (low, high) = in_window on in
    let rest = count_ids-length array base n w (ground arith) in
    count_ids-cons e array base n on low ∙ ground arith

-- If the active ids differ and keep to a window as long as the array, and all entries are active,
-- then every id of the window is active.
pub full-is_active :
    (array : List ReliableEntry) (base id : ℕ)
    → AreUnique array
    → AreInWindow base (length array) array
    → reliable_can_get array ≡ false
    → base ≤ id
    → id < base + length array
    → is_active array id ≡ true
full-is_active array base id u w full low high = elim (Bool-cases (is_active array id)) [
  | inl on ↦ on
  | inr off ↦
      let there : base + (id - base) ≡ id = omega arith in
      absurd (
        omega (
          arith,
          count_ids-lt array base (length array) (id - base) u (omega arith) (rw there off),
          count_ids-length array base (length array) w full,
        ))
]
