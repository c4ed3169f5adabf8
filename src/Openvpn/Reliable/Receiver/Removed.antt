-- ===== src/Openvpn/Reliable/Receiver/Removed.antt =====
-- What deleting the packet in turn does to the entries of a `struct reliable` that receives
-- (vpn/openvpn-2.2.1/reliable.c).
use seguridad_en_redes.Base.{
  ℕ, zero, suc, ◌+◌, ◌≤◌, ◌<◌, ◌≡◌, refl, sym, ap, ◌∙◌, true, false, ◌&&◌, inl, inr, List, [], ◌∷◌,
  Option, none, some, get_elem?, set, ◌==◌, if◌then◌else◌, Bytes, Bool-cases, arith,
}
use seguridad_en_redes.Openvpn.Reliable.Entries.{ReliableEntry, is_active}
use seguridad_en_redes.Openvpn.Reliable.Entries.Laws.{AreUnique}
use seguridad_en_redes.Openvpn.Reliable.Receiver.Window.{
  pending, is_some, pending-is_active, AreInWindow,
}

get_elem?-is_active :
    (array : List ReliableEntry) (i : ℕ) (e : ReliableEntry)
    → get_elem? array i ≡ some e
    → e.active ≡ true
    → is_active array e.packet_id ≡ true
unfolding is_active
get_elem?-is_active [] i e at on = absurd (cc at)
get_elem?-is_active (x ∷ array) zero e at on =
    let same : x ≡ e = cc at in rw same (ground (arith, on))
get_elem?-is_active (x ∷ array) (suc i) e at on =
    ground (arith, get_elem?-is_active array i e at on)

is_active-none :
    (array : List ReliableEntry) (q : ℕ) → is_active array q ≡ false → pending array q ≡ none
is_active-none array q off = by_option (pending array q) (pending-is_active array q ∙ off)
  where
    by_option : (o : Option Bytes) → is_some o ≡ false → o ≡ none
    by_option none h = refl
    by_option (some c) h = absurd (cc h)

-- Without the entry that has it, an id is no longer active; the others are as before.
pub pending-set_inactive :
    (array : List ReliableEntry) (i : ℕ) (e n : ReliableEntry) (q : ℕ)
    → AreUnique array
    → get_elem? array i ≡ some e
    → e.active ≡ true
    → n.active ≡ false
    → pending (set array i n) q ≡ (if e.packet_id == q then none else pending array q)
unfolding pending
pending-set_inactive [] i e n q u at on off = absurd (cc at)
pending-set_inactive (x ∷ array) zero e n q (alone, u) at on off =
    let same : x ≡ e = cc at in
    let active : x.active ≡ true = ap (λ y. y.active) same ∙ on in
    let gone = is_active-none array x.packet_id (ground (arith, alone, active)) in
    let id_e : e.packet_id ≡ x.packet_id = ap (λ y. y.packet_id) (sym same) in
    elim (Bool-cases (x.packet_id == q)) [
      | inl hit ↦
          let id : x.packet_id ≡ q = ground (arith, hit) in
          rw (off, id_e, hit) (ap (pending array) (sym id) ∙ gone)
      | inr miss ↦ rw (off, id_e, miss) (rw active refl)
    ]
pending-set_inactive (x ∷ array) (suc i) e n q (alone, u) at on off =
    let rest = pending-set_inactive array i e n q u at on off in
    let there = get_elem?-is_active array i e at on in
    elim (Bool-cases (x.active && x.packet_id == q)) [
      | inl hit ↦ elim (Bool-cases (e.packet_id == q)) [
        | inl same ↦ absurd (twice hit same there)
        | inr other ↦ rw (hit, other) refl
      ]
      | inr miss ↦ rw miss rest
    ]
  where
    twice :
        (x.active && x.packet_id == q) ≡ true
        → (e.packet_id == q) ≡ true
        → is_active array e.packet_id ≡ true
        → ⊥
    twice hit same there =
        let id : e.packet_id ≡ x.packet_id = ground arith in
        let both : is_active array x.packet_id ≡ true = ap (is_active array) (sym id) ∙ there in
        ground (arith, alone, hit, both)

set_inactive-is_active :
    (array : List ReliableEntry) (i : ℕ) (n : ReliableEntry) (q : ℕ)
    → n.active ≡ false
    → is_active array q ≡ false
    → is_active (set array i n) q ≡ false
unfolding is_active
set_inactive-is_active [] i n q off h = h
set_inactive-is_active (x ∷ array) zero n q off h = ground (arith, off)
set_inactive-is_active (x ∷ array) (suc i) n q off h =
    let rest = set_inactive-is_active array i n q off (ground arith) in ground (arith, rest)

pub set_inactive-AreUnique :
    (array : List ReliableEntry) (i : ℕ) (n : ReliableEntry)
    → n.active ≡ false
    → AreUnique array
    → AreUnique (set array i n)
set_inactive-AreUnique [] i n off u = tt
set_inactive-AreUnique (x ∷ array) zero n off (alone, u) = (ground (arith, off), u)
set_inactive-AreUnique (x ∷ array) (suc i) n off (alone, u) = (
  elim (Bool-cases x.active) [
    | inl on ↦
        let absent : is_active array x.packet_id ≡ false = ground (arith, alone, on) in
        rw (on, set_inactive-is_active array i n x.packet_id off absent) refl
    | inr idle ↦ rw idle refl
  ],
  set_inactive-AreUnique array i n off u,
)

-- The active ids keep to a window if each of them is in it.
pub is_active-AreInWindow :
    (base n : ℕ) (array : List ReliableEntry)
    → ((q : ℕ) → is_active array q ≡ true → (base ≤ q) × (q < base + n))
    → AreInWindow base n array
unfolding is_active
is_active-AreInWindow base n [] h = tt
is_active-AreInWindow base n (e ∷ array) h = (
  λ on. h e.packet_id (ground (arith, on)),
  is_active-AreInWindow base n array λ q on. h q (ground (arith, on)),
)

pub AreInWindow-is_active :
    (base n : ℕ) (array : List ReliableEntry) (q : ℕ)
    → AreInWindow base n array
    → is_active array q ≡ true
    → (base ≤ q) × (q < base + n)
unfolding is_active
AreInWindow-is_active base n [] q w on = absurd (cc on)
AreInWindow-is_active base n (e ∷ array) q (in_window, w) on =
    elim (Bool-cases (e.active && e.packet_id == q)) [
      | inl hit ↦
          let r = in_window (ground (arith, hit)) in
          let id : e.packet_id ≡ q = ground (arith, hit) in (omega arith, omega arith)
      | inr miss ↦ AreInWindow-is_active base n array q w (ground (arith, on, miss))
    ]
