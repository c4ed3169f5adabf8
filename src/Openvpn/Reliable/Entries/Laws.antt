-- ===== src/Openvpn/Reliable/Entries/Laws.antt =====
-- The active ids of a `struct reliable` differ, and an acknowledgment removes its ids alone.
use seguridad_en_redes.Base.{
  ℕ, zero, suc, ◌≡◌, ◌==◌, refl, sym, ap, ◌∙◌, ◌⊎◌, inl, inr, Bool, true, false, not, ◌&&◌, ◌||◌,
  List, [], ◌∷◌, Option, none, some, get_elem?, set, if◌then◌else◌, Bool-cases, arith,
}
use mathlib.Core.Path.{subst}
use seguridad_en_redes.Openvpn.Reliable.{reliable_ack_packet_id_present}
use seguridad_en_redes.Openvpn.Reliable.Entries.{
  ReliableEntry, is_active, next_place, free_place, reliable_can_get, deactivated, purge_id,
  reliable_send_purge,
}

-- No two active entries have the same id.
abbrev pub AreUnique : List ReliableEntry → Type 0
AreUnique [] = Unit
AreUnique (e ∷ array) = ((e.active && is_active array e.packet_id) ≡ false) × AreUnique array

purge_id-is_active :
    (pid q : ℕ) (array : List ReliableEntry)
    → AreUnique array
    → is_active (purge_id pid array) q ≡ (is_active array q && not (pid == q))
unfolding is_active purge_id deactivated
purge_id-is_active pid q [] u = refl
purge_id-is_active pid q (e ∷ array) (alone, u) =
    elim (Bool-cases (e.active && e.packet_id == pid)) [
      | inl hit ↦ rw hit (elim (Bool-cases (pid == q)) [
        | inl same ↦ ground (arith, gone hit same)
        | inr other ↦ ground arith
      ])
      | inr miss ↦ rw miss (ground (arith, purge_id-is_active pid q array u))
    ]
  where
    gone : (e.active && e.packet_id == pid) ≡ true → (pid == q) ≡ true → is_active array q ≡ false
    gone hit same = subst (λ x. is_active array x ≡ false) (equal hit same) (ground (arith, alone))
      where
        equal : (e.active && e.packet_id == pid) ≡ true → (pid == q) ≡ true → e.packet_id ≡ q
        equal hit same = ground arith

purge_id-AreUnique :
    (pid : ℕ) (array : List ReliableEntry) → AreUnique array → AreUnique (purge_id pid array)
unfolding is_active purge_id deactivated
purge_id-AreUnique pid [] u = tt
purge_id-AreUnique pid (e ∷ array) (alone, u) = elim (Bool-cases (e.active && e.packet_id == pid)) [
  | inl hit ↦ rw hit (refl, u)
  | inr miss ↦ rw miss (
    ground (arith, alone, purge_id-is_active pid e.packet_id array u),
    purge_id-AreUnique pid array u,
  )
]

-- If no two active entries have the same id, then after `reliable_send_purge` exactly those ids
-- are active that were so before and are not acknowledged, and still no two of them are the same.
pub reliable_send_purge-is_active :
    (ack : List ℕ) (array : List ReliableEntry) (q : ℕ)
    → AreUnique array
    → (is_active (reliable_send_purge ack array) q
        ≡ (is_active array q && not (reliable_ack_packet_id_present ack q)))
      × AreUnique (reliable_send_purge ack array)
unfolding reliable_send_purge reliable_ack_packet_id_present
reliable_send_purge-is_active [] array q u = (ground arith, u)
reliable_send_purge-is_active (pid ∷ ack) array q u =
    let (active, u') =
      reliable_send_purge-is_active ack (purge_id pid array) q (purge_id-AreUnique pid array u) in
    (active ∙ ground (arith, purge_id-is_active pid q array u), u')

next_place-zero : (o : Option ℕ) → next_place o ≡ some 0 → ⊥
unfolding next_place
next_place-zero none h = cc h
next_place-zero (some i) h = ground (arith, h)

next_place-suc : (o : Option ℕ) (i : ℕ) → next_place o ≡ some (suc i) → o ≡ some i
unfolding next_place
next_place-suc none i h = absurd (cc h)
next_place-suc (some j) i h = ground (arith, h)

pub free_place-tail :
    (e : ReliableEntry) (array : List ReliableEntry) (i : ℕ)
    → free_place (e ∷ array) ≡ some (suc i)
    → (e.active ≡ true) × (free_place array ≡ some i)
unfolding free_place
free_place-tail e array i h = further (Bool-cases e.active)
  where
    by_active : Bool → Option ℕ
    by_active b = if b then next_place (free_place array) else some 0

    differ : some 0 ≡ some (suc i) → ⊥
    differ same = ground (arith, same)

    further :
        (e.active ≡ true) ⊎ (e.active ≡ false) → (e.active ≡ true) × (free_place array ≡ some i)
    further (inl on) = (on, next_place-suc (free_place array) i (sym (ap by_active on) ∙ h))
    further (inr off) = absurd (differ (sym (ap by_active off) ∙ h))

pub free_place-head :
    (e : ReliableEntry) (array : List ReliableEntry)
    → free_place (e ∷ array) ≡ some 0
    → e.active ≡ false
unfolding free_place
free_place-head e array h = elim (Bool-cases e.active) [
  | inl on ↦ absurd (
      next_place-zero (free_place array)
        (sym (ap (λ b. if b then next_place (free_place array) else some 0) on) ∙ h))
  | inr off ↦ off
]

-- The entry that `reliable_get_buf` finds is not active: with another one in its place, the ids
-- are those of before and that of the new one.
pub free_place-set :
    (array : List ReliableEntry) (i : ℕ) (n : ReliableEntry)
    → free_place array ≡ some i
    → (e : ReliableEntry) × (get_elem? array i ≡ some e)
      × (e.active ≡ false)
      × ((q : ℕ)
          → is_active (set array i n) q ≡ ((n.active && n.packet_id == q) || is_active array q))
unfolding free_place is_active
free_place-set [] i n h = absurd (cc h)
free_place-set (e ∷ array) zero n h =
    let idle = free_place-head e array h in (e, refl, idle, λ q. ground (arith, idle))
free_place-set (e ∷ array) (suc i) n h =
    let (found, at, idle, ids) = free_place-set array i n (free_place-tail e array i h).1 in
    (found, at, idle, λ q. ground (arith, ids q))

pub set-AreUnique :
    (array : List ReliableEntry) (i : ℕ) (n : ReliableEntry)
    → free_place array ≡ some i
    → is_active array n.packet_id ≡ false
    → AreUnique array
    → AreUnique (set array i n)
unfolding free_place is_active
set-AreUnique [] i n h new u = tt
set-AreUnique (e ∷ array) zero n h new (alone, u) = (ground (arith, new), u)
set-AreUnique (e ∷ array) (suc i) n h new (alone, u) =
    let tail = (free_place-tail e array i h).1 in
    let (_, _, _, ids) = free_place-set array i n tail in
    (
      ground (arith, ids e.packet_id, alone, new),
      set-AreUnique array i n tail (ground (arith, new)) u,
    )

-- The place is found unless every entry is active.
pub free_place-can_get :
    (array : List ReliableEntry)
    → ((free_place array ≡ none) × (reliable_can_get array ≡ false))
      ⊎ ((i : ℕ) × (free_place array ≡ some i) × (reliable_can_get array ≡ true))
unfolding free_place reliable_can_get next_place
free_place-can_get [] = inl (refl, refl)
free_place-can_get (e ∷ array) = ground (arith, free_place-can_get array)
