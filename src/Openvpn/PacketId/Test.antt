-- ===== src/Openvpn/PacketId/Test.antt =====
-- `packet_id_test` in backtrack mode: which packets it refuses and which it accepts.
use seguridad_en_redes.Base.{
  ℕ, suc, ◌+◌, ◌-◌, ◌%◌, ◌^◌, ◌≤◌, ◌<◌, ◌≡◌, ◌==◌, refl, ap, ◌⊎◌, inl, inr, true, false, some, ltb,
  leb, if◌then◌else◌, Bool-cases, arith,
}
use seguridad_en_redes.Openvpn.Checked.{◌>>=◌}
use seguridad_en_redes.Openvpn.CircList.{CircList, circ_list_item}
use seguridad_en_redes.Openvpn.CircList.Laws.{IsWell}
use seguridad_en_redes.Openvpn.PacketId.{
  PacketIdNet, PacketIdRec, seq_unseen, packet_id_test, in_window, backtrack_test,
}
use seguridad_en_redes.Openvpn.PacketId.Window.{Blocks}

-- The state in backtrack mode: the list has room for `seq_backtrack` numbers, and holds no more
-- of them than there were.
pub record IsWindow (p : PacketIdRec) (l : CircList ℕ) : Type 0 where
  pub ready : p.initialized ≡ true
  pub list : p.seq_list ≡ some l
  pub well : IsWell l
  pub cap : l.x_cap ≡ p.seq_backtrack
  pub behind : l.x_size ≤ p.id
  pub word : p.id < 2 ^ 32

-- The packets that `packet_id_test` refuses.
abbrev pub Blocked : PacketIdRec → CircList ℕ → PacketIdNet → Type 0
Blocked p l q =
    (q.id ≡ 0) ⊎ (q.time < p.time) ⊎ ((q.time ≡ p.time) × (q.id ≤ p.id) × Blocks l (p.id - q.id))

-- A blocked packet is refused.
pub Blocked-refused :
    (p : PacketIdRec) (l : CircList ℕ) (q : PacketIdNet)
    → IsWindow p l
    → Blocked p l q
    → packet_id_test p q ≡ some false
unfolding packet_id_test backtrack_test in_window
Blocked-refused p l q w (inl h) = rw (w.ready, h) refl
Blocked-refused p l q w (inr (inl h)) = rw w.ready (ground (arith, w.cap, w.well.head-lt))
Blocked-refused p l q w (inr (inr (t, le, b))) = elim (Bool-cases (q.id == 0)) [
  | inl z ↦ rw (w.ready, z) refl
  | inr nz ↦ rw (w.ready, nz, mode, same, not_new, w.list, distance) (seen b)
]
  where
    mode : (p.seq_backtrack == 0) ≡ false
    mode = ground (arith, w.cap, w.well.head-lt)

    same : (q.time == p.time) ≡ true
    same = ground arith

    not_new : ltb p.id q.id ≡ false
    not_new = ground arith

    distance : (p.id + 2 ^ 32 - q.id) % 2 ^ 32 ≡ p.id - q.id
    distance = omega (arith, w.word)

    seen :
        Blocks l (p.id - q.id)
        → (if leb l.x_size (p.id - q.id)
            then some false
            else (do v ← circ_list_item l (p.id - q.id); some (v == 0)))
          ≡ some false
    seen (inl h) = ground arith
    seen (inr (v, e)) = elim (Bool-cases (leb l.x_size (p.id - q.id))) [
      | inl c ↦ rw c refl
      | inr c ↦ rw (c, e) (ap some (nonzero v))
    ]
      where
        nonzero : (n : ℕ) → (suc n == 0) ≡ false
        nonzero n = ground arith

-- A packet in the window that has not been seen is accepted.
pub unseen-accepted :
    (p : PacketIdRec) (l : CircList ℕ) (q : PacketIdNet)
    → IsWindow p l
    → 0 < q.id
    → q.time ≡ p.time
    → q.id ≤ p.id
    → p.id - q.id < l.x_size
    → circ_list_item l (p.id - q.id) ≡ some seq_unseen
    → packet_id_test p q ≡ some true
unfolding packet_id_test backtrack_test in_window
unseen-accepted p l q w pos t le near e =
    rw (w.ready, nz, mode, same, not_new, w.list, distance, inside, e) refl
  where
    nz : (q.id == 0) ≡ false
    nz = ground arith

    mode : (p.seq_backtrack == 0) ≡ false
    mode = ground (arith, w.cap, w.well.head-lt)

    same : (q.time == p.time) ≡ true
    same = ground arith

    not_new : ltb p.id q.id ≡ false
    not_new = ground arith

    distance : (p.id + 2 ^ 32 - q.id) % 2 ^ 32 ≡ p.id - q.id
    distance = omega (arith, w.word)

    inside : leb l.x_size (p.id - q.id) ≡ false
    inside = ground arith

-- An accepted packet has a number, and is no older than the window.
pub record Accepted (p : PacketIdRec) (q : PacketIdNet) : Type 0 where
  pub numbered : 0 < q.id
  pub recent : p.time ≤ q.time

pub test-Accepted :
    (p : PacketIdRec) (l : CircList ℕ) (q : PacketIdNet)
    → IsWindow p l
    → packet_id_test p q ≡ some true
    → Accepted p q
test-Accepted p l q w e = record { numbered = numbered; recent = recent }
  where
    clash : Blocked p l q → ⊥
    clash b = cc (e, Blocked-refused p l q w b)

    numbered : 0 < q.id
    numbered = elim (Bool-cases (q.id == 0)) [
      | inl h ↦ absurd (clash (inl (ground arith)))
      | inr h ↦ ground arith
    ]

    recent : p.time ≤ q.time
    recent = elim (Bool-cases (ltb q.time p.time)) [
      | inl h ↦ absurd (clash (inr (inl (ground arith))))
      | inr h ↦ ground arith
    ]

-- A packet of a later time, or of the running time and a higher number, is accepted.
pub newer-accepted :
    (p : PacketIdRec) (l : CircList ℕ) (q : PacketIdNet)
    → IsWindow p l
    → 0 < q.id
    → (p.time < q.time) ⊎ (p.time ≡ q.time) × (p.id < q.id)
    → packet_id_test p q ≡ some true
unfolding packet_id_test backtrack_test
newer-accepted p l q w pos newer = rw w.ready (ground (arith, w.cap, w.well.head-lt))
