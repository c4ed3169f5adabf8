-- ===== src/Openvpn/PacketId/Backtrack.antt =====
-- The check of received packets in backtrack mode: no packet is accepted twice.
use seguridad_en_redes.Base.{
  ℕ, ◌+◌, ◌-◌, ◌%◌, ◌^◌, ◌≤◌, ◌<◌, ◌≡◌, ◌==◌, ◌⊎◌, refl, inl, inr, Bool, true, false, List, some,
  leb, ltb, Bool-cases, arith,
}
use seguridad_en_redes.Openvpn.Checked.{◌>>=◌}
use seguridad_en_redes.Openvpn.CircList.{CircList, circ_list_alloc}
use seguridad_en_redes.Openvpn.CircList.Laws.{circ_list_alloc-IsWell, circ_list_item-some}
use seguridad_en_redes.Openvpn.PacketId.{
  PacketIdNet, PacketIdRec, seq_unseen, packet_id_init, packet_id_test, packet_id_add,
  packet_id_reap_test, in_window, backtrack_test,
}
use seguridad_en_redes.Openvpn.PacketId.Test.{IsWindow, Blocked, Blocked-refused, test-Accepted}
use seguridad_en_redes.Openvpn.PacketId.Add.{packet_id_add-Added}
use seguridad_en_redes.Openvpn.PacketId.Reap.{packet_id_reap_test-Reaped}
use seguridad_en_redes.Openvpn.PacketId.Receive.{
  receive_all, IsDistinct, AreWire, Guard, receive_all-Clean,
}

either : (b : Bool) → (some b ≡ some true) ⊎ (some b ≡ some false)
either true = inl refl
either false = inr refl

-- `packet_id_test` answers on a window: no assertion fails and no index is out of bounds.
test-answers :
    (p : PacketIdRec) (l : CircList ℕ) (q : PacketIdNet)
    → IsWindow p l
    → (packet_id_test p q ≡ some true) ⊎ (packet_id_test p q ≡ some false)
unfolding packet_id_test backtrack_test in_window
test-answers p l q w = elim (Bool-cases (q.id == 0)) [
  | inl z ↦ inr (rw (w.ready, z) refl)
  | inr nz ↦ elim (Bool-cases (q.time == p.time)) [
    | inr other ↦ elim (Bool-cases (ltb q.time p.time)) [
      | inl old ↦ inr (rw (w.ready, nz, mode, other, old) refl)
      | inr later ↦ inl (rw (w.ready, nz, mode, other, later) refl)
    ]
    | inl same ↦ elim (Bool-cases (ltb p.id q.id)) [
      | inl new ↦ inl (rw (w.ready, nz, mode, same, new) refl)
      | inr not_new ↦ elim (Bool-cases (leb l.x_size ((p.id + 2 ^ 32 - q.id) % 2 ^ 32))) [
        | inl far ↦ inr (rw (w.ready, nz, mode, same, not_new, w.list, far) refl)
        | inr near ↦
            let (v, e) =
              circ_list_item-some l w.well ((p.id + 2 ^ 32 - q.id) % 2 ^ 32) (ground arith) in
            rw (w.ready, nz, mode, same, not_new, w.list, near, e) (either (v == 0))
      ]
    ]
  ]
]
  where
    mode : (p.seq_backtrack == 0) ≡ false
    mode = ground (arith, w.cap, w.well.head-lt)

-- The states that have a window; what they block once there is an item in it.
abbrev Windowed : Type 0
Windowed = (p : PacketIdRec) × (l : CircList ℕ) × IsWindow p l

abbrev BlockedBy : Windowed → PacketIdNet → Type 0
BlockedBy s q = (0 < s.1.x_size) × Blocked s.0 s.1 q

sweeps :
    (now : ℕ) (s : Windowed)
    → (s' : Windowed) × (packet_id_reap_test now s.0 ≡ some s'.0)
      × ((q : PacketIdNet) → BlockedBy s q → BlockedBy s' q)
sweeps now (p, l, w) =
    let (p', l', swept, r) = packet_id_reap_test-Reaped now p l w in
    ((p', l', r.window), swept, λ q b. (omega (arith, r.size, b.0), r.kept q b.1))

adds :
    (now : ℕ) (s : Windowed) (pin : PacketIdNet)
    → packet_id_test s.0 pin ≡ some true
    → 1 < now
    → pin.id < 2 ^ 32
    → (s' : Windowed) × (packet_id_add now s.0 pin ≡ some s'.0)
      × BlockedBy s' pin
      × ((q : PacketIdNet) → BlockedBy s q → BlockedBy s' q)
adds now (p, l, w) pin fresh clock word =
    let (p', l', added, a) =
      packet_id_add-Added now p l pin w (test-Accepted p l pin w fresh) word clock in
    ((p', l', a.window), added, (a.filled, a.here), λ q b. (a.filled, a.kept q b.0 b.1))

pub backtrack : Guard
backtrack = record {
  State = Windowed;
  at = λ s. s.0;
  Blocks = BlockedBy;
  refused = λ s q b. Blocked-refused s.0 s.1 q s.2 b.1;
  answers = λ s q. test-answers s.0 s.1 q s.2;
  sweeps = sweeps;
  adds = adds;
}

-- `packet_id_init` sets up an empty window, for a size above 0 within the bounds it asserts.
pub init-IsWindow :
    (seq_backtrack time_backtrack : ℕ)
    → 0 < seq_backtrack
    → seq_backtrack ≤ 65536
    → time_backtrack ≤ 600
    → (p : PacketIdRec) × (l : CircList ℕ) × (packet_id_init seq_backtrack time_backtrack ≡ some p)
      × IsWindow p l
      × (p.time ≡ 0)
      × (p.id ≡ 0)
      × (l.x_size ≡ 0)
      × (p.seq_backtrack ≡ seq_backtrack)
unfolding packet_id_init circ_list_alloc
init-IsWindow sb tb pos le le' = (
  start,
  circ_list_alloc seq_unseen sb,
  rw (mode, seq_ok, time_ok) refl,
  window,
  refl,
  refl,
  refl,
  refl,
)
  where
    mode : (sb == 0) ≡ false
    mode = ground arith

    seq_ok : leb sb 65536 ≡ true
    seq_ok = ground arith

    time_ok : leb tb 600 ≡ true
    time_ok = ground arith

    start : PacketIdRec
    start = record {
      last_reap = 0;
      time = 0;
      id = 0;
      seq_backtrack = sb;
      time_backtrack = tb;
      initialized = true;
      seq_list = some (circ_list_alloc seq_unseen sb);
    }

    window : IsWindow start (circ_list_alloc seq_unseen sb)
    window = record {
      ready = refl;
      list = refl;
      well = circ_list_alloc-IsWell seq_unseen sb pos;
      cap = refl;
      behind = omega arith;
      word = omega arith;
    }

-- A receiver set up with a window of at least one number and the bounds that `packet_id_init`
-- asserts, on packets of 32-bit numbers that arrive, in any order and with any times, after the
-- first second of the epoch: the run ends without a failed assertion or an index out of bounds, and
-- no packet (number and time) is accepted twice.
pub receive_all-IsDistinct :
    (seq_backtrack time_backtrack : ℕ) (packets : List (ℕ × PacketIdNet))
    → 0 < seq_backtrack
    → seq_backtrack ≤ 65536
    → time_backtrack ≤ 600
    → AreWire packets
    → (p' : PacketIdRec) × (acc : List PacketIdNet) × ((packet_id_init seq_backtrack time_backtrack
          >>= receive_all packets)
        ≡ some (p', acc))
      × IsDistinct acc
unfolding backtrack
receive_all-IsDistinct sb tb packets pos le le' h =
    let (p, l, made, w, _, _, _, _) = init-IsWindow sb tb pos le le' in
    let (p', acc, runs, c) = receive_all-Clean backtrack packets (p, l, w) h in
    (p', acc, rw made runs, c.distinct)
