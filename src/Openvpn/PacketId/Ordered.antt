-- ===== src/Openvpn/PacketId/Ordered.antt =====
-- Packets that arrive in order are all accepted by the check of `openvpn_decrypt`.
use seguridad_en_redes.Base.{ℕ, ◌≤◌, ◌<◌, ◌≡◌, ◌⊎◌, refl, List, [], ◌∷◌, some, arith}
use seguridad_en_redes.Openvpn.Checked.{◌>>=◌}
use seguridad_en_redes.Openvpn.CircList.{CircList}
use seguridad_en_redes.Openvpn.PacketId.{PacketIdNet, PacketIdRec, packet_id_init}
use seguridad_en_redes.Openvpn.PacketId.Test.{IsWindow, newer-accepted, test-Accepted}
use seguridad_en_redes.Openvpn.PacketId.Add.{packet_id_add-Added}
use seguridad_en_redes.Openvpn.PacketId.Reap.{packet_id_reap_test-Reaped}
use seguridad_en_redes.Openvpn.PacketId.Receive.{receive, receive_all, AreWire}
use seguridad_en_redes.Openvpn.PacketId.Backtrack.{init-IsWindow}

-- `q` has a number, and comes after time `time` and number `id`.
abbrev pub IsAfter : ℕ → ℕ → PacketIdNet → Type 0
IsAfter time id q = (0 < q.id) × ((time < q.time) ⊎ (time ≡ q.time) × (id < q.id))

abbrev pub AreOrdered : ℕ → ℕ → List (ℕ × PacketIdNet) → Type 0
AreOrdered time id [] = Unit
AreOrdered time id ((now, q) ∷ packets) = IsAfter time id q × AreOrdered q.time q.id packets

abbrev pub packets_of : List (ℕ × PacketIdNet) → List PacketIdNet
packets_of [] = []
packets_of ((now, q) ∷ packets) = q ∷ packets_of packets

run-ordered :
    (packets : List (ℕ × PacketIdNet)) (p : PacketIdRec) (l : CircList ℕ) (time id : ℕ)
    → IsWindow p l
    → p.time ≡ time
    → p.id ≡ id
    → AreWire packets
    → AreOrdered time id packets
    → (p' : PacketIdRec) × (receive_all packets p ≡ some (p', packets_of packets))
unfolding receive receive_all
run-ordered [] p l time id w et ei h o = (p, refl)
run-ordered ((now, pin) ∷ packets) p l time id w et ei (clock, word, h) (after, o) =
    let (s, m, swept, r) = packet_id_reap_test-Reaped now p l w in
    let fresh = newer-accepted s m pin r.window after.0 (newer s r.at_time r.at_id) in
    let (p', l', added, a) =
      packet_id_add-Added now s m pin r.window (test-Accepted s m pin r.window fresh) word clock in
    let (p'', runs) =
      run-ordered packets p' l' pin.time pin.id a.window a.at_time
        (a.at_id (not_behind s (newer s r.at_time r.at_id))) h o in
    (p'', rw (swept, fresh, added, runs) refl)
  where
    newer :
        (s : PacketIdRec)
        → s.time ≡ p.time
        → s.id ≡ p.id
        → (s.time < pin.time) ⊎ (s.time ≡ pin.time) × (s.id < pin.id)
    newer s e e' = ground (arith, after.1)

    not_behind :
        (s : PacketIdRec)
        → (s.time < pin.time) ⊎ (s.time ≡ pin.time) × (s.id < pin.id)
        → (s.time < pin.time) ⊎ (s.id ≤ pin.id)
    not_behind s n = ground arith

-- On packets with 32-bit numbers above 0 whose times and numbers increase, a receiver set up with a
-- window and the bounds that `packet_id_init` asserts accepts all of them, in their order.
pub receive_all-ordered :
    (seq_backtrack time_backtrack : ℕ) (packets : List (ℕ × PacketIdNet))
    → 0 < seq_backtrack
    → seq_backtrack ≤ 65536
    → time_backtrack ≤ 600
    → AreWire packets
    → AreOrdered 0 0 packets
    → (p' : PacketIdRec) × ((packet_id_init seq_backtrack time_backtrack >>= receive_all packets)
        ≡ some (p', packets_of packets))
receive_all-ordered sb tb packets pos le le' h o =
    let (p, l, made, w, et, ei, _, _) = init-IsWindow sb tb pos le le' in
    let (p', runs) = run-ordered packets p l 0 0 w et ei h o in (p', rw made runs)
