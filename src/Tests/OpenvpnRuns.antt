-- ===== src/Tests/OpenvpnRuns.antt =====
-- Runs of the parts of OpenVPN.
use seguridad_en_redes.Base.{
  ℕ, ◌^◌, ◌<◌, ◌≡◌, ◌⊎◌, refl, inl, inr, true, false, List, [], ◌∷◌, some, none, codes, arith,
}
use seguridad_en_redes.Openvpn.Checked.{◌>>=◌}
use seguridad_en_redes.Openvpn.CircList.{CircList, circ_list_push}
use seguridad_en_redes.Openvpn.CircList.Laws.{IsWell, Pushed, circ_list_push-Pushed}
use seguridad_en_redes.Openvpn.PacketId.{
  PacketIdNet, PacketIdRec, packet_id_init, packet_id_test, packet_id_add, with_window,
}
use seguridad_en_redes.Openvpn.PacketId.Receive.{receive_all, IsDistinct, AreWire}
use seguridad_en_redes.Openvpn.PacketId.Backtrack.{receive_all-IsDistinct}
use seguridad_en_redes.Openvpn.PacketId.Sequence.{receive_all-IsDistinct_sequence}
use seguridad_en_redes.Openvpn.PacketId.Ordered.{packets_of, receive_all-ordered}
use seguridad_en_redes.Openvpn.PacketId.Send.{
  PacketIdSend, packet_id_alloc_outgoing, alloc_all, alloc_outgoing-after,
}
use seguridad_en_redes.Openvpn.PacketId.Exchange.{arrive, carry_all, alloc_all-accepted}
use seguridad_en_redes.Openvpn.Buffer.{Buffer}
use seguridad_en_redes.Base.{codes, length}
use seguridad_en_redes.Openvpn.PacketId.Persist.{
  PacketIdPersist, PacketIdPersistFileImage, packet_id_persist_init, packet_id_persist_load,
  packet_id_persist_save, packet_id_persist_load_obj, packet_id_persist_save_obj,
}
use seguridad_en_redes.Openvpn.PacketId.Persist.Laws.{persist_load-save, restart-replay}

abbrev net : ℕ → PacketIdNet
net n = record { id = n; time = 7 }

-- Packets out of order, one of them twice.
abbrev shuffled : List (ℕ × PacketIdNet)
shuffled = (100, net 2) ∷ (100, net 1) ∷ (101, net 2) ∷ (109, net 3) ∷ []

abbrev in_order : List (ℕ × PacketIdNet)
in_order = (100, net 1) ∷ (100, net 2) ∷ (109, net 5) ∷ []

shuffled-AreWire : AreWire shuffled
shuffled-AreWire = (
  omega arith,
  omega arith,
  (omega arith, omega arith, (omega arith, omega arith, (omega arith, omega arith, tt))),
)

in_order-AreWire : AreWire in_order
in_order-AreWire =
    (omega arith, omega arith, (omega arith, omega arith, (omega arith, omega arith, tt)))

abbrev ring : CircList ℕ
ring = record { x_head = 0; x_size = 2; x_cap = 3; x_list = 5 ∷ 6 ∷ 7 ∷ [] }

ring-IsWell : IsWell ring
ring-IsWell = record { head-lt = omega arith; length-list = refl; size-le = omega arith }

circ_list_push-Pushed_example :
    (l' : CircList ℕ) × (circ_list_push ring 9 ≡ some l') × Pushed ring 9 l'
circ_list_push-Pushed_example = circ_list_push-Pushed ring 9 ring-IsWell

receive_all-IsDistinct_example :
    (p' : PacketIdRec) × (acc : List PacketIdNet) × ((packet_id_init 4 15 >>= receive_all shuffled)
      ≡ some (p', acc))
    × IsDistinct acc
receive_all-IsDistinct_example =
    receive_all-IsDistinct 4 15 shuffled (omega arith) (omega arith) (omega arith) shuffled-AreWire

receive_all-IsDistinct_sequence_example :
    (p' : PacketIdRec) × (acc : List PacketIdNet) × ((packet_id_init 0 15 >>= receive_all in_order)
      ≡ some (p', acc))
    × IsDistinct acc
receive_all-IsDistinct_sequence_example =
    receive_all-IsDistinct_sequence 15 in_order in_order-AreWire

receive_all-ordered_example :
    (p' : PacketIdRec) × ((packet_id_init 4 15 >>= receive_all in_order)
      ≡ some (p', packets_of in_order))
receive_all-ordered_example =
    receive_all-ordered 4 15 in_order (omega arith) (omega arith) (omega arith) in_order-AreWire (
      (omega arith, inl (omega arith)),
      ((omega arith, inr (refl, omega arith)), ((omega arith, inr (refl, omega arith)), tt)),
    )

alloc_outgoing-after_example :
    (p' : PacketIdSend) × (pin : PacketIdNet) × (packet_id_alloc_outgoing 9
        (record { id = 0xffffffff; time = 7 })
        true
      ≡ some (p', pin))
    × (p'.id ≡ pin.id)
    × (p'.time ≡ pin.time)
    × (0 < pin.id)
    × (pin.id < 2 ^ 32)
    × ((7 < pin.time) ⊎ (7 ≡ pin.time) × (0xffffffff < pin.id))
alloc_outgoing-after_example =
    alloc_outgoing-after 9 (record { id = 0xffffffff; time = 7 })
      (record { word = omega arith; dated = inr (omega arith) }) (omega arith) (inr (omega arith))

-- A payload with 8 bytes free in front.
abbrev payload_behind : Buffer
payload_behind = record { offset = 8; content = codes "data"; room = 0 }

alloc_all-accepted_example :
    (p : PacketIdSend) × (q : PacketIdRec) × (pins : List PacketIdNet) × (alloc_all false
        (7 ∷ 8 ∷ [])
        (record { id = 0; time = 0 })
      ≡ some (p, pins))
    × (length pins ≡ 2)
    × ((packet_id_init 4 15
          >>= receive_all (arrive (9 ∷ 9 ∷ []) (carry_all payload_behind false pins)))
        ≡ some (q, carry_all payload_behind false pins))
alloc_all-accepted_example =
    alloc_all-accepted payload_behind false 4 15 (7 ∷ 8 ∷ []) (9 ∷ 9 ∷ []) (omega arith)
      (omega arith) (omega arith) (omega arith) (omega arith, (omega arith, tt))
      (omega arith, (omega arith, tt)) refl (omega arith)

-- A receiver at number 41, and a persistence object at number 40.
abbrev receiver : PacketIdRec
receiver = record {
  last_reap = 0;
  time = 7;
  id = 41;
  seq_backtrack = 0;
  time_backtrack = 0;
  initialized = true;
  seq_list = none;
}

abbrev persist : PacketIdPersist
persist = record {
  filename = some (codes "ids");
  fd = some 3;
  time = 7;
  id = 40;
  time_last_written = 7;
  id_last_written = 40;
}

persist_load-save_example :
    (image : PacketIdPersistFileImage) × (restored : PacketIdPersist) × ((packet_id_persist_save
        true
        (packet_id_persist_save_obj persist receiver)).1
      ≡ some image)
    × (packet_id_persist_load
          (record { opened = some 4; locked = true; image = some image })
          packet_id_persist_init
          (codes "ids")
        ≡ some restored)
    × (packet_id_persist_load_obj restored receiver ≡ with_window receiver 7 41 receiver.seq_list)
persist_load-save_example =
    persist_load-save persist 3 4 receiver receiver (codes "ids") refl (omega arith)
      (inr (λ e. omega arith))

restart-replay_example :
    (start : PacketIdRec) × (after : PacketIdRec) × (packet_id_init 4 15 ≡ some start)
    × (packet_id_test (packet_id_persist_load_obj persist start) (net 40) ≡ some false)
    × (packet_id_test (packet_id_persist_load_obj persist start) (net 41) ≡ some true)
    × (packet_id_add 100 (packet_id_persist_load_obj persist start) (net 41) ≡ some after)
    × (packet_id_test after (net 40) ≡ some true)
restart-replay_example =
    restart-replay 100 4 15 persist 3 (omega arith) (omega arith) (omega arith) (omega arith) refl
      (omega arith) (omega arith) (omega arith)
