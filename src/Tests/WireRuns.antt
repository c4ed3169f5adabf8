-- ===== src/Tests/WireRuns.antt =====
-- Runs of OpenVPN's records in packets, and of its acknowledgments.
use seguridad_en_redes.Base.{
  false, ◌+◌, ◌%◌, ◌^◌, ◌≡◌, refl, true, not, ◌&&◌, [], ◌∷◌, some, Bytes, codes, arith,
}
use seguridad_en_redes.Openvpn.Buffer.{Buffer, session_id_defined}
use seguridad_en_redes.Openvpn.PacketId.Wire.{
  packet_id_size, packet_id_read, packet_id_write, packet_id_read-write,
}
use seguridad_en_redes.Openvpn.Reliable.{
  reliable_ack_packet_id_present, reliable_ack_read, reliable_ack_write,
}
use seguridad_en_redes.Openvpn.Reliable.Acks.{HasNoRepeats}
use seguridad_en_redes.Openvpn.Reliable.Entries.{
  ReliableEntry, Reliable, is_active, reliable_send_purge,
}
use seguridad_en_redes.Openvpn.Reliable.Entries.Laws.{AreUnique, reliable_send_purge-is_active}
use seguridad_en_redes.Openvpn.Reliable.Wire.{reliable_ack_read-write}

abbrev payload : Buffer
payload = record { offset = 64; content = codes "data"; room = 10 }

abbrev sid : Bytes
sid = codes "session1"

sid-defined : session_id_defined sid ≡ true
unfolding session_id_defined seguridad_en_redes.Openvpn.Buffer.same_bytes
sid-defined = refl

packet_id_read-write_example :
    (buf' : Buffer) × (packet_id_write (record { id = 5; time = 2 ^ 32 + 7 }) payload true true
      ≡ (true, buf'))
    × (buf'.offset + packet_id_size true ≡ 64)
    × (packet_id_read buf' true ≡ (true, record { id = 5; time = (2 ^ 32 + 7) % 2 ^ 32 }, payload))
packet_id_read-write_example =
    packet_id_read-write (record { id = 5; time = 2 ^ 32 + 7 }) payload true (omega arith)
      (omega arith)

-- Two of three ids are written.
reliable_ack_read-write_example :
    (buf' : Buffer) × (reliable_ack_write (7 ∷ 9 ∷ 8 ∷ []) payload sid 2 true
      ≡ some (true, 8 ∷ [], buf'))
    × (reliable_ack_read [] buf' sid ≡ (true, 7 ∷ 9 ∷ [], payload))
reliable_ack_read-write_example =
    reliable_ack_read-write (7 ∷ 9 ∷ 8 ∷ []) payload sid 2
      (omega arith, (omega arith, (omega arith, tt))) (omega arith) refl sid-defined (omega arith)

two_ids-HasNoRepeats : HasNoRepeats (7 ∷ 9 ∷ [])
unfolding reliable_ack_packet_id_present
two_ids-HasNoRepeats = (refl, (refl, tt))

-- A receiver that expects 5 and holds 6, of two.
abbrev space : Buffer
space = record { offset = 0; content = []; room = 64 }

abbrev waiting : ReliableEntry
waiting = record {
  active = true;
  timeout = 0;
  next_try = 0;
  packet_id = 6;
  opcode = 4;
  buf = space;
}

abbrev idle : ReliableEntry
idle = record { active = false; timeout = 0; next_try = 0; packet_id = 3; opcode = 4; buf = space }

abbrev receiver : Reliable
receiver = record {
  initial_timeout = 2;
  packet_id = 5;
  offset = 0;
  hold = false;
  array = waiting ∷ idle ∷ [];
}

receiver-AreUnique : AreUnique receiver.array
unfolding is_active
receiver-AreUnique = (refl, (refl, tt))

reliable_send_purge-is_active_example :
    (is_active (reliable_send_purge (6 ∷ 9 ∷ []) receiver.array) 6
      ≡ (is_active receiver.array 6 && not (reliable_ack_packet_id_present (6 ∷ 9 ∷ []) 6)))
    × AreUnique (reliable_send_purge (6 ∷ 9 ∷ []) receiver.array)
reliable_send_purge-is_active_example =
    reliable_send_purge-is_active (6 ∷ 9 ∷ []) receiver.array 6 receiver-AreUnique
