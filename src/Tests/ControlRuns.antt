-- ===== src/Tests/ControlRuns.antt =====
-- Runs of OpenVPN's control channel.
use seguridad_en_redes.Base.{
  ℕ, ◌≤◌, ◌<◌, ◌≡◌, refl, true, false, ◌||◌, ◌==◌, List, [], ◌∷◌, ◌++◌, some, length, set, Bytes,
  codes, arith,
}
use seguridad_en_redes.Openvpn.Buffer.{Buffer, htonl, buf_init, capacity}
use seguridad_en_redes.Openvpn.Reliable.Entries.{
  ReliableEntry, Reliable, reliable_init, is_active, free_place, next_place, put_buf, get_buf_at,
  reliable_get_buf,
}
use seguridad_en_redes.Openvpn.Reliable.Entries.Laws.{AreUnique}
use seguridad_en_redes.Openvpn.Reliable.Receiver.{
  Written, Call, wrote, done, control_packet, deliver,
}
use seguridad_en_redes.Openvpn.Reliable.{reliable_pid_in_range1}
use seguridad_en_redes.Openvpn.Reliable.Receiver.Window.{pending}
use seguridad_en_redes.Openvpn.Reliable.Receiver.Inbox.{Inbox, accept, Implements, turn_calls}
use seguridad_en_redes.Openvpn.Reliable.Receiver.Arrival.{acknowledged, control_packet-Implements}
use seguridad_en_redes.Openvpn.Reliable.Entries.{reliable_can_get}
use seguridad_en_redes.Openvpn.Reliable.Receiver.Stream.{
  Input, packet, turn, receive_inputs, sent_from, non_empty, taken,
}
use seguridad_en_redes.Openvpn.Reliable.Receiver.Started.{receive_inputs-sent}
use seguridad_en_redes.Openvpn.Reliable.Receiver.Progress.{packet_in_turn-done}
use seguridad_en_redes.Openvpn.Reliable.Sender.{
  reliable_unique_retry, is_retry, reliable_get_buf_output_sequenced, reliable_mark_active_outgoing,
  min_id, precedes,
}
use seguridad_en_redes.Openvpn.Reliable.Sender.Retry.{reliable_unique_retry_lem}
use seguridad_en_redes.Openvpn.Reliable.Sender.Best.{SendsFirst, reliable_send_lem}
use seguridad_en_redes.Openvpn.Reliable.Sender.Window.{AreOutstanding}
use seguridad_en_redes.Openvpn.Reliable.Sender.Outgoing.{mark_active_outgoing-AreOutstanding}

-- A TLS object that takes what it is given.
abbrev takes_all : Bytes → Written
takes_all c = wrote (length c)

-- A sender whose packet with id `n` says "hello".
abbrev hello : ℕ → Bytes
hello n = codes "hello"

-- The packets 1, 0 and 1 again, and two turns.
abbrev inputs : List Input
inputs =
    packet 1 4 (codes "hello")
    ∷ turn takes_all
    ∷ packet 0 4 (codes "hello")
    ∷ packet 1 4 (codes "hello")
    ∷ turn takes_all
    ∷ turn takes_all
    ∷ []

receive_inputs-sent_example :
    (rel : Reliable) × (rel' : Reliable) × (ack' : List ℕ) × (calls : List Call) × (reliable_init
        100 10 4 false
      ≡ some rel)
    × (receive_inputs rel [] inputs ≡ some (rel', ack', calls))
    × (taken calls ≡ non_empty (sent_from hello 0 rel'.packet_id))
receive_inputs-sent_example =
    receive_inputs-sent hello 100 10 4 90 false inputs (omega arith) (omega arith) (omega arith)
      (omega arith) (omega arith)
      (
        (omega arith, refl, refl, omega arith),
        (
          tt,
          (
            (omega arith, refl, refl, omega arith),
            ((omega arith, refl, refl, omega arith), (tt, (tt, tt))),
          ),
        ),
      )

-- A receiver of two entries that expects 5 and holds 6.
abbrev held_buf : Buffer
held_buf = record { offset = 0; content = codes "six"; room = 61 }

abbrev free_buf : Buffer
free_buf = record { offset = 0; content = []; room = 64 }

abbrev holding : ReliableEntry
holding = record {
  active = true;
  timeout = 0;
  next_try = 0;
  packet_id = 6;
  opcode = 4;
  buf = held_buf;
}

abbrev unused : ReliableEntry
unused = record {
  active = false;
  timeout = 0;
  next_try = 0;
  packet_id = 4;
  opcode = 4;
  buf = free_buf;
}

abbrev one_ahead : Reliable
one_ahead = record {
  initial_timeout = 2;
  packet_id = 5;
  offset = 0;
  hold = false;
  array = holding ∷ unused ∷ [];
}

abbrev one_held : Inbox
one_held = record { next = 5; size = 2; held = pending one_ahead.array }

one_ahead-Implements : Implements 64 64 one_ahead one_held
unfolding is_active capacity
one_ahead-Implements = record {
  next = refl;
  size = refl;
  held = λ q. refl;
  unique = (refl, (refl, tt));
  window = ((λ on. (omega arith, omega arith)), ((λ on. absurd (cc on)), tt));
  capacity = (refl, (refl, tt));
  room = omega arith;
}

control_packet-Implements_example :
    (rel' : Reliable) × (ack' : List ℕ) × (control_packet one_ahead []
        (record { offset = 9; content = htonl 5 ++ codes "five"; room = 0 })
        4
      ≡ some (rel', ack'))
    × Implements 64 64 rel' (accept one_held 5 (codes "five"))
    × (ack' ≡ acknowledged one_held (reliable_can_get one_ahead.array) [] 5)
control_packet-Implements_example =
    control_packet-Implements 64 64 one_ahead one_held [] 5 4 9 0 (codes "five")
      one_ahead-Implements (omega arith) (omega arith) refl (omega arith) (omega arith)

packet_in_turn-done_example :
    (rel₁ : Reliable) × (ack₁ : List ℕ) × (rel₂ : Reliable) × (c : Bytes) × (control_packet
        one_ahead []
        (record { offset = 9; content = htonl 5 ++ codes "five"; room = 0 })
        4
      ≡ some (rel₁, ack₁))
    × (pending rel₁.array 5 ≡ some c)
    × (deliver takes_all rel₁ ≡ some (some done, rel₂, turn_calls takes_all (some c)))
    × (rel₂.packet_id ≡ 6)
packet_in_turn-done_example =
    packet_in_turn-done 64 64 one_ahead one_held [] 4 9 0 (codes "five") takes_all
      one_ahead-Implements (omega arith) (omega arith) refl (omega arith) (omega arith) λ c. refl

-- A sender of two entries whose next id is 4, with 3 not yet acknowledged and due at 10.
abbrev outstanding : ReliableEntry
outstanding = record {
  active = true;
  timeout = 2;
  next_try = 10;
  packet_id = 3;
  opcode = 4;
  buf = held_buf;
}

abbrev sender : Reliable
sender = record {
  initial_timeout = 2;
  packet_id = 4;
  offset = 8;
  hold = false;
  array = outstanding ∷ unused ∷ [];
}

sender-AreOutstanding : AreOutstanding 4 2 sender.array
sender-AreOutstanding = ((λ on. (omega arith, omega arith)), ((λ on. absurd (cc on)), tt))

sender-AreUnique : AreUnique sender.array
unfolding is_active
sender-AreUnique = (refl, (refl, tt))

reliable_unique_retry_lem_example :
    (t : ℕ) × (reliable_unique_retry sender.array 10 ≡ some t)
    × (10 ≤ t)
    × (is_retry sender.array t ≡ false)
    × ((u : ℕ) → 10 ≤ u → u < t → is_retry sender.array u ≡ true)
reliable_unique_retry_lem_example = reliable_unique_retry_lem sender.array 10

reliable_send_lem_example : SendsFirst 12 sender
reliable_send_lem_example =
    reliable_send_lem 12 2 sender sender-AreOutstanding (omega arith, (omega arith, tt))
      (omega arith)

-- The sender after `reliable_get_buf_output_sequenced` has emptied the buffer of its second entry.
abbrev emptied_buf : Buffer
emptied_buf = record { offset = 8; content = []; room = 56 }

abbrev given : Reliable
given = record sender { array = outstanding ∷ record unused { buf = emptied_buf } ∷ [] }

abbrev filled_buf : Buffer
filled_buf = record { offset = 8; content = codes "four"; room = 52 }

sender-gives : reliable_get_buf_output_sequenced sender ≡ some (some 1, given)
unfolding reliable_get_buf_output_sequenced min_id precedes reliable_pid_in_range1 reliable_get_buf
    free_place next_place get_buf_at put_buf buf_init capacity
sender-gives = refl

mark_active_outgoing-AreOutstanding_example :
    (rel₂ : Reliable) × (e : ReliableEntry) × (reliable_mark_active_outgoing
        (record given { array = put_buf given.array 1 filled_buf })
        1
        4
      ≡ some rel₂)
    × (rel₂.packet_id ≡ 5)
    × (e.buf.content ≡ htonl 4 ++ codes "four")
    × (rel₂.array ≡ set sender.array 1 e)
    × ((q : ℕ) → is_active rel₂.array q ≡ ((4 == q) || is_active sender.array q))
    × AreUnique rel₂.array
    × AreOutstanding rel₂.packet_id (length rel₂.array) rel₂.array
mark_active_outgoing-AreOutstanding_example =
    mark_active_outgoing-AreOutstanding sender given 1 4 filled_buf sender-AreUnique
      sender-AreOutstanding (omega arith) sender-gives (omega arith)
