-- ===== src/Openvpn/Reliable/Receiver/Inbox.antt =====
-- What a receiver of the control channel (vpn/openvpn-2.2.1/reliable.c, ssl.c) promises: an inbox
-- that holds at most one packet for each id of a window, and gives them out in the order of ids. It
-- has no buffers that could run out.
use seguridad_en_redes.Base.{
  ℕ, suc, ◌+◌, ◌≤◌, ◌≡◌, Bool, ◌&&◌, not, List, [], ◌∷◌, Option, none, some, length, ltb, leb, ◌==◌,
  if◌then◌else◌, Bytes,
}
use seguridad_en_redes.Openvpn.Reliable.Entries.{Reliable}
use seguridad_en_redes.Openvpn.Reliable.Entries.Laws.{AreUnique}
use seguridad_en_redes.Openvpn.Reliable.Receiver.{Written, Status, done, Call, write_status}
use seguridad_en_redes.Openvpn.Reliable.Receiver.Window.{pending, is_some, AreInWindow}
use seguridad_en_redes.Openvpn.Reliable.Receiver.Stored.{HaveCapacity}

-- The id in turn, the number of ids that are taken in, and the packets held.
pub record Inbox : Type 0 where
  pub next : ℕ
  pub size : ℕ
  pub held : ℕ → Option Bytes

-- A packet is taken in if its id is in the window and it is not held.
abbrev pub accepts : Inbox → ℕ → Bool
accepts inbox id =
    (leb inbox.next id && ltb id (inbox.next + inbox.size)) && not (is_some (inbox.held id))

abbrev pub accept : Inbox → ℕ → Bytes → Inbox
accept inbox id content =
    if accepts inbox id
    then record inbox { held = λ q. if id == q then some content else inbox.held q }
    else inbox

-- The inbox without the packet in turn.
abbrev pub turned : Inbox → Inbox
turned inbox = record inbox {
  next = suc inbox.next;
  held = λ q. if inbox.next == q then none else inbox.held q;
}

-- A receiver implements an inbox if it holds its packets, no id is active twice or outside the
-- window, and every buffer has the capacity `volume`, enough for a packet of `max` bytes.
pub record Implements (volume max : ℕ) (rel : Reliable) (inbox : Inbox) : Type 0 where
  pub next : rel.packet_id ≡ inbox.next
  pub size : length rel.array ≡ inbox.size
  pub held : (q : ℕ) → pending rel.array q ≡ inbox.held q
  pub unique : AreUnique rel.array
  pub window : AreInWindow rel.packet_id (length rel.array) rel.array
  pub capacity : HaveCapacity volume rel.array
  pub room : rel.offset + max ≤ volume

-- The packet in turn is written to the TLS object, if it is there.
abbrev pub turn_status : (Bytes → Written) → Option Bytes → Option Status
turn_status bio none = none
turn_status bio (some []) = some done
turn_status bio (some (b ∷ content)) =
    some (write_status (bio (b ∷ content)) (length (b ∷ content)))

-- The one call of `BIO_write` is given the whole packet in turn, if it is there and not empty.
abbrev pub turn_calls : (Bytes → Written) → Option Bytes → List Call
turn_calls bio none = []
turn_calls bio (some []) = []
turn_calls bio (some (b ∷ content)) = (b ∷ content, bio (b ∷ content)) ∷ []

-- The inbox after a turn of that status.
abbrev pub after_turn : Inbox → Option Status → Inbox
after_turn inbox none = inbox
after_turn inbox (some done) = turned inbox
after_turn inbox (some _) = inbox
