-- ===== src/Openvpn/Reliable/Receiver/Arrival.antt =====
-- A control packet that comes in (vpn/openvpn-2.2.1/ssl.c).
use seguridad_en_redes.Base.{
  ℕ, ◌+◌, ◌≤◌, ◌<◌, ◌≡◌, ◌^◌, refl, sym, ap, ◌∙◌, Bool, true, false, not, ◌&&◌, inl, inr, List, [],
  ◌∷◌, ◌++◌, Option, none, some, set, length, ltb, leb, ◌==◌, if◌then◌else◌, Bytes, Bool-cases,
  length-set, arith,
}
use mathlib.Core.Path.{subst}
use seguridad_en_redes.Openvpn.Buffer.{Buffer, capacity, buf_size_max, htonl}
use seguridad_en_redes.Openvpn.Buffer.Laws.{ntohl-htonl, length-htonl, buf_read-append}
use seguridad_en_redes.Openvpn.Reliable.{
  reliable_pid_min, reliable_ack_read_packet_id, reliable_ack_acknowledge_packet_id,
  reliable_ack_packet_id_present, reliable_pid_in_range2,
}
use seguridad_en_redes.Openvpn.Reliable.Entries.{
  ReliableEntry, Reliable, is_active, free_place, reliable_can_get, reliable_not_replay,
  reliable_wont_break_sequentiality,
}
use seguridad_en_redes.Openvpn.Reliable.Entries.Laws.{
  set-AreUnique, free_place-set, free_place-can_get,
}
use seguridad_en_redes.Openvpn.Reliable.Receiver.{
  save_packet, save_new, save_and_acknowledge, take_packet, control_packet, p_ack_v1,
}
use seguridad_en_redes.Openvpn.Reliable.Receiver.Window.{
  pending, is_some, pending-is_active, AreInWindow, full-is_active,
}
use seguridad_en_redes.Openvpn.Reliable.Receiver.Stored.{
  get_elem?-HaveCapacity, set-HaveCapacity, set-AreInWindow, pending-set_free,
}
use seguridad_en_redes.Openvpn.Reliable.Receiver.Save.{saved_entry, in_window_lem, save_packet_lem}
use seguridad_en_redes.Openvpn.Reliable.Receiver.Inbox.{Inbox, accepts, accept, Implements}

-- The inbox takes a packet in exactly if the receiver's two tests pass.
accepts-tests :
    (volume max : ℕ) (rel : Reliable) (inbox : Inbox) (id : ℕ)
    → Implements volume max rel inbox
    → rel.packet_id + length rel.array ≤ 2 ^ 31
    → id < 2 ^ 32
    → accepts inbox id ≡ (reliable_wont_break_sequentiality rel id && reliable_not_replay rel id)
unfolding reliable_not_replay
accepts-tests volume max rel inbox id m near wide =
    rw (sym m.next, sym m.size, sym (m.held id), pending-is_active rel.array id)
      (ground (arith, in_window_lem rel id near wide))

-- The array with the packet at the free place.
saved-Implements :
    (volume max : ℕ) (rel : Reliable) (inbox : Inbox) (packet : Buffer) (id op i : ℕ)
    → Implements volume max rel inbox
    → free_place rel.array ≡ some i
    → is_active rel.array id ≡ false
    → (leb rel.packet_id id && ltb id (rel.packet_id + length rel.array)) ≡ true
    → length packet.content ≤ max
    → Implements volume max
        (record rel { array = set rel.array i (saved_entry volume rel.offset packet id op) })
        (record inbox { held = λ q. if id == q then some packet.content else inbox.held q })
unfolding saved_entry capacity
saved-Implements volume max rel inbox packet id op i m free new inside small = record {
  next = m.next;
  size = length-set rel.array i entry ∙ m.size;
  held = λ q.
      pending-set_free rel.array i entry q free refl
        (absent (pending rel.array id) (pending-is_active rel.array id ∙ new))
      ∙ ap (λ o. if id == q then some packet.content else o) (m.held q);
  unique = set-AreUnique rel.array i entry free new m.unique;
  window =
      subst (λ n. AreInWindow rel.packet_id n (set rel.array i entry))
        (sym (length-set rel.array i entry))
        (set-AreInWindow rel.packet_id (length rel.array) rel.array i entry m.window
          λ on. ground (arith, inside));
  capacity = set-HaveCapacity volume rel.array i entry m.capacity filled;
  room = m.room;
}
  where
    entry : ReliableEntry
    entry = saved_entry volume rel.offset packet id op

    absent : (o : Option Bytes) → is_some o ≡ false → o ≡ none
    absent none h = refl
    absent (some c) h = absurd (cc h)

    filled : capacity entry.buf ≡ volume
    filled = omega (arith, m.room)

-- A packet that is not a replay is saved.
save_packet-Implements :
    (volume max : ℕ) (rel : Reliable) (inbox : Inbox) (packet : Buffer) (id op i : ℕ)
    → Implements volume max rel inbox
    → free_place rel.array ≡ some i
    → is_active rel.array id ≡ false
    → reliable_pid_min id rel.packet_id ≡ false
    → (leb rel.packet_id id && ltb id (rel.packet_id + length rel.array)) ≡ true
    → length packet.content ≤ max
    → max < buf_size_max
    → (rel' : Reliable) × (save_packet rel packet id op ≡ some rel')
      × Implements volume max rel'
          (record inbox { held = λ q. if id == q then some packet.content else inbox.held q })
save_packet-Implements volume max rel inbox packet id op i m free new later inside small fits =
    let entry = saved_entry volume rel.offset packet id op in
    let (e, at, _, _) = free_place-set rel.array i entry free in
    let size = get_elem?-HaveCapacity volume rel.array i e m.capacity at in
    let large : rel.offset + length packet.content ≤ capacity e.buf = omega (arith, m.room, size) in
    (
      record rel { array = set rel.array i entry },
      save_packet_lem rel packet id op i e free at large (omega arith) later
          ∙ ap
              (λ c.
                some
                  (record rel { array = set rel.array i (saved_entry c rel.offset packet id op) }))
              size,
      saved-Implements volume max rel inbox packet id op i m free new inside small,
    )

-- The acknowledgments after an id has come in, while there is a free buffer or not: it is added if it
-- is below the end of the window, not there yet, and there is room for it.
abbrev pub acknowledged : Inbox → Bool → List ℕ → ℕ → List ℕ
acknowledged inbox can_get ack id =
    if can_get
      && (ltb id (inbox.next + inbox.size)
          && (not (reliable_ack_packet_id_present ack id) && ltb (length ack) 8))
    then ack ++ (id ∷ [])
    else ack

sequence_lem :
    (rel : Reliable) (id : ℕ)
    → rel.packet_id + length rel.array ≤ 2 ^ 31
    → id < 2 ^ 32
    → reliable_wont_break_sequentiality rel id ≡ ltb id (rel.packet_id + length rel.array)
unfolding reliable_wont_break_sequentiality reliable_pid_in_range2
sequence_lem rel id near wide = ground arith

acknowledged-in :
    (inbox : Inbox) (ack : List ℕ) (id : ℕ)
    → ltb id (inbox.next + inbox.size) ≡ true
    → (reliable_ack_acknowledge_packet_id ack id).1 ≡ acknowledged inbox true ack id
unfolding reliable_ack_acknowledge_packet_id
acknowledged-in inbox ack id inside =
    rw inside
      elim (Bool-cases (not (reliable_ack_packet_id_present ack id) && ltb (length ack) 8)) [
        | inl new ↦ rw new refl
        | inr old ↦ rw old refl
      ]

acknowledged-out :
    (inbox : Inbox) (ack : List ℕ) (id : ℕ)
    → ltb id (inbox.next + inbox.size) ≡ false
    → ack ≡ acknowledged inbox true ack id
acknowledged-out inbox ack id outside = rw outside refl

-- A packet whose id has been read, while there is a free buffer.
take_packet-Implements :
    (volume max : ℕ) (rel : Reliable) (inbox : Inbox) (ack : List ℕ) (packet : Buffer) (id op i : ℕ)
    → Implements volume max rel inbox
    → free_place rel.array ≡ some i
    → rel.packet_id + length rel.array ≤ 2 ^ 31
    → id < 2 ^ 32
    → length packet.content ≤ max
    → max < buf_size_max
    → (rel' : Reliable) × (ack' : List ℕ) × (take_packet rel ack packet id op ≡ some (rel', ack'))
      × Implements volume max rel' (accept inbox id packet.content)
      × (ack' ≡ acknowledged inbox true ack id)
unfolding take_packet save_and_acknowledge save_new reliable_not_replay
take_packet-Implements volume max rel inbox ack packet id op i m free near wide small fits =
    elim (Bool-cases (reliable_wont_break_sequentiality rel id)) [
      | inr breaks ↦ (
        rel,
        ack,
        rw breaks refl,
        rw (tests, breaks) m,
        acknowledged-out inbox ack id (sym window ∙ breaks),
      )
      | inl sequel ↦ elim (Bool-cases (reliable_not_replay rel id)) [
        | inr replay ↦ (
          rel,
          acked,
          rw (sequel, replay) refl,
          rw (tests, sequel, replay) m,
          acknowledged-in inbox ack id (sym window ∙ sequel),
        )
        | inl new ↦
            let inside = in_window_lem rel id near wide in
            let (rel', saved, m') =
              save_packet-Implements volume max rel inbox packet id op i m free
                (ground (arith, new)) (ground (arith, new)) (ground (arith, new, sequel, inside))
                small fits in
            (
              rel',
              acked,
              rw (sequel, new, saved) refl,
              rw (tests, sequel, new) m',
              acknowledged-in inbox ack id (sym window ∙ sequel),
            )
      ]
    ]
  where
    tests :
        accepts inbox id ≡ (reliable_wont_break_sequentiality rel id && reliable_not_replay rel id)
    tests = accepts-tests volume max rel inbox id m near wide

    window : reliable_wont_break_sequentiality rel id ≡ ltb id (inbox.next + inbox.size)
    window =
        sequence_lem rel id near wide
        ∙ ap (λ n. ltb id (n + length rel.array)) m.next
        ∙ ap (λ n. ltb id (inbox.next + n)) m.size

    acked : List ℕ
    acked = (reliable_ack_acknowledge_packet_id ack id).1

-- A receiver whose buffers are all in use holds every id of its window.
full-accepts :
    (volume max : ℕ) (rel : Reliable) (inbox : Inbox) (id : ℕ)
    → Implements volume max rel inbox
    → reliable_can_get rel.array ≡ false
    → accepts inbox id ≡ false
full-accepts volume max rel inbox id m full =
    rw (sym m.next, sym m.size, sym (m.held id), pending-is_active rel.array id)
      elim (Bool-cases (leb rel.packet_id id && ltb id (rel.packet_id + length rel.array))) [
        | inl inside ↦
            let held =
              full-is_active rel.array rel.packet_id id m.unique m.window full
                (ground (arith, inside)) (ground (arith, inside)) in
            rw (inside, held) refl
        | inr outside ↦ rw outside refl
      ]

-- For a receiver that implements an inbox, with ids below 2^31: a control packet with an id and a
-- content that fits fails no assertion, and leaves a receiver that implements the inbox after
-- accepting the packet, whether or not all buffers are in use. It is acknowledged, a replay too, if
-- a buffer is free and its id is below the end of the window: the id is then put at the end of the
-- record, unless it is there or the record has eight; otherwise the record stays as it was.
pub control_packet-Implements :
    (volume max : ℕ) (rel : Reliable) (inbox : Inbox) (ack : List ℕ) (id op offset room : ℕ)
    (content : Bytes)
    → Implements volume max rel inbox
    → rel.packet_id + length rel.array ≤ 2 ^ 31
    → id < 2 ^ 32
    → (op == p_ack_v1) ≡ false
    → length content ≤ max
    → max < buf_size_max
    → let packet : Buffer = record {
      offset = offset;
      content = htonl id ++ content;
      room = room;
    } in
      (rel' : Reliable) × (ack' : List ℕ) × (control_packet rel ack packet op ≡ some (rel', ack'))
      × Implements volume max rel' (accept inbox id content)
      × (ack' ≡ acknowledged inbox (reliable_can_get rel.array) ack id)
unfolding control_packet reliable_ack_read_packet_id
control_packet-Implements volume max rel inbox ack id op offset room content m near wide control
      small fits =
    elim (free_place-can_get rel.array) [
      | inl (_, full) ↦ (
        rel,
        ack,
        rw (control, full) refl,
        rw (full-accepts volume max rel inbox id m full) m,
        ap (λ b. acknowledged inbox b ack id) (sym full),
      )
      | inr (i, free, can_get) ↦
          let rest : Buffer = record { offset = offset + 4; content = content; room = room } in
          let (rel', ack', taken, m', acks) =
            take_packet-Implements volume max rel inbox ack rest id op i m free near wide small
              fits in
          (
            rel',
            ack',
            rw
                (
                  control,
                  can_get,
                  buf_read-append offset room 4 (htonl id) content (length-htonl id),
                  ntohl-htonl id wide,
                )
                taken,
            m',
            acks ∙ ap (λ b. acknowledged inbox b ack id) (sym can_get),
          )
    ]
