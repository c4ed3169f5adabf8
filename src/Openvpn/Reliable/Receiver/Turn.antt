-- ===== src/Openvpn/Reliable/Receiver/Turn.antt =====
-- The packet in turn goes to the TLS object (vpn/openvpn-2.2.1/ssl.c).
use seguridad_en_redes.Base.{
  ℕ, zero, suc, ◌+◌, ◌%◌, ◌≤◌, ◌<◌, ◌≡◌, ◌≢◌, ◌^◌, refl, sym, ap, ◌∙◌, Bool, true, false, inl, inr,
  List, [], ◌∷◌, none, some, get_elem?, set, length, ◌==◌, if◌then◌else◌, Bytes, Bool-cases,
  length-set, arith,
}
use mathlib.Core.Path.{subst}
use seguridad_en_redes.Openvpn.Buffer.{Buffer, capacity}
use seguridad_en_redes.Openvpn.Reliable.Entries.{
  ReliableEntry, Reliable, is_active, put_buf, deactivated, reliable_mark_deleted,
}
use seguridad_en_redes.Openvpn.Reliable.Receiver.{
  Written, Status, failed, not_now, done, Call, write_status, bio_write, bio_write_post,
  key_state_write_ciphertext, write_packet, written, deliver,
}
use seguridad_en_redes.Openvpn.Reliable.Receiver.Window.{
  pending, is_some, pending-is_active, AreInWindow,
}
use seguridad_en_redes.Openvpn.Reliable.Receiver.Stored.{
  get_elem?-HaveCapacity, set-HaveCapacity, get_elem?-put_buf, set-put_buf,
  get_buf_sequenced-pending,
}
use seguridad_en_redes.Openvpn.Reliable.Receiver.Removed.{
  pending-set_inactive, set_inactive-AreUnique, is_active-AreInWindow, AreInWindow-is_active,
}
use seguridad_en_redes.Openvpn.Reliable.Receiver.Inbox.{
  Inbox, turned, Implements, turn_status, turn_calls, after_turn,
}

put_buf_self :
    (array : List ReliableEntry) (i : ℕ) (e : ReliableEntry)
    → get_elem? array i ≡ some e
    → put_buf array i e.buf ≡ array
unfolding put_buf
put_buf_self [] i e at = absurd (cc at)
put_buf_self (x ∷ array) zero e at =
    let same : e ≡ x = cc at in ap (λ y. record x { buf = y.buf } ∷ array) same
put_buf_self (x ∷ array) (suc i) e at = ap (◌∷◌ x) (put_buf_self array i e at)

put_buf-same :
    (rel : Reliable) (i : ℕ) (e : ReliableEntry) (buf : Buffer)
    → get_elem? rel.array i ≡ some e
    → buf ≡ e.buf
    → some (record rel { array = put_buf rel.array i buf }) ≡ some rel
put_buf-same rel i e buf at same =
    ap (λ b. some (record rel { array = put_buf rel.array i b })) same
    ∙ ap (λ a. some (record rel { array = a })) (put_buf_self rel.array i e at)

-- Writing keeps a buffer's capacity.
bio_write_post-capacity :
    (status : Status) (buf : Buffer) → capacity (bio_write_post status buf) ≡ capacity buf
unfolding bio_write_post capacity
bio_write_post-capacity done buf = omega arith
bio_write_post-capacity failed buf = refl
bio_write_post-capacity not_now buf = refl

-- The packet in turn is removed.
removed-Implements :
    (volume max : ℕ) (rel : Reliable) (inbox : Inbox) (i : ℕ) (e : ReliableEntry) (buf : Buffer)
    → Implements volume max rel inbox
    → get_elem? rel.array i ≡ some e
    → e.active ≡ true
    → e.packet_id ≡ rel.packet_id
    → capacity buf ≡ volume
    → Implements volume max
        (record rel {
          packet_id = suc rel.packet_id;
          array = set rel.array i (record e { active = false; buf = buf });
        })
        (turned inbox)
removed-Implements volume max rel inbox i e buf m at on id filled = record {
  next = ap suc m.next;
  size = length-set rel.array i entry ∙ m.size;
  held = λ q.
      gone q
      ∙ ap (λ n. if n == q then none else pending rel.array q) (id ∙ m.next)
      ∙ ap (λ o. if inbox.next == q then none else o) (m.held q);
  unique = set_inactive-AreUnique rel.array i entry refl m.unique;
  window =
      subst (λ n. AreInWindow (suc rel.packet_id) n (set rel.array i entry))
        (sym (length-set rel.array i entry))
        (is_active-AreInWindow (suc rel.packet_id) (length rel.array) (set rel.array i entry)
          inside);
  capacity = set-HaveCapacity volume rel.array i entry m.capacity filled;
  room = m.room;
}
  where
    entry : ReliableEntry
    entry = record e { active = false; buf = buf }

    gone :
        (q : ℕ)
        → pending (set rel.array i entry) q
          ≡ (if e.packet_id == q then none else pending rel.array q)
    gone q = pending-set_inactive rel.array i e entry q m.unique at on refl

    inside :
        (q : ℕ)
        → is_active (set rel.array i entry) q ≡ true
        → (suc rel.packet_id ≤ q) × (q < suc rel.packet_id + length rel.array)
    inside q active =
        let still =
          sym (ap is_some (gone q)) ∙ pending-is_active (set rel.array i entry) q ∙ active in
        elim (Bool-cases (e.packet_id == q)) [
          | inl same ↦ absurd (off same still)
          | inr other ↦
              let r =
                AreInWindow-is_active rel.packet_id (length rel.array) rel.array q m.window
                  (before other still) in
              let ne : e.packet_id ≢ q = λ eq. ground (arith, other, eq) in
              (omega (arith, r, id, ne), omega (arith, r))
        ]
      where
        cut : Bool → Bool
        cut b = is_some (if b then none else pending rel.array q)

        off : (e.packet_id == q) ≡ true → cut (e.packet_id == q) ≡ true → ⊥
        off same still = cc (sym (ap cut same) ∙ still)

        before :
            (e.packet_id == q) ≡ false
            → cut (e.packet_id == q) ≡ true
            → is_active rel.array q ≡ true
        before other still = sym (pending-is_active rel.array q) ∙ sym (ap cut other) ∙ still

-- The status and the calls for the packet in turn, and its buffer after them.
write_packet-status :
    (bio : Bytes → Written) (buf : Buffer)
    → (some (write_packet bio buf).0 ≡ turn_status bio (some buf.content))
      × ((write_packet bio buf).2 ≡ turn_calls bio (some buf.content))
      × (capacity (write_packet bio buf).1 ≡ capacity buf)
      × ((write_packet bio buf).0 ≢ done → (write_packet bio buf).1 ≡ buf)
unfolding write_packet key_state_write_ciphertext bio_write bio_write_post
write_packet-status bio buf = by_content buf.content refl
  where
    kept : (status : Status) → status ≢ done → bio_write_post status buf ≡ buf
    kept done other = absurd (other refl)
    kept failed other = refl
    kept not_now other = refl

    written_ : Bytes → Status × Buffer × List Call
    written_ content =
        let ret = bio_write bio content in
        if length content == 0 then (done, buf, []) else (ret.0, bio_write_post ret.0 buf, ret.1)

    by_content :
        (content : Bytes)
        → buf.content ≡ content
        → (some (written_ content).0 ≡ turn_status bio (some content))
          × ((written_ content).2 ≡ turn_calls bio (some content))
          × (capacity (written_ content).1 ≡ capacity buf)
          × ((written_ content).0 ≢ done → (written_ content).1 ≡ buf)
    by_content [] e = (refl, refl, refl, λ other. absurd (other refl))
    by_content (b ∷ content) e =
        let full : (length (b ∷ content) == 0) ≡ false = ground arith in
        let status = write_status (bio (b ∷ content)) (length (b ∷ content)) in
        rw full (refl, refl, bio_write_post-capacity status buf, kept status)

-- What `deliver` does once the packet in turn has been found.
written-Implements :
    (volume max : ℕ) (rel : Reliable) (inbox : Inbox) (i : ℕ) (e : ReliableEntry) (status : Status)
    (buf : Buffer)
    → Implements volume max rel inbox
    → rel.packet_id < 2 ^ 31
    → get_elem? rel.array i ≡ some e
    → e.active ≡ true
    → e.packet_id ≡ rel.packet_id
    → capacity buf ≡ volume
    → (status ≢ done → buf ≡ e.buf)
    → (rel' : Reliable) × (written (record rel { array = put_buf rel.array i buf }) i status
        ≡ some rel')
      × Implements volume max rel' (after_turn inbox (some status))
unfolding written reliable_mark_deleted deactivated
written-Implements volume max rel inbox i e done buf m near at on id filled kept = (
  record rel {
    packet_id = suc rel.packet_id;
    array = set rel.array i (record e { active = false; buf = buf });
  },
  rw
      (
        get_elem?-put_buf rel.array i e buf at,
        set-put_buf rel.array i buf (record e { active = false; buf = buf }),
      )
      (ap
        (λ n. some (record rel {
          packet_id = n;
          array = set rel.array i (record e { active = false; buf = buf });
        }))
        following),
  removed-Implements volume max rel inbox i e buf m at on id filled,
)
  where
    following : (e.packet_id + 1) % 2 ^ 32 ≡ suc rel.packet_id
    following = omega arith
written-Implements volume max rel inbox i e failed buf m near at on id filled kept =
    (rel, put_buf-same rel i e buf at (kept λ eq. cc eq), m)
written-Implements volume max rel inbox i e not_now buf m near at on id filled kept =
    (rel, put_buf-same rel i e buf at (kept λ eq. cc eq), m)

-- For a receiver that implements an inbox, with the id in turn below 2^31: a turn fails no
-- assertion; it writes the packet that the inbox has in turn, if there is one, and leaves a receiver
-- that implements the inbox after the turn: with the packet gone if it was written, and as it was
-- if not.
pub deliver-Implements :
    (volume max : ℕ) (rel : Reliable) (inbox : Inbox) (bio : Bytes → Written)
    → Implements volume max rel inbox
    → rel.packet_id < 2 ^ 31
    → let status = turn_status bio (inbox.held inbox.next) in
      (rel' : Reliable) × (deliver bio rel
        ≡ some (status, rel', turn_calls bio (inbox.held inbox.next)))
      × Implements volume max rel' (after_turn inbox status)
unfolding deliver
deliver-Implements volume max rel inbox bio m near =
    elim (get_buf_sequenced-pending rel.array rel.packet_id) [
      | inl (missing, nothing) ↦
          let empty : inbox.held inbox.next ≡ none =
            ap inbox.held (sym m.next) ∙ sym (m.held rel.packet_id) ∙ nothing in
          (rel, rw (missing, deliver, empty) refl, rw empty m)
      | inr (i, e, there, at, on, id, holds) ↦
          let full : inbox.held inbox.next ≡ some e.buf.content =
            ap inbox.held (sym m.next) ∙ sym (m.held rel.packet_id) ∙ holds in
          let (status, calls, size, kept) = write_packet-status bio e.buf in
          let (rel', after, m') =
            written-Implements volume max rel inbox i e (write_packet bio e.buf).0
              (write_packet bio e.buf).1 m near at on id
              (size ∙ get_elem?-HaveCapacity volume rel.array i e m.capacity at) kept in
          (
            rel',
            rw (there, deliver, full)
                (rw (at, after)
                  (ap (λ s. some (s, rel', (write_packet bio e.buf).2)) status
                    ∙ ap (λ c. some (turn_status bio (some e.buf.content), rel', c)) calls)),
            rw full (subst (λ s. Implements volume max rel' (after_turn inbox s)) status m'),
          )
    ]
