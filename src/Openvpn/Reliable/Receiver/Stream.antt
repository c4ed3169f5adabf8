-- ===== src/Openvpn/Reliable/Receiver/Stream.antt =====
-- A receiver of the control channel over any sequence of packets and turns (vpn/openvpn-2.2.1/ssl.c):
-- what it gives to the TLS object.
use seguridad_en_redes.Base.{
  ℕ, zero, suc, ◌+◌, ◌≤◌, ◌<◌, ◌≡◌, ◌⊎◌, ◌^◌, refl, sym, ap, ◌∙◌, Bool, true, false, inl, inr, List,
  [], ◌∷◌, ◌++◌, Option, none, some, length, ◌==◌, if◌then◌else◌, Bytes, Bool-cases, arith,
}
use mathlib.Core.Path.{subst}
use seguridad_en_redes.Openvpn.Checked.{◌>>=◌}
use seguridad_en_redes.Openvpn.Buffer.{buf_size_max, htonl}
use seguridad_en_redes.Openvpn.Reliable.Entries.{Reliable}
use seguridad_en_redes.Openvpn.Reliable.Receiver.{
  Written, wrote, retry, refused, failed, done, Call, write_status, control_packet, deliver,
  p_ack_v1,
}
use seguridad_en_redes.Openvpn.Reliable.Receiver.Inbox.{
  Inbox, accepts, accept, turned, Implements, turn_status, turn_calls, after_turn,
}
use seguridad_en_redes.Openvpn.Reliable.Receiver.Arrival.{control_packet-Implements}
use seguridad_en_redes.Openvpn.Reliable.Receiver.Turn.{deliver-Implements}

-- What happens to a receiver: a packet arrives, with its id, opcode and content in a buffer, or the
-- TLS object is offered the packet in turn.
pub data Input : Type 0 where
  packet : ℕ → ℕ → Bytes → Input
  turn : (Bytes → Written) → Input

-- What the TLS object has taken: what `BIO_write` was given when it answered with all its bytes.
abbrev pub is_whole : Call → Bool
is_whole (bytes, wrote n) = n == length bytes
is_whole (bytes, retry) = false
is_whole (bytes, refused) = false

abbrev pub taken : List Call → List Bytes
taken [] = []
taken (call ∷ calls) = if is_whole call then call.0 ∷ taken calls else taken calls

-- One input: the receiver with its acknowledgments, and the calls of `BIO_write`.
unfoldable pub receive_input : Reliable → List ℕ → Input → Option (Reliable × List ℕ × List Call)
receive_input rel ack (packet id op content) = do
  r ← control_packet rel ack (record { offset = 0; content = htonl id ++ content; room = 0 }) op
  some (r.0, r.1, [])
receive_input rel ack (turn bio) = do r ← deliver bio rel; some (r.1, ack, r.2)

unfoldable pub receive_inputs :
    Reliable → List ℕ → List Input → Option (Reliable × List ℕ × List Call)
receive_inputs rel ack [] = some (rel, ack, [])
receive_inputs rel ack (input ∷ inputs) = do
  r ← receive_input rel ack input
  rest ← receive_inputs r.0 r.1 inputs
  some (rest.0, rest.1, r.2 ++ rest.2)

-- The packets of the sender: the id and the content belong together, and both are in range.
abbrev pub IsSent : (ℕ → Bytes) → ℕ → Input → Type 0
IsSent sent max (packet id op content) =
    (id < 2 ^ 32) × ((op == p_ack_v1) ≡ false) × (content ≡ sent id) × (length content ≤ max)
IsSent sent max (turn bio) = Unit

abbrev pub AreSent : (ℕ → Bytes) → ℕ → List Input → Type 0
AreSent sent max [] = Unit
AreSent sent max (input ∷ inputs) = IsSent sent max input × AreSent sent max inputs

-- The contents of the `k` ids from `n` on.
abbrev pub sent_from : (ℕ → Bytes) → ℕ → ℕ → List Bytes
sent_from sent n zero = []
sent_from sent n (suc k) = sent n ∷ sent_from sent (suc n) k

-- The contents that are not empty: an empty one is not written.
abbrev pub non_empty : List Bytes → List Bytes
non_empty [] = []
non_empty ([] ∷ contents) = non_empty contents
non_empty ((b ∷ content) ∷ contents) = (b ∷ content) ∷ non_empty contents

-- An inbox holds what was sent.
abbrev pub HoldsSent : (ℕ → Bytes) → Inbox → Type 0
HoldsSent sent inbox = (q : ℕ) (c : Bytes) → inbox.held q ≡ some c → c ≡ sent q

accept-HoldsSent :
    (sent : ℕ → Bytes) (inbox : Inbox) (id : ℕ) (content : Bytes)
    → content ≡ sent id
    → HoldsSent sent inbox
    → HoldsSent sent (accept inbox id content)
accept-HoldsSent sent inbox id content ours h = elim (Bool-cases (accepts inbox id)) [
  | inr kept ↦ rw kept h
  | inl new ↦ rw new λ q c e. by_id q c (Bool-cases (id == q)) e
]
  where
    content_at : ℕ → Bool → Option Bytes
    content_at q b = if b then some content else inbox.held q

    by_id :
        (q : ℕ) (c : Bytes)
        → ((id == q) ≡ true) ⊎ ((id == q) ≡ false)
        → content_at q (id == q) ≡ some c
        → c ≡ sent q
    by_id q c (inl same) e =
        let taken : some content ≡ some c = sym (ap (content_at q) same) ∙ e in
        let eq : id ≡ q = ground (arith, same) in
        let first : c ≡ content = cc taken in first ∙ ours ∙ ap sent eq
    by_id q c (inr other) e = h q c (sym (ap (content_at q) other) ∙ e)

turned-HoldsSent :
    (sent : ℕ → Bytes) (inbox : Inbox) → HoldsSent sent inbox → HoldsSent sent (turned inbox)
turned-HoldsSent sent inbox h q c e = by_id (Bool-cases (inbox.next == q)) e
  where
    content_at : Bool → Option Bytes
    content_at b = if b then none else inbox.held q

    by_id :
        ((inbox.next == q) ≡ true) ⊎ ((inbox.next == q) ≡ false)
        → content_at (inbox.next == q) ≡ some c
        → c ≡ sent q
    by_id (inl same) e =
        let taken : none ≡ some c = sym (ap content_at same) ∙ e in absurd (cc taken)
    by_id (inr other) e = h q c (sym (ap content_at other) ∙ e)

accept_window :
    (inbox : Inbox) (id : ℕ) (content : Bytes)
    → ((accept inbox id content).next ≡ inbox.next) × ((accept inbox id content).size ≡ inbox.size)
accept_window inbox id content = elim (Bool-cases (accepts inbox id)) [
  | inl new ↦ rw new (refl, refl)
  | inr kept ↦ rw kept (refl, refl)
]

-- One step: the window moves by `k` ids, and what is taken is what the sender sent under these.
abbrev pub Goes : (ℕ → Bytes) → ℕ → ℕ → Inbox → Option (Reliable × List ℕ × List Call) → ℕ → Type 0
Goes sent volume max inbox result most =
    (rel' : Reliable) × (ack' : List ℕ) × (calls : List Call) × (inbox' : Inbox) × (k : ℕ) × (result
      ≡ some (rel', ack', calls))
    × Implements volume max rel' inbox'
    × HoldsSent sent inbox'
    × (inbox'.next ≡ inbox.next + k)
    × (inbox'.size ≡ inbox.size)
    × (taken calls ≡ non_empty (sent_from sent inbox.next k))
    × (k ≤ most)

turn-Goes :
    (sent : ℕ → Bytes) (volume max : ℕ) (inbox : Inbox) (rel' : Reliable) (ack : List ℕ)
    (bio : Bytes → Written) (held : Option Bytes)
    → inbox.held inbox.next ≡ held
    → HoldsSent sent inbox
    → Implements volume max rel' (after_turn inbox (turn_status bio held))
    → Goes sent volume max inbox (some (rel', ack, turn_calls bio held)) 1
unfolding write_status
turn-Goes sent volume max inbox rel' ack bio none e h m =
    (rel', ack, [], inbox, 0, refl, m, h, omega arith, refl, refl, omega arith)
turn-Goes sent volume max inbox rel' ack bio (some []) e h m = (
  rel',
  ack,
  [],
  turned inbox,
  1,
  refl,
  m,
  turned-HoldsSent sent inbox h,
  omega arith,
  refl,
  ap (λ c. non_empty (c ∷ [])) (h inbox.next [] e),
  omega arith,
)
turn-Goes sent volume max inbox rel' ack bio (some (b ∷ content)) e h m =
    by_answer (bio (b ∷ content)) m
  where
    Result : Written → Type 0
    Result answer =
        Implements volume max rel'
          (after_turn inbox (some (write_status answer (length (b ∷ content)))))
        → Goes sent volume max inbox (some (rel', ack, (b ∷ content, answer) ∷ [])) 1

    kept :
        (answer : Written)
        → is_whole (b ∷ content, answer) ≡ false
        → Implements volume max rel' inbox
        → Goes sent volume max inbox (some (rel', ack, (b ∷ content, answer) ∷ [])) 1
    kept answer part m = (
      rel',
      ack,
      (b ∷ content, answer) ∷ [],
      inbox,
      0,
      refl,
      m,
      h,
      omega arith,
      refl,
      rw part refl,
      omega arith,
    )

    gone :
        (answer : Written)
        → is_whole (b ∷ content, answer) ≡ true
        → Implements volume max rel' (turned inbox)
        → Goes sent volume max inbox (some (rel', ack, (b ∷ content, answer) ∷ [])) 1
    gone answer whole m = (
      rel',
      ack,
      (b ∷ content, answer) ∷ [],
      turned inbox,
      1,
      refl,
      m,
      turned-HoldsSent sent inbox h,
      omega arith,
      refl,
      rw whole (ap (λ c. non_empty (c ∷ [])) (h inbox.next (b ∷ content) e)),
      omega arith,
    )

    by_answer : (answer : Written) → Result answer
    by_answer retry m = kept retry refl m
    by_answer refused m = kept refused refl m
    by_answer (wrote n) m = elim (Bool-cases (n == length (b ∷ content))) [
      | inl whole ↦ gone (wrote n) whole (subst after whole m)
      | inr part ↦ kept (wrote n) part (subst after part m)
    ]
      where
        after : Bool → Type 0
        after c = Implements volume max rel' (after_turn inbox (some (if c then done else failed)))

pub receive_input-Goes :
    (sent : ℕ → Bytes) (volume max : ℕ) (rel : Reliable) (inbox : Inbox) (ack : List ℕ)
    (input : Input)
    → Implements volume max rel inbox
    → HoldsSent sent inbox
    → inbox.next + inbox.size < 2 ^ 31
    → max < buf_size_max
    → IsSent sent max input
    → Goes sent volume max inbox (receive_input rel ack input) 1
unfolding receive_input
receive_input-Goes sent volume max rel inbox ack (packet id op content) m h near fits
      (wide, control, ours, small) =
    let (rel', ack', e, m', _) =
      control_packet-Implements volume max rel inbox ack id op 0 0 content m
        (omega (arith, m.next, m.size)) wide control small fits in
    (
      rel',
      ack',
      [],
      accept inbox id content,
      0,
      rw e refl,
      m',
      accept-HoldsSent sent inbox id content ours h,
      (accept_window inbox id content).0 ∙ omega arith,
      (accept_window inbox id content).1,
      refl,
      omega arith,
    )
receive_input-Goes sent volume max rel inbox ack (turn bio) m h near fits is_sent =
    let (rel', e, m') = deliver-Implements volume max rel inbox bio m (omega (arith, m.next)) in
    rw e (turn-Goes sent volume max inbox rel' ack bio (inbox.held inbox.next) refl h m')
