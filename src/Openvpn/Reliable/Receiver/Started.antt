-- ===== src/Openvpn/Reliable/Receiver/Started.antt =====
-- A receiver of the control channel from `reliable_init` on (vpn/openvpn-2.2.1/reliable.c, ssl.c).
use seguridad_en_redes.Base.{
  ℕ, zero, suc, ◌+◌, ◌-◌, ◌≤◌, ◌<◌, ◌≡◌, ◌^◌, refl, sym, ap, ◌∙◌, Bool, true, false, ◌&&◌, List, [],
  ◌∷◌, ◌++◌, Option, none, some, length, replicate, length-replicate, ltb, leb, Bytes, inl, inr,
  Bool-cases, arith,
}
use seguridad_en_redes.Openvpn.Buffer.{alloc_buf, buf_init, capacity, buf_size_max}
use seguridad_en_redes.Openvpn.Reliable.Entries.{
  ReliableEntry, Reliable, init_entries, reliable_init,
}
use seguridad_en_redes.Openvpn.Reliable.Entries.Laws.{AreUnique}
use seguridad_en_redes.Openvpn.Reliable.Receiver.{Call}
use seguridad_en_redes.Openvpn.Reliable.Receiver.Window.{pending, AreInWindow}
use seguridad_en_redes.Openvpn.Reliable.Receiver.Stored.{HaveCapacity}
use seguridad_en_redes.Openvpn.Reliable.Receiver.Inbox.{Inbox, Implements}
use seguridad_en_redes.Openvpn.Reliable.Receiver.Stream.{
  Input, receive_inputs, AreSent, sent_from, non_empty, is_whole, taken, HoldsSent,
  receive_input-Goes,
}

sent_from-append :
    (sent : ℕ → Bytes) (n j k : ℕ)
    → sent_from sent n j ++ sent_from sent (n + j) k ≡ sent_from sent n (j + k)
sent_from-append sent n zero k =
    let start : n + 0 ≡ n = omega arith in
    let none_more : k ≡ 0 + k = omega arith in
    ap (λ m. sent_from sent m k) start ∙ ap (sent_from sent n) none_more
sent_from-append sent n (suc j) k =
    let start : n + suc j ≡ suc n + j = omega arith in
    let more : suc (j + k) ≡ suc j + k = omega arith in
    ap (λ m. sent n ∷ (sent_from sent (suc n) j ++ sent_from sent m k)) start
    ∙ ap (◌∷◌ (sent n)) (sent_from-append sent (suc n) j k)
    ∙ ap (sent_from sent n) more

non_empty-append : (xs ys : List Bytes) → non_empty (xs ++ ys) ≡ non_empty xs ++ non_empty ys
non_empty-append [] ys = refl
non_empty-append ([] ∷ xs) ys = non_empty-append xs ys
non_empty-append ((b ∷ x) ∷ xs) ys = ap (◌∷◌ (b ∷ x)) (non_empty-append xs ys)

taken-append : (xs ys : List Call) → taken (xs ++ ys) ≡ taken xs ++ taken ys
taken-append [] ys = refl
taken-append (call ∷ xs) ys = elim (Bool-cases (is_whole call)) [
  | inl whole ↦ rw whole (ap (◌∷◌ call.0) (taken-append xs ys))
  | inr part ↦ rw part (taken-append xs ys)
]

receive_inputs-in_order :
    (sent : ℕ → Bytes) (volume max : ℕ) (rel : Reliable) (inbox : Inbox) (ack : List ℕ)
    (inputs : List Input)
    → Implements volume max rel inbox
    → HoldsSent sent inbox
    → inbox.next + inbox.size + length inputs ≤ 2 ^ 31
    → max < buf_size_max
    → AreSent sent max inputs
    → (rel' : Reliable) × (ack' : List ℕ) × (calls : List Call) × (k : ℕ) × (receive_inputs rel ack
          inputs
        ≡ some (rel', ack', calls))
      × (taken calls ≡ non_empty (sent_from sent inbox.next k))
      × (rel'.packet_id ≡ inbox.next + k)
unfolding receive_inputs
receive_inputs-in_order sent volume max rel inbox ack [] m h near fits all =
    (rel, ack, [], 0, refl, refl, m.next ∙ omega arith)
receive_inputs-in_order sent volume max rel inbox ack (input ∷ inputs) m h near fits
      (is_sent, all) =
    let (rel₁, ack₁, calls₁, inbox₁, j, e₁, m₁, h₁, next, size, taken₁, most) =
      receive_input-Goes sent volume max rel inbox ack input m h (omega arith) fits is_sent in
    let (rel₂, ack₂, calls₂, k, e₂, taken₂, next₂) =
      receive_inputs-in_order sent volume max rel₁ inbox₁ ack₁ inputs m₁ h₁ (omega arith) fits
        all in
    (
      rel₂,
      ack₂,
      calls₁ ++ calls₂,
      j + k,
      rw (e₁, e₂) refl,
      joined calls₁ calls₂ j k taken₁ (taken₂ ∙ ap (λ n. non_empty (sent_from sent n k)) next),
      omega (arith, next₂, next),
    )
  where
    joined :
        (xs ys : List Call) (j k : ℕ)
        → taken xs ≡ non_empty (sent_from sent inbox.next j)
        → taken ys ≡ non_empty (sent_from sent (inbox.next + j) k)
        → taken (xs ++ ys) ≡ non_empty (sent_from sent inbox.next (j + k))
    joined xs ys j k e f =
        taken-append xs ys
        ∙ ap (λ l. l ++ taken ys) e
        ∙ ap (◌++◌ (non_empty (sent_from sent inbox.next j))) f
        ∙ sym (non_empty-append (sent_from sent inbox.next j) (sent_from sent (inbox.next + j) k))
        ∙ ap non_empty (sent_from-append sent inbox.next j k)

-- An entry as `reliable_init` leaves it.
abbrev pub blank : ℕ → ℕ → ReliableEntry
blank buf_size offset = record {
  active = false;
  timeout = 0;
  next_try = 0;
  packet_id = 0;
  opcode = 0;
  buf = record { offset = offset; content = []; room = buf_size - offset };
}

init_entries_lem :
    (buf_size offset n : ℕ)
    → buf_size < buf_size_max
    → offset ≤ buf_size
    → init_entries buf_size offset n ≡ some (replicate n (blank buf_size offset))
unfolding init_entries alloc_buf buf_init capacity
init_entries_lem buf_size offset zero small fits = refl
init_entries_lem buf_size offset (suc n) small fits =
    let valid : ltb buf_size buf_size_max ≡ true = ground arith in
    rw (valid, enough, init_entries_lem buf_size offset n small fits) (ap with_room free)
  where
    with_room : ℕ → Option (List ReliableEntry)
    with_room room = some (
        record (blank buf_size offset) {
          buf = record { offset = offset; content = []; room = room };
        }
        ∷ replicate n (blank buf_size offset))

    free : 0 + 0 + buf_size - offset ≡ buf_size - offset
    free = omega arith

    enough : ltb (0 + 0 + buf_size) offset ≡ false
    enough = ground arith

-- The facts about the entries that `reliable_init` leaves.
blank-pending : (buf_size offset n q : ℕ) → pending (replicate n (blank buf_size offset)) q ≡ none
unfolding pending
blank-pending buf_size offset zero q = refl
blank-pending buf_size offset (suc n) q = blank-pending buf_size offset n q

blank-AreUnique : (buf_size offset n : ℕ) → AreUnique (replicate n (blank buf_size offset))
blank-AreUnique buf_size offset zero = tt
blank-AreUnique buf_size offset (suc n) = (refl, blank-AreUnique buf_size offset n)

blank-AreInWindow :
    (buf_size offset base k n : ℕ) → AreInWindow base k (replicate n (blank buf_size offset))
blank-AreInWindow buf_size offset base k zero = tt
blank-AreInWindow buf_size offset base k (suc n) =
    (λ on. absurd (cc on), blank-AreInWindow buf_size offset base k n)

blank-HaveCapacity :
    (buf_size offset n : ℕ)
    → offset ≤ buf_size
    → HaveCapacity buf_size (replicate n (blank buf_size offset))
unfolding capacity
blank-HaveCapacity buf_size offset zero fits = tt
blank-HaveCapacity buf_size offset (suc n) fits =
    (omega arith, blank-HaveCapacity buf_size offset n fits)

-- `reliable_init` gives a receiver that implements the empty inbox.
pub init-Implements :
    (buf_size offset array_size max : ℕ) (hold : Bool)
    → buf_size < buf_size_max
    → offset + max ≤ buf_size
    → 0 < array_size
    → array_size ≤ 8
    → (rel : Reliable) × (reliable_init buf_size offset array_size hold ≡ some rel)
      × Implements buf_size max rel (record { next = 0; size = array_size; held = λ q. none })
unfolding reliable_init
init-Implements buf_size offset array_size max hold small fits low high = (
  record { initial_timeout = 0; packet_id = 0; offset = offset; hold = hold; array = array },
  rw (sizes, init_entries_lem buf_size offset array_size small (omega arith)) refl,
  record {
    next = refl;
    size = length-replicate array_size (blank buf_size offset);
    held = blank-pending buf_size offset array_size;
    unique = blank-AreUnique buf_size offset array_size;
    window = blank-AreInWindow buf_size offset 0 (length array) array_size;
    capacity = blank-HaveCapacity buf_size offset array_size (omega arith);
    room = fits;
  },
)
  where
    array : List ReliableEntry
    array = replicate array_size (blank buf_size offset)

    sizes : (ltb 0 array_size && leb array_size 8) ≡ true
    sizes = ground arith

-- A receiver from `reliable_init`, of 1 to 8 entries whose buffers hold a packet of `max` bytes.
-- Whatever packets of a sender come in, in any order, lost, repeated, too early or too late, and
-- however the TLS object answers in between: no assertion fails, and what `BIO_write` has taken in
-- whole are the contents of the ids 0, 1, 2, … in this order, each once, none left out but the empty
-- ones, as far as the receiver's counter says. There are at most 2^31 - 8 inputs, and each id has
-- one content.
pub receive_inputs-sent :
    (sent : ℕ → Bytes) (buf_size offset array_size max : ℕ) (hold : Bool) (inputs : List Input)
    → buf_size < buf_size_max
    → offset + max ≤ buf_size
    → 0 < array_size
    → array_size ≤ 8
    → length inputs + 8 ≤ 2 ^ 31
    → AreSent sent max inputs
    → (rel : Reliable) × (rel' : Reliable) × (ack' : List ℕ) × (calls : List Call) × (reliable_init
          buf_size offset array_size hold
        ≡ some rel)
      × (receive_inputs rel [] inputs ≡ some (rel', ack', calls))
      × (taken calls ≡ non_empty (sent_from sent 0 rel'.packet_id))
receive_inputs-sent sent buf_size offset array_size max hold inputs small fits low high near all =
    let (rel, e, m) = init-Implements buf_size offset array_size max hold small fits low high in
    let (rel', ack', calls, k, f, in_order, next) =
      receive_inputs-in_order sent buf_size max rel
        (record { next = 0; size = array_size; held = λ q. none }) [] inputs m
        (λ q c h. absurd (cc h)) (omega arith) (omega arith) all in
    let count : k ≡ rel'.packet_id = omega (arith, next) in
    (rel, rel', ack', calls, e, f, in_order ∙ ap (λ n. non_empty (sent_from sent 0 n)) count)
