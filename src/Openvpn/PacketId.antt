-- ===== src/Openvpn/PacketId.antt =====
-- vpn/openvpn-2.2.1/packet_id.c and packet_id.h: the replay protection. `now`, a global of
-- otime.h, is a parameter. A `time_t` is not negative and does not overflow; a `packet_id_type` has
-- 32 bits. Debugging messages, and the counter that only they read, are left out.
pub mod Window
pub mod Test
pub mod Add
pub mod Reap
pub mod Receive
pub mod Backtrack
pub mod Sequence
pub mod Send
pub mod Persist
pub mod Wire
pub mod Exchange
pub mod Ordered
use seguridad_en_redes.Base.{
  ℕ, zero, suc, ◌+◌, ◌-◌, ◌%◌, ◌^◌, Bool, true, false, not, ◌&&◌, ◌||◌, Option, none, some, ltb,
  leb, ◌==◌, if◌then◌else◌,
}
use seguridad_en_redes.Openvpn.Checked.{◌>>=◌, ◌>>◌, assert}
use seguridad_en_redes.Openvpn.CircList.{
  CircList, circ_list_alloc, circ_list_reset, circ_list_push, circ_list_item, circ_list_set,
}

-- `SEQ_UNSEEN` and `SEQ_EXPIRED`
abbrev pub seq_unseen : ℕ
seq_unseen = 0

abbrev pub seq_expired : ℕ
seq_expired = 1

-- `MAX_SEQ_BACKTRACK`, `MAX_TIME_BACKTRACK` and `SEQ_REAP_INTERVAL`; the two minima are 0.
abbrev pub max_seq_backtrack : ℕ
max_seq_backtrack = 65536

abbrev pub max_time_backtrack : ℕ
max_time_backtrack = 600

abbrev pub seq_reap_interval : ℕ
seq_reap_interval = 5

-- `struct packet_id_net`
pub record PacketIdNet : Type 0 where
  pub id : ℕ
  pub time : ℕ

-- `struct packet_id_rec`; a null `seq_list` is `none`.
pub record PacketIdRec : Type 0 where
  pub last_reap : ℕ
  pub time : ℕ
  pub id : ℕ
  pub seq_backtrack : ℕ
  pub time_backtrack : ℕ
  pub initialized : Bool
  pub seq_list : Option (CircList ℕ)

-- The receiving half of `packet_id_init`.
unfoldable pub packet_id_init : ℕ → ℕ → Option PacketIdRec
packet_id_init seq_backtrack time_backtrack =
    if seq_backtrack == 0
    then some (record {
      last_reap = 0;
      time = 0;
      id = 0;
      seq_backtrack = 0;
      time_backtrack = 0;
      initialized = true;
      seq_list = none;
    })
    else (do
      assert (leb seq_backtrack max_seq_backtrack)
      assert (leb time_backtrack max_time_backtrack)
      some (record {
        last_reap = 0;
        time = 0;
        id = 0;
        seq_backtrack = seq_backtrack;
        time_backtrack = time_backtrack;
        initialized = true;
        seq_list = some (circ_list_alloc seq_unseen seq_backtrack);
      }))

-- A record with another time, number and list.
unfoldable pub with_window : PacketIdRec → ℕ → ℕ → Option (CircList ℕ) → PacketIdRec
with_window p time id seq_list = record {
  last_reap = p.last_reap;
  time = time;
  id = id;
  seq_backtrack = p.seq_backtrack;
  time_backtrack = p.time_backtrack;
  initialized = p.initialized;
  seq_list = seq_list;
}

-- `packet_id_add`: the test for a new series of numbers.
unfoldable pub starts_series : PacketIdRec → CircList ℕ → PacketIdNet → Bool
starts_series p seq_list pin =
    (seq_list.x_size == 0 || ltb p.time pin.time)
    || (leb p.seq_backtrack pin.id && ltb p.id (pin.id - p.seq_backtrack))

-- `while (p->id < pin->id) { CIRC_LIST_PUSH (…); ++p->id; }`, with the number of rounds as fuel:
-- the number reached and the list.
unfoldable pub unseen_loop : ℕ → ℕ → ℕ → CircList ℕ → Option (ℕ × CircList ℕ)
unseen_loop zero id pin_id seq_list = if ltb id pin_id then none else some (id, seq_list)
unseen_loop (suc fuel) id pin_id seq_list =
    if ltb id pin_id
    then (do pushed ← circ_list_push seq_list seq_unseen; unseen_loop fuel (id + 1) pin_id pushed)
    else some (id, seq_list)

-- `packet_id_add`: from the loop on, at time `time` and number `id`.
unfoldable pub mark_seen : ℕ → PacketIdRec → ℕ → ℕ → PacketIdNet → CircList ℕ → Option PacketIdRec
mark_seen now p time id pin seq_list = do
  reached ← unseen_loop (pin.id - id) id pin.id seq_list
  let diff = (reached.0 + 2 ^ 32 - pin.id) % 2 ^ 32
  if ltb diff reached.1.x_size && ltb seq_expired now
      then (do
        marked ← circ_list_set reached.1 diff now
        some (with_window p time reached.0 (some marked)))
      else some (with_window p time reached.0 (some reached.1))

-- The number before the first one of the window of a new series.
unfoldable pub series_base : PacketIdRec → PacketIdNet → ℕ
series_base p pin = if ltb p.seq_backtrack pin.id then pin.id - p.seq_backtrack else 0

-- `packet_id_add` on an allocated list
unfoldable pub add_to_list : ℕ → PacketIdRec → PacketIdNet → CircList ℕ → Option PacketIdRec
add_to_list now p pin seq_list =
    if starts_series p seq_list pin
    then mark_seen now p pin.time (series_base p pin) pin (circ_list_reset seq_list)
    else mark_seen now p p.time p.id pin seq_list

-- `packet_id_add`
unfoldable pub packet_id_add : ℕ → PacketIdRec → PacketIdNet → Option PacketIdRec
packet_id_add now p pin = elim p.seq_list [
  | some seq_list ↦ add_to_list now p pin seq_list
  | none ↦ some (with_window p pin.time pin.id none)
]

-- `packet_id_test` in backtrack mode at an equal time, for a number that is not new
unfoldable pub in_window : PacketIdRec → PacketIdNet → CircList ℕ → Option Bool
in_window p pin seq_list =
    let diff = (p.id + 2 ^ 32 - pin.id) % 2 ^ 32 in
    if leb seq_list.x_size diff
    then some false
    else (do seen ← circ_list_item seq_list diff; some (seen == 0))

-- `packet_id_test` in backtrack mode; with a null list the macro would read through it.
unfoldable pub backtrack_test : PacketIdRec → PacketIdNet → Option Bool
backtrack_test p pin =
    if pin.time == p.time
    then (if ltb p.id pin.id
        then some true
        else elim p.seq_list [ none ↦ none | some seq_list ↦ in_window p pin seq_list ])
    else if ltb pin.time p.time
    then some false
    else some true

-- `packet_id_test` without backtracking
unfoldable pub sequence_test : PacketIdRec → PacketIdNet → Bool
sequence_test p pin =
    if pin.time == p.time
    then (p.id == 0 || (pin.id == (p.id + 1) % 2 ^ 32))
    else if ltb pin.time p.time
    then false
    else pin.id == 1

-- `packet_id_test`
unfoldable pub packet_id_test : PacketIdRec → PacketIdNet → Option Bool
packet_id_test p pin = do
  assert p.initialized
  if pin.id == 0
      then some false
      else if not (p.seq_backtrack == 0)
      then backtrack_test p pin
      else some (sequence_test p pin)

-- The loop of `packet_id_reap`, at item `i` with `n` rounds left.
unfoldable pub reap_loop : ℕ → ℕ → ℕ → ℕ → Bool → CircList ℕ → Option (CircList ℕ)
reap_loop zero i time_backtrack now expire seq_list = some seq_list
reap_loop (suc n) i time_backtrack now expire seq_list = do
  t ← circ_list_item seq_list i
  let expire' = expire || (not (t == 0) && ltb (t + time_backtrack) now)
  if t == seq_expired
      then some seq_list
      else if expire'
      then (do
        marked ← circ_list_set seq_list i seq_expired
        reap_loop n (i + 1) time_backtrack now true marked)
      else reap_loop n (i + 1) time_backtrack now false seq_list

-- The end of `packet_id_reap`
unfoldable pub reaped : ℕ → PacketIdRec → Option (CircList ℕ) → PacketIdRec
reaped now p seq_list = record {
  last_reap = now;
  time = p.time;
  id = p.id;
  seq_backtrack = p.seq_backtrack;
  time_backtrack = p.time_backtrack;
  initialized = p.initialized;
  seq_list = seq_list;
}

-- `packet_id_reap`
unfoldable pub packet_id_reap : ℕ → PacketIdRec → Option PacketIdRec
packet_id_reap now p =
    if p.time_backtrack == 0 then some (reaped now p p.seq_list) else elim p.seq_list [
      | none ↦ none
      | some seq_list ↦ do
        swept ← reap_loop seq_list.x_size 0 p.time_backtrack now false seq_list
        some (reaped now p (some swept))
    ]

-- `packet_id_reap_test`
unfoldable pub packet_id_reap_test : ℕ → PacketIdRec → Option PacketIdRec
packet_id_reap_test now p =
    if leb (p.last_reap + seq_reap_interval) now then packet_id_reap now p else some p
