-- ===== src/Openvpn/Reliable/Sender.antt =====
-- The sending side of `struct reliable` in vpn/openvpn-2.2.1/reliable.c. The time, `now`, is a
-- parameter. `none` stands for a failed `ASSERT`, and for an `int` out of range.
pub mod Window
pub mod Outgoing
pub mod Retry
pub mod Best
use seguridad_en_redes.Base.{
  ℕ, zero, suc, ◌+◌, ◌-◌, ◌*◌, ◌%◌, ◌^◌, Bool, true, false, not, ◌&&◌, ◌||◌, List, [], ◌∷◌, Option,
  none, some, get_elem?, set, length, ◌==◌, ltb, leb, if◌then◌else◌,
}
use seguridad_en_redes.Openvpn.Checked.{◌>>=◌, ◌>>◌, assert}
use seguridad_en_redes.Openvpn.Buffer.{Buffer, buf_write_prepend, htonl}
use seguridad_en_redes.Openvpn.Reliable.{reliable_pid_in_range1, reliable_pid_min}
use seguridad_en_redes.Openvpn.Reliable.Entries.{ReliableEntry, Reliable, put_buf, reliable_get_buf}

-- Whether an id takes the place of the least one so far.
unfoldable pub precedes : ℕ → Option ℕ → Bool
precedes id none = true
precedes id (some least) = reliable_pid_min id least

-- `reliable_get_buf_output_sequenced`: the loop for the least active id.
unfoldable pub min_id : List ReliableEntry → Option ℕ → Option ℕ
min_id [] least = least
min_id (e ∷ array) least =
    min_id array (if e.active && precedes e.packet_id least then some e.packet_id else least)

-- `reliable_get_buf_output_sequenced`
unfoldable pub reliable_get_buf_output_sequenced : Reliable → Option (Option ℕ × Reliable)
reliable_get_buf_output_sequenced rel = elim (min_id rel.array none) [
  | none ↦ reliable_get_buf rel
  | some least ↦
      if reliable_pid_in_range1 rel.packet_id least (length rel.array)
      then reliable_get_buf rel
      else some (none, rel)
]

-- `reliable_mark_active_outgoing` on the buffer at place `i`
unfoldable pub reliable_mark_active_outgoing : Reliable → ℕ → ℕ → Option Reliable
reliable_mark_active_outgoing rel i opcode = do
  e ← get_elem? rel.array i
  written ← buf_write_prepend e.buf (htonl rel.packet_id)
  some (record rel {
    packet_id = (rel.packet_id + 1) % 2 ^ 32;
    array = set rel.array i (record {
      active = true;
      timeout = rel.initial_timeout;
      next_try = 0;
      packet_id = rel.packet_id;
      opcode = opcode;
      buf = written;
    });
  })

-- `reliable_can_send`: the number of active entries that are due.
unfoldable pub n_current : ℕ → List ReliableEntry → ℕ
n_current now [] = 0
n_current now (e ∷ array) = (if e.active && leb e.next_try now then 1 else 0) + n_current now array

-- `reliable_can_send`
unfoldable pub reliable_can_send : ℕ → Reliable → Bool
reliable_can_send now rel = ltb 0 (n_current now rel.array) && not rel.hold

-- The inner loop of `reliable_unique_retry`: an active entry has the time.
unfoldable pub is_retry : List ReliableEntry → ℕ → Bool
is_retry [] retry = false
is_retry (e ∷ array) retry = (e.active && e.next_try == retry) || is_retry array retry

-- The outer loop of `reliable_unique_retry`, with `n` rounds left.
unfoldable pub unique_retry : ℕ → List ReliableEntry → ℕ → Option ℕ
unique_retry zero array retry = none
unique_retry (suc n) array retry =
    let again = unique_retry n array (retry + 1) in
    if is_retry array retry then again else some retry

-- `reliable_unique_retry`: one round more than there are entries is enough.
unfoldable pub reliable_unique_retry : List ReliableEntry → ℕ → Option ℕ
reliable_unique_retry array retry = unique_retry (suc (length array)) array retry

-- `reliable_send`: whether an entry with this id is better than the best so far.
unfoldable pub is_better : ℕ → Option (ℕ × ReliableEntry) → Bool
is_better id none = true
is_better id (some best) = reliable_pid_min id best.1.packet_id

-- `reliable_send`: the loop for the best entry, from place `i` on.
unfoldable pub best_entry :
    ℕ → List ReliableEntry → ℕ → Option (ℕ × ReliableEntry) → Option (ℕ × ReliableEntry)
best_entry now [] i best = best
best_entry now (e ∷ array) i best =
    best_entry now array (suc i)
      (if (e.active && leb e.next_try now) && is_better e.packet_id best then some (i, e) else best)

-- `reliable_send`, for the best entry: its next try is put off, and its timeout doubled.
unfoldable pub put_off : ℕ → Reliable → ℕ → ReliableEntry → Option Reliable
put_off now rel i e = do
  retry ← reliable_unique_retry rel.array (now + e.timeout)
  assert (ltb (e.timeout * 2) (2 ^ 31))
  some (record rel {
    array = set rel.array i (record e { timeout = e.timeout * 2; next_try = retry });
  })

-- `reliable_send`: the place of the buffer with its opcode, if there is one to send.
unfoldable pub reliable_send : ℕ → Reliable → Option (Option (ℕ × ℕ) × Reliable)
reliable_send now rel = elim (best_entry now rel.array 0 none) [
  | none ↦ some (none, rel)
  | some best ↦ do after ← put_off now rel best.0 best.1; some (some (best.0, best.1.opcode), after)
]

-- `BIG_TIMEOUT`: one week
abbrev pub big_timeout : ℕ
big_timeout = 604800

-- `min_int`
unfoldable pub min_int : ℕ → ℕ → ℕ
min_int x y = if ltb x y then x else y

-- The loop of `reliable_send_timeout`; the difference of two times is made an `int`.
unfoldable pub send_timeout : ℕ → List ReliableEntry → ℕ → Option ℕ
send_timeout now [] ret = some ret
send_timeout now (e ∷ array) ret =
    let idle = send_timeout now array ret in
    let waiting = send_timeout now array (min_int ret (e.next_try - now)) in
    if not e.active
    then idle
    else if leb e.next_try now
    then some 0
    else if ltb (e.next_try - now) (2 ^ 31)
    then waiting
    else none

-- `reliable_send_timeout`
unfoldable pub reliable_send_timeout : ℕ → Reliable → Option ℕ
reliable_send_timeout now rel = send_timeout now rel.array big_timeout
