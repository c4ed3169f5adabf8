-- ===== src/Openvpn/Reliable/Entries.antt =====
-- `struct reliable` of reliable.c: the packets that wait for an acknowledgment, or for their turn.
-- The pointer to the buffer of an entry is the place of the entry in the array.
pub mod Laws
use seguridad_en_redes.Base.{
  ℕ, zero, suc, ◌+◌, ◌%◌, ◌^◌, Bool, true, false, not, ◌&&◌, ◌||◌, List, [], ◌∷◌, Option, none,
  some, get_elem?, set, length, ◌==◌, ltb, leb, if◌then◌else◌,
}
use seguridad_en_redes.Openvpn.Checked.{◌>>=◌, ◌>>◌, assert}
use seguridad_en_redes.Openvpn.Buffer.{Buffer, alloc_buf, buf_init}
use seguridad_en_redes.Openvpn.Reliable.{reliable_pid_in_range2, reliable_pid_min}

-- `struct reliable_entry`
pub record ReliableEntry : Type 0 where
  pub active : Bool
  pub timeout : ℕ
  pub next_try : ℕ
  pub packet_id : ℕ
  pub opcode : ℕ
  pub buf : Buffer

-- `struct reliable`; `size` is the length of the array.
pub record Reliable : Type 0 where
  pub initial_timeout : ℕ
  pub packet_id : ℕ
  pub offset : ℕ
  pub hold : Bool
  pub array : List ReliableEntry

-- `RELIABLE_CAPACITY`
abbrev pub reliable_capacity : ℕ
reliable_capacity = 8

-- The loop of `reliable_init`: `n` entries with their buffers.
unfoldable pub init_entries : ℕ → ℕ → ℕ → Option (List ReliableEntry)
init_entries buf_size offset zero = some []
init_entries buf_size offset (suc n) = do
  allocated ← alloc_buf buf_size
  buf ← buf_init allocated offset
  rest ← init_entries buf_size offset n
  some (
      record { active = false; timeout = 0; next_try = 0; packet_id = 0; opcode = 0; buf = buf }
      ∷ rest)

-- `reliable_init`
unfoldable pub reliable_init : ℕ → ℕ → ℕ → Bool → Option Reliable
reliable_init buf_size offset array_size hold = do
  assert (ltb 0 array_size && leb array_size reliable_capacity)
  array ← init_entries buf_size offset array_size
  some (record { initial_timeout = 0; packet_id = 0; offset = offset; hold = hold; array = array })

-- `reliable_set_timeout`
unfoldable pub reliable_set_timeout : Reliable → ℕ → Reliable
reliable_set_timeout rel timeout = record rel { initial_timeout = timeout }

-- `reliable_empty`
unfoldable pub reliable_empty : List ReliableEntry → Bool
reliable_empty [] = true
reliable_empty (e ∷ array) = not e.active && reliable_empty array

-- `reliable_can_get`
unfoldable pub reliable_can_get : List ReliableEntry → Bool
reliable_can_get [] = false
reliable_can_get (e ∷ array) = not e.active || reliable_can_get array

-- The loop of `reliable_not_replay`: an active entry with the id.
unfoldable pub is_active : List ReliableEntry → ℕ → Bool
is_active [] id = false
is_active (e ∷ array) id = (e.active && e.packet_id == id) || is_active array id

-- `reliable_not_replay`
unfoldable pub reliable_not_replay : Reliable → ℕ → Bool
reliable_not_replay rel id = not (reliable_pid_min id rel.packet_id) && not (is_active rel.array id)

-- `reliable_wont_break_sequentiality`
unfoldable pub reliable_wont_break_sequentiality : Reliable → ℕ → Bool
reliable_wont_break_sequentiality rel id =
    reliable_pid_in_range2 id rel.packet_id (length rel.array)

-- The next place of the array.
unfoldable pub next_place : Option ℕ → Option ℕ
next_place none = none
next_place (some i) = some (suc i)

-- `reliable_get_buf`: the place of the first entry that is not active.
unfoldable pub free_place : List ReliableEntry → Option ℕ
free_place [] = none
free_place (e ∷ array) = if e.active then next_place (free_place array) else some 0

-- The array with another buffer at place `i`.
unfoldable pub put_buf : List ReliableEntry → ℕ → Buffer → List ReliableEntry
put_buf [] i buf = []
put_buf (e ∷ array) zero buf = record e { buf = buf } ∷ array
put_buf (e ∷ array) (suc i) buf = e ∷ put_buf array i buf

-- `reliable_get_buf`, at the place found: its buffer is emptied.
unfoldable pub get_buf_at : Reliable → ℕ → Option (Option ℕ × Reliable)
get_buf_at rel i = do
  e ← get_elem? rel.array i
  buf ← buf_init e.buf rel.offset
  some (some i, record rel { array = put_buf rel.array i buf })

-- `reliable_get_buf`: the place, unless all entries are active, and the array.
unfoldable pub reliable_get_buf : Reliable → Option (Option ℕ × Reliable)
reliable_get_buf rel = elim (free_place rel.array) [
  | none ↦ some (none, rel)
  | some i ↦ get_buf_at rel i
]

-- `reliable_get_buf_sequenced`, for the id that is due
unfoldable pub reliable_get_buf_sequenced : List ReliableEntry → ℕ → Option ℕ
reliable_get_buf_sequenced [] due = none
reliable_get_buf_sequenced (e ∷ array) due =
    if e.active && e.packet_id == due
    then some 0
    else next_place (reliable_get_buf_sequenced array due)

-- `reliable_mark_active_incoming` on the buffer at place `i`
unfoldable pub reliable_mark_active_incoming : Reliable → ℕ → ℕ → ℕ → Option Reliable
reliable_mark_active_incoming rel i pid opcode = do
  e ← get_elem? rel.array i
  assert (not (reliable_pid_min pid rel.packet_id))
  some (record rel {
    array =
        set rel.array i
          (record e { active = true; timeout = 0; next_try = 0; packet_id = pid; opcode = opcode });
  })

-- An entry that is no longer active.
unfoldable pub deactivated : ReliableEntry → ReliableEntry
deactivated e = record e { active = false }

-- `reliable_mark_deleted` on the buffer at place `i`
unfoldable pub reliable_mark_deleted : Reliable → ℕ → Bool → Option Reliable
reliable_mark_deleted rel i inc_pid = do
  e ← get_elem? rel.array i
  some (record rel {
    packet_id = if inc_pid then (e.packet_id + 1) % 2 ^ 32 else rel.packet_id;
    array = set rel.array i (deactivated e);
  })

-- The inner loop of `reliable_send_purge`: the first active entry with the id is deactivated.
unfoldable pub purge_id : ℕ → List ReliableEntry → List ReliableEntry
purge_id pid [] = []
purge_id pid (e ∷ array) =
    if e.active && e.packet_id == pid then deactivated e ∷ array else e ∷ purge_id pid array

-- `reliable_send_purge`
unfoldable pub reliable_send_purge : List ℕ → List ReliableEntry → List ReliableEntry
reliable_send_purge [] array = array
reliable_send_purge (pid ∷ ack) array = reliable_send_purge ack (purge_id pid array)

-- `reliable_schedule_now`
unfoldable pub schedule_entries : ℕ → ℕ → List ReliableEntry → List ReliableEntry
schedule_entries now timeout [] = []
schedule_entries now timeout (e ∷ array) =
    (if e.active then record e { timeout = timeout; next_try = now } else e)
    ∷ schedule_entries now timeout array

unfoldable pub reliable_schedule_now : ℕ → Reliable → Reliable
reliable_schedule_now now rel = record rel {
  hold = false;
  array = schedule_entries now rel.initial_timeout rel.array;
}
