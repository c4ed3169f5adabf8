-- ===== src/Openvpn/Reliable.antt =====
-- vpn/openvpn-2.2.1/reliable.c: the order of packet ids, and the records of acknowledged packets.
-- A `struct reliable_ack` is the list of its first `len` ids.
pub mod Order
pub mod Acks
mod Ids
pub mod Wire
pub mod Entries
pub mod Receiver
pub mod Sender
use seguridad_en_redes.Base.{
  ℕ, zero, suc, ◌+◌, ◌-◌, ◌*◌, ◌%◌, ◌^◌, Bool, true, false, not, ◌&&◌, ◌||◌, List, [], ◌∷◌, ◌++◌,
  Option, none, some, length, take, drop, get_or, ltb, leb, ◌==◌, if◌then◌else◌, Bytes,
}
use seguridad_en_redes.Openvpn.Checked.{◌>>=◌, ◌>>◌, assert}
use seguridad_en_redes.Openvpn.Buffer.{
  Buffer, buf_read, buf_write, buf_write_prepend, htonl, ntohl, sid_size, session_id_equal,
  session_id_defined,
}

-- `reliable_pid_in_range1`
unfoldable pub reliable_pid_in_range1 : ℕ → ℕ → ℕ → Bool
reliable_pid_in_range1 test base extent =
    if leb base test
    then ltb (test - base) extent
    else ltb (((test + 2 ^ 31) % 2 ^ 32 + 2 ^ 32 - (base + 2 ^ 31) % 2 ^ 32) % 2 ^ 32) extent

-- `reliable_pid_in_range2`
unfoldable pub reliable_pid_in_range2 : ℕ → ℕ → ℕ → Bool
reliable_pid_in_range2 test base extent =
    if leb base ((base + extent) % 2 ^ 32)
    then ltb test ((base + extent) % 2 ^ 32)
    else ltb ((test + 2 ^ 31) % 2 ^ 32) (((base + 2 ^ 31) % 2 ^ 32 + extent) % 2 ^ 32)

-- `reliable_pid_min`
unfoldable pub reliable_pid_min : ℕ → ℕ → Bool
reliable_pid_min p1 p2 = not (reliable_pid_in_range1 p1 p2 (2 ^ 31))

-- `RELIABLE_ACK_SIZE`
abbrev pub reliable_ack_size : ℕ
reliable_ack_size = 8

-- `reliable_ack_empty`
unfoldable pub reliable_ack_empty : List ℕ → Bool
reliable_ack_empty ack = length ack == 0

-- `reliable_ack_packet_id_present`
unfoldable pub reliable_ack_packet_id_present : List ℕ → ℕ → Bool
reliable_ack_packet_id_present [] pid = false
reliable_ack_packet_id_present (p ∷ ack) pid = p == pid || reliable_ack_packet_id_present ack pid

-- `reliable_ack_acknowledge_packet_id`: the result and the record.
unfoldable pub reliable_ack_acknowledge_packet_id : List ℕ → ℕ → Bool × List ℕ
reliable_ack_acknowledge_packet_id ack pid =
    if not (reliable_ack_packet_id_present ack pid) && ltb (length ack) reliable_ack_size
    then (true, ack ++ (pid ∷ []))
    else (false, ack)

-- `reliable_ack_read_packet_id`
unfoldable pub reliable_ack_read_packet_id : Buffer → Option (ℕ × Buffer)
reliable_ack_read_packet_id buf = do r ← buf_read buf 4; some (ntohl r.0, r.1)

-- A result of `reliable_ack_read`, with the record and the buffer as it leaves them.
abbrev pub AckRead : Type 0
AckRead = Bool × List ℕ × Buffer

-- The loop of `reliable_ack_read`, with `n` rounds left.
unfoldable pub read_ids : ℕ → List ℕ → Buffer → AckRead
read_ids zero ack buf = (true, ack, buf)
read_ids (suc n) ack buf = elim (buf_read buf 4) [
  | none ↦ (false, ack, buf)
  | some r ↦
      if leb reliable_ack_size (length ack)
      then (false, ack, r.1)
      else read_ids n (ack ++ (ntohl r.0 ∷ [])) r.1
]

-- `reliable_ack_read`: the session id behind the ids.
unfoldable pub read_session : List ℕ → Buffer → Bytes → AckRead
read_session ack buf sid = elim (buf_read buf sid_size) [
  | none ↦ (false, ack, buf)
  | some r ↦
      if not (session_id_defined r.0) || not (session_id_equal r.0 sid)
      then (false, ack, r.1)
      else (true, ack, r.1)
]

-- `reliable_ack_read`: from the count on.
unfoldable pub read_counted : ℕ → List ℕ → Buffer → Bytes → AckRead
read_counted count ack buf sid =
    let ids = read_ids count ack buf in
    if ids.0 && not (count == 0) then read_session ids.1 ids.2 sid else ids

-- `reliable_ack_read`
unfoldable pub reliable_ack_read : List ℕ → Buffer → Bytes → AckRead
reliable_ack_read ack buf sid = elim (buf_read buf 1) [
  | none ↦ (false, ack, buf)
  | some r ↦ read_counted (get_or r.0 0 0) ack r.1 sid
]

-- The bytes of the ids, in the order of the network.
unfoldable pub net_ids : List ℕ → Bytes
net_ids [] = []
net_ids (pid ∷ ack) = htonl pid ++ net_ids ack

-- The `ACK_SIZE (n)` bytes that `reliable_ack_write` writes.
unfoldable pub ack_bytes : ℕ → List ℕ → Bytes → Bytes
ack_bytes n ack sid = n ∷ (net_ids (take n ack) ++ (if n == 0 then [] else sid))

-- `reliable_ack_write`: the result, the record without what was written, and the buffer.
unfoldable pub reliable_ack_write :
    List ℕ → Buffer → Bytes → ℕ → Bool → Option (Bool × List ℕ × Buffer)
reliable_ack_write ack buf sid max prepend =
    let n = if ltb max (length ack) then max else length ack in
    elim (if prepend
      then buf_write_prepend buf (ack_bytes n ack sid)
      else buf_write buf (ack_bytes n ack sid)) [
        | none ↦ some (false, ack, buf)
        | some buf' ↦ do assert (n == 0 || session_id_defined sid); some (true, drop n ack, buf')
      ]
