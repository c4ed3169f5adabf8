-- ===== src/Openvpn/Reliable/Receiver.antt =====
-- The receiving side of the control channel: what ssl.c of vpn/openvpn-2.2.1 does with a
-- `struct reliable` when a control packet comes in and when the TLS object takes one. The BIO of
-- OpenSSL is a parameter: what `BIO_write` answers to the bytes.
pub mod Window
pub mod Stored
pub mod Removed
pub mod Save
pub mod Inbox
pub mod Arrival
pub mod Turn
pub mod Stream
pub mod Started
pub mod Progress
use seguridad_en_redes.Base.{
  ℕ, zero, suc, ◌+◌, ◌%◌, ◌^◌, Bool, true, false, not, ◌&&◌, List, [], ◌∷◌, Option, none, some,
  get_elem?, length, ltb, ◌==◌, if◌then◌else◌, Bytes,
}
use seguridad_en_redes.Openvpn.Checked.{◌>>=◌}
use seguridad_en_redes.Openvpn.Buffer.{Buffer, buf_copy}
use seguridad_en_redes.Openvpn.Reliable.{
  reliable_ack_read_packet_id, reliable_ack_acknowledge_packet_id,
}
use seguridad_en_redes.Openvpn.Reliable.Entries.{
  ReliableEntry, Reliable, reliable_can_get, reliable_wont_break_sequentiality, reliable_not_replay,
  reliable_get_buf, reliable_get_buf_sequenced, reliable_mark_active_incoming,
  reliable_mark_deleted, put_buf,
}

-- `P_ACK_V1`
abbrev pub p_ack_v1 : ℕ
p_ack_v1 = 5

-- `tls_pre_decrypt`: the packet is copied to a free buffer, which becomes active.
unfoldable pub save_packet : Reliable → Buffer → ℕ → ℕ → Option Reliable
save_packet rec_reliable packet id op = do
  r ← reliable_get_buf rec_reliable
  i ← r.0
  e ← get_elem? r.1.array i
  copied ← buf_copy e.buf packet
  reliable_mark_active_incoming (record r.1 { array = put_buf r.1.array i copied }) i id op

-- `tls_pre_decrypt`: a packet that does not break the sequence is saved unless it is a replay.
unfoldable pub save_new : Reliable → Buffer → ℕ → ℕ → Option Reliable
save_new rec_reliable packet id op =
    if reliable_not_replay rec_reliable id
    then save_packet rec_reliable packet id op
    else some rec_reliable

-- `tls_pre_decrypt`: such a packet is acknowledged, a replay too.
unfoldable pub save_and_acknowledge :
    Reliable → List ℕ → Buffer → ℕ → ℕ → Option (Reliable × List ℕ)
save_and_acknowledge rec_reliable rec_ack packet id op = do
  saved ← save_new rec_reliable packet id op
  some (saved, (reliable_ack_acknowledge_packet_id rec_ack id).1)

-- `tls_pre_decrypt`: a packet whose id has been read.
unfoldable pub take_packet : Reliable → List ℕ → Buffer → ℕ → ℕ → Option (Reliable × List ℕ)
take_packet rec_reliable rec_ack packet id op =
    if reliable_wont_break_sequentiality rec_reliable id
    then save_and_acknowledge rec_reliable rec_ack packet id op
    else some (rec_reliable, rec_ack)

-- `tls_pre_decrypt`: the end of a control packet's way, from its id on.
unfoldable pub control_packet : Reliable → List ℕ → Buffer → ℕ → Option (Reliable × List ℕ)
control_packet rec_reliable rec_ack buf op =
    if not (op == p_ack_v1) && reliable_can_get rec_reliable.array
    then elim (reliable_ack_read_packet_id buf) [
      | none ↦ some (rec_reliable, rec_ack)
      | some r ↦ take_packet rec_reliable rec_ack r.1 r.0 op
    ]
    else some (rec_reliable, rec_ack)

-- What `BIO_write` answers: the number of bytes it took, or a negative result, for which
-- `BIO_should_retry` says whether it is an error.
pub data Written : Type 0 where
  wrote : ℕ → Written
  retry refused : Written

-- What `bio_write` answers: -1, 0 or 1.
pub data Status : Type 0 where
  failed not_now done : Status

-- A call of `BIO_write`: the bytes that it is given, and its answer.
abbrev pub Call : Type 0
Call = Bytes × Written

-- `bio_write`, for `size` bytes: another number of bytes than was asked for is an error.
unfoldable pub write_status : Written → ℕ → Status
write_status (wrote n) size = if n == size then done else failed
write_status retry size = not_now
write_status refused size = failed

-- `bio_write`: its result, and the calls of `BIO_write`.
unfoldable pub bio_write : (Bytes → Written) → Bytes → Status × List Call
bio_write bio [] = (not_now, [])
bio_write bio (b ∷ bytes) =
    let answer = bio (b ∷ bytes) in
    (write_status answer (length (b ∷ bytes)), (b ∷ bytes, answer) ∷ [])

-- `bio_write_post`: what was written is erased.
unfoldable pub bio_write_post : Status → Buffer → Buffer
bio_write_post done buf = record {
  offset = buf.offset;
  content = [];
  room = buf.room + length buf.content;
}
bio_write_post _ buf = buf

-- `key_state_write_ciphertext`
unfoldable pub key_state_write_ciphertext : (Bytes → Written) → Buffer → Status × Buffer × List Call
key_state_write_ciphertext bio buf =
    let ret = bio_write bio buf.content in (ret.0, bio_write_post ret.0 buf, ret.1)

-- `tls_process`: the status for the packet in turn; an empty packet counts as written.
unfoldable pub write_packet : (Bytes → Written) → Buffer → Status × Buffer × List Call
write_packet bio buf =
    if length buf.content == 0 then (done, buf, []) else key_state_write_ciphertext bio buf

-- `tls_process`, from the status on: what was written is deleted, and its id counted.
unfoldable pub written : Reliable → ℕ → Status → Option Reliable
written rec_reliable i done = reliable_mark_deleted rec_reliable i true
written rec_reliable i _ = some rec_reliable

-- `tls_process`: incoming ciphertext goes to the TLS object. The status, if there was a packet in
-- turn, and the calls of `BIO_write`; at `failed` the session ends.
unfoldable pub deliver :
    (Bytes → Written) → Reliable → Option (Option Status × Reliable × List Call)
deliver bio rec_reliable =
    elim (reliable_get_buf_sequenced rec_reliable.array rec_reliable.packet_id) [
      | none ↦ some (none, rec_reliable, [])
      | some i ↦ do
        e ← get_elem? rec_reliable.array i
        let r = write_packet bio e.buf
        after ← written (record rec_reliable { array = put_buf rec_reliable.array i r.1 }) i r.0
        some (some r.0, after, r.2)
    ]
