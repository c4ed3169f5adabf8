-- ===== src/Openvpn/PacketId/Wire.antt =====
-- Packet ids in packets: `packet_id_read` and `packet_id_write` of packet_id.c.
use seguridad_en_redes.Base.{
  ℕ, ◌+◌, ◌-◌, ◌%◌, ◌^◌, ◌≤◌, ◌<◌, ◌≡◌, refl, ap, ◌∙◌, Bool, true, false, ◌++◌, none, some,
  if◌then◌else◌, Bytes, arith,
}
use seguridad_en_redes.Openvpn.Buffer.{Buffer, buf_read, buf_write, buf_write_prepend, htonl, ntohl}
use seguridad_en_redes.Openvpn.Buffer.Laws.{
  ntohl-htonl, length-htonl, buf_read-append, buf_write_prepend_lem,
}
use seguridad_en_redes.Openvpn.PacketId.{PacketIdNet}

-- `packet_id_size`
unfoldable pub packet_id_size : Bool → ℕ
packet_id_size long_form = 4 + (if long_form then 4 else 0)

-- `packet_id_read`: the result, `pin` and the buffer as they are left.
unfoldable pub packet_id_read : Buffer → Bool → Bool × PacketIdNet × Buffer
packet_id_read buf long_form = elim (buf_read buf 4) [
  | none ↦ (false, record { id = 0; time = 0 }, buf)
  | some r ↦
      if long_form
      then elim (buf_read r.1 4) [
        | none ↦ (false, record { id = ntohl r.0; time = 0 }, r.1)
        | some s ↦ (true, record { id = ntohl r.0; time = ntohl s.0 }, s.1)
      ]
      else (true, record { id = ntohl r.0; time = 0 }, r.1)
]

-- One write, by `buf_write_prepend` or by `buf_write`, and what follows if it succeeds.
unfoldable pub write_then : Bool → Buffer → Bytes → (Buffer → Bool × Buffer) → Bool × Buffer
write_then prepend buf bytes next =
    elim (if prepend then buf_write_prepend buf bytes else buf_write buf bytes) [
      | none ↦ (false, buf)
      | some buf' ↦ next buf'
    ]

-- `packet_id_write`: the result and the buffer. What is put in front is put there backwards.
unfoldable pub packet_id_write : PacketIdNet → Buffer → Bool → Bool → Bool × Buffer
packet_id_write pin buf long_form prepend =
    let net_id = htonl pin.id in
    let net_time = htonl (pin.time % 2 ^ 32) in
    if prepend
    then (if long_form
        then write_then true buf net_time (λ b. write_then true b net_id (λ b'. (true, b')))
        else write_then true buf net_id (λ b'. (true, b')))
    else write_then false buf net_id
        (λ b. if long_form then write_then false b net_time (λ b'. (true, b')) else (true, b))

prepend-htonl :
    (buf : Buffer) (x : ℕ)
    → 4 ≤ buf.offset
    → buf_write_prepend buf (htonl x)
      ≡ some (record { offset = buf.offset - 4; content = htonl x ++ buf.content; room = buf.room })
prepend-htonl buf x h =
    buf_write_prepend_lem buf (htonl x) (omega (arith, length-htonl x))
    ∙ ap
        (λ n.
          some
            (record { offset = buf.offset - n; content = htonl x ++ buf.content; room = buf.room }))
        (length-htonl x)

-- The buffer with the time in front.
abbrev timed : Buffer → ℕ → Buffer
timed buf time = record {
  offset = buf.offset - 4;
  content = htonl time ++ buf.content;
  room = buf.room;
}

-- In front of a buffer with 8 bytes free there, a packet id with a number of 32 bits, in either
-- form, is written, takes `packet_id_size` bytes, and is read back from the result with the buffer
-- as it was: in the long form with its time modulo 2^32, in the short form with time 0.
pub packet_id_read-write :
    (pin : PacketIdNet) (buf : Buffer) (long_form : Bool)
    → pin.id < 2 ^ 32
    → 8 ≤ buf.offset
    → (buf' : Buffer) × (packet_id_write pin buf long_form true ≡ (true, buf'))
      × (buf'.offset + packet_id_size long_form ≡ buf.offset)
      × (packet_id_read buf' long_form
          ≡ (true, record { id = pin.id; time = if long_form then pin.time % 2 ^ 32 else 0 }, buf))
unfolding packet_id_write write_then packet_id_size packet_id_read
packet_id_read-write pin buf true word free = (
  record {
    offset = buf.offset - 4 - 4;
    content = htonl pin.id ++ (htonl (pin.time % 2 ^ 32) ++ buf.content);
    room = buf.room;
  },
  rw
      (
        prepend-htonl buf (pin.time % 2 ^ 32) (omega arith),
        write_then,
        prepend-htonl (timed buf (pin.time % 2 ^ 32)) pin.id (omega arith),
        write_then,
      )
      refl,
  omega arith,
  rw
      (
        buf_read-append (buf.offset - 4 - 4) buf.room 4 (htonl pin.id)
            (htonl (pin.time % 2 ^ 32) ++ buf.content) (length-htonl pin.id),
        packet_id_read,
        buf_read-append (buf.offset - 4 - 4 + 4) buf.room 4 (htonl (pin.time % 2 ^ 32)) buf.content
            (length-htonl (pin.time % 2 ^ 32)),
        packet_id_read,
        ntohl-htonl pin.id word,
        ntohl-htonl (pin.time % 2 ^ 32) (omega arith),
      )
      (ap
        (λ o. (
          true,
          record { id = pin.id; time = pin.time % 2 ^ 32 },
          record { offset = o; content = buf.content; room = buf.room },
        ))
        (omega arith)),
)
packet_id_read-write pin buf false word free = (
  record { offset = buf.offset - 4; content = htonl pin.id ++ buf.content; room = buf.room },
  rw (prepend-htonl buf pin.id (omega arith), write_then) refl,
  omega arith,
  rw
      (
        buf_read-append (buf.offset - 4) buf.room 4 (htonl pin.id) buf.content
            (length-htonl pin.id),
        packet_id_read,
        ntohl-htonl pin.id word,
      )
      (ap
        (λ o. (
          true,
          record { id = pin.id; time = 0 },
          record { offset = o; content = buf.content; room = buf.room },
        ))
        (omega arith)),
)
