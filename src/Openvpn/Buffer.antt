-- ===== src/Openvpn/Buffer.antt =====
-- The buffers of vpn/openvpn-2.2.1/buffer.h, as far as packet ids are read from and written to
-- them, the byte order of the network, and session_id.h.
pub mod Laws
use seguridad_en_redes.Base.{
  ℕ, ◌+◌, ◌-◌, ◌*◌, ◌/◌, ◌%◌, ◌^◌, Bool, true, false, not, List, [], ◌∷◌, ◌++◌, Option, none, some,
  length, take, drop, ltb, leb, ◌==◌, ◌&&◌, if◌then◌else◌, Bytes,
}

-- `struct buffer` by its three parts: `offset` bytes free in front, the content, and `room` bytes
-- free behind, `capacity - offset - len`.
pub record Buffer : Type 0 where
  pub offset : ℕ
  pub content : Bytes
  pub room : ℕ

-- `buf_read`: the bytes and the buffer behind them.
unfoldable pub buf_read : Buffer → ℕ → Option (Bytes × Buffer)
buf_read src size =
    if ltb (length src.content) size
    then none
    else some (
      take size src.content,
      record { offset = src.offset + size; content = drop size src.content; room = src.room },
    )

-- `BUF_SIZE_MAX`
abbrev pub buf_size_max : ℕ
buf_size_max = 1000000

-- `alloc_buf`: `none` for the end of the process at a size that is not valid.
unfoldable pub alloc_buf : ℕ → Option Buffer
alloc_buf size =
    if ltb size buf_size_max then some (record { offset = 0; content = []; room = size }) else none

-- `buf->capacity`
unfoldable pub capacity : Buffer → ℕ
capacity buf = buf.offset + length buf.content + buf.room

-- `buf_init`, on a buffer that has been allocated
unfoldable pub buf_init : Buffer → ℕ → Option Buffer
buf_init buf offset =
    if ltb (capacity buf) offset
    then none
    else some (record { offset = offset; content = []; room = capacity buf - offset })

-- `buf_write`
unfoldable pub buf_write : Buffer → Bytes → Option Buffer
buf_write dest src =
    if ltb (length src) buf_size_max && leb (length src) dest.room
    then some (record {
      offset = dest.offset;
      content = dest.content ++ src;
      room = dest.room - length src;
    })
    else none

-- `buf_write_prepend`
unfoldable pub buf_write_prepend : Buffer → Bytes → Option Buffer
buf_write_prepend dest src =
    if leb (length src) dest.offset
    then some (record {
      offset = dest.offset - length src;
      content = src ++ dest.content;
      room = dest.room;
    })
    else none

-- `buf_copy`
unfoldable pub buf_copy : Buffer → Buffer → Option Buffer
buf_copy dest src = buf_write dest src.content

-- `htonl`, as bytes
unfoldable pub htonl : ℕ → Bytes
htonl x = (x / 2 ^ 24 % 256) ∷ (x / 2 ^ 16 % 256) ∷ (x / 2 ^ 8 % 256) ∷ (x % 256) ∷ []

-- `ntohl`, of four bytes
unfoldable pub ntohl : Bytes → ℕ
ntohl (a ∷ b ∷ c ∷ d ∷ r) = a * 2 ^ 24 + b * 2 ^ 16 + c * 2 ^ 8 + d
ntohl _ = 0

-- `SID_SIZE`
abbrev pub sid_size : ℕ
sid_size = 8

-- `memcmp (a, b, …) == 0` on arrays of one size
unfoldable pub same_bytes : Bytes → Bytes → Bool
same_bytes [] [] = true
same_bytes [] (y ∷ b) = false
same_bytes (x ∷ a) [] = false
same_bytes (x ∷ a) (y ∷ b) = x == y && same_bytes a b

-- `session_id_equal`
unfoldable pub session_id_equal : Bytes → Bytes → Bool
session_id_equal sid1 sid2 = same_bytes sid1 sid2

-- `session_id_defined`
unfoldable pub session_id_defined : Bytes → Bool
session_id_defined sid = not (same_bytes sid (0 ∷ 0 ∷ 0 ∷ 0 ∷ 0 ∷ 0 ∷ 0 ∷ 0 ∷ []))
