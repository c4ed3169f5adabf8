-- ===== src/Sign/Block.antt =====
-- The constants of practica3/sign.c, and the functions that lay out the signed block.
pub mod Layout
use seguridad_en_redes.Base.{ℕ, ◌+◌, ◌-◌, ◌/◌, [], ◌∷◌, length, Bytes, M, ◌>>=◌}
use seguridad_en_redes.Memory.{store, copy_loop, fill_loop}

-- `EMSASHA512ID`: the DER prefix that names SHA-512.
abbrev pub emsa_sha512_id : Bytes
emsa_sha512_id =
    0x30 ∷ 0x51 ∷ 0x30 ∷ 0x0d ∷ 0x06 ∷ 0x09 ∷ 0x60 ∷ 0x86 ∷ 0x48 ∷ 0x01 ∷ 0x65 ∷ 0x03 ∷ 0x04 ∷ 0x02
    ∷ 0x03 ∷ 0x05 ∷ 0x00 ∷ 0x04 ∷ 0x40 ∷ []

abbrev pub l_sha512 : ℕ
l_sha512 = 64

abbrev pub text_size : ℕ
text_size = 50

abbrev pub key_size : ℕ
key_size = 4096

abbrev pub block_size : ℕ
block_size = key_size / 8

abbrev pub len_id : ℕ
len_id = length emsa_sha512_id

abbrev pub len_t : ℕ
len_t = len_id + l_sha512

abbrev pub ps_size : ℕ
ps_size = block_size - len_t - 3

abbrev pub padding_size : ℕ
padding_size = block_size - l_sha512 - len_id

-- `concatenaIDsha512`
unfoldable pub concatena_id_sha512 : Bytes → Bytes → M Bytes
concatena_id_sha512 md id_sha512 = do
  with_id ← copy_loop len_id 0 id_sha512 0 emsa_sha512_id 0
  copy_loop l_sha512 0 with_id len_id md 0

-- `createPadding`: the loop runs over the indices 2 to `PADDING_SIZE - 2`.
unfoldable pub create_padding : Bytes → M Bytes
create_padding pd = do
  pd1 ← store pd 0 0x00
  pd2 ← store pd1 1 0x01
  pd3 ← fill_loop (padding_size - 1 - 2) 2 pd2 0xff
  store pd3 (padding_size - 1) 0x00

-- `concatenaPaddingHash`
unfoldable pub concatena_padding_hash : Bytes → Bytes → Bytes → M Bytes
concatena_padding_hash pd hash msg = do
  padded ← copy_loop padding_size 0 msg 0 pd 0
  copy_loop len_t 0 padded padding_size hash 0

-- The calls of `main` that build the block.
unfoldable pub build_block : Bytes → Bytes → Bytes → Bytes → M Bytes
build_block md id_sha512 pd block = do
  id_sha512' ← concatena_id_sha512 md id_sha512
  pd' ← create_padding pd
  concatena_padding_hash pd' id_sha512' block
