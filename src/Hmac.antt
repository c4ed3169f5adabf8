-- ===== src/Hmac.antt =====
-- practica2/hmacsha1.c: HMAC-SHA1 of a file under a key that another file holds.
pub mod Keys
pub mod Pads
pub mod Laws
pub mod Program
use seguridad_en_redes.Base.{
  ℕ, zero, suc, ◌+◌, ◌-◌, [], ◌∷◌, List, Option, none, some, ltb, ◌==◌, ◌||◌, if◌then◌else◌, length,
  replicate, codes, bit_xor, Bytes, M, pure, print, err, exit_with, crash, ◌>>=◌, ◌>>◌, read_failed,
}
use seguridad_en_redes.Memory.{load, store, read_at, write_at}
use seguridad_en_redes.Posix.{File, failed, got, read, FileSystem, open_or_err, close_or_err, arg}
use seguridad_en_redes.Crypto.{Digest}
use seguridad_en_redes.Feed.{feed_loop}
use seguridad_en_redes.Hex.{converthexa}

-- `K_SIZE`, `TEXT_SIZE` and `SHA_DIGEST_LENGTH`
abbrev pub k_size : ℕ
k_size = 64

abbrev pub text_size : ℕ
text_size = 50

abbrev pub sha_digest_length : ℕ
sha_digest_length = 20

-- The two pads after the loop `k_ipad[i] ^= 0x36; k_opad[i] ^= 0x5c;`.
abbrev pub Pads : Type 0
Pads = Bytes × Bytes

unfoldable pub xor_loop : ℕ → ℕ → Bytes → Bytes → M Pads
xor_loop zero i k_ipad k_opad = pure (k_ipad, k_opad)
xor_loop (suc n) i k_ipad k_opad = do
  x ← load k_ipad i
  k_ipad' ← store k_ipad i (bit_xor x 0x36)
  y ← load k_opad i
  k_opad' ← store k_opad i (bit_xor y 0x5c)
  xor_loop n (i + 1) k_ipad' k_opad'

-- `readkey`: the loop, over `f` with `t` bytes read and `s` still wanted.
unfoldable pub readkey_loop : ℕ → File → Bytes → ℕ → ℕ → ℕ → M Bytes
readkey_loop zero f key size_key t s = crash
readkey_loop (suc fuel) f key size_key t s = elim (read f (size_key - t)) [
  | failed _ ↦ err read_failed
  | got chunk f' ↦ do
    key' ← write_at key t chunk
    let nr = length chunk
    let rest = readkey_loop fuel f' key' size_key (t + nr) (s - nr)
    if nr == 0
        then pure key'
        else if ltb size_key (t + nr) || (s - nr) == 0
        then pure key'
        else rest
]

module _ (fs : FileSystem) where
  -- The bytes of the file, and one round more for the end of the file, bound the loop.
  unfoldable pub readkey : Bytes → Bytes → ℕ → M Bytes
  readkey path_fich key size_key = do
    f ← open_or_err fs path_fich
    key' ← readkey_loop (suc (length f.rest)) f key size_key 0 size_key
    close_or_err f
    pure key'

module _ (D : Digest) where
  module _ (fs : FileSystem) where
    unfoldable pub hmacsha1 : Bytes → Bytes → ℕ → Bytes → ℕ → Bytes → M (Unit {0})
    hmacsha1 path_fichero text text_len key key_len md = do
      key_bytes ← read_at key 0 key_len
      k_ipad ← write_at (replicate k_size 0) 0 key_bytes
      k_opad ← write_at (replicate k_size 0) 0 key_bytes
      pads ← xor_loop k_size 0 k_ipad k_opad
      inner_pad ← read_at pads.0 0 k_size
      f ← open_or_err fs path_fichero
      fed ← feed_loop D (suc (length f.rest)) f text text_len (D.update D.init inner_pad)
      close_or_err f
      md' ← write_at md 0 (D.final fed.1)
      outer_pad ← read_at pads.1 0 k_size
      inner_hash ← read_at md' 0 sha_digest_length
      md'' ← write_at md' 0 (D.final (D.update (D.update D.init outer_pad) inner_hash))
      converthexa sha_digest_length md''

    -- The rest of `main`; a null path is undefined.
    unfoldable pub run : Option Bytes → Option Bytes → M (Unit {0})
    run (some path_fichero) (some path_key) = do
      key ← readkey fs path_key (replicate k_size 0) k_size
      hmacsha1 path_fichero (replicate text_size 0) text_size key k_size
          (replicate sha_digest_length 0)
      exit_with 0
    run path_fichero path_key = crash

    -- With the test of `argc` after the reads of `argv[1]` and `argv[2]`.
    unfoldable pub main : List Bytes → M (Unit {0})
    main argv = do
      path_fichero ← arg argv 1
      path_key ← arg argv 2
      if ltb (length argv) 3
          then (print (codes "Usage: ./nombreprograma myfile.txt key\n") >> exit_with 1)
          else run path_fichero path_key
