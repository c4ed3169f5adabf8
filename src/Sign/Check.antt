-- ===== src/Sign/Check.antt =====
-- The functions of practica3/sign.c that look at a decrypted block.
pub mod Padding
pub mod Digests
use seguridad_en_redes.Base.{
  ℕ, zero, suc, ◌+◌, ◌-◌, Bool, true, false, ◌==◌, if◌then◌else◌, Bytes, M, pure, ◌>>=◌,
}
use seguridad_en_redes.Memory.{load, copy_loop}
use seguridad_en_redes.Sign.Block.{padding_size, len_id, l_sha512}

-- The results 0 and -1.
pub data Check : Type 0 where
  good bad : Check

-- `BLOCK[0] != 0x00 || BLOCK[1] != 0x01 || BLOCK[PADDING_SIZE - 1] != 0x00`, negated.
unfoldable pub frame_ok : Bytes → M Bool
frame_ok block = do
  b0 ← load block 0
  if b0 == 0x00
      then (do
        b1 ← load block 1
        if b1 == 0x01
            then (do b2 ← load block (padding_size - 1); pure (b2 == 0x00))
            else pure false)
      else pure false

-- for (i = …; n rounds; i++) if (BLOCK[i] != 0xFF) { padding = -1; break; }
unfoldable pub ff_loop : ℕ → ℕ → Bytes → Check → M Check
ff_loop zero i block padding = pure padding
ff_loop (suc n) i block padding = do
  b ← load block i
  let rest = ff_loop n (i + 1) block padding
  if b == 0xff then rest else pure bad

-- `comprobarPadding`
unfoldable pub comprobar_padding : Bytes → M Check
comprobar_padding block = do
  framed ← frame_ok block
  ff_loop (padding_size - 1 - 2) 2 block (if framed then good else bad)

-- `sacarHashFirma`
unfoldable pub sacar_hash_firma : Bytes → Bytes → M Bytes
sacar_hash_firma block hash = copy_loop l_sha512 0 hash 0 block (padding_size + len_id)

-- for (i = …; n rounds; i++) if (md[i] != HASH[i]) { cmp = -1; break; }
unfoldable pub compare_loop : ℕ → ℕ → Bytes → Bytes → M Check
compare_loop zero i md hash = pure good
compare_loop (suc n) i md hash = do
  a ← load md i
  b ← load hash i
  let rest = compare_loop n (i + 1) md hash
  if a == b then rest else pure bad

-- `compararHASHES`
unfoldable pub comparar_hashes : Bytes → Bytes → M Check
comparar_hashes md hash = compare_loop l_sha512 0 md hash
