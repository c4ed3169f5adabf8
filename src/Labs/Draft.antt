-- ===== src/Labs/Draft.antt =====
-- practica3/pruebas/2sha512/2sha512.c: an earlier signer, which shares most functions with
-- practica3/sign.c. Its `createPadding` and `main` differ.
pub mod Laws
use seguridad_en_redes.Base.{
  ℕ, ◌+◌, ◌-◌, List, true, length, ltb, if◌then◌else◌, replicate, Bytes, M, print, exit_with, ◌>>=◌,
  ◌>>◌,
}
use seguridad_en_redes.Memory.{store, fill_loop}
use seguridad_en_redes.Posix.{FileSystem}
use seguridad_en_redes.Crypto.{Digest, Rsa, Base64}
use seguridad_en_redes.Hex.{converthexa}
use seguridad_en_redes.Sign.Block.{
  l_sha512, text_size, block_size, len_t, padding_size, concatena_id_sha512, concatena_padding_hash,
}
use seguridad_en_redes.Sign.Files.{sha512, read_privkey, generar_firma_digital}
use seguridad_en_redes.Sign.Program.{usage, string_arg}

-- `createPadding`: here the loop runs on to the last index, which is then overwritten.
unfoldable pub create_padding : Bytes → M Bytes
create_padding pd = do
  pd1 ← store pd 0 0x00
  pd2 ← store pd1 1 0x01
  pd3 ← fill_loop (padding_size - 2) 2 pd2 0xff
  store pd3 (padding_size - 1) 0x00

module _ (D : Digest) (R : Rsa) (B : Base64) (fs : FileSystem) where
  -- `main` behind its test of `argc`; `garbage` is what the uninitialised `C_BLOCK` holds.
  unfoldable pub create_signature : Bytes → Bytes → Bytes → M (Unit {0})
  create_signature garbage path_fichero path_private_key = do
    hashed ← sha512 D fs path_fichero (replicate text_size 0) text_size (replicate l_sha512 0)
    if ltb hashed.0 0 then exit_with 1 else (do
      id_sha512 ← concatena_id_sha512 hashed.1 (replicate len_t 0)
      converthexa len_t id_sha512
      padding ← create_padding (replicate padding_size 0)
      block ← concatena_padding_hash padding id_sha512 (replicate block_size 0)
      key ← read_privkey R true fs path_private_key
      generar_firma_digital R B block key garbage
      exit_with 0)

  unfoldable pub main : Bytes → List Bytes → M (Unit {0})
  main garbage argv = if ltb (length argv) 3 then (print usage >> exit_with 1) else (do
    path_fichero ← string_arg argv 1
    path_private_key ← string_arg argv 2
    create_signature garbage path_fichero path_private_key)
