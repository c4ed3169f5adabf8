-- ===== src/Sign/Program.antt =====
-- `main` of practica3/sign.c.
pub mod Options
pub mod Create
pub mod Verify
use seguridad_en_redes.Base.{
  ℕ, zero, suc, ◌+◌, ◌-◌, Bool, true, false, not, ◌&&◌, List, [], ◌∷◌, Option, none, some, length,
  ltb, ◌==◌, if◌then◌else◌, replicate, codes, Bytes, M, pure, print, exit_with, crash, ◌>>=◌, ◌>>◌,
}
use seguridad_en_redes.Posix.{FileSystem, arg}
use seguridad_en_redes.Crypto.{Digest, Rsa, Base64}
use seguridad_en_redes.Sign.Block.{
  l_sha512, text_size, block_size, len_t, padding_size, build_block,
}
use seguridad_en_redes.Sign.Check.{
  Check, good, bad, comprobar_padding, sacar_hash_firma, comparar_hashes,
}
use seguridad_en_redes.Sign.Files.{
  sha512, read_privkey, read_pubkey, generar_firma_digital, leer_firma_b64, desencryptar_msg,
}

-- `strncmp (a, b, n) == 0` on strings without zero bytes.
unfoldable pub strncmp_eq : ℕ → Bytes → Bytes → Bool
strncmp_eq zero a b = true
strncmp_eq (suc n) [] [] = true
strncmp_eq (suc n) [] (y ∷ b) = false
strncmp_eq (suc n) (x ∷ a) [] = false
strncmp_eq (suc n) (x ∷ a) (y ∷ b) = x == y && strncmp_eq n a b

-- `verb_v`, and `sizeof (verb_v)`
abbrev pub verb_v : Bytes
verb_v = codes "-v"

abbrev pub usage : Bytes
usage = codes "Usage: [-v signature.pem] myfile.txt privkey.pem\n"

-- A use of `argv[i]`: a null pointer is undefined.
unfoldable pub string_arg : List Bytes → ℕ → M Bytes
string_arg argv i = do a ← arg argv i; elim a [ none ↦ crash | some s ↦ pure s ]

-- The loop that looks for `-v`, at index `i` with `n` rounds left: `pathSignature`. Without a
-- round left the variable is not set.
unfoldable pub find_signature : ℕ → ℕ → List Bytes → M Bytes
find_signature zero i argv = crash
find_signature (suc n) i argv = do
  a ← string_arg argv i
  let rest = find_signature n (i + 1) argv
  if strncmp_eq 3 verb_v a && not (i == length argv - 1)
      then string_arg argv (i + 1)
      else if i == length argv - 1
      then (print usage >> exit_with 1)
      else rest

module _ (D : Digest) (R : Rsa) (B : Base64) (rsa_new : Bool) (fs : FileSystem) where
  -- The branch `argc == 3`; `garbage` is what the uninitialised `C_BLOCK` holds.
  unfoldable pub create_signature : Bytes → Bytes → Bytes → M (Unit {0})
  create_signature garbage path_fichero path_private_key = do
    hashed ← sha512 D fs path_fichero (replicate text_size 0) text_size (replicate l_sha512 0)
    if ltb hashed.0 0 then exit_with 1 else (do
      block ←
          build_block hashed.1 (replicate len_t 0) (replicate padding_size 0)
            (replicate block_size 0)
      key ← read_privkey R rsa_new fs path_private_key
      generar_firma_digital R B block key garbage
      exit_with 0)

  -- The calls after the padding is accepted. The result of `compararHASHES` is dropped.
  unfoldable pub compare_digests : Bytes → Bytes → M (Unit {0})
  compare_digests block path_fichero = do
    hash ← sacar_hash_firma block (replicate l_sha512 0)
    hashed ← sha512 D fs path_fichero (replicate text_size 0) text_size (replicate l_sha512 0)
    if ltb hashed.0 0 then exit_with 1 else (do comparar_hashes hashed.1 hash; pure tt)

  -- The calls from `comprobarPadding` to the end.
  unfoldable pub judge : Bytes → Bytes → M (Unit {0})
  judge block path_fichero = do
    r_padding ← comprobar_padding block
    elim r_padding [ good ↦ compare_digests block path_fichero | bad ↦ pure tt ]
    exit_with 0

  -- The branch `argc == 5` after its arguments are read.
  unfoldable pub verify_signature : Bytes → Bytes → Bytes → Bytes → M (Unit {0})
  verify_signature garbage path_signature path_fichero path_pubkey = do
    c_block ← leer_firma_b64 B fs path_signature garbage
    key ← read_pubkey R rsa_new fs path_pubkey
    block ← desencryptar_msg R (replicate block_size 0) key c_block
    judge block path_fichero

  unfoldable pub main : Bytes → List Bytes → M (Unit {0})
  main garbage argv =
      if length argv == 3
      then (do
        path_fichero ← string_arg argv 1
        path_private_key ← string_arg argv 2
        create_signature garbage path_fichero path_private_key)
      else if length argv == 5
      then (do
        path_fichero ← string_arg argv 3
        path_pubkey ← string_arg argv 4
        path_signature ← find_signature (length argv - 1) 1 argv
        verify_signature garbage path_signature path_fichero path_pubkey)
      else (print usage >> exit_with 1)
