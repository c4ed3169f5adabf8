-- ===== src/Labs/Final.antt =====
-- practica3/pruebas/sign/final.c: practica3/sign.c with traces on standard output. `readPubkey`
-- and `main` differ; the other functions are those of practica3/sign.c.
pub mod Laws
use seguridad_en_redes.Base.{
  ℕ, ◌-◌, Bool, List, [], ◌∷◌, length, ltb, ◌==◌, ◌++◌, if◌then◌else◌, replicate, codes, Bytes, M,
  pure, print, exit_with, ◌>>=◌, ◌>>◌,
}
use seguridad_en_redes.Posix.{FileSystem}
use seguridad_en_redes.Crypto.{Digest, Rsa, Base64}
use seguridad_en_redes.Hex.{converthexa}
use seguridad_en_redes.Sign.Block.{l_sha512, text_size, block_size}
use seguridad_en_redes.Sign.Check.{
  Check, good, bad, comprobar_padding, sacar_hash_firma, comparar_hashes,
}
use seguridad_en_redes.Sign.Files.{sha512, read_pubkey, leer_firma_b64, desencryptar_msg}
use seguridad_en_redes.Sign.Program.{usage, string_arg, find_signature, create_signature}

module _ (D : Digest) (R : Rsa) (B : Base64) (rsa_new : Bool) (fs : FileSystem) where
  -- `readPubkey`: prints the path, and goes on as that of practica3/sign.c.
  unfoldable pub read_pubkey_traced : Bytes → M R.Key
  read_pubkey_traced path = do print (path ++ (b'\n' ∷ [])); read_pubkey R rsa_new fs path

  -- The calls after the padding is accepted.
  unfoldable pub compare_digests : Bytes → Bytes → M (Unit {0})
  compare_digests block path_fichero = do
    print (codes "padding ok\n")
    hash ← sacar_hash_firma block (replicate l_sha512 0)
    hashed ← sha512 D fs path_fichero (replicate text_size 0) text_size (replicate l_sha512 0)
    if ltb hashed.0 0 then exit_with 1 else (do comparar_hashes hashed.1 hash; pure tt)

  -- From the print of the decrypted block on.
  unfoldable pub judge : Bytes → Bytes → M (Unit {0})
  judge block path_fichero = do
    converthexa block_size block
    r_padding ← comprobar_padding block
    elim r_padding [ good ↦ compare_digests block path_fichero | bad ↦ pure tt ]
    exit_with 0

  unfoldable pub verify_signature : Bytes → Bytes → Bytes → Bytes → M (Unit {0})
  verify_signature garbage path_signature path_fichero path_pubkey = do
    c_block ← leer_firma_b64 B fs path_signature garbage
    key ← read_pubkey_traced path_pubkey
    block ← desencryptar_msg R (replicate block_size 0) key c_block
    judge block path_fichero

  unfoldable pub main : Bytes → List Bytes → M (Unit {0})
  main garbage argv =
      if length argv == 3
      then (do
        path_fichero ← string_arg argv 1
        path_private_key ← string_arg argv 2
        create_signature D R B rsa_new fs garbage path_fichero path_private_key)
      else if length argv == 5
      then (do
        path_fichero ← string_arg argv 3
        path_pubkey ← string_arg argv 4
        path_signature ← find_signature (length argv - 1) 1 argv
        verify_signature garbage path_signature path_fichero path_pubkey)
      else (print usage >> exit_with 1)
