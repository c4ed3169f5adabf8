-- ===== src/Sign/Files.antt =====
-- The functions of practica3/sign.c that read files or call OpenSSL.
pub mod Hashing
pub mod Signature
use seguridad_en_redes.Base.{
  ℕ, zero, suc, ◌+◌, ◌-◌, Bool, true, false, not, none, some, length, ltb, ◌==◌, ◌||◌,
  if◌then◌else◌, codes, Bytes, M, out, pure, print, warn, err, err_if, crash, ◌>>=◌, ◌>>◌,
  rsa_new_null, pem_failed, rsa_error, write_no_data, write_unsupported, b64_no_data,
  b64_unsupported,
}
use seguridad_en_redes.Memory.{read_at, write_at}
use seguridad_en_redes.Posix.{
  File, failed, got, minus_one, minus_two, read, FileSystem, open_or_err, close_or_err,
}
use seguridad_en_redes.Crypto.{Digest, Rsa, Base64, wrote, no_data, unsupported}
use seguridad_en_redes.Feed.{feed_loop}
use seguridad_en_redes.Sign.Block.{block_size}

module _ (D : Digest) (fs : FileSystem) where
  -- `sha512`: the last `nr` (`stt`) and the digest. The path is hashed behind the file.
  unfoldable pub sha512 : Bytes → Bytes → ℕ → Bytes → M (ℕ × Bytes)
  sha512 path_fichero text text_len md = do
    f ← open_or_err fs path_fichero
    fed ← feed_loop D (suc (length f.rest)) f text text_len D.init
    let c = D.update fed.1 path_fichero
    close_or_err f
    md' ← write_at md 0 (D.final c)
    pure (fed.0, md')

module _ (R : Rsa) (rsa_new : Bool) (fs : FileSystem) where
  -- `readPrivkey`. `fp < 0` never holds of a pointer, so a file that does not open goes on as a
  -- null stream, which `PEM_read_RSAPrivateKey` cannot read. `rsa_new` tells whether `RSA_new`
  -- gets its memory.
  unfoldable pub read_privkey : Bytes → M R.Key
  read_privkey path = do
    err_if (not rsa_new) rsa_new_null
    elim (fs path) [
      | none ↦ crash
      | some fp ↦ elim (R.pem_private fp.rest) [ none ↦ err (pem_failed path) | some k ↦ pure k ]
    ]

  -- `readPubkey`
  unfoldable pub read_pubkey : Bytes → M R.Key
  read_pubkey path = do
    err_if (not rsa_new) rsa_new_null
    elim (fs path) [
      | none ↦ crash
      | some fp ↦ elim (R.pem_public fp.rest) [ none ↦ err (pem_failed path) | some k ↦ pure k ]
    ]

module _ (R : Rsa) where
  -- `RSA_private_encrypt`: on failure only a message, and `C_BLOCK` stays as it is.
  unfoldable pub encrypt_block : Bytes → R.Key → Bytes → M Bytes
  encrypt_block block key c_block = do
    from ← read_at block 0 block_size
    elim (R.private_encrypt block_size from key) [
      | none ↦ warn rsa_error >> pure c_block
      | some c ↦ write_at c_block 0 c
    ]

  -- `desencryptarMSG`
  unfoldable pub desencryptar_msg : Bytes → R.Key → Bytes → M Bytes
  desencryptar_msg block key c_block = do
    from ← read_at c_block 0 block_size
    elim (R.public_decrypt block_size from key) [
      | none ↦ warn rsa_error >> pure block
      | some m ↦ write_at block 0 m
    ]

abbrev pub begin_line : Bytes
begin_line = codes "---BEGIN SRO SIGNATURE---\n"

abbrev pub end_line : Bytes
end_line = codes "---END SRO SIGNATURE---\n"

-- The lines of `generarFirmaDigital` after the encryption.
unfoldable pub print_signature : Base64 → Bytes → M (Unit {0})
print_signature B c_block = do
  print begin_line
  from ← read_at c_block 0 block_size
  elim B.write [
    | no_data ↦ err write_no_data
    | unsupported ↦ err write_unsupported
    | wrote ↦ do print (B.encode from); print end_line
  ]

-- `generarFirmaDigital`
unfoldable pub generar_firma_digital : (R : Rsa) → Base64 → Bytes → R.Key → Bytes → M (Unit {0})
generar_firma_digital R B block key c_block = do
  c_block' ← encrypt_block R block key c_block
  print_signature B c_block'

-- The loop of `leerFirmaB64` over the decoded stream `f`, with `r` bytes in the block.
unfoldable pub b64_loop : ℕ → File → Bytes → ℕ → M Bytes
b64_loop zero f block r = crash
b64_loop (suc fuel) f block r = elim (read f (block_size - r)) [
  | failed minus_one ↦ err b64_no_data
  | failed minus_two ↦ err b64_unsupported
  | got chunk f' ↦ do
    block' ← write_at block r chunk
    let leido = length chunk
    let rest = b64_loop fuel f' block' (r + leido)
    if leido == 0 || ltb block_size r then pure block' else rest
]

-- `leerFirmaB64`. As above, `fp < 0` never holds.
unfoldable pub leer_firma_b64 : Base64 → FileSystem → Bytes → Bytes → M Bytes
leer_firma_b64 B fs path block = elim (fs path) [
  | none ↦ crash
  | some fp ↦
      let stream : File = record fp { rest = B.decode fp.rest } in
      b64_loop (suc (length stream.rest)) stream block 0
]
