-- ===== src/Sign/Program/Create.antt =====
-- What `main` of practica3/sign.c prints when it signs.
use seguridad_en_redes.Base.{
  ◌≡◌, refl, ap, sym, ◌∙◌, [], ◌∷◌, ◌++◌, true, none, some, length, replicate, append_assoc, arith,
  Bytes, Trace, ret, exit, out, diag, rsa_error, ◌>>=◌, ◌>>◌, exit_with,
}
use seguridad_en_redes.Memory.{read_at_whole, write_at_whole}
use seguridad_en_redes.Posix.{File, FileSystem, arg}
use seguridad_en_redes.Posix.Laws.{IsReadable, good_end}
use seguridad_en_redes.Crypto.{Digest, IsLawful, hash, Rsa, IsSized, Base64, wrote}
use seguridad_en_redes.Sign.Block.{
  emsa_sha512_id, l_sha512, text_size, block_size, len_t, padding_size,
}
use seguridad_en_redes.Sign.Block.Layout.{emsa_pkcs1, build_block-emsa, length-emsa_pkcs1}
use seguridad_en_redes.Sign.Files.{
  begin_line, end_line, read_privkey, encrypt_block, print_signature, generar_firma_digital,
}
use seguridad_en_redes.Sign.Files.Hashing.{sha512-HashEnds}
use seguridad_en_redes.Sign.Program.{string_arg, create_signature, main}

-- The three writes of a signature of the block `c`.
abbrev pub signature_events : Base64 → Bytes → Trace
signature_events B c = out begin_line ∷ out (B.encode c) ∷ out end_line ∷ []

module _ (R : Rsa) (z : IsSized R) (B : Base64) (t : Trace) where
  pub encrypt_block-some :
      (block c_block c : Bytes) (k : R.Key)
      → length block ≡ block_size
      → length c_block ≡ block_size
      → R.private_encrypt block_size block k ≡ some c
      → encrypt_block R block k c_block t ≡ ret t c
  unfolding encrypt_block
  encrypt_block-some block c_block c k hb hc e =
      rw (read_at_whole t block block_size hb, ◌>>=◌, e, encrypt_block)
        (write_at_whole t c_block c (z.length-encrypt block_size block c k e ∙ sym hc))

  pub print_signature_lem :
      (c : Bytes)
      → length c ≡ block_size
      → B.write ≡ wrote
      → print_signature B c t ≡ ret (t ++ signature_events B c) tt
  unfolding print_signature
  print_signature_lem c h e =
      rw (read_at_whole (t ++ (out begin_line ∷ [])) c block_size h, ◌>>=◌, e, print_signature)
        (ap (λ x. ret x tt) (rw (append_assoc, append_assoc)))

-- The block that `main` signs: the encoding of the digest of the file with its path behind it.
abbrev pub signed_block : Digest → File → Bytes → Bytes
signed_block D f path = emsa_pkcs1 block_size emsa_sha512_id (hash D (f.rest ++ path))

module _ (D : Digest) (L : IsLawful D l_sha512) (R : Rsa) (z : IsSized R) (B : Base64) where
  module _ (fs : FileSystem) (t : Trace) where
    -- Up to `generarFirmaDigital` nothing is printed.
    create_signature-key :
        (garbage path path_key : Bytes) (f kf : File) (k : R.Key)
        → fs path ≡ some f
        → IsReadable f
        → fs path_key ≡ some kf
        → R.pem_private kf.rest ≡ some k
        → create_signature D R B true fs garbage path path_key t
          ≡ (generar_firma_digital R B (signed_block D f path) k garbage >> exit_with 0) t
    unfolding create_signature read_privkey
    create_signature-key garbage path path_key f kf k e ok e' pem =
        rw
          (
            good_end
                (sha512-HashEnds D L fs path f (replicate text_size 0) text_size
                  (replicate l_sha512 0) t e (omega arith) (omega arith) (omega arith))
                ok,
            ◌>>=◌,
          )
          (rw (
            build_block-emsa (hash D (f.rest ++ path)) (replicate len_t 0)
                (replicate padding_size 0) (replicate block_size 0) t (L.length-final _) refl refl
                refl,
            ◌>>=◌,
            e',
            ◌>>=◌,
            pem,
            ◌>>=◌,
          ))

    -- For a digest with the laws of SHA-512 and an RSA whose results have the size of the key,
    -- called with a file and a private key: if both files can be read, the key parses, memory is
    -- there, RSA succeeds and standard output takes the signature, then the program prints the
    -- frame lines with the Base64 of the RSA result on the EMSA-PKCS1-v1_5 encoding of the SHA-512
    -- of the file with its path behind it, nothing else, and exits with 0.
    pub main-create :
        (garbage name path path_key : Bytes) (f kf : File) (k : R.Key) (c : Bytes)
        → length garbage ≡ block_size
        → fs path ≡ some f
        → IsReadable f
        → fs path_key ≡ some kf
        → R.pem_private kf.rest ≡ some k
        → R.private_encrypt block_size (signed_block D f path) k ≡ some c
        → B.write ≡ wrote
        → main D R B true fs garbage (name ∷ path ∷ path_key ∷ []) t
          ≡ exit (t ++ signature_events B c) 0
    unfolding main string_arg arg generar_firma_digital
    main-create garbage name path path_key f kf k c g e ok e' pem enc w =
        create_signature-key garbage path path_key f kf k e ok e' pem
        ∙ rw (
          encrypt_block-some R z B t (signed_block D f path) garbage c k
              (length-emsa_pkcs1 (hash D (f.rest ++ path)) (L.length-final _)) g enc,
          ◌>>=◌,
          print_signature_lem R z B t c (z.length-encrypt block_size _ c k enc) w,
          ◌>>=◌,
        )

    -- For a digest with the laws of SHA-512 and an RSA whose results have the size of the key,
    -- called with a file and a private key that can be read, with memory there and standard output
    -- taking what is written: if RSA fails, the program writes a message but still prints, as if it
    -- were a signature, whatever the uninitialised array `C_BLOCK` held, and exits with 0.
    pub main-create_rsa_error :
        (garbage name path path_key : Bytes) (f kf : File) (k : R.Key)
        → length garbage ≡ block_size
        → fs path ≡ some f
        → IsReadable f
        → fs path_key ≡ some kf
        → R.pem_private kf.rest ≡ some k
        → R.private_encrypt block_size (signed_block D f path) k ≡ none
        → B.write ≡ wrote
        → main D R B true fs garbage (name ∷ path ∷ path_key ∷ []) t
          ≡ exit ((t ++ (diag rsa_error ∷ [])) ++ signature_events B garbage) 0
    unfolding main string_arg arg generar_firma_digital encrypt_block
    main-create_rsa_error garbage name path path_key f kf k g e ok e' pem enc w =
        create_signature-key garbage path path_key f kf k e ok e' pem
        ∙ rw (
          read_at_whole t (signed_block D f path) block_size
              (length-emsa_pkcs1 (hash D (f.rest ++ path)) (L.length-final _)),
          ◌>>=◌,
          enc,
          ◌>>=◌,
          print_signature_lem R z B (t ++ (diag rsa_error ∷ [])) garbage g w,
          ◌>>=◌,
        )
