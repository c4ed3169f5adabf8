-- ===== src/Tests/SignRuns.antt =====
-- Runs of practica3/sign.c.
use seguridad_en_redes.Base.{
  ℕ, ◌≡◌, ◌↔◌, refl, [], ◌∷◌, ◌++◌, none, some, true, take, replicate, splice, codes, arith, Bytes,
  ret, exit, diag, rsa_error,
}
use seguridad_en_redes.Crypto.{Digest, Rsa, IsSized, hash, IsLawful}
use seguridad_en_redes.Sign.Block.{
  emsa_sha512_id, l_sha512, len_id, len_t, block_size, padding_size, ps_size, build_block,
}
use seguridad_en_redes.Sign.Block.Layout.{emsa_pkcs1, padding, build_block-emsa, length-emsa_pkcs1}
use seguridad_en_redes.Sign.Check.{
  Check, good, comprobar_padding, sacar_hash_firma, comparar_hashes,
}
use seguridad_en_redes.Sign.Check.Padding.{comprobar_padding_iff}
use seguridad_en_redes.Sign.Files.{sha512, desencryptar_msg}
use seguridad_en_redes.Sign.Files.Hashing.{HashEnds, sha512-HashEnds}
use seguridad_en_redes.Sign.Program.{strncmp_eq, verb_v, find_signature, main}
use seguridad_en_redes.Sign.Program.Options.{find_signature_lem}
use seguridad_en_redes.Sign.Program.Create.{
  signature_events, signed_block, main-create, main-create_rsa_error,
}
use seguridad_en_redes.Sign.Program.Verify.{accepts_any_id, create-verify, main-verify_silent}
use seguridad_en_redes.Tests.Toy.{
  digest, digest-IsLawful, rsa, rsa-IsSized, rsa-IsPair, same_size_self, base64, message, key_file,
  files,
}

abbrev sha : Digest
sha = digest l_sha512

abbrev lawful : IsLawful sha l_sha512
lawful = digest-IsLawful l_sha512

-- An RSA whose calls fail.
abbrev broken : Rsa
broken = record {
  Key = ℕ;
  private_encrypt = λ n m k. none;
  public_decrypt = λ n c k. none;
  pem_private = λ bs. some 7;
  pem_public = λ bs. some 8;
}

-- What `C_BLOCK` happens to hold.
abbrev garbage : Bytes
garbage = replicate block_size 0xaa

abbrev message_digest : Bytes
message_digest = hash sha (message.rest ++ codes "m")

broken-IsSized : IsSized broken
broken-IsSized = record { length-encrypt = λ n m c k e. cc; length-decrypt = λ n c m k e. cc }

build_block-emsa_example :
    build_block
      (replicate 64 5)
      (replicate len_t 0)
      (replicate padding_size 0)
      (replicate block_size 0)
      []
    ≡ ret [] (emsa_pkcs1 block_size emsa_sha512_id (replicate 64 5))
build_block-emsa_example =
    build_block-emsa (replicate 64 5) (replicate len_t 0) (replicate padding_size 0)
      (replicate block_size 0) [] refl refl refl refl

comprobar_padding_iff_example :
    (c : Check) × (comprobar_padding garbage [] ≡ ret [] c)
    × ((c ≡ good) ↔ (take padding_size garbage ≡ padding ps_size))
comprobar_padding_iff_example = comprobar_padding_iff garbage [] refl

sha512-HashEnds_example :
    HashEnds sha
      (codes "m")
      message
      []
      (sha512 sha files (codes "m") (replicate 2 0) 2 (replicate 64 0) [])
sha512-HashEnds_example =
    sha512-HashEnds sha lawful files (codes "m") message (replicate 2 0) 2 (replicate 64 0) [] refl
      (omega arith) (omega arith) refl

find_signature_lem_example :
    find_signature 4 1 (codes "sign" ∷ verb_v ∷ codes "s" ∷ codes "m" ∷ codes "k" ∷ []) []
    ≡ ret [] (codes "s")
unfolding strncmp_eq
find_signature_lem_example =
    find_signature_lem (codes "sign") verb_v (codes "s") (codes "m") (codes "k") []

main-create_example :
    main sha rsa base64 true files garbage (codes "sign" ∷ codes "m" ∷ codes "k" ∷ []) []
    ≡ exit (signature_events base64 (signed_block sha message (codes "m"))) 0
main-create_example =
    main-create sha lawful rsa rsa-IsSized base64 files [] garbage (codes "sign") (codes "m")
      (codes "k") message key_file 7 (signed_block sha message (codes "m")) refl refl (tt, refl)
      refl refl
      (same_size_self block_size _
        (length-emsa_pkcs1 message_digest (lawful.length-final (message.rest ++ codes "m"))))
      refl

main-create_rsa_error_example :
    main sha broken base64 true files garbage (codes "sign" ∷ codes "m" ∷ codes "k" ∷ []) []
    ≡ exit (diag rsa_error ∷ signature_events base64 garbage) 0
main-create_rsa_error_example =
    main-create_rsa_error sha lawful broken broken-IsSized base64 files [] garbage (codes "sign")
      (codes "m") (codes "k") message key_file 7 refl refl (tt, refl) refl refl refl refl

accepts_any_id_example :
    (comprobar_padding (padding ps_size ++ (replicate len_id 9 ++ replicate 64 5)) [] ≡ ret [] good)
    × (sacar_hash_firma
          (padding ps_size ++ (replicate len_id 9 ++ replicate 64 5))
          (replicate 64 0)
          []
        ≡ ret [] (replicate 64 5))
accepts_any_id_example =
    accepts_any_id [] (replicate len_id 9) (replicate 64 5) (replicate 64 0) refl refl refl

create-verify_example :
    let em = emsa_pkcs1 block_size emsa_sha512_id (replicate 64 5) in
    (desencryptar_msg rsa (replicate block_size 0) 8 em [] ≡ ret [] em)
    × (comprobar_padding em [] ≡ ret [] good)
    × (sacar_hash_firma em (replicate 64 0) [] ≡ ret [] (replicate 64 5))
    × (comparar_hashes (replicate 64 5) (replicate 64 5) [] ≡ ret [] good)
create-verify_example =
    create-verify [] rsa rsa-IsSized 7 8 (replicate 64 5)
      (emsa_pkcs1 block_size emsa_sha512_id (replicate 64 5)) (replicate block_size 0)
      (replicate 64 0) rsa-IsPair refl refl refl
      (same_size_self block_size _ (length-emsa_pkcs1 (replicate 64 5) refl))

main-verify_silent_example :
    main sha rsa base64 true files garbage
      (codes "sign" ∷ verb_v ∷ codes "k" ∷ codes "m" ∷ codes "k" ∷ [])
      []
    ≡ exit [] 0
main-verify_silent_example =
    main-verify_silent sha lawful files [] rsa rsa-IsSized base64 garbage (codes "sign") (codes "k")
      (codes "m") (codes "k") key_file key_file message 8
      (splice garbage 0 (take block_size key_file.rest)) refl refl tt refl refl
      (same_size_self block_size _ refl) refl (tt, refl)
