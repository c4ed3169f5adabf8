-- ===== src/Tests/LabsRuns.antt =====
-- Runs of the trial programs.
use seguridad_en_redes.Base.{◌≡◌, refl, [], ◌∷◌, ◌++◌, replicate, codes, exit}
use seguridad_en_redes.Crypto.{Digest, IsLawful, hash}
use seguridad_en_redes.Hex.Laws.{hex_line}
use seguridad_en_redes.Sign.Block.{emsa_sha512_id, l_sha512, block_size}
use seguridad_en_redes.Sign.Block.Layout.{length-emsa_pkcs1}
use seguridad_en_redes.Sign.Program.Create.{signature_events, signed_block}
use seguridad_en_redes.Labs.Draft
use seguridad_en_redes.Labs.Draft.Laws.{main-signature}
use seguridad_en_redes.Tests.Toy.{
  digest, digest-IsLawful, rsa, rsa-IsSized, same_size_self, base64, message, key_file, files,
}

abbrev sha : Digest
sha = digest l_sha512

abbrev lawful : IsLawful sha l_sha512
lawful = digest-IsLawful l_sha512

main-signature_example :
    Draft.main sha rsa base64 files
      (replicate block_size 0)
      (codes "s" ∷ codes "m" ∷ codes "k" ∷ [])
      []
    ≡ exit
        (hex_line (emsa_sha512_id ++ hash sha (message.rest ++ codes "m"))
          ++ signature_events base64 (signed_block sha message (codes "m")))
        0
main-signature_example =
    main-signature sha lawful rsa rsa-IsSized base64 files (replicate block_size 0) (codes "s")
      (codes "m") (codes "k") [] message key_file 7 (signed_block sha message (codes "m")) [] refl
      refl (tt, refl) refl refl
      (same_size_self block_size (signed_block sha message (codes "m")) (
        length-emsa_pkcs1 (hash sha (message.rest ++ codes "m"))
          (lawful.length-final (message.rest ++ codes "m"))))
      refl
