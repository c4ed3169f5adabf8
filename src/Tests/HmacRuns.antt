-- ===== src/Tests/HmacRuns.antt =====
-- Runs of practica2/hmacsha1.c.
use seguridad_en_redes.Base.{◌≡◌, refl, [], ◌∷◌, List, take, replicate, codes, Bytes, ret, exit}
use seguridad_en_redes.Memory.{load, store, write_at}
use seguridad_en_redes.Posix.{read, open_or_err, close_or_err}
use seguridad_en_redes.Crypto.{Digest}
use seguridad_en_redes.Hex.Laws.{hex_line}
use seguridad_en_redes.Hmac.{k_size, sha_digest_length, main, xor_loop, readkey, readkey_loop}
use seguridad_en_redes.Hmac.Laws.{hmac}
use seguridad_en_redes.Hmac.Program.{Ends, main-hmac, main-Ends}
use seguridad_en_redes.Tests.Toy.{digest, digest-IsLawful, message, key_file, files}

abbrev sha1 : Digest
sha1 = digest sha_digest_length

-- The program's arguments.
abbrev words : List Bytes
words = codes "hmac" ∷ codes "m" ∷ codes "k" ∷ []

main-hmac_example :
    main sha1 files words []
    ≡ exit (hex_line (hmac sha1 k_size (take k_size key_file.rest) message.rest)) 0
main-hmac_example =
    main-hmac sha1 (digest-IsLawful sha_digest_length) files (codes "hmac") (codes "m") (codes "k")
      [] message key_file [] refl refl (tt, refl) (tt, refl)

main-Ends_example :
    Ends sha1 files
      (codes "m")
      (codes "x")
      []
      (main sha1 files (codes "hmac" ∷ codes "m" ∷ codes "x" ∷ []) [])
main-Ends_example =
    main-Ends sha1 (digest-IsLawful sha_digest_length) files (codes "hmac") (codes "m") (codes "x")
      [] []

-- The key file is stored at the front of the key.
key_is_read : readkey files (codes "k") (replicate 4 0) 4 [] ≡ ret [] (9 ∷ 8 ∷ 0 ∷ 0 ∷ [])
unfolding readkey readkey_loop open_or_err close_or_err read write_at
key_is_read = refl

pads : xor_loop 2 0 (1 ∷ 2 ∷ []) (1 ∷ 2 ∷ []) [] ≡ ret [] (0x37 ∷ 0x34 ∷ [], 0x5d ∷ 0x5e ∷ [])
unfolding xor_loop load store
pads = refl
