-- ===== src/Labs/Hola.antt =====
-- practica2/ejemplo_sha1_y_pasar_a_hexadecimal/prueba1sha1.c: the SHA-1 of the text "hola".
use seguridad_en_redes.Base.{
  ℕ, ◌≡◌, ap, sym, ◌∙◌, ◌++◌, length, take-all, arith, codes, Bytes, M, Trace, ret, ◌>>=◌,
}
use seguridad_en_redes.Memory.{write_at, write_at_whole}
use seguridad_en_redes.Crypto.{Digest, IsLawful, hash}
use seguridad_en_redes.Hex.{hex_loop}
use seguridad_en_redes.Hex.Laws.{hex_events, hex_loop_lem}

-- `SHA_DIGEST_LENGTH`
abbrev pub sha_digest_length : ℕ
sha_digest_length = 20

-- `main`; `digest` is what the uninitialised array holds. It returns without a `return`, hence 0.
unfoldable pub main : Digest → Bytes → M (Unit {0})
main D digest = do
  digest' ← write_at digest 0 (D.final (D.update D.init (codes "hola")))
  hex_loop sha_digest_length 0 digest'

-- For a digest with the laws of SHA-1 and an array of 20 bytes, the program prints the digest of
-- "hola" in hexadecimal, without an end of line, and returns.
pub main_lem :
    (D : Digest) (L : IsLawful D sha_digest_length) (digest : Bytes) (t : Trace)
    → length digest ≡ sha_digest_length
    → main D digest t ≡ ret (t ++ hex_events (hash D (codes "hola"))) tt
unfolding main
main_lem D L digest t h =
    rw (write_at_whole t digest (hash D (codes "hola")) (L.length-final _ ∙ sym h), ◌>>=◌)
      (hex_loop_lem sha_digest_length 0 _ t
          (omega (arith, L.length-final (D.update D.init (codes "hola"))))
        ∙ ap (λ x. ret (t ++ hex_events x) tt)
            (take-all sha_digest_length _
              (omega (arith, L.length-final (D.update D.init (codes "hola"))))))
