-- ===== src/Feed/Laws.antt =====
-- The feeding loop hashes the whole file, in whatever pieces `read` delivers it.
use seguridad_en_redes.Base.{
  ℕ, zero, suc, ◌≤◌, ◌<◌, ◌≡◌, ap, ap₂, sym, ◌∙◌, ◌⊎◌, inl, inr, [], ◌∷◌, ◌++◌, ◌==◌, length, take,
  splice, length-splice, take-splice, eq-nil_of_length, arith, Bool-cases, Bytes, Trace, Outcome,
  ret, exit, diag, read_failed, ◌>>=◌,
}
use seguridad_en_redes.Memory.{write_at_lem, read_at_lem}
use seguridad_en_redes.Posix.{File, read}
use seguridad_en_redes.Posix.Laws.{NeverFails, Delivers, read-Delivers}
use seguridad_en_redes.Crypto.{Digest, IsLawful}
use seguridad_en_redes.Feed.{feed_loop}

module _ (D : Digest) (text_len : ℕ) (t : Trace) where
  -- How the loop ends: all that was left of the file is in the digest and the last `read` gave 0,
  -- or a read failed and the process has exited.
  abbrev pub Fed : File → D.Ctx → Outcome (ℕ × D.Ctx) → Type 0
  Fed f c result =
      (result ≡ ret t (0, D.update c f.rest))
      ⊎ (result ≡ exit (t ++ (diag read_failed ∷ [])) 1) × ¬ NeverFails f.turns

  module _ {size : ℕ} (L : IsLawful D size) (pos : 0 < text_len) where
    Fed-after :
        (f : File) (c : D.Ctx) (d : Delivers f text_len (read f text_len))
        {result : Outcome (ℕ × D.Ctx)}
        → Fed d.after (D.update c d.chunk) result
        → Fed f c result
    Fed-after f c d (inl e) = inl (
        e
        ∙ ap (λ x. ret t (0, x)) (L.update-append c d.chunk d.after.rest ∙ ap (D.update c) d.whole))
    Fed-after f c d (inr (e, bad)) = inr (e, λ n. bad (d.keeps n))

    -- The bytes that go to the digest are the bytes that arrived.
    fresh :
        (text chunk : Bytes)
        → length chunk ≤ length text
        → take (length chunk) (splice text 0 chunk) ≡ chunk
    fresh text chunk h = take-splice text chunk h

    at_end : (rest : Bytes) (c : D.Ctx) → length rest ≡ 0 → c ≡ D.update c rest
    at_end rest c e = sym (ap (D.update c) (eq-nil_of_length rest e) ∙ L.update-nil c)

    pub feed_loop_lem :
        (fuel : ℕ) (f : File) (text : Bytes) (c : D.Ctx)
        → length f.rest < fuel
        → text_len ≤ length text
        → Fed f c (feed_loop D fuel f text text_len c t)
    unfolding feed_loop
    feed_loop_lem zero f text c h room = absurd (omega arith)
    feed_loop_lem (suc fuel) f text c h room = elim (read-Delivers f text_len) [
      | inl (_, e, bad) ↦ inr (rw (e, feed_loop), bad)
      | inr d ↦
          rw
            (
              d.result,
              feed_loop,
              write_at_lem t text 0 d.chunk (omega (arith, d.bounded)),
              ◌>>=◌,
              read_at_lem t (splice text 0 d.chunk) 0 (length d.chunk)
                  (rw length-splice (omega (arith, d.bounded))),
              ◌>>=◌,
              fresh text d.chunk (omega (arith, d.bounded)),
            )
            (elim (Bool-cases (length d.chunk == 0)) [
              | inl z ↦ inl (
                  rw z (
                    ap₂ (λ n x. ret t (n, x)) (ground arith)
                      (at_end f.rest c (ground (arith, d.stops)))))
              | inr nz ↦ rw nz (
                  Fed-after f c d (
                    feed_loop_lem fuel d.after (splice text 0 d.chunk) (D.update c d.chunk)
                      (ground (arith, d.shorter)) (rw length-splice room)))
            ])
    ]
