-- ===== src/Hmac/Laws.antt =====
-- practica2/hmacsha1.c computes HMAC (RFC 2104), however `read` delivers the files.
use seguridad_en_redes.Base.{
  ℕ, suc, ◌-◌, ◌≤◌, ◌<◌, ◌≡◌, ap, sym, ◌∙◌, ◌⊎◌, inl, inr, [], ◌∷◌, ◌++◌, none, some, length,
  length-map, replicate, arith, Bool-cases, Bytes, Trace, Outcome, ret, exit, diag, open_failed,
  read_failed, close_failed, ◌>>=◌,
}
use seguridad_en_redes.Memory.{read_at, write_at, read_at_whole, write_at_whole}
use seguridad_en_redes.Posix.{File, FileSystem, open_or_err}
use seguridad_en_redes.Posix.Laws.{IsReadable, close_or_err-true, close_or_err-false}
use seguridad_en_redes.Crypto.{Digest, IsLawful, hash}
use seguridad_en_redes.Hex.{converthexa}
use seguridad_en_redes.Hex.Laws.{hex_line, converthexa_lem}
use seguridad_en_redes.Feed.Laws.{feed_loop_lem}
use seguridad_en_redes.Hmac.{k_size, sha_digest_length, hmacsha1}
use seguridad_en_redes.Hmac.Pads.{xor_pad, xor_loop_whole}

-- A key of at most `b` bytes, filled up with zeros to `b` bytes.
abbrev pub block_key : ℕ → Bytes → Bytes
block_key b key = key ++ replicate (b - length key) 0

-- RFC 2104: H (K xor opad, H (K xor ipad, text)), for a key of at most `b` bytes.
unfoldable pub hmac : Digest → ℕ → Bytes → Bytes → Bytes
hmac D b key m = let k = block_key b key in hash D (xor_pad 0x5c k ++ hash D (xor_pad 0x36 k ++ m))

-- How `hmacsha1` ends on a file that opens: it prints the HMAC, or a system call failed and the
-- process has exited with status 1 and no digest.
abbrev pub HmacEnds : Digest → Bytes → File → Trace → Outcome (Unit {0}) → Type 0
HmacEnds D k f t result =
    (result ≡ ret (t ++ hex_line (hash D (xor_pad 0x5c k ++ hash D (xor_pad 0x36 k ++ f.rest)))) tt)
    ⊎ ((result ≡ exit (t ++ (diag read_failed ∷ [])) 1)
        ⊎ (result ≡ exit (t ++ (diag close_failed ∷ [])) 1))
      × ¬ IsReadable f

module _ (D : Digest) (L : IsLawful D sha_digest_length) (fs : FileSystem) where
  -- The calls after the file is read: the outer digest over the inner one, and its print.
  finish :
      (k md : Bytes) (t : Trace) (c : D.Ctx)
      → length k ≡ k_size
      → length md ≡ sha_digest_length
      → (do
        md' ← write_at md 0 (D.final c)
        outer_pad ← read_at (xor_pad 0x5c k) 0 k_size
        inner_hash ← read_at md' 0 sha_digest_length
        md'' ← write_at md' 0 (D.final (D.update (D.update D.init outer_pad) inner_hash))
        converthexa sha_digest_length md'')
          t
        ≡ ret (t ++ hex_line (hash D (xor_pad 0x5c k ++ D.final c))) tt
  finish k md t c key_fits md_fits =
      rw
        (
          write_at_whole t md (D.final c) (L.length-final c ∙ sym md_fits),
          ◌>>=◌,
          read_at_whole t (xor_pad 0x5c k) k_size (length-map k _ ∙ key_fits),
          ◌>>=◌,
          read_at_whole t (D.final c) sha_digest_length (L.length-final c),
          ◌>>=◌,
          L.update-append,
          write_at_whole t (D.final c) (hash D (xor_pad 0x5c k ++ D.final c))
              (L.length-final _ ∙ sym (L.length-final c)),
          ◌>>=◌,
        )
        (converthexa_lem sha_digest_length _ t (L.length-final _))

  pub hmacsha1-HmacEnds :
      (path : Bytes) (f : File) (text : Bytes) (text_len : ℕ) (k md : Bytes) (t : Trace)
      → fs path ≡ some f
      → 0 < text_len
      → text_len ≤ length text
      → length k ≡ k_size
      → length md ≡ sha_digest_length
      → HmacEnds D k f t (hmacsha1 D fs path text text_len k k_size md t)
  unfolding hmacsha1 open_or_err
  hmacsha1-HmacEnds path f text text_len k md t opened pos room key_fits md_fits =
      rw
        (
          read_at_whole t k k_size key_fits,
          ◌>>=◌,
          write_at_whole t (replicate k_size 0) k (omega arith),
          ◌>>=◌,
          write_at_whole t (replicate k_size 0) k (omega arith),
          ◌>>=◌,
        )
        (rw
          (
            xor_loop_whole k_size k t key_fits,
            ◌>>=◌,
            read_at_whole t (xor_pad 0x36 k) k_size (length-map k _ ∙ key_fits),
            ◌>>=◌,
            opened,
            ◌>>=◌,
          )
          (elim (feed_loop_lem D text_len t L pos (suc (length f.rest)) f text
            (D.update D.init (xor_pad 0x36 k)) (omega arith) room) [
              | inl e ↦
                  rw (e, ◌>>=◌)
                    (elim (Bool-cases f.closes) [
                      | inl c ↦ inl (
                          rw (close_or_err-true f t c, ◌>>=◌)
                            (finish k md t (D.update (D.update D.init (xor_pad 0x36 k)) f.rest)
                                key_fits md_fits
                              ∙ ap
                                  (λ x.
                                    ret (t ++ hex_line (hash D (xor_pad 0x5c k ++ D.final x))) tt)
                                  (L.update-append D.init (xor_pad 0x36 k) f.rest)))
                      | inr c ↦ inr (inr (rw (close_or_err-false f t c, ◌>>=◌)), λ r. cc)
                    ])
              | inr (e, bad) ↦ inr (inl (rw (e, ◌>>=◌)), λ r. bad r.0)
            ]))

  -- On a message that does not open it exits with status 1.
  pub hmacsha1-open_failed :
      (path : Bytes) (text : Bytes) (text_len : ℕ) (k md : Bytes) (t : Trace)
      → fs path ≡ none
      → length k ≡ k_size
      → hmacsha1 D fs path text text_len k k_size md t
        ≡ exit (t ++ (diag (open_failed path) ∷ [])) 1
  unfolding hmacsha1 open_or_err
  hmacsha1-open_failed path text text_len k md t closed key_fits =
      rw
        (
          read_at_whole t k k_size key_fits,
          ◌>>=◌,
          write_at_whole t (replicate k_size 0) k (omega arith),
          ◌>>=◌,
          write_at_whole t (replicate k_size 0) k (omega arith),
          ◌>>=◌,
        )
        (rw (
          xor_loop_whole k_size k t key_fits,
          ◌>>=◌,
          read_at_whole t (xor_pad 0x36 k) k_size (length-map k _ ∙ key_fits),
          ◌>>=◌,
          closed,
          ◌>>=◌,
        ))
