-- ===== src/Sign/Files/Hashing.antt =====
-- `sha512` of practica3/sign.c hashes the file and then its path.
use seguridad_en_redes.Base.{
  ℕ, suc, ◌≤◌, ◌<◌, ◌≡◌, sym, ◌∙◌, ◌⊎◌, inl, inr, [], ◌∷◌, ◌++◌, none, some, length, arith,
  Bool-cases, Bytes, Trace, Outcome, ret, exit, diag, open_failed, read_failed, close_failed, ◌>>=◌,
}
use seguridad_en_redes.Memory.{write_at_whole}
use seguridad_en_redes.Posix.{File, FileSystem, open_or_err}
use seguridad_en_redes.Posix.Laws.{IsReadable, close_or_err-true, close_or_err-false}
use seguridad_en_redes.Crypto.{Digest, IsLawful, hash}
use seguridad_en_redes.Feed.Laws.{feed_loop_lem}
use seguridad_en_redes.Sign.Block.{l_sha512}
use seguridad_en_redes.Sign.Files.{sha512}

-- How `sha512` ends on a file that opens: 0 and the digest of the file with its path behind it,
-- or a failed system call and exit status 1.
abbrev pub HashEnds : Digest → Bytes → File → Trace → Outcome (ℕ × Bytes) → Type 0
HashEnds D path f t result =
    (result ≡ ret t (0, hash D (f.rest ++ path)))
    ⊎ ((result ≡ exit (t ++ (diag read_failed ∷ [])) 1)
        ⊎ (result ≡ exit (t ++ (diag close_failed ∷ [])) 1))
      × ¬ IsReadable f

module _ (D : Digest) (L : IsLawful D l_sha512) (fs : FileSystem) where
  -- For a digest with the laws of SHA-512, a buffer that holds `text_len > 0` bytes and a digest
  -- array of 64, on a file that opens: `sha512` returns 0 with the digest of the file's bytes
  -- followed by its path, or the file is not readable to its end (or `close` fails) and the process
  -- exits with 1 after one message. It returns no negative number, and no access leaves its array.
  pub sha512-HashEnds :
      (path : Bytes) (f : File) (text : Bytes) (text_len : ℕ) (md : Bytes) (t : Trace)
      → fs path ≡ some f
      → 0 < text_len
      → text_len ≤ length text
      → length md ≡ l_sha512
      → HashEnds D path f t (sha512 D fs path text text_len md t)
  unfolding sha512 open_or_err
  sha512-HashEnds path f text text_len md t opened pos room md_fits =
      rw (opened, ◌>>=◌)
        (elim (feed_loop_lem D text_len t L pos (suc (length f.rest)) f text D.init (omega arith)
          room) [
            | inl e ↦
                rw (e, ◌>>=◌)
                  (elim (Bool-cases f.closes) [
                    | inl c ↦ inl (
                        rw (
                          close_or_err-true f t c,
                          ◌>>=◌,
                          write_at_whole t md _ (L.length-final _ ∙ sym md_fits),
                          ◌>>=◌,
                          L.update-append,
                        ))
                    | inr c ↦ inr (inr (rw (close_or_err-false f t c, ◌>>=◌)), λ r. cc)
                  ])
            | inr (e, unread) ↦ inr (inl (rw (e, ◌>>=◌)), λ r. unread r.0)
          ])

  pub sha512-open_failed :
      (path text : Bytes) (text_len : ℕ) (md : Bytes) (t : Trace)
      → fs path ≡ none
      → sha512 D fs path text text_len md t ≡ exit (t ++ (diag (open_failed path) ∷ [])) 1
  unfolding sha512 open_or_err
  sha512-open_failed path text text_len md t closed = rw (closed, ◌>>=◌)
