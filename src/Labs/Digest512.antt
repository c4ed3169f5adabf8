-- ===== src/Labs/Digest512.antt =====
-- practica3/pruebas/1sha512/1sha512.c: the SHA-512 of a file in hexadecimal.
use seguridad_en_redes.Base.{
  ℕ, suc, ◌≡◌, refl, ◌⊎◌, inl, inr, [], ◌∷◌, ◌++◌, List, none, some, length, replicate, ltb,
  if◌then◌else◌, Option-cases, Bool-cases, arith, codes, Bytes, M, Trace, Outcome, Diag, exit, out,
  diag, pure, print, exit_with, crash, open_failed, read_failed, close_failed, ◌>>=◌, ◌>>◌,
}
use seguridad_en_redes.Memory.{write_at, write_at_whole}
use seguridad_en_redes.Posix.{File, FileSystem, open_or_err, close_or_err, arg}
use seguridad_en_redes.Posix.Laws.{close_or_err-true, close_or_err-false}
use seguridad_en_redes.Crypto.{Digest, IsLawful, hash}
use seguridad_en_redes.Hex.{converthexa}
use seguridad_en_redes.Hex.Laws.{hex_line, converthexa_lem}
use seguridad_en_redes.Feed.{feed_loop}
use seguridad_en_redes.Feed.Laws.{feed_loop_lem}

abbrev pub l_sha512 : ℕ
l_sha512 = 64

abbrev pub text_size : ℕ
text_size = 50

module _ (D : Digest) (fs : FileSystem) where
  -- `sha512`, which prints the digest too.
  unfoldable pub sha512 : Bytes → Bytes → ℕ → Bytes → M (ℕ × Bytes)
  sha512 path_fichero text text_len md = do
    f ← open_or_err fs path_fichero
    fed ← feed_loop D (suc (length f.rest)) f text text_len D.init
    close_or_err f
    md' ← write_at md 0 (D.final fed.1)
    converthexa l_sha512 md'
    pure (fed.0, md')

  -- `main`; a null path is undefined.
  unfoldable pub main : List Bytes → M (Unit {0})
  main argv = do
    print (codes "64\n")
    path_fichero ← arg argv 1
    elim path_fichero [
      | none ↦ crash
      | some path ↦ do
        i ← sha512 path (replicate text_size 0) text_size (replicate l_sha512 0)
        if ltb i.0 0 then exit_with 1 else exit_with 0
    ]

-- How the program ends: after its first line it prints the digest of the file and exits with 0,
-- or it exits with 1 after a message.
abbrev pub DigestEnds : Digest → FileSystem → Bytes → Trace → Outcome (Unit {0}) → Type 0
DigestEnds D fs path t result =
    ((f : File) × (fs path ≡ some f) × (result ≡ exit (t ++ hex_line (hash D f.rest)) 0))
    ⊎ ((d : Diag) × (result ≡ exit (t ++ (diag d ∷ [])) 1))

module _ (D : Digest) (L : IsLawful D l_sha512) (fs : FileSystem) where
  after_feed :
      (path : Bytes) (f : File) (t : Trace)
      → fs path ≡ some f
      → DigestEnds D fs path t (
          (do
            i ← sha512 D fs path (replicate text_size 0) text_size (replicate l_sha512 0)
            if ltb i.0 0 then exit_with {A = Unit {0}} 1 else exit_with 0)
            t)
  unfolding sha512 open_or_err
  after_feed path f t e =
      rw (e, ◌>>=◌)
        (elim (feed_loop_lem D text_size t L (omega arith) (suc (length f.rest)) f
          (replicate text_size 0) D.init (omega arith) (omega arith)) [
            | inl r ↦
                rw (r, ◌>>=◌)
                  (elim (Bool-cases f.closes) [
                    | inl c ↦ inl (
                      f,
                      refl,
                      rw (
                        close_or_err-true f t c,
                        ◌>>=◌,
                        write_at_whole t (replicate l_sha512 0) (hash D f.rest) (L.length-final _),
                        ◌>>=◌,
                        converthexa_lem l_sha512 (hash D f.rest) t (L.length-final _),
                        ◌>>=◌,
                      ),
                    )
                    | inr c ↦ inr (close_failed, rw (close_or_err-false f t c, ◌>>=◌))
                  ])
            | inr (r, _) ↦ inr (read_failed, rw (r, ◌>>=◌))
          ])

  -- For a digest with the laws of SHA-512: given a path, the program prints 64 on a line and then
  -- either the digest of the file in hexadecimal, exiting with 0, or one message on standard error,
  -- exiting with 1.
  pub main-DigestEnds :
      (name path : Bytes) (more : List Bytes) (t : Trace)
      → DigestEnds D fs path (t ++ (out (codes "64\n") ∷ [])) (main D fs (name ∷ path ∷ more) t)
  unfolding main arg sha512 open_or_err
  main-DigestEnds name path more t = elim (Option-cases (fs path)) [
    | inl e ↦ inr (open_failed path, rw (e, ◌>>=◌))
    | inr (f, e) ↦ after_feed path f _ e
  ]
