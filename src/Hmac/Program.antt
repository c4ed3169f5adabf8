-- ===== src/Hmac/Program.antt =====
-- practica2/hmacsha1.c as a program: the key file, the message file and the command line.
use seguridad_en_redes.Base.{
  ℕ, suc, ◌-◌, ◌≡◌, ap, ◌∙◌, ◌⊎◌, inl, inr, [], ◌∷◌, ◌++◌, List, Option-cases, none, some, false,
  length, length-append, length-take, length-replicate, take, drop-replicate, replicate, splice,
  splice-front, arith, Bool-cases, Bytes, Diag, Trace, Outcome, ret, exit, diag, open_failed,
  read_failed, close_failed, ◌>>=◌, ◌>>◌, exit_with, ltb,
}
use seguridad_en_redes.Posix.{File, FileSystem, open_or_err, arg}
use seguridad_en_redes.Posix.Laws.{IsReadable, good_end, close_or_err-true, close_or_err-false}
use seguridad_en_redes.Crypto.{Digest, IsLawful}
use seguridad_en_redes.Hex.Laws.{hex_line}
use seguridad_en_redes.Hmac.{k_size, text_size, sha_digest_length, readkey, hmacsha1, run, main}
use seguridad_en_redes.Hmac.Keys.{readkey_loop_lem}
use seguridad_en_redes.Hmac.Laws.{
  block_key, hmac, HmacEnds, hmacsha1-HmacEnds, hmacsha1-open_failed,
}

-- What `readkey` leaves in a zeroed buffer.
splice_front_zeros :
    (b : ℕ) (bytes : Bytes) → splice (replicate b 0) 0 (take b bytes) ≡ block_key b (take b bytes)
splice_front_zeros b bytes =
    splice-front (replicate b 0) (take b bytes)
      (omega (arith, length-take b bytes, length-replicate {A = ℕ} b 0))
    ∙ ap (◌++◌ (take b bytes)) (drop-replicate (length (take b bytes)) b 0)

length-block_key : (b : ℕ) (bytes : Bytes) → length (block_key b (take b bytes)) ≡ b
length-block_key b bytes =
    length-append (take b bytes) (replicate (b - length (take b bytes)) 0)
    ∙ omega (arith, length-take b bytes, length-replicate {A = ℕ} (b - length (take b bytes)) 0)

-- The test of `argc`.
enough : (l : List Bytes) → ltb (suc (suc (suc (length l)))) 3 ≡ false
enough l = ground arith

-- `readkey` on a file that opens, into a zeroed buffer.
abbrev pub KeyEnds : File → Trace → Outcome Bytes → Type 0
KeyEnds f t result =
    (result ≡ ret t (block_key k_size (take k_size f.rest)))
    ⊎ ((result ≡ exit (t ++ (diag read_failed ∷ [])) 1)
        ⊎ (result ≡ exit (t ++ (diag close_failed ∷ [])) 1))
      × ¬ IsReadable f

module _ (fs : FileSystem) where
  pub readkey-open_failed :
      (path : Bytes) (t : Trace)
      → fs path ≡ none
      → readkey fs path (replicate k_size 0) k_size t ≡ exit (t ++ (diag (open_failed path) ∷ [])) 1
  unfolding readkey open_or_err
  readkey-open_failed path t closed = rw (closed, ◌>>=◌)

  pub readkey-KeyEnds :
      (path : Bytes) (f : File) (t : Trace)
      → fs path ≡ some f
      → KeyEnds f t (readkey fs path (replicate k_size 0) k_size t)
  unfolding readkey open_or_err
  readkey-KeyEnds path f t opened =
      rw (opened, ◌>>=◌)
        (elim (readkey_loop_lem k_size t (suc (length f.rest)) f (replicate k_size 0) 0
          (omega arith) (omega arith) (omega arith)) [
            | inl e ↦
                rw (e, ◌>>=◌)
                  (elim (Bool-cases f.closes) [
                    | inl c ↦ inl (
                        rw (close_or_err-true f t c, ◌>>=◌)
                          (ap (ret t) (splice_front_zeros k_size f.rest)))
                    | inr c ↦ inr (inr (rw (close_or_err-false f t c, ◌>>=◌)), λ r. cc)
                  ])
            | inr (e, bad) ↦ inr (inl (rw (e, ◌>>=◌)), λ r. bad r.0)
          ])

-- How the program ends when it is given two paths: it prints the HMAC of the one file under
-- the first bytes of the other and exits with 0, or it exits with 1 after a message.
abbrev pub Ends : Digest → FileSystem → Bytes → Bytes → Trace → Outcome (Unit {0}) → Type 0
Ends D fs path path_key t result =
    ((f : File) × (kf : File) × (fs path ≡ some f)
      × (fs path_key ≡ some kf)
      × (result ≡ exit (t ++ hex_line (hmac D k_size (take k_size kf.rest) f.rest)) 0))
    ⊎ ((d : Diag) × (result ≡ exit (t ++ (diag d ∷ [])) 1))

module _ (D : Digest) (L : IsLawful D sha_digest_length) (fs : FileSystem) where
  -- `hmacsha1` as `main` calls it.
  called :
      (path : Bytes) (f kf : File) (t : Trace)
      → fs path ≡ some f
      → let k = block_key k_size (take k_size kf.rest) in
        HmacEnds D k f t (
          hmacsha1 D fs path
            (replicate text_size 0)
            text_size
            k
            k_size
            (replicate sha_digest_length 0)
            t)
  called path f kf t opened =
      hmacsha1-HmacEnds D L fs path f (replicate text_size 0) text_size
        (block_key k_size (take k_size kf.rest)) (replicate sha_digest_length 0) t opened
        (omega arith) (omega arith) (length-block_key k_size kf.rest) (omega arith)

  -- The part of `run` after the key has been read.
  keyed-Ends :
      (path path_key : Bytes) (kf : File) (t : Trace)
      → fs path_key ≡ some kf
      → let k = block_key k_size (take k_size kf.rest) in
        Ends D fs path path_key t (
          (hmacsha1 D fs path
                (replicate text_size 0)
                text_size
                k
                k_size
                (replicate sha_digest_length 0)
              >> exit_with 0)
            t)
  unfolding hmac
  keyed-Ends path path_key kf t e = elim (Option-cases (fs path)) [
    | inl e' ↦ inr (open_failed path, rw (missing e', ◌>>=◌))
    | inr (f, e') ↦ elim (called path f kf t e') [
      | inl r ↦ inl (f, kf, e', e, rw (r, ◌>>=◌))
      | inr (inl r, _) ↦ inr (read_failed, rw (r, ◌>>=◌))
      | inr (inr r, _) ↦ inr (close_failed, rw (r, ◌>>=◌))
    ]
  ]
    where
      missing :
          fs path ≡ none
          → hmacsha1 D fs path
              (replicate text_size 0)
              text_size
              (block_key k_size (take k_size kf.rest))
              k_size
              (replicate sha_digest_length 0)
              t
            ≡ exit (t ++ (diag (open_failed path) ∷ [])) 1
      missing e' = hmacsha1-open_failed D L fs path _ _ _ _ t e' (length-block_key k_size kf.rest)

  run-Ends :
      (path path_key : Bytes) (t : Trace)
      → Ends D fs path path_key t (run D fs (some path) (some path_key) t)
  unfolding run
  run-Ends path path_key t = elim (Option-cases (fs path_key)) [
    | inl e ↦ inr (open_failed path_key, rw (readkey-open_failed fs path_key t e, ◌>>=◌))
    | inr (kf, e) ↦ elim (readkey-KeyEnds fs path_key kf t e) [
      | inl r ↦ rw (r, ◌>>=◌) (keyed-Ends path path_key kf t e)
      | inr (inl r, _) ↦ inr (read_failed, rw (r, ◌>>=◌))
      | inr (inr r, _) ↦ inr (close_failed, rw (r, ◌>>=◌))
    ]
  ]

  -- For a digest with the laws of SHA-1: with at least two arguments the program ends by itself,
  -- whatever the files, the reads and the closes do: either both files opened, it printed the HMAC
  -- (RFC 2104) of the message file under the first 64 bytes of the key file in hexadecimal and
  -- exited with 0, or it exited with 1 after one message on standard error and no output.
  pub main-Ends :
      (name path path_key : Bytes) (more : List Bytes) (t : Trace)
      → Ends D fs path path_key t (main D fs (name ∷ path ∷ path_key ∷ more) t)
  unfolding main arg
  main-Ends name path path_key more t = rw (enough more) (run-Ends path path_key t)

  -- For a digest with the laws of SHA-1: on two files whose reads and closes succeed, the program
  -- prints the HMAC (RFC 2104) of the first under the first 64 bytes of the second in hexadecimal,
  -- and exits with 0.
  pub main-hmac :
      (name path path_key : Bytes) (more : List Bytes) (f kf : File) (t : Trace)
      → fs path ≡ some f
      → fs path_key ≡ some kf
      → IsReadable f
      → IsReadable kf
      → main D fs (name ∷ path ∷ path_key ∷ more) t
        ≡ exit (t ++ hex_line (hmac D k_size (take k_size kf.rest) f.rest)) 0
  unfolding main arg run hmac
  main-hmac name path path_key more f kf t e e' good good' = rw (
    enough more,
    good_end (readkey-KeyEnds fs path_key kf t e') good',
    ◌>>=◌,
    good_end (called path f kf t e) good,
    ◌>>=◌,
  )
