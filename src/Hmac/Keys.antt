-- ===== src/Hmac/Keys.antt =====
-- `readkey` of practica2/hmacsha1.c: the key buffer holds the first bytes of the key file.
use seguridad_en_redes.Base.{
  ℕ, zero, suc, ◌+◌, ◌-◌, ◌≤◌, ◌<◌, ◌≡◌, ap, ◌∙◌, ◌⊎◌, inl, inr, [], ◌∷◌, ◌++◌, ltb, ◌==◌, ◌||◌,
  length, take, splice, length-splice, arith, Bool-cases, Bytes, Trace, Outcome, ret, exit, diag,
  read_failed, ◌>>=◌,
}
use seguridad_en_redes.Memory.{write_at_lem}
use seguridad_en_redes.Posix.{File, read}
use seguridad_en_redes.Posix.Laws.{NeverFails, Delivers, read-Delivers, fill_delivered, fill_last}
use seguridad_en_redes.Hmac.{readkey_loop}

-- How `readkey_loop` ends: the first bytes of the file are in the buffer from `r` on, or a read
-- failed and the process has exited.
abbrev pub KeyRead : File → Bytes → ℕ → ℕ → Trace → Outcome Bytes → Type 0
KeyRead f key size_key r t result =
    (result ≡ ret t (splice key r (take (size_key - r) f.rest)))
    ⊎ (result ≡ exit (t ++ (diag read_failed ∷ [])) 1) × ¬ NeverFails f.turns

module _ (size_key : ℕ) (t : Trace) where
  KeyRead-after :
      (f : File) (key : Bytes) (r : ℕ) (d : Delivers f (size_key - r) (read f (size_key - r)))
      {result : Outcome Bytes}
      → KeyRead d.after (splice key r d.chunk) size_key (r + length d.chunk) t result
      → KeyRead f key size_key r t result
  KeyRead-after f key r d (inl e) = inl (e ∙ ap (ret t) (fill_delivered size_key f key r d))
  KeyRead-after f key r d (inr (e, bad)) = inr (e, λ n. bad (d.keeps n))

  -- With fuel above the bytes left in the file, from `r` bytes read on and a buffer that holds the
  -- key: the loop of `readkey` stops, writes inside the buffer, and leaves the next `size_key - r`
  -- bytes of the file, or as many as there are, behind the `r` read before; or a read failed and
  -- the process has exited with 1 after its message.
  pub readkey_loop_lem :
      (fuel : ℕ) (f : File) (key : Bytes) (r : ℕ)
      → length f.rest < fuel
      → r ≤ size_key
      → size_key ≤ length key
      → KeyRead f key size_key r t (readkey_loop fuel f key size_key r (size_key - r) t)
  unfolding readkey_loop
  readkey_loop_lem zero f key r h le room = absurd (omega arith)
  readkey_loop_lem (suc fuel) f key r h le room = elim (read-Delivers f (size_key - r)) [
    | inl (_, e, bad) ↦ inr (rw (e, readkey_loop), bad)
    | inr d ↦
        rw (d.result, readkey_loop, write_at_lem t key r d.chunk (omega (arith, d.bounded)), ◌>>=◌)
          (elim (Bool-cases (length d.chunk == 0)) [
            | inl z ↦
                inl (rw z (ap (ret t) (fill_last size_key f key r d (ground (arith, d.stops)))))
            | inr nz ↦
                elim (Bool-cases
                  (ltb size_key (r + length d.chunk) || size_key - r - length d.chunk == 0)) [
                    | inl stop ↦ inl (
                        rw (nz, stop)
                          (ap (ret t) (fill_last size_key f key r d (inl (ground arith)))))
                    | inr go ↦
                        rw (nz, go, left r (length d.chunk))
                          (KeyRead-after f key r d (
                            readkey_loop_lem fuel d.after (splice key r d.chunk)
                              (r + length d.chunk) (ground (arith, d.shorter))
                              (omega (arith, d.bounded)) (rw length-splice room)))
                  ]
          ])
  ]
    where
      left : (a b : ℕ) → size_key - a - b ≡ size_key - (a + b)
      left a b = omega arith
