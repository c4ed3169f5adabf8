-- ===== src/Sign/Files/Signature.antt =====
-- The Base64 signature files of practica3/sign.c: reading one, and printing one.
use seguridad_en_redes.Base.{
  ℕ, zero, suc, ◌+◌, ◌-◌, ◌≤◌, ◌<◌, ◌≡◌, ap, ◌∙◌, ◌⊎◌, inl, inr, [], ◌∷◌, ◌++◌, ltb, ◌==◌, ◌||◌,
  some, length, take, splice, length-splice, arith, Bool-cases, Bytes, Trace, Outcome, ret, exit,
  diag, Diag, b64_no_data, b64_unsupported, ◌>>=◌,
}
use seguridad_en_redes.Memory.{write_at_lem}
use seguridad_en_redes.Posix.{File, Failure, minus_one, minus_two, read, failed, FileSystem}
use seguridad_en_redes.Posix.Laws.{NeverFails, Delivers, read-Delivers, fill_delivered, fill_last}
use seguridad_en_redes.Crypto.{Base64}
use seguridad_en_redes.Sign.Block.{block_size}
use seguridad_en_redes.Sign.Files.{b64_loop, leer_firma_b64}

-- The message for a failed `BIO_read`.
abbrev pub b64_message : Failure → Diag
b64_message minus_one = b64_no_data
b64_message minus_two = b64_unsupported

module _ (t : Trace) where
  abbrev pub SignatureRead : File → Bytes → ℕ → Outcome Bytes → Type 0
  SignatureRead f block r result =
      (result ≡ ret t (splice block r (take (block_size - r) f.rest)))
      ⊎ ((e : Failure) × (result ≡ exit (t ++ (diag (b64_message e) ∷ [])) 1))
        × ¬ NeverFails f.turns

  SignatureRead-after :
      (f : File) (block : Bytes) (r : ℕ) (d : Delivers f (block_size - r) (read f (block_size - r)))
      {result : Outcome Bytes}
      → SignatureRead d.after (splice block r d.chunk) (r + length d.chunk) result
      → SignatureRead f block r result
  SignatureRead-after f block r d (inl e) =
      inl (e ∙ ap (ret t) (fill_delivered block_size f block r d))
  SignatureRead-after f block r d (inr (e, bad)) = inr (e, λ n. bad (d.keeps n))

  failing :
      (fuel : ℕ) (f : File) (block : Bytes) (r : ℕ) (e : Failure)
      → read f (block_size - r) ≡ failed e
      → b64_loop (suc fuel) f block r t ≡ exit (t ++ (diag (b64_message e) ∷ [])) 1
  unfolding b64_loop
  failing fuel f block r minus_one h = rw (h, b64_loop)
  failing fuel f block r minus_two h = rw (h, b64_loop)

  b64_loop_lem :
      (fuel : ℕ) (f : File) (block : Bytes) (r : ℕ)
      → length f.rest < fuel
      → r ≤ block_size
      → block_size ≤ length block
      → SignatureRead f block r (b64_loop fuel f block r t)
  unfolding b64_loop
  b64_loop_lem zero f block r h le room = absurd (omega arith)
  b64_loop_lem (suc fuel) f block r h le room = elim (read-Delivers f (block_size - r)) [
    | inl (e, failed_read, bad) ↦ inr ((e, failing fuel f block r e failed_read), bad)
    | inr d ↦
        rw (d.result, b64_loop, write_at_lem t block r d.chunk (omega (arith, d.bounded)), ◌>>=◌)
          (elim (Bool-cases (length d.chunk == 0 || ltb block_size r)) [
            | inl stop ↦
                inl (
                  rw stop (ap (ret t) (fill_last block_size f block r d (ground (arith, d.stops)))))
            | inr go ↦ rw go (
                SignatureRead-after f block r d (
                  b64_loop_lem fuel d.after (splice block r d.chunk) (r + length d.chunk)
                    (ground (arith, d.shorter)) (omega (arith, d.bounded)) (rw length-splice room)))
          ])
  ]

  -- On a signature file that opens and a block of 512 bytes, `leerFirmaB64` stops, writes inside
  -- the block, and leaves the first 512 decoded bytes at its front and the rest of the block as it
  -- was; or a `BIO_read` failed and the process has exited with status 1 after its message.
  pub leer_firma_b64_lem :
      (B : Base64) (fs : FileSystem) (path : Bytes) (fp : File) (block : Bytes)
      → fs path ≡ some fp
      → length block ≡ block_size
      → SignatureRead
          (record fp { rest = B.decode fp.rest })
          block
          0
          (leer_firma_b64 B fs path block t)
  unfolding leer_firma_b64
  leer_firma_b64_lem B fs path fp block opened fits =
      rw (opened, leer_firma_b64)
        (b64_loop_lem _ (record fp { rest = B.decode fp.rest }) block 0 (omega arith) (omega arith)
          (omega arith))
