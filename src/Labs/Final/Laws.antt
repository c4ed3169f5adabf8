-- ===== src/Labs/Final/Laws.antt =====
-- What practica3/pruebas/sign/final.c shows of a verification.
use seguridad_en_redes.Base.{
  ◌+◌, ◌≡◌, ◌↔◌, refl, ap, sym, ◌∙◌, [], ◌∷◌, ◌++◌, append-nil, true, some, length, length-drop,
  replicate, take, drop, codes, arith, Bytes, Trace, ret, exit, out, ◌>>=◌,
}
use seguridad_en_redes.Posix.{File, FileSystem}
use seguridad_en_redes.Posix.Laws.{IsReadable, good_end}
use seguridad_en_redes.Crypto.{Digest, IsLawful, hash, Rsa, Base64}
use seguridad_en_redes.Hex.Laws.{hex_line, converthexa_lem}
use seguridad_en_redes.Sign.Block.{len_id, l_sha512, text_size, block_size, padding_size, ps_size}
use seguridad_en_redes.Sign.Block.Layout.{padding}
use seguridad_en_redes.Sign.Check.Padding.{comprobar_padding_iff}
use seguridad_en_redes.Sign.Check.{Check, good, bad, comprobar_padding, comparar_hashes}
use seguridad_en_redes.Sign.Check.Digests.{sacar_hash_firma_lem, comparar_hashes_iff}
use seguridad_en_redes.Sign.Files.Hashing.{sha512-HashEnds}
use seguridad_en_redes.Labs.Final.{judge, compare_digests}

-- The line that an accepted padding adds.
abbrev pub verdict : Check → Trace
verdict good = out (codes "padding ok\n") ∷ []
verdict bad = []

module _ (D : Digest) (L : IsLawful D l_sha512) (R : Rsa) (B : Base64) (fs : FileSystem) where
  judge_lem :
      (m path : Bytes) (f : File) (t : Trace) (c : Check)
      → length m ≡ block_size
      → fs path ≡ some f
      → IsReadable f
      → comprobar_padding m (t ++ hex_line m) ≡ ret (t ++ hex_line m) c
      → judge D R B true fs m path t ≡ exit ((t ++ hex_line m) ++ verdict c) 0
  unfolding judge compare_digests
  judge_lem m path f t bad hm e ok run =
      rw (converthexa_lem block_size m t hm, ◌>>=◌, run, ◌>>=◌)
        (ap (λ x. exit x 0) (sym (append-nil _)))
  judge_lem m path f t good hm e ok run = rw (
    converthexa_lem block_size m t hm,
    ◌>>=◌,
    run,
    ◌>>=◌,
    sacar_hash_firma_lem m (replicate l_sha512 0) t' hm refl,
    ◌>>=◌,
    good_end
        (sha512-HashEnds D L fs path f (replicate text_size 0) text_size (replicate l_sha512 0) t' e
          (omega arith) (omega arith) (omega arith))
        ok,
    ◌>>=◌,
    compared.1,
    ◌>>=◌,
  )
    where
      t' : Trace
      t' = (t ++ hex_line m) ++ (out (codes "padding ok\n") ∷ [])

      compared :
          (c : Check) × (comparar_hashes
              (hash D (f.rest ++ path))
              (drop (padding_size + len_id) m)
              t'
            ≡ ret t' c)
          × ((c ≡ good) ↔ (hash D (f.rest ++ path) ≡ drop (padding_size + len_id) m))
      compared =
          comparar_hashes_iff _ _ t' (L.length-final _)
            (length-drop (padding_size + len_id) m ∙ omega (arith, hm))

  -- For a digest with the laws of SHA-512, on a decrypted block of 512 bytes and a file that can be
  -- read: the end of a verification prints the block in hexadecimal, then `padding ok` exactly if
  -- the block begins with the padding of a signature, and exits with 0: whether the digests agree
  -- changes nothing.
  pub judge-verdict :
      (m path : Bytes) (f : File) (t : Trace)
      → length m ≡ block_size
      → fs path ≡ some f
      → IsReadable f
      → (c : Check) × (judge D R B true fs m path t ≡ exit ((t ++ hex_line m) ++ verdict c) 0)
        × ((c ≡ good) ↔ (take padding_size m ≡ padding ps_size))
  judge-verdict m path f t hm e ok =
      let r = comprobar_padding_iff m (t ++ hex_line m) hm in
      (r.0, judge_lem m path f t r.0 hm e ok r.1, r.2)
