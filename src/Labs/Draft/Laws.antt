-- ===== src/Labs/Draft/Laws.antt =====
-- The draft pads and signs as practica3/sign.c does, and shows the hashed part.
use seguridad_en_redes.Base.{
  ℕ, zero, suc, ◌+◌, ◌≡◌, refl, ap, sym, ◌∙◌, [], ◌∷◌, ◌++◌, false, some, length, length-append,
  length-replicate, replicate, set, splice-all, List, arith, Bytes, Trace, ret, exit, ◌>>=◌, ltb,
}
use seguridad_en_redes.Memory.{store, fill_loop, store_lem, fill_loop_lem}
use seguridad_en_redes.Posix.{File, FileSystem, arg}
use seguridad_en_redes.Posix.Laws.{IsReadable, good_end}
use seguridad_en_redes.Crypto.{Digest, IsLawful, hash, Rsa, IsSized, Base64, wrote}
use seguridad_en_redes.Hex.Laws.{hex_line, converthexa_lem}
use seguridad_en_redes.Sign.Block.{
  emsa_sha512_id, l_sha512, text_size, block_size, len_t, padding_size, ps_size,
}
use seguridad_en_redes.Sign.Block
use seguridad_en_redes.Sign.Block.Layout.{
  padding, length-padding, create_padding_lem, concatena_id_sha512_lem, concatena_padding_hash_lem,
  emsa_pkcs1-eq-padding, length-emsa_pkcs1,
}
use seguridad_en_redes.Sign.Files.{read_privkey, generar_firma_digital}
use seguridad_en_redes.Sign.Files.Hashing.{sha512-HashEnds}
use seguridad_en_redes.Sign.Program.{string_arg}
use seguridad_en_redes.Sign.Program.Create.{
  signature_events, signed_block, encrypt_block-some, print_signature_lem,
}
use seguridad_en_redes.Labs.Draft.{create_padding, create_signature, main}

-- The draft's writes, for any number of bytes FF.
draft_writes :
    (n : ℕ) (pd : Bytes) (t : Trace)
    → length pd ≡ n + 3
    → (do
      pd1 ← store pd 0 0x00
      pd2 ← store pd1 1 0x01
      pd3 ← fill_loop (n + 1) 2 pd2 0xff
      store pd3 (n + 2) 0x00)
        t
      ≡ ret t (padding n)
draft_writes n [] t h = absurd (omega arith)
draft_writes n (a ∷ []) t h = absurd (omega arith)
draft_writes n (a ∷ b ∷ pd) t h =
    rw
      (
        store_lem t (a ∷ b ∷ pd) 0 0x00 (omega arith),
        ◌>>=◌,
        store_lem t (0x00 ∷ b ∷ pd) 1 0x01 (omega arith),
        ◌>>=◌,
        fill_loop_lem t (n + 1) 2 (0x00 ∷ 0x01 ∷ pd) 0xff (omega arith),
        ◌>>=◌,
        splice-all pd (replicate (n + 1) 0xff) (length-replicate (n + 1) 0xff ∙ omega arith),
        store_lem t (0x00 ∷ 0x01 ∷ replicate (n + 1) 0xff) (n + 2) 0x00
            (omega (arith, length-replicate {A = ℕ} (n + 1) 0xff)),
      )
      (rw (index, more) (ap (λ r. ret t (0x00 ∷ 0x01 ∷ r)) (last n)))
  where
    index : n + 2 ≡ suc (suc n)
    index = omega arith

    more : n + 1 ≡ suc n
    more = omega arith

    last : (n : ℕ) → set {A = ℕ} (0xff ∷ replicate n 0xff) n 0x00 ≡ replicate n 0xff ++ (0x00 ∷ [])
    last zero = refl
    last (suc n) = ap (◌∷◌ 0xff) (last n)

-- On an array of the declared size the draft's `createPadding`, whose loop runs one step further,
-- leaves what that of practica3/sign.c leaves.
pub create_padding-eq-sign :
    (pd : Bytes) (t : Trace)
    → length pd ≡ padding_size
    → create_padding pd t ≡ Block.create_padding pd t
unfolding create_padding
create_padding-eq-sign pd t h = draft_writes ps_size pd t h ∙ sym (create_padding_lem pd t h)

module _ (D : Digest) (L : IsLawful D l_sha512) (R : Rsa) (z : IsSized R) (B : Base64)
    (fs : FileSystem) where
  -- Under the hypotheses with which practica3/sign.c signs a file with a key, and with any further
  -- arguments: the draft prints the identifier and the digest in hexadecimal, then the signature
  -- that practica3/sign.c prints, and exits with 0.
  pub main-signature :
      (garbage name path path_key : Bytes) (more : List Bytes) (f kf : File) (k : R.Key) (c : Bytes)
      (t : Trace)
      → length garbage ≡ block_size
      → fs path ≡ some f
      → IsReadable f
      → fs path_key ≡ some kf
      → R.pem_private kf.rest ≡ some k
      → R.private_encrypt block_size (signed_block D f path) k ≡ some c
      → B.write ≡ wrote
      → main D R B fs garbage (name ∷ path ∷ path_key ∷ more) t
        ≡ exit
            ((t ++ hex_line (emsa_sha512_id ++ hash D (f.rest ++ path))) ++ signature_events B c)
            0
  unfolding main create_signature string_arg arg read_privkey generar_firma_digital
  main-signature garbage name path path_key more f kf k c t g e ok e' pem enc w =
      rw
        (
          enough more,
          good_end
              (sha512-HashEnds D L fs path f (replicate text_size 0) text_size
                (replicate l_sha512 0) t e (omega arith) (omega arith) (omega arith))
              ok,
          ◌>>=◌,
          concatena_id_sha512_lem h (replicate len_t 0) t sized refl,
          ◌>>=◌,
          converthexa_lem len_t (emsa_sha512_id ++ h) t
              (length-append emsa_sha512_id h ∙ omega (arith, sized)),
          ◌>>=◌,
          create_padding-eq-sign (replicate padding_size 0) t' refl,
          create_padding_lem (replicate padding_size 0) t' refl,
          ◌>>=◌,
          concatena_padding_hash_lem (padding ps_size) (emsa_sha512_id ++ h)
                (replicate block_size 0) t' (length-padding ps_size)
                (length-append emsa_sha512_id h ∙ omega (arith, sized)) refl
              ∙ ap (ret t') (sym (emsa_pkcs1-eq-padding h sized)),
          ◌>>=◌,
        )
        (rw (
          e',
          ◌>>=◌,
          pem,
          ◌>>=◌,
          encrypt_block-some R z B t' (signed_block D f path) garbage c k
              (length-emsa_pkcs1 h sized) g enc,
          ◌>>=◌,
          print_signature_lem R z B t' c (z.length-encrypt block_size _ c k enc) w,
          ◌>>=◌,
        ))
    where
      h : Bytes
      h = hash D (f.rest ++ path)

      t' : Trace
      t' = t ++ hex_line (emsa_sha512_id ++ h)

      sized : length h ≡ l_sha512
      sized = L.length-final _

      enough : (l : List Bytes) → ltb (suc (suc (suc (length l)))) 3 ≡ false
      enough l = ground arith
