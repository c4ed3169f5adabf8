-- ===== src/Sign/Program/Verify.antt =====
-- What the verification of practica3/sign.c accepts, and what `main` makes of it.
use seguridad_en_redes.Base.{
  ◌+◌, ◌≡◌, ◌↔◌, refl, ap, sym, ◌∙◌, [], ◌∷◌, ◌++◌, true, some, length, length-append, replicate,
  take, drop, length-drop, splice, length-splice, take-append_eq, drop-append_eq, append_assoc,
  arith, Bytes, Trace, Outcome, ret, exit, ◌>>=◌,
}
use seguridad_en_redes.Memory.{read_at_whole, write_at_whole}
use seguridad_en_redes.Posix.{File, FileSystem, arg}
use seguridad_en_redes.Posix.Laws.{NeverFails, IsReadable, good_end}
use seguridad_en_redes.Crypto.{Digest, IsLawful, hash, Rsa, IsSized, IsPair, Base64}
use seguridad_en_redes.Sign.Block.{
  emsa_sha512_id, l_sha512, len_id, text_size, block_size, padding_size, ps_size,
}
use seguridad_en_redes.Sign.Block.Layout.{
  emsa_pkcs1, padding, length-padding, length-emsa_pkcs1, emsa_pkcs1-eq-padding,
}
use seguridad_en_redes.Sign.Check.{
  Check, good, bad, comprobar_padding, sacar_hash_firma, comparar_hashes,
}
use seguridad_en_redes.Sign.Check.Padding.{comprobar_padding_iff}
use seguridad_en_redes.Sign.Check.Digests.{sacar_hash_firma_lem, comparar_hashes_iff}
use seguridad_en_redes.Sign.Files.{read_pubkey, desencryptar_msg}
use seguridad_en_redes.Sign.Files.Hashing.{sha512-HashEnds}
use seguridad_en_redes.Sign.Files.Signature.{leer_firma_b64_lem}
use seguridad_en_redes.Sign.Program.{
  strncmp_eq, verb_v, compare_digests, judge, verify_signature, main, find_signature, string_arg,
}

-- A result that must be the good one.
good_result :
    {P : Type 0} {r : Outcome Check} {t : Trace}
    → (c : Check) × (r ≡ ret t c) × ((c ≡ good) ↔ P)
    → P
    → r ≡ ret t good
good_result {t} (c, run, iff) p = run ∙ ap (ret t) (iff.1 p)

module _ (t : Trace) where
  -- A block of the right padding, any 19 bytes in place of the identifier of SHA-512, and a
  -- digest passes `comprobarPadding`, and `sacarHashFirma` takes the digest from it: the
  -- identifier is not looked at.
  pub accepts_any_id :
      (id h out_hash : Bytes)
      → length id ≡ len_id
      → length h ≡ l_sha512
      → length out_hash ≡ l_sha512
      → let block = padding ps_size ++ (id ++ h) in
        (comprobar_padding block t ≡ ret t good) × (sacar_hash_firma block out_hash t ≡ ret t h)
  accepts_any_id id h out_hash hi hh ho = (
    good_result (comprobar_padding_iff (framed id h) t (size id h hi hh))
        (take-append_eq padding_size (padding ps_size) (id ++ h) (length-padding ps_size)),
    sacar_hash_firma_lem (framed id h) out_hash t (size id h hi hh) ho ∙ ap (ret t) (back id h hi),
  )
    where
      framed : Bytes → Bytes → Bytes
      framed id h = padding ps_size ++ (id ++ h)

      size :
          (id h : Bytes)
          → length id ≡ len_id
          → length h ≡ l_sha512
          → length (framed id h) ≡ block_size
      size id h hi hh =
          length-append (padding ps_size) (id ++ h)
          ∙ omega (arith, length-padding ps_size, length-append id h)

      back : (id h : Bytes) → length id ≡ len_id → drop (padding_size + len_id) (framed id h) ≡ h
      back id h hi =
          ap (drop (padding_size + len_id)) (sym (append_assoc (padding ps_size) id h))
          ∙ drop-append_eq (padding_size + len_id) (padding ps_size ++ id) h
              (length-append (padding ps_size) id ∙ omega (arith, length-padding ps_size))

  -- For a digest `h` of 64 bytes, an RSA whose results have the size of the key, and a pair of
  -- keys: what a signer encodes and encrypts with the private key, the verifier decrypts with the
  -- public key, finds well padded, and takes out `h`, which compares as equal to itself.
  pub create-verify :
      (R : Rsa) (z : IsSized R) (priv pub_key : R.Key) (h c block out_hash : Bytes)
      → IsPair R priv pub_key
      → length h ≡ l_sha512
      → length block ≡ block_size
      → length out_hash ≡ l_sha512
      → let em = emsa_pkcs1 block_size emsa_sha512_id h in
        R.private_encrypt block_size em priv ≡ some c
        → (desencryptar_msg R block pub_key c t ≡ ret t em)
          × (comprobar_padding em t ≡ ret t good)
          × (sacar_hash_firma em out_hash t ≡ ret t h)
          × (comparar_hashes h h t ≡ ret t good)
  unfolding desencryptar_msg
  create-verify R z priv pub_key h c block out_hash pair hh hb ho enc =
      let em : Bytes = emsa_pkcs1 block_size emsa_sha512_id h in
      let parts = accepts_any_id emsa_sha512_id h out_hash refl hh ho in
      (
        rw
            (
              read_at_whole t c block_size (z.length-encrypt block_size em c priv enc),
              ◌>>=◌,
              pair block_size em c enc,
              desencryptar_msg,
            )
            (write_at_whole t block em (length-emsa_pkcs1 h hh ∙ sym hb)),
        rw (emsa_pkcs1-eq-padding h hh) parts.0,
        rw (emsa_pkcs1-eq-padding h hh) parts.1,
        good_result (comparar_hashes_iff h h t hh hh) refl,
      )

module _ (D : Digest) (L : IsLawful D l_sha512) (fs : FileSystem) (t : Trace) where
  -- The comparison leaves no trace.
  compare_digests_lem :
      (R : Rsa) (B : Base64) (block path : Bytes) (f : File)
      → length block ≡ block_size
      → fs path ≡ some f
      → IsReadable f
      → compare_digests D R B true fs block path t ≡ ret t tt
  unfolding compare_digests
  compare_digests_lem R B block path f hb e ok = rw (
    sacar_hash_firma_lem block (replicate l_sha512 0) t hb refl,
    ◌>>=◌,
    good_end
        (sha512-HashEnds D L fs path f (replicate text_size 0) text_size (replicate l_sha512 0) t e
          (omega arith) (omega arith) (omega arith))
        ok,
    ◌>>=◌,
    compared.1,
    ◌>>=◌,
  )
    where
      compared :
          (c : Check) × (comparar_hashes
              (hash D (f.rest ++ path))
              (drop (padding_size + len_id) block)
              t
            ≡ ret t c)
          × ((c ≡ good) ↔ (hash D (f.rest ++ path) ≡ drop (padding_size + len_id) block))
      compared =
          comparar_hashes_iff _ _ t (L.length-final _)
            (length-drop (padding_size + len_id) block ∙ omega (arith, hb))

  -- The calls from `comprobarPadding` on.
  judged :
      (R : Rsa) (B : Base64) (m path : Bytes) (f : File) (c : Check)
      → length m ≡ block_size
      → fs path ≡ some f
      → IsReadable f
      → comprobar_padding m t ≡ ret t c
      → judge D R B true fs m path t ≡ exit t 0
  unfolding judge
  judged R B m path f good hm e ok run =
      rw (run, ◌>>=◌, compare_digests_lem R B m path f hm e ok, ◌>>=◌)
  judged R B m path f bad hm e ok run = rw (run, ◌>>=◌)

  -- For a digest with the laws of SHA-512 and an RSA whose results have the size of the key: called
  -- with `-v`, a signature, a file and a public key that can all be read, where RSA gives the block
  -- `m` for the signature, the program writes nothing and exits with 0, whatever `m` is: a forged
  -- signature cannot be told from a good one.
  pub main-verify_silent :
      (R : Rsa) (z : IsSized R) (B : Base64) (garbage name path_signature path path_pubkey : Bytes)
      (sf pf f : File) (k : R.Key) (m : Bytes)
      → length garbage ≡ block_size
      → fs path_signature ≡ some sf
      → NeverFails sf.turns
      → fs path_pubkey ≡ some pf
      → R.pem_public pf.rest ≡ some k
      → R.public_decrypt block_size (splice garbage 0 (take block_size (B.decode sf.rest))) k
        ≡ some m
      → fs path ≡ some f
      → IsReadable f
      → main D R B true fs garbage (name ∷ verb_v ∷ path_signature ∷ path ∷ path_pubkey ∷ []) t
        ≡ exit t 0
  unfolding main string_arg arg find_signature strncmp_eq verify_signature read_pubkey
      desencryptar_msg
  main-verify_silent R z B garbage name path_signature path path_pubkey sf pf f k m g es ns ep pem
        dec e ok =
      rw
        (
          good_end (leer_firma_b64_lem t B fs path_signature sf garbage es g) ns,
          ◌>>=◌,
          ep,
          ◌>>=◌,
          pem,
          ◌>>=◌,
          read_at_whole t c_block block_size
              (length-splice garbage 0 (take block_size (B.decode sf.rest)) ∙ g),
          ◌>>=◌,
          dec,
          ◌>>=◌,
          write_at_whole t (replicate block_size 0) m (omega (arith, sized)),
          ◌>>=◌,
        )
        (judged R B m path f ((comprobar_padding_iff m t sized).0) sized e ok
          (comprobar_padding_iff m t sized).1)
    where
      c_block : Bytes
      c_block = splice garbage 0 (take block_size (B.decode sf.rest))

      sized : length m ≡ block_size
      sized = z.length-decrypt block_size c_block m k dec
