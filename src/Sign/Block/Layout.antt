-- ===== src/Sign/Block/Layout.antt =====
-- The block that practica3/sign.c signs is the EMSA-PKCS1-v1_5 encoding of RFC 8017.
use seguridad_en_redes.Base.{
  ℕ, suc, ◌+◌, ◌-◌, ◌≡◌, refl, ap, sym, ◌∙◌, [], ◌∷◌, ◌++◌, length, length-append, length-replicate,
  length-splice, take, take-all, replicate, set, splice, splice-splice, splice-all, set-eq-splice,
  append_assoc, arith, Bytes, Trace, ret, ◌>>=◌,
}
use seguridad_en_redes.Memory.{store, fill_loop, copy_loop, store_lem, fill_loop_lem, copy_loop_lem}
use seguridad_en_redes.Sign.Block.{
  emsa_sha512_id, l_sha512, block_size, len_id, len_t, ps_size, padding_size, concatena_id_sha512,
  create_padding, concatena_padding_hash, build_block,
}

-- RFC 8017, 9.2: 00 01, at least as many FF as fill the block, 00, the identifier and the digest.
pub emsa_pkcs1 : ℕ → Bytes → Bytes → Bytes
emsa_pkcs1 em_len id h =
    0x00 ∷ 0x01 ∷ (replicate (em_len - (length id + length h) - 3) 0xff ++ (0x00 ∷ (id ++ h)))

-- Two arrays copied one behind the other into an array of their joint length.
copy_two :
    (n m : ℕ) (d xs ys : Bytes) (t : Trace)
    → length xs ≡ n
    → length ys ≡ m
    → length d ≡ n + m
    → (do d' ← copy_loop n 0 d 0 xs 0; copy_loop m 0 d' n ys 0) t ≡ ret t (xs ++ ys)
copy_two n m d xs ys t hx hy hd =
    rw (copy_loop_lem t n 0 d 0 xs 0 (omega arith) (omega arith), ◌>>=◌)
      (rw
        (
          copy_loop_lem t m 0 (splice d 0 (take n xs)) n ys 0
              (omega (arith, length-splice d 0 (take n xs))) (omega arith),
          take-all n xs (omega arith),
          take-all m ys (omega arith),
        )
        (ap (ret t) joined))
  where
    joined : splice (splice d 0 xs) (0 + n) ys ≡ xs ++ ys
    joined =
        rw (← hx) (splice-splice d 0 xs ys)
        ∙ splice-all d (xs ++ ys) (length-append xs ys ∙ omega arith)

-- `00 01 FF … FF 00` with `n` bytes FF.
abbrev pub padding : ℕ → Bytes
padding n = 0x00 ∷ 0x01 ∷ (replicate n 0xff ++ (0x00 ∷ []))

-- The four writes of `createPadding`, for any number of bytes FF.
pub padding_writes :
    (n : ℕ) (pd : Bytes) (t : Trace)
    → length pd ≡ n + 3
    → (do
      pd1 ← store pd 0 0x00
      pd2 ← store pd1 1 0x01
      pd3 ← fill_loop n 2 pd2 0xff
      store pd3 (n + 2) 0x00)
        t
      ≡ ret t (padding n)
padding_writes n [] t h = absurd (omega arith)
padding_writes n (a ∷ []) t h = absurd (omega arith)
padding_writes n (a ∷ b ∷ pd) t h =
    rw
      (
        store_lem t (a ∷ b ∷ pd) 0 0x00 (omega arith),
        ◌>>=◌,
        store_lem t (0x00 ∷ b ∷ pd) 1 0x01 (omega arith),
        ◌>>=◌,
        fill_loop_lem t n 2 (0x00 ∷ 0x01 ∷ pd) 0xff (omega arith),
        ◌>>=◌,
        store_lem t (0x00 ∷ 0x01 ∷ splice pd 0 (replicate n 0xff)) (n + 2) 0x00
            (omega (arith, length-splice pd 0 (replicate n 0xff))),
      )
      (ap (ret t) closed)
  where
    closed : set (0x00 ∷ 0x01 ∷ splice pd 0 (replicate n 0xff)) (n + 2) 0x00 ≡ padding n
    closed = rw index (ap (λ r. 0x00 ∷ 0x01 ∷ r) tail_closed)
      where
        index : n + 2 ≡ suc (suc n)
        index = omega arith

        here : n ≡ 0 + length (replicate {A = ℕ} n 0xff)
        here = omega (arith, length-replicate {A = ℕ} n 0xff)

        fits : length (replicate {A = ℕ} n 0xff ++ (0x00 ∷ [])) ≡ length pd
        fits =
            length-append (replicate n 0xff) (0x00 ∷ [])
            ∙ omega (arith, length-replicate {A = ℕ} n 0xff)

        tail_closed : set (splice pd 0 (replicate n 0xff)) n 0x00 ≡ replicate n 0xff ++ (0x00 ∷ [])
        tail_closed =
            set-eq-splice (splice pd 0 (replicate n 0xff)) n 0x00
            ∙ ap (λ k. splice (splice pd 0 (replicate n 0xff)) k (0x00 ∷ [])) here
            ∙ splice-splice pd 0 (replicate n 0xff) (0x00 ∷ [])
            ∙ splice-all pd (replicate n 0xff ++ (0x00 ∷ [])) fits

pub create_padding_lem :
    (pd : Bytes) (t : Trace)
    → length pd ≡ padding_size
    → create_padding pd t ≡ ret t (padding ps_size)
unfolding create_padding
create_padding_lem pd t h = padding_writes ps_size pd t h

pub concatena_id_sha512_lem :
    (md id_sha512 : Bytes) (t : Trace)
    → length md ≡ l_sha512
    → length id_sha512 ≡ len_t
    → concatena_id_sha512 md id_sha512 t ≡ ret t (emsa_sha512_id ++ md)
unfolding concatena_id_sha512
concatena_id_sha512_lem md id_sha512 t h g =
    copy_two len_id l_sha512 id_sha512 emsa_sha512_id md t refl h g

pub concatena_padding_hash_lem :
    (pd hash msg : Bytes) (t : Trace)
    → length pd ≡ padding_size
    → length hash ≡ len_t
    → length msg ≡ block_size
    → concatena_padding_hash pd hash msg t ≡ ret t (pd ++ hash)
unfolding concatena_padding_hash
concatena_padding_hash_lem pd hash msg t hp hh hm =
    copy_two padding_size len_t msg pd hash t hp hh hm

pub length-padding : (n : ℕ) → length (padding n) ≡ n + 3
length-padding n =
    omega
      (arith, length-append (replicate {A = ℕ} n 0xff) (0x00 ∷ []), length-replicate {A = ℕ} n 0xff)

padding-append :
    (n : ℕ) (rest : Bytes) → padding n ++ rest ≡ 0x00 ∷ 0x01 ∷ (replicate n 0xff ++ (0x00 ∷ rest))
padding-append n rest = ap (λ r. 0x00 ∷ 0x01 ∷ r) (append_assoc (replicate n 0xff) (0x00 ∷ []) rest)

-- For a digest of 64 bytes and arrays of the declared sizes, whatever they hold, the block that
-- `main` builds is the EMSA-PKCS1-v1_5 encoding of the digest for a 4096-bit key, and no write
-- leaves its array.
pub build_block-emsa :
    (md id_sha512 pd block : Bytes) (t : Trace)
    → length md ≡ l_sha512
    → length id_sha512 ≡ len_t
    → length pd ≡ padding_size
    → length block ≡ block_size
    → build_block md id_sha512 pd block t ≡ ret t (emsa_pkcs1 block_size emsa_sha512_id md)
unfolding build_block emsa_pkcs1
build_block-emsa md id_sha512 pd block t hm hi hp hb =
    rw
      (
        concatena_id_sha512_lem md id_sha512 t hm hi,
        ◌>>=◌,
        create_padding_lem pd t hp,
        ◌>>=◌,
        concatena_padding_hash_lem (padding ps_size) (emsa_sha512_id ++ md) block t
            (length-padding ps_size) (length-append emsa_sha512_id md ∙ omega arith) hb,
        hm,
      )
      (ap (ret t) (padding-append ps_size (emsa_sha512_id ++ md)))

-- The encoding fills the block.
pub length-emsa_pkcs1 :
    (h : Bytes) → length h ≡ l_sha512 → length (emsa_pkcs1 block_size emsa_sha512_id h) ≡ block_size
unfolding emsa_pkcs1
length-emsa_pkcs1 h e = rw e (fills ps_size h e)
  where
    fills :
        (n : ℕ) (h : Bytes)
        → length h ≡ l_sha512
        → length (0x00 ∷ 0x01 ∷ (replicate n 0xff ++ (0x00 ∷ (emsa_sha512_id ++ h)))) ≡ n + 86
    fills n h e = omega (
      arith,
      length-append (replicate {A = ℕ} n 0xff) (0x00 ∷ (emsa_sha512_id ++ h)),
      length-replicate {A = ℕ} n 0xff,
    )

-- The encoding of a digest of 64 bytes is the padding of `createPadding`, the identifier and the
-- digest.
pub emsa_pkcs1-eq-padding :
    (h : Bytes)
    → length h ≡ l_sha512
    → emsa_pkcs1 block_size emsa_sha512_id h ≡ padding ps_size ++ (emsa_sha512_id ++ h)
unfolding emsa_pkcs1
emsa_pkcs1-eq-padding h e = rw e (sym (padding-append ps_size (emsa_sha512_id ++ h)))
