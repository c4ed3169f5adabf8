-- ===== src/Sign/Check/Digests.antt =====
-- `sacarHashFirma` and `compararHASHES`.
use seguridad_en_redes.Base.{
  ℕ, zero, suc, ◌+◌, ◌≤◌, ◌≡◌, refl, ap, ap₂, ◌∙◌, ◌↔◌, inl, inr, ◌∷◌, length, take, drop, take-all,
  drop-eq-cons, get_or, splice-all, length-take, length-drop, ==_iff, Bool-cases, arith, Bytes,
  Trace, Outcome, false, ret, ◌>>=◌, ◌==◌,
}
use seguridad_en_redes.Memory.{load_lem, copy_loop_lem}
use seguridad_en_redes.Sign.Block.{padding_size, len_id, l_sha512, block_size}
use seguridad_en_redes.Sign.Check.{
  Check, good, bad, sacar_hash_firma, compare_loop, comparar_hashes,
}

-- From a whole block `sacarHashFirma` takes the last 64 bytes.
pub sacar_hash_firma_lem :
    (block hash : Bytes) (t : Trace)
    → length block ≡ block_size
    → length hash ≡ l_sha512
    → sacar_hash_firma block hash t ≡ ret t (drop (padding_size + len_id) block)
unfolding sacar_hash_firma
sacar_hash_firma_lem block hash t hb hh =
    copy_loop_lem t l_sha512 0 hash 0 block (padding_size + len_id) (omega arith) (omega arith)
    ∙ ap (ret t) (
        splice-all hash (take l_sha512 tail) (omega (arith, length-take l_sha512 tail, size, hh))
        ∙ take-all l_sha512 tail (omega (arith, size)))
  where
    tail : Bytes
    tail = drop (padding_size + len_id) block

    size : length tail ≡ l_sha512
    size = omega (arith, length-drop (padding_size + len_id) block, hb)

-- The loop's answer: the stretches agree or not, and it reads inside both arrays.
pub compare_loop_lem :
    (n i : ℕ) (md hash : Bytes) (t : Trace)
    → i + n ≤ length md
    → i + n ≤ length hash
    → (c : Check) × (compare_loop n i md hash t ≡ ret t c)
      × ((c ≡ good) ↔ (take n (drop i md) ≡ take n (drop i hash)))
unfolding compare_loop
compare_loop_lem zero i md hash t h g = (good, refl, (λ _. refl, λ _. refl))
compare_loop_lem (suc n) i md hash t h g =
    rw
      (
        load_lem t md i (omega arith),
        ◌>>=◌,
        load_lem t hash i (omega arith),
        ◌>>=◌,
        drop-eq-cons md i 0 (omega arith),
        drop-eq-cons hash i 0 (omega arith),
      )
      (elim (Bool-cases (get_or md i 0 == get_or hash i 0)) [
        | inl e ↦
            rw (e, ← next)
              (compare_cons (get_or md i 0) (get_or hash i 0) ((==_iff _ _).0 e)
                (compare_loop_lem n (i + 1) md hash t (omega arith) (omega arith)))
        | inr ne ↦ rw ne (bad, refl, (λ p. cc, λ q. absurd (differ q ne)))
      ])
  where
    next : i + 1 ≡ suc i
    next = omega arith

    differ :
        {xs ys : Bytes}
        → get_or md i 0 ∷ xs ≡ get_or hash i 0 ∷ ys
        → (get_or md i 0 == get_or hash i 0) ≡ false
        → ⊥
    differ q ne = ground arith

    compare_cons :
        (x y : ℕ)
        → x ≡ y
        → {r : Outcome Check} {xs ys : Bytes}
        → (c : Check) × (r ≡ ret t c) × ((c ≡ good) ↔ (xs ≡ ys))
        → (c : Check) × (r ≡ ret t c) × ((c ≡ good) ↔ (x ∷ xs ≡ y ∷ ys))
    compare_cons x y e (c, run, iff) = (c, run, (λ p. ap₂ ◌∷◌ e (iff.0 p), λ q. iff.1 (cc)))

-- On two digests of 64 bytes `compararHASHES` returns 0 exactly when they are equal, and reads
-- inside both arrays.
pub comparar_hashes_iff :
    (md hash : Bytes) (t : Trace)
    → length md ≡ l_sha512
    → length hash ≡ l_sha512
    → (c : Check) × (comparar_hashes md hash t ≡ ret t c) × ((c ≡ good) ↔ (md ≡ hash))
unfolding comparar_hashes
comparar_hashes_iff md hash t h g =
    let r = compare_loop_lem l_sha512 0 md hash t (omega arith) (omega arith) in
    rw (take-all l_sha512 md (omega arith), take-all l_sha512 hash (omega arith)) at r
