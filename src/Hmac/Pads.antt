-- ===== src/Hmac/Pads.antt =====
-- The two pads of practica2/hmacsha1.c: the key xored with the constants 0x36 and 0x5c.
use seguridad_en_redes.Base.{
  ℕ, zero, suc, ◌+◌, ◌≤◌, ◌≡◌, ap₂, ◌∙◌, map, length, take, drop, set, get_or, splice, splice-nil,
  splice-set, splice-all, length-set, length-map, drop-set, drop-eq-cons, take-all, bit_xor, arith,
  Bytes, Trace, ret, ◌>>=◌,
}
use seguridad_en_redes.Memory.{load_lem, store_lem}
use seguridad_en_redes.Hmac.{xor_loop}

-- Every byte of `k` xored with `c`.
abbrev pub xor_pad : ℕ → Bytes → Bytes
xor_pad c = map (λ x. bit_xor x c)

-- A store at `i`, and then the same for the rest.
xored :
    (k : Bytes) (c i n : ℕ)
    → i + suc n ≤ length k
    → let x = bit_xor (get_or k i 0) c in
      splice (set k i x) (i + 1) (xor_pad c (take n (drop (i + 1) (set k i x))))
      ≡ splice k i (xor_pad c (take (suc n) (drop i k)))
xored k c i n h = rw (next, drop-set, splice-set, drop-eq-cons k i 0 (omega arith))
  where
    next : i + 1 ≡ suc i
    next = omega arith

xor_loop_lem :
    (n i : ℕ) (k_ipad k_opad : Bytes) (t : Trace)
    → i + n ≤ length k_ipad
    → i + n ≤ length k_opad
    → xor_loop n i k_ipad k_opad t
      ≡ ret t (
        splice k_ipad i (xor_pad 0x36 (take n (drop i k_ipad))),
        splice k_opad i (xor_pad 0x5c (take n (drop i k_opad))),
      )
unfolding xor_loop
xor_loop_lem zero i k_ipad k_opad t h g = rw (splice-nil, splice-nil)
xor_loop_lem (suc n) i k_ipad k_opad t h g =
    rw
      (
        load_lem t k_ipad i (omega arith),
        ◌>>=◌,
        store_lem t k_ipad i x (omega arith),
        ◌>>=◌,
        load_lem t k_opad i (omega arith),
        ◌>>=◌,
        store_lem t k_opad i y (omega arith),
        ◌>>=◌,
      )
      (xor_loop_lem n (i + 1) (set k_ipad i x) (set k_opad i y) t (rw length-set (omega arith))
          (rw length-set (omega arith))
        ∙ ap₂ (λ a b. ret t (a, b)) (xored k_ipad 0x36 i n h) (xored k_opad 0x5c i n g))
  where
    x : ℕ
    x = bit_xor (get_or k_ipad i 0) 0x36

    y : ℕ
    y = bit_xor (get_or k_opad i 0) 0x5c

-- Over whole arrays every byte is xored.
pub xor_loop_whole :
    (n : ℕ) (k : Bytes) (t : Trace)
    → length k ≡ n
    → xor_loop n 0 k k t ≡ ret t (xor_pad 0x36 k, xor_pad 0x5c k)
xor_loop_whole n k t h =
    xor_loop_lem n 0 k k t (omega arith) (omega arith)
    ∙ ap₂ (λ a b. ret t (a, b)) (whole 0x36) (whole 0x5c)
  where
    whole : (c : ℕ) → splice k 0 (xor_pad c (take n k)) ≡ xor_pad c k
    whole c = rw (take-all n k (omega arith)) (splice-all k (xor_pad c k) (length-map k _))
