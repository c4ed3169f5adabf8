-- ===== src/Openvpn/Mbuf/Size.antt =====
-- `adjust_power_of_2` of vpn/openvpn-2.2.1/misc.c, and a ring from `mbuf_init` on (mbuf.c).
use seguridad_en_redes.Base.{
  ℕ, zero, suc, ◌+◌, ◌*◌, ◌%◌, ◌^◌, ◌≤◌, ◌<◌, ◌≡◌, refl, ap, ◌⊎◌, inl, inr, true, [], some,
  replicate, length-replicate, ltb, Bool-cases, power, power_pos, arith,
}
use mathlib.Core.Path.{subst}
use seguridad_en_redes.Openvpn.Mbuf.{
  MbufSet, Store, blank_item, double_up, adjust_power_of_2, mbuf_init,
}
use seguridad_en_redes.Openvpn.Mbuf.Ring.{queue}
use seguridad_en_redes.Openvpn.Mbuf.References.Added.{IsSound}

-- The loop from a power of two on that is not yet twice too large.
double_up_lem :
    (u n j : ℕ)
    → u ≤ 2 ^ 63
    → j + n ≡ 65
    → (j ≡ 0) ⊎ (power j < u + u)
    → (k : ℕ) × (double_up n (power j) u ≡ some (power k))
      × (u ≤ power k)
      × ((k ≡ 0) ⊎ (power k < u + u))
unfolding double_up
double_up_lem u zero j small e (inl start) = absurd (omega arith)
double_up_lem u zero j small e (inr tight) =
    let last : j ≡ 65 = omega arith in
    let size : power 65 < u + u = subst (λ i. power i < u + u) last tight in absurd (omega arith)
double_up_lem u (suc n) j small e tight = elim (Bool-cases (ltb (power j) u)) [
  | inr enough ↦ (j, rw enough refl, ground (arith, enough), tight)
  | inl less ↦
      let below : power j < u = ground (arith, less) in
      larger less (double_up_lem u n (suc j) small (omega arith) (inr (omega arith)))
]
  where
    larger :
        ltb (power j) u ≡ true
        → (k : ℕ) × (double_up n (power (suc j)) u ≡ some (power k))
          × (u ≤ power k)
          × ((k ≡ 0) ⊎ (power k < u + u))
        → (k : ℕ) × (double_up (suc n) (power j) u ≡ some (power k))
          × (u ≤ power k)
          × ((k ≡ 0) ⊎ (power k < u + u))
    larger less (k, found, le, tight') =
        let below : power j < u = ground (arith, less) in
        let doubled : power j * 2 % 2 ^ 64 ≡ power (suc j) = omega arith in
        let positive : ltb 0 (power j * 2 % 2 ^ 64) ≡ true = ground (arith, doubled, power_pos j) in
        (k, rw (less, positive, doubled) found, le, tight')

-- For a size of at most 2^63, `adjust_power_of_2` ends and fails no assertion, with the least power
-- of two that is at least the size: it is 1, or below twice the size.
pub adjust_power_of_2_lem :
    (u : ℕ)
    → u ≤ 2 ^ 63
    → (k : ℕ) × (adjust_power_of_2 u ≡ some (power k))
      × (u ≤ power k)
      × ((k ≡ 0) ⊎ (power k < u + u))
unfolding adjust_power_of_2
adjust_power_of_2_lem u small = double_up_lem u 65 0 small (omega arith) (inl refl)

-- `mbuf_init` gives an empty ring with room for at least `size` packets, which are 2^31 at most.
pub mbuf_init-IsSound :
    (size : ℕ)
    → size ≤ 2 ^ 31
    → (ms : MbufSet) × (mbuf_init size ≡ some ms)
      × IsSound ms [] (λ p. 0)
      × (queue ms ≡ [])
      × (size ≤ ms.capacity)
unfolding mbuf_init seguridad_en_redes.Openvpn.Mbuf.References.references
    seguridad_en_redes.Openvpn.Mbuf.References.refcount_of
mbuf_init-IsSound size small =
    let (k, e, le, tight) = adjust_power_of_2_lem size (omega arith) in
    let whole : power k % 2 ^ 32 ≡ power k = no_wrap k tight in
    (
      record {
        head = 0;
        len = 0;
        capacity = power k;
        max_queued = 0;
        array = replicate (power k) blank_item;
      },
      rw (e, whole) refl,
      record {
        ring = record {
          exponent = k;
          size = refl;
          full_array = length-replicate (power k) blank_item;
          head_in = power_pos k;
          len_in = omega arith;
        };
        whole = tt;
        counted = λ p. omega arith;
      },
      refl,
      le,
    )
  where
    no_wrap : (k : ℕ) → (k ≡ 0) ⊎ (power k < size + size) → power k % 2 ^ 32 ≡ power k
    no_wrap k (inl one) = let size : power k ≡ 1 = ap power one in omega (arith, size)
    no_wrap k (inr tight) = omega arith
