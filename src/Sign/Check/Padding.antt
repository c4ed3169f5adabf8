-- ===== src/Sign/Check/Padding.antt =====
-- `comprobarPadding` accepts exactly the blocks that begin with the padding of `createPadding`.
use seguridad_en_redes.Base.{
  ℕ, zero, suc, ◌+◌, ◌-◌, ◌≤◌, ◌≡◌, refl, ap₂, ◌↔◌, inl, inr, [], ◌∷◌, ◌++◌, length, take, drop,
  drop-eq-cons, take-suc, append_inj, get_or, replicate, length-take, length-replicate, ==_iff,
  Bool-cases, arith, Bool, true, false, Bytes, Trace, Outcome, ret, ◌>>=◌, ◌==◌, ◌&&◌,
  if◌then◌else◌,
}
use seguridad_en_redes.Memory.{load_lem}
use seguridad_en_redes.Sign.Block.{padding_size, ps_size, block_size}
use seguridad_en_redes.Sign.Block.Layout.{padding}
use seguridad_en_redes.Sign.Check.{Check, good, bad, frame_ok, ff_loop, comprobar_padding}

-- The three bytes that frame the padding.
frame_ok_lem :
    (block : Bytes) (t : Trace)
    → padding_size ≤ length block
    → frame_ok block t
      ≡ ret t (
          get_or block 0 0 == 0x00
          && (get_or block 1 0 == 0x01 && get_or block (padding_size - 1) 0 == 0x00))
unfolding frame_ok
frame_ok_lem block t h =
    ground (arith, load_lem t block 0, load_lem t block 1, load_lem t block (padding_size - 1))

ff_loop_lem :
    (n i : ℕ) (block : Bytes) (start : Check) (t : Trace)
    → i + n ≤ length block
    → (c : Check) × (ff_loop n i block start t ≡ ret t c)
      × ((c ≡ good) ↔ ((start ≡ good) × (take n (drop i block) ≡ replicate n 0xff)))
unfolding ff_loop
ff_loop_lem zero i block start t h = (start, refl, (λ e. (e, refl), λ e. e.0))
ff_loop_lem (suc n) i block start t h =
    rw (load_lem t block i (omega arith), ◌>>=◌, drop-eq-cons block i 0 (omega arith))
      (elim (Bool-cases (get_or block i 0 == 0xff)) [
        | inl e ↦
            rw (e, ← next)
              (one_more (get_or block i 0) ((==_iff _ _).0 e)
                (ff_loop_lem n (i + 1) block start t (omega arith)))
        | inr ne ↦ rw ne (bad, refl, (λ p. cc, λ q. absurd (differ q.1 ne)))
      ])
  where
    next : i + 1 ≡ suc i
    next = omega arith

    differ :
        {xs ys : Bytes} → get_or block i 0 ∷ xs ≡ 0xff ∷ ys → (get_or block i 0 == 0xff) ≡ false → ⊥
    differ q ne = ground arith

    one_more :
        (x : ℕ)
        → x ≡ 0xff
        → {r : Outcome Check} {xs ys : Bytes}
        → (c : Check) × (r ≡ ret t c) × ((c ≡ good) ↔ ((start ≡ good) × (xs ≡ ys)))
        → (c : Check) × (r ≡ ret t c) × ((c ≡ good) ↔ ((start ≡ good) × (x ∷ xs ≡ 0xff ∷ ys)))
    one_more x e (c, run, iff) =
        (c, run, (λ p. let q = iff.0 p in (q.0, ap₂ ◌∷◌ e q.1), λ q. iff.1 (q.0, cc)))

-- The tests of `comprobarPadding` say that the block begins with `n` bytes FF in their frame.
framed_iff :
    (n : ℕ) (block : Bytes)
    → n + 3 ≤ length block
    → (((get_or block 0 0 == 0x00 && (get_or block 1 0 == 0x01 && get_or block (n + 2) 0 == 0x00))
          ≡ true)
        × (take n (drop 2 block) ≡ replicate n 0xff))
      ↔ (take (n + 3) block ≡ padding n)
framed_iff n [] h = absurd (omega arith)
framed_iff n (a ∷ []) h = absurd (omega arith)
framed_iff n (a ∷ b ∷ r) h = rw (at_end, at_start, take-suc n r 0 (omega arith)) (there, back)
  where
    at_end : n + 2 ≡ suc (suc n)
    at_end = omega arith

    at_start : n + 3 ≡ suc (suc (suc n))
    at_start = omega arith

    there :
        ((a == 0x00 && (b == 0x01 && get_or r n 0 == 0x00)) ≡ true) × (take n r ≡ replicate n 0xff)
        → a ∷ b ∷ (take n r ++ (get_or r n 0 ∷ [])) ≡ padding n
    there (e, f) = rw f (ground arith)

    split :
        a ∷ b ∷ (take n r ++ (get_or r n 0 ∷ [])) ≡ padding n
        → (take n r ≡ replicate n 0xff) × (get_or r n 0 ∷ [] ≡ 0x00 ∷ [])
    split e =
        append_inj (take n r) (replicate n 0xff) _ _
          (omega (arith, length-take n r, length-replicate {A = ℕ} n 0xff)) (cc)

    back :
        a ∷ b ∷ (take n r ++ (get_or r n 0 ∷ [])) ≡ padding n
        → ((a == 0x00 && (b == 0x01 && get_or r n 0 == 0x00)) ≡ true)
          × (take n r ≡ replicate n 0xff)
    back e = (ground (arith, (split e).1), (split e).0)

-- On a block of 512 bytes `comprobarPadding` returns 0 exactly when the first 429 bytes are
-- 00 01 FF … FF 00 with 426 bytes FF, and it reads inside the block.
pub comprobar_padding_iff :
    (block : Bytes) (t : Trace)
    → length block ≡ block_size
    → (c : Check) × (comprobar_padding block t ≡ ret t c)
      × ((c ≡ good) ↔ (take padding_size block ≡ padding ps_size))
unfolding comprobar_padding
comprobar_padding_iff block t h =
    rw (frame_ok_lem block t (omega arith), ◌>>=◌)
      (combine _ (ff_loop_lem ps_size 2 block _ t (omega arith))
        (framed_iff ps_size block (omega arith)))
  where
    never : bad ≡ good → ⊥
    never e = cc

    nor : false ≡ true → ⊥
    nor e = cc

    combine :
        (framed : Bool) {P Q : Type 0} {r : Outcome Check}
        → (c : Check) × (r ≡ ret t c) × ((c ≡ good) ↔ (((if framed then good else bad) ≡ good) × P))
        → ((framed ≡ true) × P) ↔ Q
        → (c : Check) × (r ≡ ret t c) × ((c ≡ good) ↔ Q)
    combine true (c, run, iff) both =
        (c, run, (λ e. both.0 (refl, (iff.0 e).1), λ q. iff.1 (refl, (both.1 q).1)))
    combine false (c, run, iff) both =
        (c, run, (λ e. absurd (never (iff.0 e).0), λ q. absurd (nor (both.1 q).0)))
