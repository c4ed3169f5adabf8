-- ===== src/Memory.antt =====
-- The counted loops that the programs write over their arrays, with every index checked: a read
-- or a write outside an array is a `fault`.
use seguridad_en_redes.Base.{
  ℕ, zero, suc, ◌+◌, ◌≤◌, ◌<◌, ◌≡◌, ap, ◌∙◌, arith, length, get_or, set, take, drop, replicate,
  splice, splice-set, splice-nil, splice-all, length-set, take-all, drop-eq-cons,
  get_elem?-eq-get_or, le→leb, leb, if◌then◌else◌, none, some, get_elem?, crash, Bytes, M, Trace,
  ret, ◌>>=◌, pure,
}

-- `a[i]`
unfoldable pub load : Bytes → ℕ → M ℕ
load a i = elim (get_elem? a i) [ none ↦ crash | some x ↦ pure x ]

-- `a[i] = x`
unfoldable pub store : Bytes → ℕ → ℕ → M Bytes
store a i x = elim (get_elem? a i) [ none ↦ crash | some _ ↦ pure (set a i x) ]

-- A library call that reads `n` bytes through the pointer `a + k`.
unfoldable pub read_at : Bytes → ℕ → ℕ → M Bytes
read_at a k n = if leb (k + n) (length a) then pure (take n (drop k a)) else crash

-- A library call that writes `xs` through the pointer `a + k`.
unfoldable pub write_at : Bytes → ℕ → Bytes → M Bytes
write_at a k xs = if leb (k + length xs) (length a) then pure (splice a k xs) else crash

-- for (i = …; n rounds; i++) d[i + a] = s[i + b];
unfoldable pub copy_loop : ℕ → ℕ → Bytes → ℕ → Bytes → ℕ → M Bytes
copy_loop zero i d a s b = pure d
copy_loop (suc n) i d a s b = do
  x ← load s (i + b)
  d' ← store d (i + a) x
  copy_loop n (i + 1) d' a s b

-- for (i = …; n rounds; i++) d[i] = c;
unfoldable pub fill_loop : ℕ → ℕ → Bytes → ℕ → M Bytes
fill_loop zero i d c = pure d
fill_loop (suc n) i d c = do d' ← store d i c; fill_loop n (i + 1) d' c

module _ (t : Trace) where
  pub load_lem : (s : Bytes) (i : ℕ) → i < length s → load s i t ≡ ret t (get_or s i 0)
  unfolding load
  load_lem s i h = ground (arith, get_elem?-eq-get_or s i 0)

  pub store_lem : (d : Bytes) (i x : ℕ) → i < length d → store d i x t ≡ ret t (set d i x)
  unfolding store
  store_lem d i x h = ground (arith, get_elem?-eq-get_or d i 0)

  pub read_at_lem :
      (a : Bytes) (k n : ℕ) → k + n ≤ length a → read_at a k n t ≡ ret t (take n (drop k a))
  unfolding read_at
  read_at_lem a k n h = rw (le→leb _ _ h)

  -- Reading a whole array.
  pub read_at_whole : (a : Bytes) (n : ℕ) → length a ≡ n → read_at a 0 n t ≡ ret t a
  unfolding read_at
  read_at_whole a n h =
      rw (le→leb (0 + n) (length a) (omega arith)) (ap (ret t) (take-all n a (omega arith)))

  pub write_at_lem :
      (d : Bytes) (k : ℕ) (xs : Bytes)
      → k + length xs ≤ length d
      → write_at d k xs t ≡ ret t (splice d k xs)
  unfolding write_at
  write_at_lem d k xs h = rw (le→leb _ _ h)

  -- Writing a whole array.
  pub write_at_whole : (d xs : Bytes) → length xs ≡ length d → write_at d 0 xs t ≡ ret t xs
  write_at_whole d xs h = write_at_lem d 0 xs (omega arith) ∙ ap (ret t) (splice-all d xs h)

  -- In range, the copying loop writes the stretch of `s` over `d`.
  pub copy_loop_lem :
      (n i : ℕ) (d : Bytes) (a : ℕ) (s : Bytes) (b : ℕ)
      → i + a + n ≤ length d
      → i + b + n ≤ length s
      → copy_loop n i d a s b t ≡ ret t (splice d (i + a) (take n (drop (i + b) s)))
  unfolding copy_loop
  copy_loop_lem zero i d a s b hd hs = rw splice-nil
  copy_loop_lem (suc n) i d a s b hd hs =
      rw (load_lem s (i + b) (omega arith), ◌>>=◌, store_lem d (i + a) x (omega arith), ◌>>=◌)
        (copy_loop_lem n (i + 1) (set d (i + a) x) a s b (rw length-set (omega arith)) (omega arith)
          ∙ ap (ret t) joined)
    where
      x : ℕ
      x = get_or s (i + b) 0

      joined :
          splice (set d (i + a) x) (i + 1 + a) (take n (drop (i + 1 + b) s))
          ≡ splice d (i + a) (take (suc n) (drop (i + b) s))
      joined = rw (index a, index b, splice-set, drop-eq-cons s (i + b) 0 (omega arith))
        where
          index : (c : ℕ) → i + 1 + c ≡ suc (i + c)
          index c = omega arith

  -- In range, the filling loop writes `n` copies of `c`.
  pub fill_loop_lem :
      (n i : ℕ) (d : Bytes) (c : ℕ)
      → i + n ≤ length d
      → fill_loop n i d c t ≡ ret t (splice d i (replicate n c))
  unfolding fill_loop
  fill_loop_lem zero i d c h = rw splice-nil
  fill_loop_lem (suc n) i d c h =
      rw (store_lem d i c (omega arith), ◌>>=◌)
        (fill_loop_lem n (i + 1) (set d i c) c (rw length-set (omega arith)) ∙ ap (ret t) joined)
    where
      index : i + 1 ≡ suc i
      index = omega arith

      joined : splice (set d i c) (i + 1) (replicate n c) ≡ splice d i (replicate (suc n) c)
      joined = rw (index, splice-set)
