-- ===== src/Base/Splice.antt =====
-- Overwriting a stretch of a buffer: what `memcpy` and the copying loops leave behind.
use Prim.Native.Nat.{ℕ, zero, suc, ◌+◌, ◌≤◌}
use mathlib.Core.Path.{◌≡◌, refl, ap, sym, ◌∙◌}
use mathlib.Core.List.{List, [], ◌∷◌, ◌++◌}
use native.Mathlib.Omega.{arith}
use seguridad_en_redes.Base.Lists.{length, set, take, drop}

module _ {ℓ} {A : Type ℓ} where
  -- `d` with `xs` written over it from index `k` on; what falls behind its end is lost.
  abbrev pub splice : List A → ℕ → List A → List A
  splice [] k xs = []
  splice (d ∷ ds) zero [] = d ∷ ds
  splice (d ∷ ds) zero (x ∷ xs) = x ∷ splice ds zero xs
  splice (d ∷ ds) (suc k) xs = d ∷ splice ds k xs

  pub length-splice : (d : List A) (k : ℕ) (xs : List A) → length (splice d k xs) ≡ length d
  length-splice [] k xs = refl
  length-splice (d ∷ ds) zero [] = refl
  length-splice (d ∷ ds) zero (x ∷ xs) = ap suc (length-splice ds zero xs)
  length-splice (d ∷ ds) (suc k) xs = ap suc (length-splice ds k xs)

  pub splice-nil : (d : List A) (k : ℕ) → splice d k [] ≡ d
  splice-nil [] k = refl
  splice-nil (d ∷ ds) zero = refl
  splice-nil (d ∷ ds) (suc k) = ap (◌∷◌ d) (splice-nil ds k)

  -- One store followed by the rest is the whole overwrite.
  pub splice-set :
      (d : List A) (k : ℕ) (x : A) (xs : List A)
      → splice (set d k x) (suc k) xs ≡ splice d k (x ∷ xs)
  splice-set [] k x xs = refl
  splice-set (d ∷ ds) zero x xs = refl
  splice-set (d ∷ ds) (suc k) x xs = ap (◌∷◌ d) (splice-set ds k x xs)

  pub set-eq-splice : (d : List A) (k : ℕ) (x : A) → set d k x ≡ splice d k (x ∷ [])
  set-eq-splice d k x = sym (splice-nil (set d k x) (suc k)) ∙ splice-set d k x []

  -- Two adjoining overwrites are one.
  pub splice-splice :
      (d : List A) (k : ℕ) (xs ys : List A)
      → splice (splice d k xs) (k + length xs) ys ≡ splice d k (xs ++ ys)
  splice-splice [] k xs ys = refl
  splice-splice (d ∷ ds) zero [] ys = refl
  splice-splice (d ∷ ds) zero (x ∷ xs) ys =
      ap (λ n. splice (x ∷ splice ds zero xs) n ys) (shift xs)
      ∙ ap (◌∷◌ x) (splice-splice ds zero xs ys)
    where
      shift : (l : List A) → 0 + suc (length l) ≡ suc (0 + length l)
      shift l = omega arith
  splice-splice (d ∷ ds) (suc k) xs ys =
      ap (λ n. splice (d ∷ splice ds k xs) n ys) shift ∙ ap (◌∷◌ d) (splice-splice ds k xs ys)
    where
      shift : suc k + length xs ≡ suc (k + length xs)
      shift = omega arith

  pub splice-front :
      (d xs : List A) → length xs ≤ length d → splice d 0 xs ≡ xs ++ drop (length xs) d
  splice-front [] [] h = refl
  splice-front [] (x ∷ xs) h = absurd (omega arith)
  splice-front (d ∷ ds) [] h = refl
  splice-front (d ∷ ds) (x ∷ xs) h = ap (◌∷◌ x) (splice-front ds xs (omega arith))

  -- An overwrite as long as the buffer leaves nothing of it.
  pub splice-all : (d xs : List A) → length xs ≡ length d → splice d 0 xs ≡ xs
  splice-all [] [] h = refl
  splice-all [] (x ∷ xs) h = absurd (omega arith)
  splice-all (d ∷ ds) [] h = absurd (omega arith)
  splice-all (d ∷ ds) (x ∷ xs) h = ap (◌∷◌ x) (splice-all ds xs (omega arith))

  pub take-splice : (d xs : List A) → length xs ≤ length d → take (length xs) (splice d 0 xs) ≡ xs
  take-splice [] [] h = refl
  take-splice [] (x ∷ xs) h = absurd (omega arith)
  take-splice (d ∷ ds) [] h = refl
  take-splice (d ∷ ds) (x ∷ xs) h = ap (◌∷◌ x) (take-splice ds xs (omega arith))
