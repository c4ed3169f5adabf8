-- ===== src/Openvpn/CircList/Places.antt =====
-- Where the items of the circular list of vpn/openvpn-2.2.1/circ_list.h stand in its array.
use seguridad_en_redes.Base.{
  ℕ, zero, suc, ◌+◌, ◌-◌, ◌≤◌, ◌<◌, ◌≡◌, ◌≢◌, refl, ap, List, [], ◌∷◌, some, get_elem?, set, length,
  ltb, leb, if◌then◌else◌, lt→ltb, arith,
}
use seguridad_en_redes.Openvpn.CircList.{modulo_add, modulo_sub, put}

module _ {ℓ} {A : Type ℓ} where
  pub get_elem?-some : (xs : List A) (i : ℕ) → i < length xs → (a : A) × (get_elem? xs i ≡ some a)
  get_elem?-some [] i h = absurd (omega arith)
  get_elem?-some (x ∷ xs) zero h = (x, refl)
  get_elem?-some (x ∷ xs) (suc i) h = get_elem?-some xs i (omega arith)

  pub get_elem?-set_self :
      (xs : List A) (i : ℕ) (v : A) → i < length xs → get_elem? (set xs i v) i ≡ some v
  get_elem?-set_self [] i v h = absurd (omega arith)
  get_elem?-set_self (x ∷ xs) zero v h = refl
  get_elem?-set_self (x ∷ xs) (suc i) v h = get_elem?-set_self xs i v (omega arith)

  pub get_elem?-set_ne :
      (xs : List A) (i j : ℕ) (v : A) → i ≢ j → get_elem? (set xs i v) j ≡ get_elem? xs j
  get_elem?-set_ne [] i j v h = refl
  get_elem?-set_ne (x ∷ xs) zero zero v h = absurd (h refl)
  get_elem?-set_ne (x ∷ xs) zero (suc j) v h = refl
  get_elem?-set_ne (x ∷ xs) (suc i) zero v h = refl
  get_elem?-set_ne (x ∷ xs) (suc i) (suc j) v h = get_elem?-set_ne xs i j v (λ e. h (ap suc e))

  pub put_lem : (xs : List A) (i : ℕ) (v : A) → i < length xs → put xs i v ≡ some (set xs i v)
  unfolding put
  put_lem xs i v h = rw (lt→ltb i (length xs) h) refl

-- The place of item `i` of a list whose head is at `head`.
abbrev pub place : ℕ → ℕ → ℕ → ℕ
place head i cap = if leb cap (head + i) then head + i - cap else head + i

-- The place before `head`.
abbrev pub before : ℕ → ℕ → ℕ
before head cap = if ltb head 1 then head + cap - 1 else head - 1

pub modulo_add_lem : (x y m : ℕ) → x < m → y ≤ m → modulo_add x y m ≡ some (place x y m)
unfolding modulo_add
modulo_add_lem x y m h k = ground arith

pub modulo_sub_lem : (x m : ℕ) → x < m → modulo_sub x 1 m ≡ some (before x m)
unfolding modulo_sub
modulo_sub_lem x m h = ground arith

pub place-before :
    (head i cap : ℕ)
    → head < cap
    → suc i < cap
    → place (before head cap) (suc i) cap ≡ place head i cap
place-before head i cap h k = ground arith

pub place-lt : (head i cap : ℕ) → head < cap → i < cap → place head i cap < cap
place-lt head i cap h k = ground arith

pub before-lt : (head cap : ℕ) → head < cap → before head cap < cap
before-lt head cap h = ground arith

pub place-ne :
    (head i j cap : ℕ)
    → head < cap
    → i < cap
    → j < cap
    → i ≢ j
    → place head i cap ≢ place head j cap
place-ne head i j cap h k l n = ground arith

pub place-zero : (head cap : ℕ) → head < cap → place head 0 cap ≡ head
place-zero head cap h = ground arith

pub before-ne : (head i cap : ℕ) → head < cap → suc i < cap → before head cap ≢ place head i cap
before-ne head i cap h k = ground arith
