-- ===== src/Openvpn/Returns.antt =====
-- Properties of what a computation of the OpenVPN model returns.
use seguridad_en_redes.Base.{◌≡◌, refl, Option, none, some}
use seguridad_en_redes.Openvpn.Checked.{◌>>=◌}

-- Whatever is returned has a property.
abbrev pub Returns {ℓ κ} : {A : Type ℓ} → (A → Type κ) → Option A → Type κ
Returns P none = Unit
Returns P (some a) = P a

module _ {ℓ κ ι} {A : Type ℓ} {B : Type κ} where
  pub bind-Returns :
      (P : A → Type ι) (Q : B → Type ι) (m : Option A) (f : A → Option B)
      → Returns P m
      → ((a : A) → P a → Returns Q (f a))
      → Returns Q (m >>= f)
  bind-Returns P Q none f h k = tt
  bind-Returns P Q (some a) f h k = k a h

pub returned {ℓ} : {A : Type ℓ} → (m : Option A) → Returns (λ a. m ≡ some a) m
returned none = tt
returned (some a) = refl

pub anything {ℓ} : {A : Type ℓ} → (m : Option A) → Returns (λ a. Unit {0}) m
anything none = tt
anything (some a) = tt
