-- ===== src/Openvpn/Checked.antt =====
-- Computations that a failed `ASSERT` or an index outside an array ends: `none`.
use seguridad_en_redes.Base.{Bool, true, false, Option, none, some}

infixl 5 ◌>>=◌ ◌>>◌
abbrev pub ◌>>=◌ {ℓ κ} : {A : Type ℓ} {B : Type κ} → Option A → (A → Option B) → Option B
none >>= f = none
some a >>= f = f a

abbrev pub ◌>>◌ {ℓ κ} : {A : Type ℓ} {B : Type κ} → Option A → Option B → Option B
m >> k = m >>= λ _. k

-- `ASSERT (test)`: a failure ends the process (vpn/openvpn-2.2.1/error.h).
abbrev pub assert : Bool → Option (Unit {0})
assert true = some tt
assert false = none
