-- ===== src/Base/Run.antt =====
-- A C program's run: what it prints, how it ends, and the reads and writes of its buffers.
use Prim.Native.Nat.{ℕ}
use mathlib.Core.List.{List, [], ◌∷◌, ◌++◌}
use mathlib.Core.Bool.{Bool, true, false}

-- An array of `unsigned char`, a string without its final 0.
abbrev pub Bytes : Type 0
Bytes = List ℕ

-- The messages on standard error.
pub data Diag : Type 0 where
  open_failed : Bytes → Diag
  read_failed close_failed : Diag
  rsa_new_null : Diag
  pem_failed : Bytes → Diag
  write_no_data write_unsupported : Diag
  b64_no_data b64_unsupported : Diag
  fopen_failed : Bytes → Diag
  rsa_error : Diag

-- What a run writes: bytes on standard output, or a message on standard error.
pub data Event : Type 0 where
  out : Bytes → Event
  diag : Diag → Event

abbrev pub Trace : Type 0
Trace = List Event

-- A call returns, the process exits with a status, or the behaviour is undefined (an access
-- outside an array, a null stream).
pub data Outcome {ℓ} (A : Type ℓ) : Type ℓ where
  ret : Trace → A → Outcome A
  exit : Trace → ℕ → Outcome A
  fault : Outcome A

abbrev pub M {ℓ} : Type ℓ → Type ℓ
M A = Trace → Outcome A

infixl 5 ◌>>=◌ ◌>>◌
abbrev pub ◌>>=◌ {ℓ κ} : {A : Type ℓ} {B : Type κ} → M A → (A → M B) → M B
◌>>=◌ m f t = elim (m t) [ ret t' a ↦ f a t' | exit t' n ↦ exit t' n | fault ↦ fault ]

abbrev pub ◌>>◌ {ℓ κ} : {A : Type ℓ} {B : Type κ} → M A → M B → M B
m >> k = m >>= λ _. k

abbrev pub pure {ℓ} : {A : Type ℓ} → A → M A
pure a t = ret t a

abbrev pub exit_with {ℓ} : {A : Type ℓ} → ℕ → M A
exit_with n t = exit t n

abbrev pub crash {ℓ} : {A : Type ℓ} → M A
crash t = fault

-- `printf`, `puts`: the bytes go to standard output.
abbrev pub print : Bytes → M (Unit {0})
print bs t = ret (t ++ (out bs ∷ [])) tt

-- `fprintf (stderr, …)`
abbrev pub warn : Diag → M (Unit {0})
warn d t = ret (t ++ (diag d ∷ [])) tt

-- `err (1, …)`: a message on standard error and exit status 1.
abbrev pub err {ℓ} : {A : Type ℓ} → Diag → M A
err d t = exit (t ++ (diag d ∷ [])) 1

-- `if (test) err (1, …);`
abbrev pub err_if : Bool → Diag → M (Unit {0})
err_if true d = err d
err_if false d = pure tt
