-- ===== src/Sign/Program/Options.antt =====
-- How `main` of practica3/sign.c finds the signature's path behind `-v`.
use seguridad_en_redes.Base.{
  ◌≡◌, ◌↔◌, [], ◌∷◌, ◌++◌, true, if◌then◌else◌, arith, Bytes, Trace, ret, exit, out,
}
use seguridad_en_redes.Posix.{arg}
use seguridad_en_redes.Sign.Program.{strncmp_eq, verb_v, usage, string_arg, find_signature}

-- For the option string `-v` and any argument, the comparison of `sizeof ("-v")` bytes gives 0
-- exactly when the argument is `-v`.
pub strncmp_eq_iff : (a : Bytes) → (strncmp_eq 3 verb_v a ≡ true) ↔ (a ≡ verb_v)
unfolding strncmp_eq
strncmp_eq_iff [] = (λ e. cc, λ e. cc)
strncmp_eq_iff (x ∷ []) = (λ e. ground arith, λ e. cc)
strncmp_eq_iff (x ∷ y ∷ []) = (λ e. ground arith, λ e. ground arith)
strncmp_eq_iff (x ∷ y ∷ z ∷ r) = (λ e. ground arith, λ e. cc)

-- With four arguments the loop takes the argument behind the first `-v` among the first three;
-- if there is none, or only the last argument is `-v`, it prints the usage and exits with 1.
pub find_signature_lem :
    (name a b c d : Bytes) (t : Trace)
    → find_signature 4 1 (name ∷ a ∷ b ∷ c ∷ d ∷ []) t ≡ (
        if strncmp_eq 3 verb_v a
        then ret t b
        else if strncmp_eq 3 verb_v b
        then ret t c
        else if strncmp_eq 3 verb_v c
        then ret t d
        else exit (t ++ (out usage ∷ [])) 1)
unfolding find_signature string_arg arg
find_signature_lem name a b c d t = ground arith
