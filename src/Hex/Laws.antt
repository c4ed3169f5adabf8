-- ===== src/Hex/Laws.antt =====
-- What the `%02x` loop prints, and that the digits determine the bytes.
use seguridad_en_redes.Base.{
  ℕ, zero, suc, ◌+◌, ◌*◌, ◌-◌, ◌≤◌, ◌<◌, ◌≡◌, refl, ap, ap₂, sym, ◌∙◌, [], ◌∷◌, ◌++◌, map,
  append-nil, append_assoc, length, take-all, take, drop, get_or, drop-eq-cons, ltb, if◌then◌else◌,
  arith, Bytes, Trace, out, ret, ◌>>=◌,
}
use seguridad_en_redes.Memory.{load_lem}
use seguridad_en_redes.Hex.{hex_byte, hex_loop, converthexa}

-- One write for each byte.
abbrev pub hex_events : Bytes → Trace
hex_events = map (λ x. out (hex_byte x))

-- In range, the loop prints the bytes from `i` on, two digits each, and changes nothing.
pub hex_loop_lem :
    (n i : ℕ) (md : Bytes) (t : Trace)
    → i + n ≤ length md
    → hex_loop n i md t ≡ ret (t ++ hex_events (take n (drop i md))) tt
unfolding hex_loop
hex_loop_lem zero i md t h = rw append-nil
hex_loop_lem (suc n) i md t h =
    rw (load_lem t md i (omega arith), ◌>>=◌)
      (hex_loop_lem n (i + 1) md _ (omega arith) ∙ ap (λ e. ret e tt) joined)
  where
    next : i + 1 ≡ suc i
    next = omega arith

    joined :
        (t ++ (out (hex_byte (get_or md i 0)) ∷ [])) ++ hex_events (take n (drop (i + 1) md))
        ≡ t ++ hex_events (take (suc n) (drop i md))
    joined = rw (append_assoc, drop-eq-cons md i 0 (omega arith), next)

-- The value of a hexadecimal digit.
abbrev pub digit_value : ℕ → ℕ
digit_value c = if ltb c 58 then c - 48 else c - 87

-- The bytes that a text of digit pairs stands for.
pub unhex : Bytes → Bytes
unhex [] = []
unhex (a ∷ []) = []
unhex (a ∷ b ∷ r) = (digit_value a * 16 + digit_value b) ∷ unhex r

abbrev pub IsBytes : Bytes → Type 0
IsBytes [] = Unit
IsBytes (x ∷ xs) = (x < 256) × IsBytes xs

-- The bytes that a list of writes puts on standard output.
pub printed : Trace → Bytes
printed [] = []
printed (out bs ∷ t) = bs ++ printed t
printed (_ ∷ t) = printed t

-- On a list of bytes, reading the digits that `converthexa` prints back in pairs gives the bytes.
pub unhex-hex_events : (md : Bytes) → IsBytes md → unhex (printed (hex_events md)) ≡ md
unfolding unhex printed hex_byte
unhex-hex_events [] h = refl
unhex-hex_events (x ∷ md) h = ap₂ ◌∷◌ (ground arith) (unhex-hex_events md h.1)

-- A digest in hexadecimal, and the end of the line.
abbrev pub hex_line : Bytes → Trace
hex_line md = hex_events md ++ (out (b'\n' ∷ []) ∷ [])

pub converthexa_lem :
    (n : ℕ) (md : Bytes) (t : Trace)
    → length md ≡ n
    → converthexa n md t ≡ ret (t ++ hex_line md) tt
unfolding converthexa
converthexa_lem n md t h =
    rw (hex_loop_lem n 0 md t (omega arith), ◌>>=◌)
      (ap (λ e. ret e tt)
        (append_assoc t _ _
          ∙ ap (λ x. t ++ (hex_events x ++ (out (b'\n' ∷ []) ∷ []))) (take-all n md (omega arith))))

-- The text that `converthexa` prints, read back as digit pairs, is the digest, and then the end of
-- the line.
pub printed-hex_line :
    (md : Bytes) → printed (hex_line md) ≡ printed (hex_events md) ++ (b'\n' ∷ [])
unfolding printed
printed-hex_line [] = refl
printed-hex_line (x ∷ md) =
    ap (λ r. hex_byte x ++ r) (printed-hex_line md) ∙ sym (append_assoc (hex_byte x) _ _)
