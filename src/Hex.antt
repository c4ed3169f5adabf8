-- ===== src/Hex.antt =====
-- The loop `printf ("%02x", md[i])` that every practice program has.
pub mod Laws
use seguridad_en_redes.Base.{
  ℕ, zero, suc, ◌+◌, ◌/◌, ◌%◌, [], ◌∷◌, ltb, if◌then◌else◌, Bytes, M, pure, print, ◌>>=◌, ◌>>◌,
}
use seguridad_en_redes.Memory.{load}

abbrev pub hex_digit : ℕ → ℕ
hex_digit d = if ltb d 10 then b'0' + d else 87 + d

-- `%02x` of an `unsigned char`
unfoldable pub hex_byte : ℕ → Bytes
hex_byte x = hex_digit (x / 16) ∷ hex_digit (x % 16) ∷ []

-- for (i = …; n rounds; i++) printf ("%02x", md[i]);
unfoldable pub hex_loop : ℕ → ℕ → Bytes → M (Unit {0})
hex_loop zero i md = pure tt
hex_loop (suc n) i md = do x ← load md i; print (hex_byte x); hex_loop n (i + 1) md

-- `converthexa` over a digest of `n` bytes: its digits, and the end of the line.
unfoldable pub converthexa : ℕ → Bytes → M (Unit {0})
converthexa n md = do hex_loop n 0 md; print (b'\n' ∷ [])
