-- ===== src/Posix/Laws.antt =====
-- What a caller of `read` may rely on, whatever the turns.
use seguridad_en_redes.Base.{
  ℕ, suc, ◌+◌, ◌-◌, ◌≤◌, ◌≡◌, refl, ◌⊎◌, inl, inr, List, [], ◌∷◌, ◌++◌, min, take, drop, length,
  length-take, length-drop, take-append-drop, take-append_le, take-nil, eq-nil_of_length, splice,
  splice-splice, splice-nil, ap, sym, ◌∙◌, arith, Bytes, true, false, Trace, ret, exit, diag,
  close_failed,
}
use seguridad_en_redes.Posix.{
  Failure, Turn, fail, upto, File, Read, failed, got, advance, read_turn, read, close_or_err,
}

-- No call of `read` is going to fail.
abbrev pub NeverFails : List Turn → Type 0
NeverFails [] = Unit
NeverFails (fail e ∷ ts) = ⊥
NeverFails (upto k ∷ ts) = NeverFails ts

-- A file whose reads and whose `close` succeed.
abbrev pub IsReadable : File → Type 0
IsReadable f = NeverFails f.turns × (f.closes ≡ true)

-- The end that is left when what the other wants is ruled out.
pub good_end : {A B C : Type 0} → A ⊎ B × ¬ C → C → A
good_end (inl a) c = a
good_end (inr (b, bad)) c = absurd (bad c)

-- `r` is a delivery from the front of `f`, of at most `n` bytes.
pub record Delivers (f : File) (n : ℕ) (r : Read) : Type 0 where
  pub chunk : Bytes
  pub after : File
  pub result : r ≡ got chunk after
  pub whole : chunk ++ after.rest ≡ f.rest
  pub bounded : length chunk ≤ n
  pub shorter : length after.rest + length chunk ≡ length f.rest
  pub stops : length chunk ≡ 0 → (n ≡ 0) ⊎ (length f.rest ≡ 0)
  pub keeps : NeverFails f.turns → NeverFails after.turns

advance-Delivers :
    (f : File) (n m : ℕ) (ts : List Turn)
    → m ≤ n
    → (m ≡ 0 → n ≡ 0)
    → (NeverFails f.turns → NeverFails ts)
    → Delivers f n (advance f m ts)
unfolding advance
advance-Delivers f n m ts le pos keep = record {
  chunk = take m f.rest;
  after = record f { rest = drop m f.rest; turns = ts };
  result = refl;
  whole = take-append-drop m f.rest;
  bounded = omega (arith, length-take m f.rest);
  shorter = omega (arith, length-take m f.rest, length-drop m f.rest);
  stops = λ e. elim (zero_or (m) (length f.rest) (omega (arith, length-take m f.rest))) [
    | inl z ↦ inl (pos z)
    | inr z ↦ inr z
  ];
  keeps = keep;
}
  where
    zero_or : (a b : ℕ) → min a b ≡ 0 → (a ≡ 0) ⊎ (b ≡ 0)
    zero_or a b h = omega arith

-- `read` fails only by a failing turn; otherwise it delivers.
pub read-Delivers :
    (f : File) (n : ℕ)
    → ((e : Failure) × (read f n ≡ failed e) × ¬ NeverFails f.turns) ⊎ Delivers f n (read f n)
unfolding read
read-Delivers f n = by_turn f.turns (λ h. h)
  where
    by_turn :
        (ts : List Turn)
        → (NeverFails f.turns → NeverFails ts)
        → ((e : Failure) × (read_turn f n ts ≡ failed e) × ¬ NeverFails f.turns)
          ⊎ Delivers f n (read_turn f n ts)
    by_turn [] h = inr (advance-Delivers f n n [] (omega arith) (λ e. e) h)
    by_turn (fail e ∷ ts) h = inl (e, refl, h)
    by_turn (upto k ∷ ts) h =
        inr (advance-Delivers f n (min n (suc k)) ts (omega arith) (λ e. omega arith) h)

-- Filling a buffer from index `r` on with the front of a file, where `n - r` bytes are wanted.
module _ (n : ℕ) (f : File) (buf : Bytes) (r : ℕ) (d : Delivers f (n - r) (read f (n - r))) where
  -- What a delivery and the rest of the file write together.
  pub fill_delivered :
      splice
        (splice buf r d.chunk)
        (r + length d.chunk)
        (take (n - (r + length d.chunk)) d.after.rest)
      ≡ splice buf r (take (n - r) f.rest)
  fill_delivered = splice-splice buf r d.chunk _ ∙ ap (splice buf r) joined
    where
      joined : d.chunk ++ take (n - (r + length d.chunk)) d.after.rest ≡ take (n - r) f.rest
      joined =
          ap (λ k. d.chunk ++ take k d.after.rest) (omega arith)
          ∙ sym (take-append_le (n - r) d.chunk d.after.rest d.bounded)
          ∙ ap (take (n - r)) d.whole

  -- Nothing more is wanted, or nothing more is there.
  pub fill_last :
      (n - (r + length d.chunk) ≡ 0) ⊎ (length d.after.rest ≡ 0)
      → splice buf r d.chunk ≡ splice buf r (take (n - r) f.rest)
  fill_last h =
      sym (splice-nil (splice buf r d.chunk) (r + length d.chunk))
      ∙ ap (splice (splice buf r d.chunk) (r + length d.chunk)) (sym (none_left h))
      ∙ fill_delivered
    where
      none_left :
          (n - (r + length d.chunk) ≡ 0) ⊎ (length d.after.rest ≡ 0)
          → take (n - (r + length d.chunk)) d.after.rest ≡ []
      none_left (inl e) = rw e
      none_left (inr e) = rw (eq-nil_of_length d.after.rest e) (take-nil _)

module _ (f : File) (t : Trace) where
  pub close_or_err-true : f.closes ≡ true → close_or_err f t ≡ ret t tt
  unfolding close_or_err
  close_or_err-true h = rw h

  pub close_or_err-false :
      f.closes ≡ false → close_or_err f t ≡ exit (t ++ (diag close_failed ∷ [])) 1
  unfolding close_or_err
  close_or_err-false h = rw h
