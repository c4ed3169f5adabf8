-- ===== src/Openvpn/Pool/Lines.antt =====
-- What `ifconfig_pool_read` of vpn/openvpn-2.2.1/pool.c makes of lines that were printed.
use seguridad_en_redes.Base.{
  ℕ, zero, suc, ◌+◌, ◌-◌, ◌*◌, ◌/◌, ◌%◌, ◌^◌, ◌≤◌, ◌<◌, ◌≡◌, refl, ap, ◌∙◌, Bool, true, false, not,
  ◌&&◌, ◌||◌, List, [], ◌∷◌, ◌++◌, Option, none, some, length, length-append, take, take-all,
  append_assoc, ltb, ◌==◌, if◌then◌else◌, Bytes, arith,
}
use seguridad_en_redes.Openvpn.Checked.{◌>>=◌}
use seguridad_en_redes.Openvpn.Pool.{IfconfigPool, ifconfig_pool_set}
use seguridad_en_redes.Openvpn.Pool.File.{
  Inet, IsInet, all_plain, print_in_addr_t, openvpn_inet_aton, print_lines, next_line,
  ends_with_null, buf_null_terminate, status_read, parse_loop, buf_parse, read_entry, read_line,
  read_lines,
}
use seguridad_en_redes.Openvpn.Pool.Restored.{set_all}

-- Whether a text begins like a comment.
abbrev pub is_comment : Bytes → Bool
is_comment [] = false
is_comment (c ∷ cs) = c == 35 || c == 59

-- A name that a line can carry.
abbrev pub IsPlain : Bytes → Type 0
IsPlain cn = (all_plain cn ≡ true) × (length cn ≤ 127) × (is_comment cn ≡ false)

abbrev pub AreLines : List (Bytes × ℕ) → Type 0
AreLines [] = Unit
AreLines (entry ∷ entries) = IsPlain entry.0 × (entry.1 < 2 ^ 32) × AreLines entries

next_line-append :
    (xs ys : Bytes)
    → all_plain xs ≡ true
    → next_line (xs ++ ys) ≡ (xs ++ (next_line ys).0, (next_line ys).1)
unfolding next_line
next_line-append [] ys h = refl
next_line-append (x ∷ xs) ys h =
    let rest = next_line-append xs ys (ground (arith, h)) in
    let inside : (x == 10) ≡ false = ground (arith, h) in
    let kept : (x == 13) ≡ false = ground (arith, h) in
    rw (inside, kept) (ap (λ (r : Bytes × Bytes). (x ∷ r.0, r.1)) rest)

next_line-printed :
    (cn ip rest : Bytes)
    → all_plain cn ≡ true
    → all_plain ip ≡ true
    → next_line (cn ++ 44 ∷ (ip ++ 10 ∷ rest)) ≡ (cn ++ 44 ∷ ip, rest)
unfolding next_line
next_line-printed cn ip rest h k =
    next_line-append cn (44 ∷ (ip ++ 10 ∷ rest)) h
    ∙ ap (λ (r : Bytes × Bytes). (cn ++ 44 ∷ r.0, r.1)) (next_line-append ip (10 ∷ rest) k)
    ∙ ap (λ l. (cn ++ 44 ∷ l, rest)) (append_nil ip)
  where
    append_nil : (l : Bytes) → l ++ [] ≡ l
    append_nil [] = refl
    append_nil (c ∷ l) = ap (◌∷◌ c) (append_nil l)

ends_with_null-plain :
    (c : ℕ) (cs : Bytes) → (c == 0) ≡ false → all_plain cs ≡ true → ends_with_null (c ∷ cs) ≡ false
unfolding ends_with_null
ends_with_null-plain c [] h k = h
ends_with_null-plain c (d ∷ cs) h k =
    ends_with_null-plain d cs (ground (arith, k)) (ground (arith, k))

ends_with_null-append :
    (xs : Bytes) (y : ℕ) (ys : Bytes) → ends_with_null (xs ++ y ∷ ys) ≡ ends_with_null (y ∷ ys)
unfolding ends_with_null
ends_with_null-append [] y ys = refl
ends_with_null-append (x ∷ []) y ys = refl
ends_with_null-append (x ∷ z ∷ xs) y ys = ends_with_null-append (z ∷ xs) y ys

parse_loop-plain :
    (cn rest : Bytes) (d room : ℕ)
    → all_plain cn ≡ true
    → length cn ≤ room
    → (d == 0 || d == 44) ≡ true
    → parse_loop 44 room (cn ++ d ∷ rest) ≡ (false, cn, rest)
unfolding parse_loop
parse_loop-plain [] rest d zero h fits end_ = refl
parse_loop-plain [] rest d (suc room) h fits end_ = rw end_ refl
parse_loop-plain (c ∷ cn) rest d zero h fits end_ = absurd (omega arith)
parse_loop-plain (c ∷ cn) rest d (suc room) h fits end_ =
    let on : (c == 0 || c == 44) ≡ false = ground (arith, h) in
    let later = parse_loop-plain cn rest d room (ground (arith, h)) (omega arith) end_ in
    rw on (ap (λ (r : Bool × Bytes × Bytes). (r.0, c ∷ r.1, r.2)) later)

buf_parse-plain :
    (cn rest : Bytes) (d : ℕ)
    → all_plain cn ≡ true
    → length cn ≤ 127
    → (d == 0 || d == 44) ≡ true
    → buf_parse (cn ++ d ∷ rest) 44 128 ≡ (true, cn, rest)
unfolding buf_parse
buf_parse-plain cn rest d h short end_ =
    ap
      (λ (r : Bool × Bytes × Bytes).
        (not (r.0 && length (take (128 - 1) r.1) == 0), take (128 - 1) r.1, r.2))
      (parse_loop-plain cn rest d 128 h (omega arith) end_)
    ∙ ap (λ l. (true, l, rest)) (take-all (128 - 1) cn (omega arith))

-- An address that was printed is read.
aton-print :
    (inet : Inet) (addr : ℕ)
    → IsInet inet
    → addr < 2 ^ 32
    → openvpn_inet_aton inet (print_in_addr_t inet addr) ≡ some addr
unfolding openvpn_inet_aton print_in_addr_t
aton-print inet addr lawful small =
    let valid : (ltb (addr / 2 ^ 24) 256
          && (ltb (addr / 2 ^ 16 % 2 ^ 8) 256
              && (ltb (addr / 2 ^ 8 % 2 ^ 8) 256 && ltb (addr % 2 ^ 8) 256)))
        ≡ true =
      ground arith in
    let sum : addr / 2 ^ 24 * 2 ^ 24
          + addr / 2 ^ 16 % 2 ^ 8 * 2 ^ 16
          + addr / 2 ^ 8 % 2 ^ 8 * 2 ^ 8
          + addr % 2 ^ 8
        ≡ addr =
      omega arith in
    rw (lawful.scanned addr small, valid) (ap (λ n. some n) sum)

-- The buffer of a line that was printed.
printed : Inet → Bytes → ℕ → Bytes
printed inet cn addr = cn ++ 44 ∷ (print_in_addr_t inet addr ++ 0 ∷ [])

read_line-printed :
    (inet : Inet) (now : ℕ) (fixed : Bool) (cn : Bytes) (addr : ℕ) (pool : IfconfigPool)
    → IsInet inet
    → IsPlain cn
    → addr < 2 ^ 32
    → read_line inet now fixed (printed inet cn addr) pool
      ≡ ifconfig_pool_set now pool cn addr fixed
unfolding printed read_line read_entry print_in_addr_t
read_line-printed inet now fixed cn addr pool lawful (plain, short, text) small =
    let first = buf_parse-plain cn (print_in_addr_t inet addr ++ 0 ∷ []) 44 plain short refl in
    let second =
      buf_parse-plain (print_in_addr_t inet addr) [] 0 (lawful.plain addr)
        (omega (arith, lawful.short addr)) refl in
    begins cn text
    ∙ ap (λ (r : Bool × Bytes × Bytes). parsed r (buf_parse r.2 44 128)) first
    ∙ ap (λ (r : Bool × Bytes × Bytes). parsed (true, cn, []) r) second
    ∙ rw (aton-print inet addr lawful small, read_entry) refl
  where
    parsed : Bool × Bytes × Bytes → Bool × Bytes × Bytes → Option IfconfigPool
    parsed name ip =
        if name.0 && ip.0 then read_entry inet now fixed name.1 ip.1 pool else some pool

    tail_ : Bytes
    tail_ = print_in_addr_t inet addr ++ 0 ∷ []

    begins :
        (cn : Bytes)
        → is_comment cn ≡ false
        → read_line inet now fixed (cn ++ 44 ∷ tail_) pool
          ≡ parsed
              (buf_parse (cn ++ 44 ∷ tail_) 44 128)
              (buf_parse (buf_parse (cn ++ 44 ∷ tail_) 44 128).2 44 128)
    begins [] h = refl
    begins (c ∷ cs) h = rw h refl

status_read-line :
    (xs ys : Bytes) (y : ℕ)
    → status_read (xs ++ y ∷ ys)
      ≡ some
          (buf_null_terminate (take 256 (next_line (xs ++ y ∷ ys)).0), (next_line (xs ++ y ∷ ys)).1)
unfolding status_read
status_read-line [] ys y = refl
status_read-line (x ∷ xs) ys y = refl

status_read-printed :
    (inet : Inet) (cn rest : Bytes) (addr : ℕ)
    → IsInet inet
    → IsPlain cn
    → status_read ((cn ++ 44 ∷ print_in_addr_t inet addr) ++ 10 ∷ rest)
      ≡ some (printed inet cn addr, rest)
unfolding print_in_addr_t printed buf_null_terminate
status_read-printed inet cn rest addr lawful (plain, short, _) =
    ap status_read (append_assoc cn (44 ∷ ip) (10 ∷ rest))
    ∙ status_read-line cn (ip ++ 10 ∷ rest) 44
    ∙ ap (λ (r : Bytes × Bytes). some (buf_null_terminate (take 256 r.0), r.1))
        (next_line-printed cn ip rest plain (lawful.plain addr))
    ∙ ap (λ l. some (buf_null_terminate l, rest))
        (take-all 256 (cn ++ 44 ∷ ip) (omega (arith, small)))
    ∙ ap (λ l. some (l, rest)) (rw (no_null, fits) (append_assoc cn (44 ∷ ip) (0 ∷ [])))
  where
    ip : Bytes
    ip = inet.inet_ntoa addr

    small : length (cn ++ 44 ∷ ip) ≤ 143
    small = omega (arith, length-append cn (44 ∷ ip), short, lawful.short addr)

    fits : ltb (length (cn ++ 44 ∷ ip)) 256 ≡ true
    fits = ground (arith, small)

    no_null : ends_with_null (cn ++ 44 ∷ ip) ≡ false
    no_null = ends_with_null-append cn 44 ip ∙ ends_with_null-plain 44 ip refl (lawful.plain addr)

line_fits :
    (inet : Inet) (cn : Bytes) (addr : ℕ)
    → IsInet inet
    → IsPlain cn
    → ltb (length (cn ++ 44 ∷ print_in_addr_t inet addr)) 512 ≡ true
unfolding print_in_addr_t
line_fits inet cn addr lawful (_, short, _) =
    let size = length-append cn (44 ∷ inet.inet_ntoa addr) in
    let few = lawful.short addr in
    let small : length (cn ++ 44 ∷ inet.inet_ntoa addr) < 512 = omega (arith, size, few, short) in
    ground (arith, small)

-- The lines that were printed are read, and set one after the other.
pub read_lines-print :
    (inet : Inet) (now : ℕ) (fixed : Bool) (entries : List (Bytes × ℕ)) (n : ℕ)
    (pool : IfconfigPool)
    → IsInet inet
    → AreLines entries
    → length entries < n
    → read_lines inet now fixed n (print_lines inet entries) pool ≡ set_all now fixed entries pool
unfolding read_lines print_lines set_all status_read
read_lines-print inet now fixed entries zero pool lawful lines lt = absurd (omega arith)
read_lines-print inet now fixed [] (suc n) pool lawful lines lt = refl
read_lines-print inet now fixed (entry ∷ entries) (suc n) pool lawful (plain, small, lines) lt =
    let fits = line_fits inet entry.0 entry.1 lawful plain in
    let rest = print_lines inet entries in
    let printed_ : print_lines inet (entry ∷ entries)
        ≡ (entry.0 ++ 44 ∷ print_in_addr_t inet entry.1) ++ 10 ∷ rest =
      rw fits refl in
    ap (λ file. by_read (status_read file)) printed_
    ∙ ap by_read (status_read-printed inet entry.0 rest entry.1 lawful plain)
    ∙ ap (λ o. o >>= read_lines inet now fixed n rest)
        (read_line-printed inet now fixed entry.0 entry.1 pool lawful plain small)
    ∙ after (ifconfig_pool_set now pool entry.0 entry.1 fixed)
        (λ p. read_lines-print inet now fixed entries n p lawful lines (omega arith))
  where
    by_read : Option (Bytes × Bytes) → Option IfconfigPool
    by_read o = elim o [
      | none ↦ some pool
      | some r ↦ read_line inet now fixed r.0 pool >>= read_lines inet now fixed n r.1
    ]

    after :
        (o : Option IfconfigPool)
        → ((p : IfconfigPool)
            → read_lines inet now fixed n (print_lines inet entries) p
              ≡ set_all now fixed entries p)
        → (o >>= read_lines inet now fixed n (print_lines inet entries))
          ≡ (o >>= set_all now fixed entries)
    after none h = refl
    after (some p) h = h p

pub length-print_lines :
    (inet : Inet) (entries : List (Bytes × ℕ))
    → IsInet inet
    → AreLines entries
    → length entries ≤ length (print_lines inet entries)
unfolding print_lines
length-print_lines inet [] lawful lines = omega arith
length-print_lines inet (entry ∷ entries) lawful (plain, small, lines) =
    let fits = line_fits inet entry.0 entry.1 lawful plain in
    let rest = length-print_lines inet entries lawful lines in
    let size =
      length-append (entry.0 ++ 44 ∷ print_in_addr_t inet entry.1)
        (10 ∷ print_lines inet entries) in
    rw fits (omega (arith, rest, size))
