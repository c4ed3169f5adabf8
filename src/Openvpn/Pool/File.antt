-- ===== src/Openvpn/Pool/File.antt =====
-- The file of the pool of vpn/openvpn-2.2.1/pool.c: `ifconfig_pool_list` and `ifconfig_pool_read`, with
-- what they call: `print_in_addr_t` and `openvpn_inet_aton` of socket.c, `status_printf` and
-- `status_read` of status.c, `buf_parse` and `buf_null_terminate` of buffer.c. A file is its bytes;
-- writing to it succeeds. `inet_ntoa` and the `sscanf` of four numbers are parameters.
use seguridad_en_redes.Base.{
  ℕ, zero, suc, ◌+◌, ◌-◌, ◌*◌, ◌/◌, ◌%◌, ◌^◌, ◌≤◌, ◌<◌, ◌≡◌, Bool, true, false, not, ◌&&◌, ◌||◌,
  List, [], ◌∷◌, ◌++◌, Option, none, some, length, take, ltb, ◌==◌, if◌then◌else◌, Bytes,
}
use seguridad_en_redes.Openvpn.Checked.{◌>>=◌}
use seguridad_en_redes.Openvpn.Pool.{
  PoolEntry, IfconfigPool, ifconfig_pool_handle_to_ip_base, ifconfig_pool_set,
}

-- `inet_ntoa` on an address in host order, and `sscanf (s, "%u.%u.%u.%u", ...)`, if it reads four.
pub record Inet : Type 0 where
  pub inet_ntoa : ℕ → Bytes
  pub scan_quad : Bytes → Option (ℕ × ℕ × ℕ × ℕ)

-- A character that neither ends a line or a string nor separates two fields.
abbrev pub plain_char : ℕ → Bool
plain_char c = not (c == 0) && (not (c == 10) && (not (c == 13) && not (c == 44)))

abbrev pub all_plain : Bytes → Bool
all_plain [] = true
all_plain (c ∷ cs) = plain_char c && all_plain cs

-- The documented behaviour: the text of an address has at most 15 characters, digits and dots, and
-- the four numbers read back from it are its bytes.
pub record IsInet (inet : Inet) : Type 0 where
  pub plain : (addr : ℕ) → all_plain (inet.inet_ntoa addr) ≡ true
  pub short : (addr : ℕ) → length (inet.inet_ntoa addr) ≤ 15
  pub scanned :
      (addr : ℕ)
      → addr < 2 ^ 32
      → inet.scan_quad (inet.inet_ntoa addr)
        ≡ some (addr / 2 ^ 24, addr / 2 ^ 16 % 2 ^ 8, addr / 2 ^ 8 % 2 ^ 8, addr % 2 ^ 8)

-- `print_in_addr_t` of an address in host order, with no flags
unfoldable pub print_in_addr_t : Inet → ℕ → Bytes
print_in_addr_t inet addr = inet.inet_ntoa addr

-- `openvpn_inet_aton`: the address in host order, of a good dotted quad.
unfoldable pub openvpn_inet_aton : Inet → Bytes → Option ℕ
openvpn_inet_aton inet dotted_quad = do
  q ← inet.scan_quad dotted_quad
  if ltb q.0 256 && (ltb q.1 256 && (ltb q.2 256 && ltb q.3 256))
      then some (q.0 * 2 ^ 24 + q.1 * 2 ^ 16 + q.2 * 2 ^ 8 + q.3)
      else none

-- The loop of `ifconfig_pool_list`, from place `i` on: the names with their addresses.
unfoldable pub list_from : IfconfigPool → List PoolEntry → ℕ → Option (List (Bytes × ℕ))
list_from pool [] i = some []
list_from pool (e ∷ list) i =
    let rest = list_from pool list (suc i) in
    elim e.common_name [
      | none ↦ rest
      | some cn ↦ do
        ip ← ifconfig_pool_handle_to_ip_base pool i
        lines ← rest
        some ((cn, ip) ∷ lines)
    ]

-- `status_printf (out, "%s,%s", ...)` for each: a line of 512 characters is an error, and nothing is
-- written from it on.
unfoldable pub print_lines : Inet → List (Bytes × ℕ) → Bytes
print_lines inet [] = []
print_lines inet (entry ∷ entries) =
    let rest = print_lines inet entries in
    let line = entry.0 ++ 44 ∷ print_in_addr_t inet entry.1 in
    if ltb (length line) 512 then line ++ 10 ∷ rest else []

-- `ifconfig_pool_list` into the file, which `ifconfig_pool_write` resets before and flushes after
unfoldable pub ifconfig_pool_list : Inet → IfconfigPool → Option Bytes
ifconfig_pool_list inet pool = do
  entries ← list_from pool pool.list 0
  some (print_lines inet entries)

-- The loop of `status_read`: the characters up to the end of the line, and what is behind it.
unfoldable pub next_line : Bytes → Bytes × Bytes
next_line [] = ([], [])
next_line (c ∷ cs) =
    let rest = next_line cs in
    if c == 10 then ([], cs) else (if c == 13 then rest.0 else c ∷ rest.0, rest.1)

-- Whether the last character is NUL.
unfoldable pub ends_with_null : Bytes → Bool
ends_with_null [] = false
ends_with_null (c ∷ []) = c == 0
ends_with_null (c ∷ d ∷ cs) = ends_with_null (d ∷ cs)

-- `buf_null_terminate`, of a buffer of 256 bytes
unfoldable pub buf_null_terminate : Bytes → Bytes
buf_null_terminate buf =
    if ends_with_null buf
    then buf
    else if ltb (length buf) 256
    then buf ++ 0 ∷ []
    else take 255 buf ++ 0 ∷ []

-- `status_read` into an empty buffer of 256 bytes: the buffer and the rest of the file, unless that
-- is at its end. What does not fit is lost.
unfoldable pub status_read : Bytes → Option (Bytes × Bytes)
status_read [] = none
status_read (c ∷ cs) =
    let line = next_line (c ∷ cs) in some (buf_null_terminate (take 256 line.0), line.1)

-- The loop of `buf_parse`, with room for `room` characters: whether it came to the end of the
-- buffer, the characters, and the rest.
unfoldable pub parse_loop : ℕ → ℕ → Bytes → Bool × Bytes × Bytes
parse_loop delim room [] = (true, [], [])
parse_loop delim zero (c ∷ cs) = (false, [], cs)
parse_loop delim (suc room) (c ∷ cs) =
    let rest = parse_loop delim room cs in
    if c == 0 || c == delim then (false, [], cs) else (rest.0, c ∷ rest.1, rest.2)

-- `buf_parse`: the result, the string, and the rest of the buffer.
unfoldable pub buf_parse : Bytes → ℕ → ℕ → Bool × Bytes × Bytes
buf_parse buf delim size =
    let r = parse_loop delim size buf in
    let line = take (size - 1) r.1 in (not (r.0 && length line == 0), line, r.2)

-- `ifconfig_pool_read`: a name and the text of an address have been read.
unfoldable pub read_entry : Inet → ℕ → Bool → Bytes → Bytes → IfconfigPool → Option IfconfigPool
read_entry inet now fixed cn_buf ip_buf pool = elim (openvpn_inet_aton inet ip_buf) [
  | none ↦ some pool
  | some addr ↦ ifconfig_pool_set now pool cn_buf addr fixed
]

-- `ifconfig_pool_read`: a line that is not empty; one that begins with '#' or ';' is passed over.
unfoldable pub read_line : Inet → ℕ → Bool → Bytes → IfconfigPool → Option IfconfigPool
read_line inet now fixed [] pool = some pool
read_line inet now fixed (c ∷ cs) pool =
    let cn = buf_parse (c ∷ cs) 44 128 in
    let ip = buf_parse cn.2 44 128 in
    if not (c == 35 || c == 59) && (cn.0 && ip.0)
    then read_entry inet now fixed cn.1 ip.1 pool
    else some pool

-- The loop of `ifconfig_pool_read`, for `fuel - 1` lines at most.
unfoldable pub read_lines : Inet → ℕ → Bool → ℕ → Bytes → IfconfigPool → Option IfconfigPool
read_lines inet now fixed zero file pool = none
read_lines inet now fixed (suc fuel) file pool = elim (status_read file) [
  | none ↦ some pool
  | some r ↦ read_line inet now fixed r.0 pool >>= read_lines inet now fixed fuel r.1
]

-- `ifconfig_pool_read`; a line takes at least one byte of the file.
unfoldable pub ifconfig_pool_read : Inet → ℕ → Bool → Bytes → IfconfigPool → Option IfconfigPool
ifconfig_pool_read inet now fixed file pool =
    read_lines inet now fixed (suc (length file)) file pool
