-- ===== src/Posix.antt =====
-- Files as the programs see them through `open`, `read` and `close`, and the command line.
pub mod Laws
use seguridad_en_redes.Base.{
  ℕ, suc, Bool, not, List, [], ◌∷◌, min, take, drop, length, get_elem?, Option, none, some, ◌==◌,
  if◌then◌else◌, Bytes, M, pure, err, err_if, crash, open_failed, close_failed,
}

-- A negative result: -1, or the -2 of `BIO_read`.
pub data Failure : Type 0 where
  minus_one minus_two : Failure

-- How one call of `read` goes: it fails, or it may stop after `k + 1` bytes.
pub data Turn : Type 0 where
  fail : Failure → Turn
  upto : ℕ → Turn

-- An open file: the bytes not read yet, how the next calls of `read` go (after these turns every
-- call delivers what it is asked for), and whether `close` succeeds.
pub record File : Type 0 where
  pub rest : Bytes
  pub turns : List Turn
  pub closes : Bool

-- A negative result, or the bytes that arrived and the file after them.
pub data Read : Type 0 where
  failed : Failure → Read
  got : Bytes → File → Read

advance : File → ℕ → List Turn → Read
advance f n ts = got (take n f.rest) (record f { rest = drop n f.rest; turns = ts })

read_turn : File → ℕ → List Turn → Read
unfolding advance
read_turn f n [] = advance f n []
read_turn f n (fail e ∷ ts) = failed e
read_turn f n (upto k ∷ ts) = advance f (min n (suc k)) ts

-- `read (fd, p, n)`, and `BIO_read` on a decoded stream: at most `n` bytes from the front of what is left, none only at the end of
-- the file (or when none are asked for).
unfoldable pub read : File → ℕ → Read
unfolding read_turn
read f n = read_turn f n f.turns

-- The files that can be opened, by their paths.
abbrev pub FileSystem : Type 0
FileSystem = Bytes → Option File

-- `fd = open (path, O_RDONLY); if (fd < 0) err (1, "open %s", path);`
unfoldable pub open_or_err : FileSystem → Bytes → M File
open_or_err fs path = elim (fs path) [ none ↦ err (open_failed path) | some f ↦ pure f ]

-- `if (close (fd) < 0) err (1, "close");`
unfoldable pub close_or_err : File → M (Unit {0})
close_or_err f = err_if (not f.closes) close_failed

-- `argv[i]`: the argument, `none` for the null pointer at `argv[argc]`, and undefined behind it.
unfoldable pub arg : List Bytes → ℕ → M (Option Bytes)
arg argv i = elim (get_elem? argv i) [
  | some a ↦ pure (some a)
  | none ↦ if i == length argv then pure none else crash
]
