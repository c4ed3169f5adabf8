-- ===== src/Openvpn/Pool.antt =====
-- vpn/openvpn-2.2.1/pool.c and pool.h: the pool of addresses that a server gives to its clients. A
-- handle is a place of the list, and -1 is `none`. The time, `now`, is a parameter. Addresses are
-- 32-bit numbers. An outer `none` stands for a failed `ASSERT`.
pub mod Find
pub mod Seen
pub mod Choice
pub mod Lease
pub mod Changes
pub mod Range
pub mod Distinct
pub mod File
pub mod Lines
pub mod Plain
pub mod Persist
pub mod Restored
pub mod Restart
use seguridad_en_redes.Base.{
  ℕ, zero, suc, ◌+◌, ◌-◌, ◌*◌, ◌/◌, ◌%◌, ◌^◌, Bool, true, false, not, ◌&&◌, ◌||◌, List, [], ◌∷◌,
  Option, none, some, get_elem?, set, length, replicate, ltb, leb, if◌then◌else◌, Bytes,
}
use seguridad_en_redes.Openvpn.Checked.{◌>>=◌, ◌>>◌, assert}
use seguridad_en_redes.Openvpn.Buffer.{same_bytes}

-- `IFCONFIG_POOL_MAX`
abbrev pub ifconfig_pool_max : ℕ
ifconfig_pool_max = 65536

-- `IFCONFIG_POOL_30NET`, `IFCONFIG_POOL_INDIV`, or another number
pub data PoolType : Type 0 where
  net30 indiv other_type : PoolType

-- `struct ifconfig_pool_entry`
pub record PoolEntry : Type 0 where
  pub in_use : Bool
  pub common_name : Option Bytes
  pub last_release : ℕ
  pub fixed : Bool

-- `struct ifconfig_pool`; `size` is the length of the list.
pub record IfconfigPool : Type 0 where
  pub base : ℕ
  pub type_ : PoolType
  pub duplicate_cn : Bool
  pub list : List PoolEntry

-- `ifconfig_pool_entry_free`
unfoldable pub ifconfig_pool_entry_free : ℕ → PoolEntry → Bool → PoolEntry
ifconfig_pool_entry_free now ipe hard = record {
  in_use = false;
  common_name = if hard then none else ipe.common_name;
  last_release = if hard then 0 else now;
  fixed = ipe.fixed;
}

-- `common_name && ipe->common_name && !strcmp (common_name, ipe->common_name)`
unfoldable pub same_name : Option Bytes → Option Bytes → Bool
same_name none name = false
same_name (some cn) none = false
same_name (some cn) (some name) = same_bytes cn name

-- `new_usage == -1 || ipe->last_release < earliest_release`
unfoldable pub is_earlier : ℕ → Option (ℕ × ℕ) → Bool
is_earlier release none = true
is_earlier release (some new_usage) = ltb release new_usage.1

-- The new usage, with its release, after a free entry at place `i`.
unfoldable pub new_usage : PoolEntry → ℕ → Option (ℕ × ℕ) → Option (ℕ × ℕ)
new_usage ipe i usage =
    if is_earlier ipe.last_release usage && not ipe.fixed then some (i, ipe.last_release) else usage

-- The previous usage after a free entry at place `i`.
unfoldable pub previous_usage : Option Bytes → PoolEntry → ℕ → Option ℕ → Option ℕ
previous_usage common_name ipe i none =
    if same_name common_name ipe.common_name then some i else none
previous_usage common_name ipe i (some j) = some j

-- `ifconfig_pool_find`, at the end.
unfoldable pub chosen : Option ℕ → Option (ℕ × ℕ) → Option ℕ
chosen (some i) usage = some i
chosen none (some usage) = some usage.0
chosen none none = none

-- The loop of `ifconfig_pool_find`, from place `i` on.
unfoldable pub find_from :
    Bool → Option Bytes → List PoolEntry → ℕ → Option ℕ → Option (ℕ × ℕ) → Option ℕ
find_from duplicate_cn common_name [] i previous usage = chosen previous usage
find_from duplicate_cn common_name (ipe ∷ list) i previous usage =
    let used = find_from duplicate_cn common_name list (suc i) previous usage in
    let free =
      find_from duplicate_cn common_name list (suc i) (previous_usage common_name ipe i previous)
        (new_usage ipe i usage) in
    if ipe.in_use
    then used
    else if duplicate_cn
    then chosen previous (some (i, ipe.last_release))
    else free

-- `ifconfig_pool_find`
unfoldable pub ifconfig_pool_find : IfconfigPool → Option Bytes → Option ℕ
ifconfig_pool_find pool common_name = find_from pool.duplicate_cn common_name pool.list 0 none none

-- `ifconfig_pool_verify_range`
unfoldable pub ifconfig_pool_verify_range : ℕ → ℕ → Bool
ifconfig_pool_verify_range start end_ =
    leb start end_ && ltb ((end_ + 2 ^ 32 - start) % 2 ^ 32) ifconfig_pool_max

-- An entry that has been cleared.
abbrev pub blank_entry : PoolEntry
blank_entry = record { in_use = false; common_name = none; last_release = 0; fixed = false }

-- `ifconfig_pool_init`, the base: `start & ~3` for networks of four addresses.
unfoldable pub pool_base : PoolType → ℕ → Option ℕ
pool_base net30 start = some (start - start % 4)
pool_base indiv start = some start
pool_base other_type start = none

-- `ifconfig_pool_init`, the size: with `(end | 3) + 1` for networks of four addresses.
unfoldable pub pool_size : PoolType → ℕ → ℕ → ℕ → ℕ
pool_size net30 base start end_ = ((end_ - end_ % 4 + 4) % 2 ^ 32 + 2 ^ 32 - base) % 2 ^ 32 / 4
pool_size _ base start end_ = end_ - start + 1

-- `ifconfig_pool_init`
unfoldable pub ifconfig_pool_init : PoolType → ℕ → ℕ → Bool → Option IfconfigPool
ifconfig_pool_init type_ start end_ duplicate_cn = do
  assert (leb start end_ && ltb (end_ - start) ifconfig_pool_max)
  base ← pool_base type_ start
  some (record {
    base = base;
    type_ = type_;
    duplicate_cn = duplicate_cn;
    list = replicate (pool_size type_ base start end_) blank_entry;
  })

-- What `ifconfig_pool_acquire` gives: the handle, and the local and the remote address.
abbrev pub Address : Type 0
Address = ℕ × ℕ × ℕ

-- `ifconfig_pool_acquire`: the addresses of a handle.
unfoldable pub addresses : IfconfigPool → ℕ → Option Address
addresses pool i = elim pool.type_ [
  | net30 ↦ some (i, (pool.base + i * 4 + 1) % 2 ^ 32, (pool.base + i * 4 + 2) % 2 ^ 32)
  | indiv ↦ some (i, 0, (pool.base + i) % 2 ^ 32)
  | other_type ↦ none
]

-- `ifconfig_pool_acquire`, for the handle found.
unfoldable pub acquire_at : IfconfigPool → Option Bytes → ℕ → Option (Option Address × IfconfigPool)
acquire_at pool common_name i = do
  ipe ← get_elem? pool.list i
  assert (not ipe.in_use)
  address ← addresses pool i
  some (
    some address,
    record pool {
      list = set pool.list i (record (ifconfig_pool_entry_free 0 ipe true) {
        in_use = true;
        common_name = common_name;
      });
    },
  )

-- `ifconfig_pool_acquire`
unfoldable pub ifconfig_pool_acquire :
    IfconfigPool → Option Bytes → Option (Option Address × IfconfigPool)
ifconfig_pool_acquire pool common_name = elim (ifconfig_pool_find pool common_name) [
  | none ↦ some (none, pool)
  | some i ↦ acquire_at pool common_name i
]

-- `ifconfig_pool_release`
unfoldable pub ifconfig_pool_release : ℕ → IfconfigPool → Option ℕ → Bool → Bool × IfconfigPool
ifconfig_pool_release now pool none hard = (false, pool)
ifconfig_pool_release now pool (some hand) hard = elim (get_elem? pool.list hand) [
  | none ↦ (false, pool)
  | some ipe ↦
      (true, record pool { list = set pool.list hand (ifconfig_pool_entry_free now ipe hard) })
]

-- A handle that is in range.
unfoldable pub in_pool : IfconfigPool → ℕ → Option ℕ
in_pool pool ret = if ltb ret (length pool.list) then some ret else none

-- `ifconfig_pool_ip_base_to_handle`; a difference of 2^31 or more is negative as an `int`.
unfoldable pub ifconfig_pool_ip_base_to_handle : IfconfigPool → ℕ → Option (Option ℕ)
ifconfig_pool_ip_base_to_handle pool addr =
    let diff = (addr + 2 ^ 32 - pool.base) % 2 ^ 32 in
    elim pool.type_ [
      | net30 ↦ some (in_pool pool (diff / 4))
      | indiv ↦ some (if ltb diff (2 ^ 31) then in_pool pool diff else none)
      | other_type ↦ none
    ]

-- `ifconfig_pool_handle_to_ip_base`, for a handle in range
unfoldable pub ifconfig_pool_handle_to_ip_base : IfconfigPool → ℕ → Option ℕ
ifconfig_pool_handle_to_ip_base pool hand = elim pool.type_ [
  | net30 ↦ some ((pool.base + hand * 4) % 2 ^ 32)
  | indiv ↦ some ((pool.base + hand) % 2 ^ 32)
  | other_type ↦ none
]

-- `ifconfig_pool_set`, for the handle found.
unfoldable pub set_at : ℕ → IfconfigPool → Bytes → Bool → Option ℕ → Option IfconfigPool
set_at now pool cn fixed none = some pool
set_at now pool cn fixed (some h) = do
  e ← get_elem? pool.list h
  some (record pool {
    list =
        set pool.list h
          (record { in_use = false; common_name = some cn; last_release = now; fixed = fixed });
  })

-- `ifconfig_pool_set`
unfoldable pub ifconfig_pool_set : ℕ → IfconfigPool → Bytes → ℕ → Bool → Option IfconfigPool
ifconfig_pool_set now pool cn addr fixed =
    ifconfig_pool_ip_base_to_handle pool addr >>= set_at now pool cn fixed
