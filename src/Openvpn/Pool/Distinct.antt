-- ===== src/Openvpn/Pool/Distinct.antt =====
-- A pool from `ifconfig_pool_init` on, whatever clients come and go (vpn/openvpn-2.2.1/pool.c).
use seguridad_en_redes.Base.{
  ℕ, zero, suc, ◌+◌, ◌-◌, ◌*◌, ◌%◌, ◌^◌, ◌≤◌, ◌<◌, ◌≡◌, ◌≢◌, refl, sym, ap, ◌∙◌, Bool, true, ◌&&◌,
  List, [], some, length, replicate, length-replicate, ltb, leb, arith,
}
use mathlib.Core.Path.{subst}
use seguridad_en_redes.Openvpn.Pool.{
  PoolType, net30, indiv, other_type, IfconfigPool, Address, blank_entry, pool_base, pool_size,
  ifconfig_pool_init, ifconfig_pool_verify_range,
}
use seguridad_en_redes.Openvpn.Pool.Lease.{Change, changes, used_at, held_by, IsLeased, used_at-le}
use seguridad_en_redes.Openvpn.Pool.Changes.{IsSamePool, changes-Keeps}
use seguridad_en_redes.Openvpn.Pool.Range.{
  stride, remote_place, IsBelow, AreApart, AreWithin, held-AreHandles, leases-AreApart,
  leases-AreWithin,
}

-- The first and the last remote address of a range: those of the first and of the last network of
-- four, or the ends.
abbrev pub first_remote : PoolType → ℕ → ℕ
first_remote net30 start = start - start % 4 + 2
first_remote _ start = start

abbrev pub last_remote : PoolType → ℕ → ℕ
last_remote net30 end_ = end_ - end_ % 4 + 2
last_remote _ end_ = end_

-- A pool for a range.
abbrev pub SpansRange : ℕ → ℕ → IfconfigPool → Type 0
SpansRange start end_ pool =
    IsBelow pool
    × (first_remote pool.type_ start ≤ pool.base + remote_place pool.type_)
    × (pool.base + length pool.list * stride pool.type_ + remote_place pool.type_
        ≤ last_remote pool.type_ end_ + stride pool.type_)

blank-used : (n k : ℕ) → used_at (replicate n blank_entry) k ≡ 0
unfolding used_at
blank-used zero k = refl
blank-used (suc n) zero = refl
blank-used (suc n) (suc k) = blank-used n k

whole_networks :
    (start end_ : ℕ)
    → start ≤ end_
    → end_ < 2 ^ 32
    → end_ - start < 65536
    → (start - start % 4) + pool_size net30 (start - start % 4) start end_ * 4 ≡ end_ - end_ % 4 + 4
unfolding pool_size
whole_networks start end_ low high small = omega arith

whole_range : (start end_ : ℕ) → start ≤ end_ → start + pool_size indiv start start end_ ≡ end_ + 1
unfolding pool_size
whole_range start end_ low = omega arith

pub init-SpansRange :
    (type_ : PoolType) (start end_ : ℕ) (dup : Bool)
    → type_ ≢ other_type
    → start ≤ end_
    → end_ < 2 ^ 32
    → end_ - start < 65536
    → (pool : IfconfigPool) × (ifconfig_pool_init type_ start end_ dup ≡ some pool)
      × SpansRange start end_ pool
      × IsLeased pool []
      × (pool.type_ ≡ type_)
      × (pool.list ≡ replicate (length pool.list) blank_entry)
unfolding ifconfig_pool_init pool_base held_by
init-SpansRange type_ start end_ dup known low high small = by_type type_ known
  where
    sizes : (leb start end_ && ltb (end_ - start) 65536) ≡ true
    sizes = ground arith

    made : PoolType → ℕ → ℕ → IfconfigPool
    made t base size = record {
      base = base;
      type_ = t;
      duplicate_cn = dup;
      list = replicate size blank_entry;
    }

    empty : (t : PoolType) (base size : ℕ) → IsLeased (made t base size) []
    empty t base size = record { used = λ k. sym (blank-used size k); given = tt }

    by_type :
        (t : PoolType)
        → t ≢ other_type
        → (pool : IfconfigPool) × (ifconfig_pool_init t start end_ dup ≡ some pool)
          × SpansRange start end_ pool
          × IsLeased pool []
          × (pool.type_ ≡ t)
          × (pool.list ≡ replicate (length pool.list) blank_entry)
    by_type net30 known =
        let base = start - start % 4 in
        let size = pool_size net30 base start end_ in
        let count = length-replicate size blank_entry in
        let whole = whole_networks start end_ low high small in
        (
          made net30 base size,
          rw sizes refl,
          (omega (arith, count, whole), omega arith, omega (arith, count, whole)),
          empty net30 base size,
          refl,
          ap (λ n. replicate n blank_entry) (sym count),
        )
    by_type indiv known =
        let size = pool_size indiv start start end_ in
        let count = length-replicate size blank_entry in
        let whole = whole_range start end_ low in
        (
          made indiv start size,
          rw sizes refl,
          (omega (arith, count, whole), omega arith, omega (arith, count, whole)),
          empty indiv start size,
          refl,
          ap (λ n. replicate n blank_entry) (sym count),
        )
    by_type other_type known = absurd (known refl)

pub moved-SpansRange :
    (start end_ : ℕ) (pool pool' : IfconfigPool)
    → SpansRange start end_ pool
    → IsSamePool pool pool'
    → SpansRange start end_ pool'
moved-SpansRange start end_ pool pool' spans (base, kind, size) = rw (base, kind, size) spans

spanned-leases :
    (start end_ : ℕ) (pool : IfconfigPool) (leases : List Address)
    → SpansRange start end_ pool
    → IsLeased pool leases
    → AreApart leases
      × AreWithin (first_remote pool.type_ start) (last_remote pool.type_ end_) leases
spanned-leases start end_ pool leases (below, first, last) leased =
    let handles = held-AreHandles pool.list leases λ k. let e = leased.used k in omega (arith, e) in
    (
      leases-AreApart pool leases below handles leased.given
          λ k. let e = leased.used k in let most = used_at-le pool.list k in omega (arith, e, most),
      leases-AreWithin pool (first_remote pool.type_ start) (last_remote pool.type_ end_) leases
          below handles leased.given first last,
    )

pub verified-IsSmall :
    (start end_ : ℕ)
    → start < 2 ^ 32
    → end_ < 2 ^ 32
    → ifconfig_pool_verify_range start end_ ≡ true
    → (start ≤ end_) × (end_ - start < 65536)
unfolding ifconfig_pool_verify_range
verified-IsSmall start end_ start32 end32 h = (ground (arith, h), ground (arith, h))

-- Clients that come and go from `ifconfig_pool_init` on, for a range of 32-bit addresses that
-- `ifconfig_pool_verify_range` accepts and a known type of pool: no assertion fails, no two of the
-- leases there are then have the same remote address, and each remote address is in the range,
-- rounded to networks of four addresses in a pool of such networks.
pub changes-AreApart :
    (type_ : PoolType) (start end_ : ℕ) (dup : Bool) (cs : List Change)
    → type_ ≢ other_type
    → start < 2 ^ 32
    → end_ < 2 ^ 32
    → ifconfig_pool_verify_range start end_ ≡ true
    → (pool : IfconfigPool) × (pool' : IfconfigPool) × (leases : List Address) × (ifconfig_pool_init
          type_ start end_ dup
        ≡ some pool)
      × (changes pool [] cs ≡ some (pool', leases))
      × AreApart leases
      × AreWithin (first_remote type_ start) (last_remote type_ end_) leases
changes-AreApart type_ start end_ dup cs known start32 end32 verified =
    let (low, small) = verified-IsSmall start end_ start32 end32 verified in
    let (pool, made, spans, empty, same, blank) =
      init-SpansRange type_ start end_ dup known low end32 small in
    let (pool', leases, run, leased, alike) =
      changes-Keeps pool [] cs (λ other. known (sym same ∙ other)) empty in
    let moved = moved-SpansRange start end_ pool pool' spans alike in
    let (apart, within) = spanned-leases start end_ pool' leases moved leased in
    let kind = alike.1 ∙ same in
    (
      pool,
      pool',
      leases,
      made,
      run,
      apart,
      subst (λ t. AreWithin (first_remote t start) (last_remote t end_) leases) kind within,
    )
