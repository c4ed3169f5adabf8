-- ===== src/Openvpn/Pool/Range.antt =====
-- The addresses that the pool of vpn/openvpn-2.2.1/pool.c gives out.
use seguridad_en_redes.Base.{
  ℕ, zero, suc, ◌+◌, ◌*◌, ◌%◌, ◌^◌, ◌≤◌, ◌<◌, ◌≡◌, refl, sym, ap, ◌∙◌, ◌⊎◌, inl, inr, Bool, true,
  false, ◌||◌, List, [], ◌∷◌, Option, none, some, length, ltb, ◌==◌, Bool-cases, arith,
}
use mathlib.Core.Path.{subst}
use seguridad_en_redes.Openvpn.Pool.{
  PoolType, net30, indiv, other_type, PoolEntry, IfconfigPool, Address, addresses,
}
use seguridad_en_redes.Openvpn.Pool.Lease.{used_at, held_by, AreGiven}

-- How many addresses an entry takes, and the remote one of them.
abbrev pub stride : PoolType → ℕ
stride net30 = 4
stride _ = 1

abbrev pub remote_place : PoolType → ℕ
remote_place net30 = 2
remote_place _ = 0

-- The pool's addresses are all below 2^32.
abbrev pub IsBelow : IfconfigPool → Type 0
IsBelow pool = pool.base + length pool.list * stride pool.type_ ≤ 2 ^ 32

-- The remote address of a handle.
remote-address :
    (pool : IfconfigPool) (i : ℕ) (a : Address)
    → IsBelow pool
    → i < length pool.list
    → addresses pool i ≡ some a
    → a.2 ≡ pool.base + i * stride pool.type_ + remote_place pool.type_
unfolding addresses
remote-address pool i a below lt h = by_type pool.type_ refl
  where
    given : PoolType → Option Address
    given t = elim t [
      | net30 ↦ some (i, (pool.base + i * 4 + 1) % 2 ^ 32, (pool.base + i * 4 + 2) % 2 ^ 32)
      | indiv ↦ some (i, 0, (pool.base + i) % 2 ^ 32)
      | other_type ↦ none
    ]

    remote : Option Address → ℕ
    remote none = 0
    remote (some b) = b.2

    by_type :
        (t : PoolType)
        → pool.type_ ≡ t
        → a.2 ≡ pool.base + i * stride pool.type_ + remote_place pool.type_
    by_type net30 e =
        let four : stride pool.type_ ≡ 4 = ap stride e in
        let two : remote_place pool.type_ ≡ 2 = ap remote_place e in
        let low : pool.base + length pool.list * 4 ≤ 2 ^ 32 =
          subst (λ n. pool.base + length pool.list * n ≤ 2 ^ 32) four below in
        let here : (pool.base + i * 4 + 2) % 2 ^ 32 ≡ a.2 =
          sym (ap (λ t. remote (given t)) e) ∙ ap remote h in
        rw (four, two) (omega arith)
    by_type indiv e =
        let one : stride pool.type_ ≡ 1 = ap stride e in
        let start : remote_place pool.type_ ≡ 0 = ap remote_place e in
        let low : pool.base + length pool.list * 1 ≤ 2 ^ 32 =
          subst (λ n. pool.base + length pool.list * n ≤ 2 ^ 32) one below in
        let here : (pool.base + i) % 2 ^ 32 ≡ a.2 =
          sym (ap (λ t. remote (given t)) e) ∙ ap remote h in
        rw (one, start) (omega arith)
    by_type other_type e = let missing : none ≡ some a = sym (ap given e) ∙ h in absurd (cc missing)

stride-cases : (t : PoolType) → (stride t ≡ 1) ⊎ (stride t ≡ 4)
stride-cases net30 = inr refl
stride-cases indiv = inl refl
stride-cases other_type = inl refl

-- Whether some lease has a remote address.
unfoldable pub has_remote : List Address → ℕ → Bool
has_remote [] r = false
has_remote (a ∷ leases) r = a.2 == r || has_remote leases r

-- No two leases have the same remote address.
abbrev pub AreApart : List Address → Type 0
AreApart [] = Unit
AreApart (a ∷ leases) = (has_remote leases a.2 ≡ false) × AreApart leases

-- The remote addresses are in a range.
abbrev pub AreWithin : ℕ → ℕ → List Address → Type 0
AreWithin low high [] = Unit
AreWithin low high (a ∷ leases) = (low ≤ a.2) × (a.2 ≤ high) × AreWithin low high leases

-- The handles are in range.
abbrev pub AreHandles : ℕ → List Address → Type 0
AreHandles size [] = Unit
AreHandles size (a ∷ leases) = (a.0 < size) × AreHandles size leases

used_at-out : (list : List PoolEntry) (k : ℕ) → length list ≤ k → used_at list k ≡ 0
unfolding used_at
used_at-out [] k h = refl
used_at-out (e ∷ list) zero h = absurd (omega arith)
used_at-out (e ∷ list) (suc k) h = used_at-out list k (omega arith)

pub held-AreHandles :
    (list : List PoolEntry) (leases : List Address)
    → ((k : ℕ) → held_by leases k ≤ used_at list k)
    → AreHandles (length list) leases
unfolding held_by
held-AreHandles list [] h = tt
held-AreHandles list (a ∷ leases) h = (
  elim (Bool-cases (ltb a.0 (length list))) [
    | inl inside ↦ ground (arith, inside)
    | inr outside ↦
        let out = used_at-out list a.0 (ground (arith, outside)) in
        let most = h a.0 in absurd (ground (arith, most, out))
  ],
  held-AreHandles list leases λ k. let most = h k in omega (arith, most),
)

-- A lease whose remote address another one has, has its handle.
shared-handle :
    (pool : IfconfigPool) (leases : List Address) (a : Address)
    → IsBelow pool
    → a.0 < length pool.list
    → addresses pool a.0 ≡ some a
    → AreHandles (length pool.list) leases
    → AreGiven pool leases
    → has_remote leases a.2 ≡ true
    → 1 ≤ held_by leases a.0
unfolding has_remote held_by
shared-handle pool [] a below lt g hs gs h = absurd (cc h)
shared-handle pool (b ∷ leases) a below lt g (lt', hs) (g', gs) h = elim (Bool-cases (b.2 == a.2)) [
  | inl same ↦
      let ra = remote-address pool a.0 a below lt g in
      let rb = remote-address pool b.0 b below lt' g' in
      let eq : b.2 ≡ a.2 = ground (arith, same) in
      let handle : b.0 ≡ a.0 = one_handle (pool.type_) ra rb eq in ground (arith, handle)
  | inr other ↦
      let rest = shared-handle pool leases a below lt g hs gs (ground (arith, h, other)) in
      ground (arith, rest)
]
  where
    one_handle :
        (t : PoolType)
        → a.2 ≡ pool.base + a.0 * stride t + remote_place t
        → b.2 ≡ pool.base + b.0 * stride t + remote_place t
        → b.2 ≡ a.2
        → b.0 ≡ a.0
    one_handle net30 ra rb eq = omega arith
    one_handle indiv ra rb eq = omega arith
    one_handle other_type ra rb eq = omega arith

pub leases-AreApart :
    (pool : IfconfigPool) (leases : List Address)
    → IsBelow pool
    → AreHandles (length pool.list) leases
    → AreGiven pool leases
    → ((k : ℕ) → held_by leases k ≤ 1)
    → AreApart leases
unfolding held_by
leases-AreApart pool [] below hs gs once = tt
leases-AreApart pool (a ∷ leases) below (lt, hs) (g, gs) once = (
  elim (Bool-cases (has_remote leases a.2)) [
    | inr apart ↦ apart
    | inl shared ↦
        let twice = shared-handle pool leases a below lt g hs gs shared in
        let most = once a.0 in absurd (ground (arith, twice, most))
  ],
  leases-AreApart pool leases below hs gs λ k. let most = once k in omega (arith, most),
)

pub leases-AreWithin :
    (pool : IfconfigPool) (low high : ℕ) (leases : List Address)
    → IsBelow pool
    → AreHandles (length pool.list) leases
    → AreGiven pool leases
    → low ≤ pool.base + remote_place pool.type_
    → pool.base + length pool.list * stride pool.type_ + remote_place pool.type_
      ≤ high + stride pool.type_
    → AreWithin low high leases
leases-AreWithin pool low high [] below hs gs start end_ = tt
leases-AreWithin pool low high (a ∷ leases) below (lt, hs) (g, gs) start end_ =
    let r = remote-address pool a.0 a below lt g in
    let (least, most) = bounds pool.type_ r start end_ in
    (least, most, leases-AreWithin pool low high leases below hs gs start end_)
  where
    bounds :
        (t : PoolType)
        → a.2 ≡ pool.base + a.0 * stride t + remote_place t
        → low ≤ pool.base + remote_place t
        → pool.base + length pool.list * stride t + remote_place t ≤ high + stride t
        → (low ≤ a.2) × (a.2 ≤ high)
    bounds net30 r start end_ = (omega arith, omega arith)
    bounds indiv r start end_ = (omega arith, omega arith)
    bounds other_type r start end_ = (omega arith, omega arith)
