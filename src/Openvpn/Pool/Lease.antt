-- ===== src/Openvpn/Pool/Lease.antt =====
-- The clients' leases of the pool of vpn/openvpn-2.2.1/pool.c.
use seguridad_en_redes.Base.{
  ℕ, zero, suc, ◌+◌, ◌*◌, ◌%◌, ◌^◌, ◌≤◌, ◌≡◌, ◌≢◌, refl, ap, Bool, List, [], ◌∷◌, Option, none,
  some, get_elem?, set, ◌==◌, if◌then◌else◌, Bytes, arith,
}
use seguridad_en_redes.Openvpn.Checked.{◌>>=◌}
use seguridad_en_redes.Openvpn.Pool.{
  PoolType, net30, indiv, other_type, PoolEntry, IfconfigPool, Address, addresses,
  ifconfig_pool_acquire, ifconfig_pool_release,
}

-- A client connects, with its name, or the client with lease number `j` goes.
pub data Change : Type 0 where
  connect : Option Bytes → Change
  disconnect : ℕ → ℕ → Bool → Change

abbrev pub remove_nth : List Address → ℕ → List Address
remove_nth [] j = []
remove_nth (a ∷ leases) zero = leases
remove_nth (a ∷ leases) (suc j) = a ∷ remove_nth leases j

-- The leases after an acquisition: the new one is added, if there is one.
abbrev pub with_lease : Option Address → List Address → List Address
with_lease none leases = leases
with_lease (some a) leases = a ∷ leases

-- The pool and the leases after a change.
unfoldable pub change : IfconfigPool → List Address → Change → Option (IfconfigPool × List Address)
change pool leases (connect cn) = do
  r ← ifconfig_pool_acquire pool cn
  some (r.1, with_lease r.0 leases)
change pool leases (disconnect j now hard) = elim (get_elem? leases j) [
  | none ↦ some (pool, leases)
  | some a ↦ some ((ifconfig_pool_release now pool (some a.0) hard).1, remove_nth leases j)
]

unfoldable pub changes :
    IfconfigPool → List Address → List Change → Option (IfconfigPool × List Address)
changes pool leases [] = some (pool, leases)
changes pool leases (c ∷ cs) = do r ← change pool leases c; changes r.0 r.1 cs

-- Whether the entry at a place is in use, as a number.
unfoldable pub used_at : List PoolEntry → ℕ → ℕ
used_at [] k = 0
used_at (e ∷ list) zero = if e.in_use then 1 else 0
used_at (e ∷ list) (suc k) = used_at list k

-- How many leases have the handle.
unfoldable pub held_by : List Address → ℕ → ℕ
held_by [] k = 0
held_by (a ∷ leases) k = (if a.0 == k then 1 else 0) + held_by leases k

-- Each lease has the addresses of its handle.
abbrev pub AreGiven : IfconfigPool → List Address → Type 0
AreGiven pool [] = Unit
AreGiven pool (a ∷ leases) = (addresses pool a.0 ≡ some a) × AreGiven pool leases

-- The entries in use are those of the leases, one each.
pub record IsLeased (pool : IfconfigPool) (leases : List Address) : Type 0 where
  pub used : (k : ℕ) → held_by leases k ≡ used_at pool.list k
  pub given : AreGiven pool leases

pub used_at-set :
    (list : List PoolEntry) (i k : ℕ) (e e' : PoolEntry)
    → get_elem? list i ≡ some e
    → used_at (set list i e') k ≡ (if i == k then (if e'.in_use then 1 else 0) else used_at list k)
unfolding used_at
used_at-set [] i k e e' h = absurd (cc h)
used_at-set (x ∷ list) zero zero e e' h = refl
used_at-set (x ∷ list) zero (suc k) e e' h = ground arith
used_at-set (x ∷ list) (suc i) zero e e' h = ground arith
used_at-set (x ∷ list) (suc i) (suc k) e e' h =
    let rest = used_at-set list i k e e' h in ground (arith, rest)

pub used_at-le : (list : List PoolEntry) (k : ℕ) → used_at list k ≤ 1
unfolding used_at
used_at-le [] k = omega arith
used_at-le (e ∷ list) zero = ground arith
used_at-le (e ∷ list) (suc k) = used_at-le list k

pub used_at-get :
    (list : List PoolEntry) (k : ℕ) (e : PoolEntry)
    → get_elem? list k ≡ some e
    → used_at list k ≡ (if e.in_use then 1 else 0)
unfolding used_at
used_at-get [] k e h = absurd (cc h)
used_at-get (x ∷ list) zero e h =
    let same : x ≡ e = cc h in ap (λ (y : PoolEntry). if y.in_use then 1 else 0) same
used_at-get (x ∷ list) (suc k) e h = used_at-get list k e h

pub held_by-remove :
    (leases : List Address) (j k : ℕ) (a : Address)
    → get_elem? leases j ≡ some a
    → held_by leases k ≡ (if a.0 == k then 1 else 0) + held_by (remove_nth leases j) k
unfolding held_by
held_by-remove [] j k a h = absurd (cc h)
held_by-remove (x ∷ leases) zero k a h =
    let same : x ≡ a = cc h in
    ap (λ (y : Address). (if y.0 == k then 1 else 0) + held_by leases k) same
held_by-remove (x ∷ leases) (suc j) k a h = omega (arith, held_by-remove leases j k a h)

pub AreGiven-remove :
    (pool : IfconfigPool) (leases : List Address) (j : ℕ)
    → AreGiven pool leases
    → AreGiven pool (remove_nth leases j)
AreGiven-remove pool [] j h = h
AreGiven-remove pool (a ∷ leases) zero (g, h) = h
AreGiven-remove pool (a ∷ leases) (suc j) (g, h) = (g, AreGiven-remove pool leases j h)

-- The addresses of a handle do not depend on the entries.
pub AreGiven-list :
    (pool : IfconfigPool) (list : List PoolEntry) (leases : List Address)
    → AreGiven pool leases
    → AreGiven (record pool { list = list }) leases
unfolding addresses
AreGiven-list pool list [] h = h
AreGiven-list pool list (a ∷ leases) (g, h) = (g, AreGiven-list pool list leases h)

-- The handle of an address is the one it was made for.
pub addresses-handle :
    (pool : IfconfigPool) (i : ℕ)
    → pool.type_ ≢ other_type
    → (a : Address) × (addresses pool i ≡ some a) × (a.0 ≡ i)
unfolding addresses
addresses-handle pool i known = by_type pool.type_ refl
  where
    by_type :
        (t : PoolType) → pool.type_ ≡ t → (a : Address) × (addresses pool i ≡ some a) × (a.0 ≡ i)
    by_type net30 e = (
      (i, (pool.base + i * 4 + 1) % 2 ^ 32, (pool.base + i * 4 + 2) % 2 ^ 32),
      rw (e, addresses) refl,
      refl,
    )
    by_type indiv e = ((i, 0, (pool.base + i) % 2 ^ 32), rw (e, addresses) refl, refl)
    by_type other_type e = absurd (known e)
