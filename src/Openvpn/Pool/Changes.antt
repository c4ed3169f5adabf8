-- ===== src/Openvpn/Pool/Changes.antt =====
-- Clients that come and go keep the leases of the pool apart (vpn/openvpn-2.2.1/pool.c).
use seguridad_en_redes.Base.{
  ℕ, zero, suc, ◌≤◌, ◌≡◌, ◌≢◌, refl, sym, ap, ◌∙◌, inl, inr, true, false, List, [], ◌∷◌, Option,
  some, get_elem?, set, length, length-set, ◌==◌, Bytes, Bool-cases, Option-cases, arith,
}
use seguridad_en_redes.Openvpn.Pool.{
  other_type, PoolEntry, IfconfigPool, Address, ifconfig_pool_entry_free, addresses, acquire_at,
  ifconfig_pool_find, ifconfig_pool_acquire, ifconfig_pool_release,
}
use seguridad_en_redes.Openvpn.Pool.Find.{ifconfig_pool_find-IsFree}
use seguridad_en_redes.Openvpn.Pool.Lease.{
  Change, connect, disconnect, remove_nth, change, changes, used_at, held_by, IsLeased, used_at-le,
  used_at-set, used_at-get, held_by-remove, AreGiven-remove, AreGiven-list, addresses-handle,
}

-- Two pools that differ in their entries alone, as many of them.
abbrev pub IsSamePool : IfconfigPool → IfconfigPool → Type 0
IsSamePool pool pool' =
    (pool'.base ≡ pool.base) × (pool'.type_ ≡ pool.type_) × (length pool'.list ≡ length pool.list)

-- What a step leaves: a pool that differs in its entries alone, and its leases.
abbrev pub Keeps : IfconfigPool → Option (IfconfigPool × List Address) → Type 0
Keeps pool result =
    (pool' : IfconfigPool) × (leases' : List Address) × (result ≡ some (pool', leases'))
    × IsLeased pool' leases'
    × IsSamePool pool pool'

acquired-IsLeased :
    (pool : IfconfigPool) (leases : List Address) (i : ℕ) (e e' : PoolEntry) (a : Address)
    → IsLeased pool leases
    → get_elem? pool.list i ≡ some e
    → e.in_use ≡ false
    → e'.in_use ≡ true
    → addresses pool i ≡ some a
    → a.0 ≡ i
    → IsLeased (record pool { list = set pool.list i e' }) (a ∷ leases)
unfolding held_by addresses
acquired-IsLeased pool leases i e e' a v at idle used address handle = record {
  used = λ k.
      let now = used_at-set pool.list i k e e' at in
      let was = used_at-get pool.list i e at in
      elim (Bool-cases (i == k)) [
        | inl same ↦
            let eq : i ≡ k = ground (arith, same) in
            let before = ap (used_at pool.list) eq in
            ground (arith, now, was, v.used k, same, handle, used, idle, before)
        | inr other ↦ ground (arith, now, v.used k, other, handle)
      ];
  given = (
    ap (addresses pool) handle ∙ address,
    AreGiven-list pool (set pool.list i e') leases v.given,
  );
}

acquire-Keeps :
    (pool : IfconfigPool) (leases : List Address) (cn : Option Bytes)
    → pool.type_ ≢ other_type
    → IsLeased pool leases
    → Keeps pool (change pool leases (connect cn))
unfolding change ifconfig_pool_acquire acquire_at
acquire-Keeps pool leases cn known v = elim (Option-cases (ifconfig_pool_find pool cn)) [
  | inl full ↦ (pool, leases, rw (full, ifconfig_pool_acquire) refl, v, (refl, refl, refl))
  | inr (i, found) ↦
      let (e, at, idle) = ifconfig_pool_find-IsFree pool cn i found in
      let (a, address, handle) = addresses-handle pool i known in
      let entry : PoolEntry = record (ifconfig_pool_entry_free 0 e true) {
        in_use = true;
        common_name = cn;
      } in
      (
        record pool { list = set pool.list i entry },
        a ∷ leases,
        rw (found, ifconfig_pool_acquire, at, idle, address) refl,
        acquired-IsLeased pool leases i e entry a v at idle refl address handle,
        (refl, refl, length-set pool.list i entry),
      )
]

released-IsLeased :
    (pool : IfconfigPool) (leases : List Address) (j : ℕ) (a : Address) (e e' : PoolEntry)
    → IsLeased pool leases
    → get_elem? leases j ≡ some a
    → get_elem? pool.list a.0 ≡ some e
    → e'.in_use ≡ false
    → IsLeased (record pool { list = set pool.list a.0 e' }) (remove_nth leases j)
released-IsLeased pool leases j a e e' v lease at idle = record {
  used = λ k.
      let now = used_at-set pool.list a.0 k e e' at in
      let was = held_by-remove leases j k a lease in
      let most = used_at-le pool.list k in ground (arith, now, was, v.used k, idle, most);
  given =
      AreGiven-list pool (set pool.list a.0 e') (remove_nth leases j)
        (AreGiven-remove pool leases j v.given);
}

-- A lease is for an entry of the list.
lease-entry :
    (pool : IfconfigPool) (leases : List Address) (j : ℕ) (a : Address)
    → IsLeased pool leases
    → get_elem? leases j ≡ some a
    → (e : PoolEntry) × (get_elem? pool.list a.0 ≡ some e)
unfolding used_at
lease-entry pool leases j a v lease =
    let was = held_by-remove leases j a.0 a lease in
    let one : 1 ≤ used_at pool.list a.0 = ground (arith, was, v.used a.0) in
    present pool.list a.0 one
  where
    present :
        (list : List PoolEntry) (k : ℕ)
        → 1 ≤ used_at list k
        → (e : PoolEntry) × (get_elem? list k ≡ some e)
    present [] k one = absurd (omega arith)
    present (e ∷ list) zero one = (e, refl)
    present (e ∷ list) (suc k) one = present list k one

change-Keeps :
    (pool : IfconfigPool) (leases : List Address) (c : Change)
    → pool.type_ ≢ other_type
    → IsLeased pool leases
    → Keeps pool (change pool leases c)
unfolding change ifconfig_pool_release ifconfig_pool_entry_free
change-Keeps pool leases (connect cn) known v = acquire-Keeps pool leases cn known v
change-Keeps pool leases (disconnect j now hard) known v =
    elim (Option-cases (get_elem? leases j)) [
      | inl nobody ↦ (pool, leases, rw (nobody, change) refl, v, (refl, refl, refl))
      | inr (a, lease) ↦
          let (e, at) = lease-entry pool leases j a v lease in
          let entry = ifconfig_pool_entry_free now e hard in
          (
            record pool { list = set pool.list a.0 entry },
            remove_nth leases j,
            rw (lease, change, at, ifconfig_pool_release) refl,
            released-IsLeased pool leases j a e entry v lease at refl,
            (refl, refl, length-set pool.list a.0 entry),
          )
    ]

pub changes-Keeps :
    (pool : IfconfigPool) (leases : List Address) (cs : List Change)
    → pool.type_ ≢ other_type
    → IsLeased pool leases
    → Keeps pool (changes pool leases cs)
unfolding changes
changes-Keeps pool leases [] known v = (pool, leases, refl, v, (refl, refl, refl))
changes-Keeps pool leases (c ∷ cs) known v =
    let (pool₁, leases₁, e, v₁, (base, type_, size)) = change-Keeps pool leases c known v in
    let (pool₂, leases₂, f, v₂, (base', type', size')) =
      changes-Keeps pool₁ leases₁ cs (λ other. known (sym type_ ∙ other)) v₁ in
    (pool₂, leases₂, rw e f, v₂, (base' ∙ base, type' ∙ type_, size' ∙ size))
