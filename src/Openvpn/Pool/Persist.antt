-- ===== src/Openvpn/Pool/Persist.antt =====
-- What `ifconfig_pool_write` and `ifconfig_pool_read` of vpn/openvpn-2.2.1/pool.c keep of a pool.
use seguridad_en_redes.Base.{
  ℕ, ◌+◌, ◌-◌, ◌*◌, ◌/◌, ◌%◌, ◌^◌, ◌≤◌, ◌<◌, ◌≡◌, ◌≢◌, refl, ap, ◌∙◌, Bool, true, false, List, [],
  ◌∷◌, ◌++◌, Option, none, some, get_elem?, set, length, length-append, ltb, if◌then◌else◌, Bytes,
  arith,
}
use mathlib.Core.Path.{subst}
use seguridad_en_redes.Openvpn.Pool.{
  PoolType, net30, indiv, other_type, PoolEntry, IfconfigPool, blank_entry, in_pool,
  ifconfig_pool_ip_base_to_handle, ifconfig_pool_handle_to_ip_base, set_at, ifconfig_pool_set,
}
use seguridad_en_redes.Openvpn.Pool.Range.{stride, IsBelow}

-- The client that had a place last.
abbrev pub names : List PoolEntry → List (Option Bytes)
names [] = []
names (e ∷ list) = e.common_name ∷ names list

-- The address of a handle has that handle.
address_handle :
    (pool : IfconfigPool) (i : ℕ)
    → pool.type_ ≢ other_type
    → IsBelow pool
    → i < length pool.list
    → length pool.list ≤ 2 ^ 30
    → (ip : ℕ) × (ifconfig_pool_handle_to_ip_base pool i ≡ some ip)
      × (ifconfig_pool_ip_base_to_handle pool ip ≡ some (some i))
unfolding ifconfig_pool_handle_to_ip_base ifconfig_pool_ip_base_to_handle in_pool
address_handle pool i known below lt few = by_type pool.type_ refl
  where
    back : (t : PoolType) → ℕ → Option (Option ℕ)
    back t addr =
        let diff = (addr + 2 ^ 32 - pool.base) % 2 ^ 32 in
        elim t [
          | net30 ↦ some (in_pool pool (diff / 4))
          | indiv ↦ some (if ltb diff (2 ^ 31) then in_pool pool diff else none)
          | other_type ↦ none
        ]

    by_type :
        (t : PoolType)
        → pool.type_ ≡ t
        → (ip : ℕ) × (ifconfig_pool_handle_to_ip_base pool i ≡ some ip)
          × (ifconfig_pool_ip_base_to_handle pool ip ≡ some (some i))
    by_type net30 e =
        let low : pool.base + length pool.list * 4 ≤ 2 ^ 32 =
          subst (λ n. pool.base + length pool.list * n ≤ 2 ^ 32) (ap stride e) below in
        let ip = (pool.base + i * 4) % 2 ^ 32 in
        let place : (ip + 2 ^ 32 - pool.base) % 2 ^ 32 / 4 ≡ i = omega (arith, low) in
        let inside : ltb i (length pool.list) ≡ true = ground arith in
        (
          ip,
          rw (e, ifconfig_pool_handle_to_ip_base) refl,
          ap (λ t. back t ip) e ∙ ap (λ n. some (in_pool pool n)) place ∙ rw (inside, in_pool) refl,
        )
    by_type indiv e =
        let low : pool.base + length pool.list * 1 ≤ 2 ^ 32 =
          subst (λ n. pool.base + length pool.list * n ≤ 2 ^ 32) (ap stride e) below in
        let ip = (pool.base + i) % 2 ^ 32 in
        let place : (ip + 2 ^ 32 - pool.base) % 2 ^ 32 ≡ i = omega (arith, low) in
        let inside : ltb i (length pool.list) ≡ true = ground arith in
        let positive : ltb i (2 ^ 31) ≡ true = ground arith in
        (
          ip,
          rw (e, ifconfig_pool_handle_to_ip_base) refl,
          ap (λ t. back t ip) e
              ∙ ap (λ n. some (if ltb n (2 ^ 31) then in_pool pool n else none)) place
              ∙ rw (positive, inside, in_pool) refl,
        )
    by_type other_type e = absurd (known e)

get_elem?-behind :
    (done list : List PoolEntry) (e : PoolEntry)
    → get_elem? (done ++ e ∷ list) (length done) ≡ some e
get_elem?-behind [] list e = refl
get_elem?-behind (d ∷ done) list e = get_elem?-behind done list e

set-behind :
    (done list : List PoolEntry) (e e' : PoolEntry)
    → set (done ++ e ∷ list) (length done) e' ≡ done ++ e' ∷ list
set-behind [] list e e' = refl
set-behind (d ∷ done) list e e' = ap (λ l. d ∷ l) (set-behind done list e e')

pub names-append : (xs ys : List PoolEntry) → names (xs ++ ys) ≡ names xs ++ names ys
names-append [] ys = refl
names-append (x ∷ xs) ys = ap (λ l. x.common_name ∷ l) (names-append xs ys)

pub append-one : (xs ys : List PoolEntry) (x : PoolEntry) → (xs ++ x ∷ []) ++ ys ≡ xs ++ x ∷ ys
append-one [] ys x = refl
append-one (y ∷ xs) ys x = ap (λ l. y ∷ l) (append-one xs ys x)

pub names-one :
    (xs : List PoolEntry) (x : PoolEntry) (ns : List (Option Bytes))
    → names (xs ++ x ∷ []) ++ ns ≡ names xs ++ x.common_name ∷ ns
names-one [] x ns = refl
names-one (y ∷ xs) x ns = ap (λ l. y.common_name ∷ l) (names-one xs x ns)

abbrev pub with_list : IfconfigPool → List PoolEntry → IfconfigPool
with_list pool list = record pool { list = list }

-- One address is set.
pub set-place :
    (now : ℕ) (fixed : Bool) (pool : IfconfigPool) (done blank : List PoolEntry) (cn : Bytes)
    → pool.type_ ≢ other_type
    → IsBelow (with_list pool (done ++ blank_entry ∷ blank))
    → length (done ++ blank_entry ∷ blank) ≤ 2 ^ 30
    → (ip : ℕ) × (ifconfig_pool_handle_to_ip_base pool (length done) ≡ some ip)
      × (ifconfig_pool_set now (with_list pool (done ++ blank_entry ∷ blank)) cn ip fixed
          ≡ some (
              with_list pool (
                done
                ++ record {
                  in_use = false;
                  common_name = some cn;
                  last_release = now;
                  fixed = fixed;
                }
                  ∷ blank)))
unfolding ifconfig_pool_set set_at ifconfig_pool_handle_to_ip_base
set-place now fixed pool done blank cn known below few =
    let whole = with_list pool (done ++ blank_entry ∷ blank) in
    let size = length-append done (blank_entry ∷ blank) in
    let (ip, there, back) =
      address_handle whole (length done) known below (omega (arith, size)) few in
    let entry : PoolEntry = record {
      in_use = false;
      common_name = some cn;
      last_release = now;
      fixed = fixed;
    } in
    (
      ip,
      there,
      rw
          (
            back,
            ifconfig_pool_set,
            get_elem?-behind done blank blank_entry,
            set-behind done blank blank_entry entry,
          )
          refl,
    )
