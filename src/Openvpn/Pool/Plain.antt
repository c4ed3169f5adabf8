-- ===== src/Openvpn/Pool/Plain.antt =====
-- The names in the pool of vpn/openvpn-2.2.1/pool.c are those of the clients that have come.
use seguridad_en_redes.Base.{
  ℕ, zero, suc, ◌*◌, ◌+◌, ◌%◌, ◌^◌, ◌<◌, ◌≡◌, Bool, true, false, not, List, [], ◌∷◌, Option, none,
  some, get_elem?, set, replicate, if◌then◌else◌, Bytes, arith,
}
use mathlib.Core.Path.{subst}
use seguridad_en_redes.Openvpn.Checked.{◌>>=◌, assert}
use seguridad_en_redes.Openvpn.Returns.{Returns, bind-Returns, anything}
use seguridad_en_redes.Openvpn.Pool.{
  PoolType, net30, indiv, other_type, PoolEntry, IfconfigPool, Address, blank_entry,
  ifconfig_pool_entry_free, addresses, acquire_at, ifconfig_pool_find, ifconfig_pool_acquire,
  ifconfig_pool_release, ifconfig_pool_handle_to_ip_base,
}
use seguridad_en_redes.Openvpn.Pool.File.{list_from}
use seguridad_en_redes.Openvpn.Pool.Lines.{IsPlain, AreLines}
use seguridad_en_redes.Openvpn.Pool.Lease.{
  Change, connect, disconnect, remove_nth, with_lease, change, changes,
}

-- A name that a line can carry, or none.
abbrev IsPlainName : Option Bytes → Type 0
IsPlainName none = Unit
IsPlainName (some cn) = IsPlain cn

-- All the clients that come have such names.
abbrev pub HavePlainNames : List Change → Type 0
HavePlainNames [] = Unit
HavePlainNames (connect cn ∷ cs) = IsPlainName cn × HavePlainNames cs
HavePlainNames (disconnect j now hard ∷ cs) = HavePlainNames cs

abbrev pub ArePlain : List PoolEntry → Type 0
ArePlain [] = Unit
ArePlain (e ∷ list) = IsPlainName e.common_name × ArePlain list

set-ArePlain :
    (list : List PoolEntry) (i : ℕ) (e : PoolEntry)
    → ArePlain list
    → IsPlainName e.common_name
    → ArePlain (set list i e)
set-ArePlain [] i e all h = tt
set-ArePlain (x ∷ list) zero e (_, all) h = (h, all)
set-ArePlain (x ∷ list) (suc i) e (own, all) h = (own, set-ArePlain list i e all h)

get-IsPlainName :
    (list : List PoolEntry) (i : ℕ)
    → ArePlain list
    → Returns (λ (e : PoolEntry). IsPlainName e.common_name) (get_elem? list i)
get-IsPlainName [] i all = tt
get-IsPlainName (x ∷ list) zero (own, all) = own
get-IsPlainName (x ∷ list) (suc i) (_, all) = get-IsPlainName list i all

pub blank-ArePlain : (n : ℕ) → ArePlain (replicate n blank_entry)
blank-ArePlain zero = tt
blank-ArePlain (suc n) = (tt, blank-ArePlain n)

abbrev list_of : Bool × IfconfigPool → List PoolEntry
list_of r = (r.1).list

abbrev IsAcquired : Option Address × IfconfigPool → Type 0
IsAcquired r = ArePlain (r.1).list

acquire-ArePlain :
    (pool : IfconfigPool) (cn : Option Bytes)
    → ArePlain pool.list
    → IsPlainName cn
    → Returns IsAcquired (ifconfig_pool_acquire pool cn)
unfolding ifconfig_pool_acquire acquire_at
acquire-ArePlain pool cn all named = by_place (ifconfig_pool_find pool cn)
  where
    entry : PoolEntry → PoolEntry
    entry ipe = record (ifconfig_pool_entry_free 0 ipe true) { in_use = true; common_name = cn }

    made : ℕ → PoolEntry → Address → Option (Option Address × IfconfigPool)
    made i ipe address = some (some address, record pool { list = set pool.list i (entry ipe) })

    checked : ℕ → PoolEntry → Unit {0} → Option (Option Address × IfconfigPool)
    checked i ipe _ = addresses pool i >>= made i ipe

    by_place :
        (place : Option ℕ)
        → Returns IsAcquired
            (elim place [ none ↦ some (none, pool) | some i ↦ acquire_at pool cn i ])
    by_place none = all
    by_place (some i) =
        bind-Returns (λ ipe. Unit {0}) IsAcquired (get_elem? pool.list i)
          (λ ipe. assert (not ipe.in_use) >>= checked i ipe) (anything (get_elem? pool.list i))
          (λ ipe _.
            bind-Returns (λ u. Unit {0}) IsAcquired (assert (not ipe.in_use)) (checked i ipe)
              (anything (assert (not ipe.in_use)))
              (λ u _.
                bind-Returns (λ a. Unit {0}) IsAcquired (addresses pool i) (made i ipe)
                  (anything (addresses pool i))
                  (λ a _. set-ArePlain pool.list i (entry ipe) all named)))

release-ArePlain :
    (now : ℕ) (pool : IfconfigPool) (hand : ℕ) (hard : Bool)
    → ArePlain pool.list
    → ArePlain ((ifconfig_pool_release now pool (some hand) hard).1).list
unfolding ifconfig_pool_release ifconfig_pool_entry_free
release-ArePlain now pool hand hard all =
    by_entry (get_elem? pool.list hand) (get-IsPlainName pool.list hand all)
  where
    by_hard : (b : Bool) (cn : Option Bytes) → IsPlainName cn → IsPlainName (if b then none else cn)
    by_hard true cn h = tt
    by_hard false cn h = h

    by_entry :
        (o : Option PoolEntry)
        → Returns (λ (e : PoolEntry). IsPlainName e.common_name) o
        → ArePlain (
            list_of (elim o [
              | none ↦ (false, pool)
              | some ipe ↦ (
                true,
                record pool { list = set pool.list hand (ifconfig_pool_entry_free now ipe hard) },
              )
            ]))
    by_entry none h = all
    by_entry (some ipe) h =
        set-ArePlain pool.list hand (ifconfig_pool_entry_free now ipe hard) all
          (by_hard hard ipe.common_name h)

abbrev IsPlainPool : IfconfigPool × List Address → Type 0
IsPlainPool r = ArePlain (r.0).list

change-ArePlain :
    (pool : IfconfigPool) (leases : List Address) (c : Change)
    → ArePlain pool.list
    → HavePlainNames (c ∷ [])
    → Returns IsPlainPool (change pool leases c)
unfolding change
change-ArePlain pool leases (connect cn) all (named, _) =
    bind-Returns IsAcquired IsPlainPool (ifconfig_pool_acquire pool cn)
      (λ r. some (r.1, with_lease r.0 leases)) (acquire-ArePlain pool cn all named) (λ r h. h)
change-ArePlain pool leases (disconnect j now hard) all named = by_lease (get_elem? leases j)
  where
    by_lease :
        (o : Option Address)
        → Returns IsPlainPool (elim o [
          | none ↦ some (pool, leases)
          | some a ↦ some ((ifconfig_pool_release now pool (some a.0) hard).1, remove_nth leases j)
        ])
    by_lease none = all
    by_lease (some a) = release-ArePlain now pool a.0 hard all

changes-Returns :
    (pool : IfconfigPool) (leases : List Address) (cs : List Change)
    → ArePlain pool.list
    → HavePlainNames cs
    → Returns IsPlainPool (changes pool leases cs)
unfolding changes
changes-Returns pool leases [] all named = all
changes-Returns pool leases (c ∷ cs) all named =
    bind-Returns IsPlainPool IsPlainPool (change pool leases c) (λ r. changes r.0 r.1 cs)
      (change-ArePlain pool leases c all (first c named))
      (λ r h. changes-Returns r.0 r.1 cs h (later c named))
  where
    first : (c : Change) → HavePlainNames (c ∷ cs) → HavePlainNames (c ∷ [])
    first (connect cn) (h, _) = (h, tt)
    first (disconnect j now hard) _ = tt

    later : (c : Change) → HavePlainNames (c ∷ cs) → HavePlainNames cs
    later (connect cn) (_, h) = h
    later (disconnect j now hard) h = h

pub changes-ArePlain :
    (pool pool' : IfconfigPool) (leases leases' : List Address) (cs : List Change)
    → ArePlain pool.list
    → HavePlainNames cs
    → changes pool leases cs ≡ some (pool', leases')
    → ArePlain pool'.list
changes-ArePlain pool pool' leases leases' cs all named e =
    subst (Returns IsPlainPool) e (changes-Returns pool leases cs all named)

small-address :
    (pool : IfconfigPool) (i : ℕ)
    → Returns (λ ip. ip < 2 ^ 32) (ifconfig_pool_handle_to_ip_base pool i)
unfolding ifconfig_pool_handle_to_ip_base
small-address pool i = by_type pool.type_
  where
    by_type :
        (t : PoolType)
        → Returns
            (λ ip. ip < 2 ^ 32)
            (elim t [
              | net30 ↦ some ((pool.base + i * 4) % 2 ^ 32)
              | indiv ↦ some ((pool.base + i) % 2 ^ 32)
              | other_type ↦ none
            ])
    by_type net30 = omega arith
    by_type indiv = omega arith
    by_type other_type = tt

list_from-Returns :
    (pool : IfconfigPool) (list : List PoolEntry) (i : ℕ)
    → ArePlain list
    → Returns AreLines (list_from pool list i)
unfolding list_from
list_from-Returns pool [] i all = tt
list_from-Returns pool (e ∷ list) i (own, all) =
    by_name e.common_name own (list_from-Returns pool list (suc i) all)
  where
    rest : Option (List (Bytes × ℕ))
    rest = list_from pool list (suc i)

    by_name :
        (name : Option Bytes)
        → IsPlainName name
        → Returns AreLines rest
        → Returns AreLines (elim name [
          | none ↦ rest
          | some cn ↦ ifconfig_pool_handle_to_ip_base pool i >>= λ ip.
              rest >>= λ lines. some ((cn, ip) ∷ lines)
        ])
    by_name none _ h = h
    by_name (some cn) plain h =
        bind-Returns (λ ip. ip < 2 ^ 32) AreLines (ifconfig_pool_handle_to_ip_base pool i)
          (λ ip. rest >>= λ lines. some ((cn, ip) ∷ lines)) (small-address pool i)
          (λ ip small.
            bind-Returns AreLines AreLines rest (λ lines. some ((cn, ip) ∷ lines)) h
              (λ lines k. (plain, small, k)))

pub list_from-AreLines :
    (pool : IfconfigPool) (list : List PoolEntry) (i : ℕ) (lines : List (Bytes × ℕ))
    → ArePlain list
    → list_from pool list i ≡ some lines
    → AreLines lines
list_from-AreLines pool list i lines all e =
    subst (Returns AreLines) e (list_from-Returns pool list i all)
