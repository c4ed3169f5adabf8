-- ===== src/Openvpn/Pool/Choice.antt =====
-- Which free entry `ifconfig_pool_find` of vpn/openvpn-2.2.1/pool.c chooses.
use seguridad_en_redes.Base.{
  ℕ, suc, ◌+◌, ◌-◌, ◌≤◌, ◌<◌, ◌≡◌, refl, sym, ap, ◌∙◌, ◌⊎◌, inl, inr, Bool, true, false, List, [],
  ◌∷◌, Option, none, some, get_elem?, ltb, if◌then◌else◌, Bytes, Bool-cases, arith,
}
use mathlib.Core.Path.{subst}
use seguridad_en_redes.Openvpn.Pool.{
  PoolEntry, IfconfigPool, same_name, new_usage, previous_usage, chosen, find_from,
  ifconfig_pool_find,
}
use seguridad_en_redes.Openvpn.Pool.Seen.{
  FreeAt, SeenName, SeenUsage, next-SeenName, next-SeenUsage, skip-SeenName, skip-SeenUsage,
}

-- The choice for a client: an entry that it had, or else the one that was released first among
-- those that are not kept for another client; none if there are none.
abbrev pub IsChoice : Option Bytes → List PoolEntry → Option ℕ → Type 0
IsChoice cn all none =
    (j : ℕ) (e : PoolEntry)
    → FreeAt all j e
    → (same_name cn e.common_name ≡ false) × (e.fixed ≡ true)
IsChoice cn all (some k) =
    (e : PoolEntry) × FreeAt all k e
    × ((same_name cn e.common_name ≡ true)
        ⊎ ((e.fixed ≡ false)
            × ((j : ℕ) (e' : PoolEntry)
                → FreeAt all j e'
                → (same_name cn e'.common_name ≡ false)
                  × ((e'.fixed ≡ true) ⊎ (e.last_release ≤ e'.last_release)))))

chosen-IsChoice :
    (cn : Option Bytes) (all : List PoolEntry) (i : ℕ) (previous : Option ℕ)
    (usage : Option (ℕ × ℕ))
    → ((j : ℕ) (e : PoolEntry) → get_elem? all j ≡ some e → j < i)
    → SeenName cn all i previous
    → SeenUsage all i usage
    → IsChoice cn all (chosen previous usage)
unfolding chosen
chosen-IsChoice cn all i (some p) usage whole (e, free, named) seen = (e, free, inl named)
chosen-IsChoice cn all i none none whole names seen =
    λ j e free. let lt = whole j e free.0 in (names j e lt free, seen j e lt free)
chosen-IsChoice cn all i none (some u) whole names ((e, free, open_, release), seen) = (
  e,
  free,
  inr (
    open_,
    λ j e' free'.
        let lt = whole j e' free'.0 in
        (
          names j e' lt free',
          elim (seen j e' lt free') [
            | inl kept ↦ inl kept
            | inr later ↦ inr (omega (arith, release, later))
          ],
        ),
  ),
)

find_from-IsChoice :
    (cn : Option Bytes) (all list : List PoolEntry) (i : ℕ) (previous : Option ℕ)
    (usage : Option (ℕ × ℕ))
    → ((j : ℕ) → get_elem? all (i + j) ≡ get_elem? list j)
    → SeenName cn all i previous
    → SeenUsage all i usage
    → IsChoice cn all (find_from false cn list i previous usage)
unfolding find_from
find_from-IsChoice cn all [] i previous usage rest names seen =
    chosen-IsChoice cn all i previous usage whole names seen
  where
    whole : (j : ℕ) (e : PoolEntry) → get_elem? all j ≡ some e → j < i
    whole j e at = elim (Bool-cases (ltb j i)) [
      | inl less ↦ ground (arith, less)
      | inr more ↦
          let place : i + (j - i) ≡ j = ground (arith, more) in
          let both : none ≡ some e = sym (rest (j - i)) ∙ ap (get_elem? all) place ∙ at in
          absurd (cc both)
    ]
find_from-IsChoice cn all (e ∷ list) i previous usage rest names seen =
    by_use e.in_use refl
      (λ at used.
        find_from-IsChoice cn all list (suc i) previous usage next
          (skip-SeenName cn all i e previous at used names)
          (skip-SeenUsage all i e usage at used seen))
      (λ at free.
        find_from-IsChoice cn all list (suc i) (previous_usage cn e i previous)
          (new_usage e i usage) next (next-SeenName cn all i e previous (at, free) names)
          (next-SeenUsage all i e usage (at, free) seen))
  where
    next : (j : ℕ) → get_elem? all (suc i + j) ≡ get_elem? list j
    next j = ap (get_elem? all) (omega arith) ∙ rest (suc j)

    here : get_elem? all i ≡ some e
    here = ap (get_elem? all) (omega arith) ∙ rest 0

    by_use :
        (b : Bool)
        → e.in_use ≡ b
        → (get_elem? all i ≡ some e
            → e.in_use ≡ true
            → IsChoice cn all (find_from false cn list (suc i) previous usage))
        → (get_elem? all i ≡ some e
            → e.in_use ≡ false
            → IsChoice cn all (
                find_from false cn list
                  (suc i)
                  (previous_usage cn e i previous)
                  (new_usage e i usage)))
        → IsChoice cn all (
            if b
            then find_from false cn list (suc i) previous usage
            else find_from false cn list
                (suc i)
                (previous_usage cn e i previous)
                (new_usage e i usage))
    by_use true used later free = later here used
    by_use false idle later free = free here idle

-- Where a client has one address at most: `ifconfig_pool_find` gives a free entry that the client
-- had before, if there is one, and otherwise, among the free entries that are not kept for another
-- client, one that was released first. It gives none exactly if there is no such entry.
pub ifconfig_pool_find-IsChoice :
    (pool : IfconfigPool) (cn : Option Bytes)
    → pool.duplicate_cn ≡ false
    → IsChoice cn pool.list (ifconfig_pool_find pool cn)
unfolding ifconfig_pool_find
ifconfig_pool_find-IsChoice pool cn single =
    subst (λ dup. IsChoice cn pool.list (find_from dup cn pool.list 0 none none)) (sym single)
      (find_from-IsChoice cn pool.list pool.list 0 none none
        (λ j. ap (get_elem? pool.list) (omega arith)) (λ j e lt free. absurd (omega arith))
        (λ j e lt free. absurd (omega arith)))
