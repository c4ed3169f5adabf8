-- ===== src/Openvpn/Pool/Find.antt =====
-- Which entry `ifconfig_pool_find` of vpn/openvpn-2.2.1/pool.c takes.
use seguridad_en_redes.Base.{
  ℕ, suc, ◌+◌, ◌≡◌, refl, sym, ap, ◌∙◌, ◌⊎◌, inl, inr, Bool, false, not, ◌&&◌, List, [], ◌∷◌,
  Option, none, some, get_elem?, if◌then◌else◌, Bytes, Bool-cases, arith,
}
use mathlib.Core.Path.{subst}
use seguridad_en_redes.Openvpn.Pool.{
  PoolEntry, IfconfigPool, is_earlier, new_usage, previous_usage, chosen, find_from,
  ifconfig_pool_find,
}

-- The entry at a place of the list is free.
abbrev pub IsFree : List PoolEntry → ℕ → Type 0
IsFree list k = (e : PoolEntry) × (get_elem? list k ≡ some e) × (e.in_use ≡ false)

abbrev FoundFrom : List PoolEntry → ℕ → Option ℕ → Option (ℕ × ℕ) → ℕ → Type 0
FoundFrom list i previous usage k =
    (previous ≡ some k)
    ⊎ ((r : ℕ) × (usage ≡ some (k, r)))
    ⊎ ((j : ℕ) × (k ≡ i + j) × IsFree list j)

chosen-some :
    (previous : Option ℕ) (usage : Option (ℕ × ℕ)) (k : ℕ)
    → chosen previous usage ≡ some k
    → (previous ≡ some k) ⊎ ((r : ℕ) × (usage ≡ some (k, r)))
unfolding chosen
chosen-some (some j) usage k h = inl h
chosen-some none (some u) k h =
    let same : u.0 ≡ k = cc h in inr (u.1, ap (λ (n : ℕ). some (n, u.1)) same)
chosen-some none none k h = absurd (cc h)

previous_usage-some :
    (cn : Option Bytes) (e : PoolEntry) (i k : ℕ) (previous : Option ℕ)
    → previous_usage cn e i previous ≡ some k
    → (previous ≡ some k) ⊎ (k ≡ i)
unfolding previous_usage
previous_usage-some cn e i k (some j) h = inl h
previous_usage-some cn e i k none h = ground (arith, h)

new_usage-some :
    (e : PoolEntry) (i k r : ℕ) (usage : Option (ℕ × ℕ))
    → new_usage e i usage ≡ some (k, r)
    → (usage ≡ some (k, r)) ⊎ (k ≡ i)
unfolding new_usage
new_usage-some e i k r usage h =
    elim (Bool-cases (is_earlier e.last_release usage && not e.fixed)) [
      | inl earlier ↦ let pair = sym (ap cut earlier) ∙ h in inr (sym (first pair))
      | inr later ↦ inl (sym (ap cut later) ∙ h)
    ]
  where
    cut : Bool → Option (ℕ × ℕ)
    cut b = if b then some (i, e.last_release) else usage

    first : ◌≡◌ {A = Option (ℕ × ℕ)} (some (i, e.last_release)) (some (k, r)) → i ≡ k
    first pair = cc pair

-- A found entry is free, if those found before are.
find_from-some :
    (dup : Bool) (cn : Option Bytes) (list : List PoolEntry) (i : ℕ) (previous : Option ℕ)
    (usage : Option (ℕ × ℕ)) (k : ℕ)
    → find_from dup cn list i previous usage ≡ some k
    → FoundFrom list i previous usage k
unfolding find_from
find_from-some dup cn [] i previous usage k h = elim (chosen-some previous usage k h) [
  | inl old ↦ inl old
  | inr new ↦ inr (inl new)
]
find_from-some dup cn (e ∷ list) i previous usage k h = elim (Bool-cases e.in_use) [
  | inl used ↦
      later (find_from-some dup cn list (suc i) previous usage k (sym (ap by_use used) ∙ h))
  | inr free ↦ elim (Bool-cases dup) [
    | inl first ↦
        elim (chosen-some previous (some (i, e.last_release)) k
          (sym (ap by_dup first) ∙ sym (ap by_use free) ∙ h)) [
            | inl old ↦ inl old
            | inr (r, new) ↦ inr (inr (0, at_place k r new, (e, refl, free)))
          ]
    | inr each ↦ taken free (
        find_from-some dup cn list (suc i) (previous_usage cn e i previous) (new_usage e i usage) k
          (sym (ap by_dup each) ∙ sym (ap by_use free) ∙ h))
  ]
]
  where
    by_dup : Bool → Option ℕ
    by_dup b =
        if b
        then chosen previous (some (i, e.last_release))
        else find_from dup cn list (suc i) (previous_usage cn e i previous) (new_usage e i usage)

    by_use : Bool → Option ℕ
    by_use b = if b then find_from dup cn list (suc i) previous usage else by_dup dup

    at_place :
        (k r : ℕ) → ◌≡◌ {A = Option (ℕ × ℕ)} (some (i, e.last_release)) (some (k, r)) → k ≡ i + 0
    at_place k r new = let same : i ≡ k = cc new in omega arith

    later : FoundFrom list (suc i) previous usage k → FoundFrom (e ∷ list) i previous usage k
    later (inl old) = inl old
    later (inr (inl new)) = inr (inl new)
    later (inr (inr (j, at, free))) = inr (inr (suc j, omega arith, free))

    taken :
        e.in_use ≡ false
        → FoundFrom list (suc i) (previous_usage cn e i previous) (new_usage e i usage) k
        → FoundFrom (e ∷ list) i previous usage k
    taken free (inl old) = elim (previous_usage-some cn e i k previous old) [
      | inl older ↦ inl older
      | inr here ↦ inr (inr (0, omega arith, (e, refl, free)))
    ]
    taken free (inr (inl (r, new))) = elim (new_usage-some e i k r usage new) [
      | inl older ↦ inr (inl (r, older))
      | inr here ↦ inr (inr (0, omega arith, (e, refl, free)))
    ]
    taken free (inr (inr (j, at, idle))) = inr (inr (suc j, omega arith, idle))

-- The entry that `ifconfig_pool_find` takes is free.
pub ifconfig_pool_find-IsFree :
    (pool : IfconfigPool) (cn : Option Bytes) (k : ℕ)
    → ifconfig_pool_find pool cn ≡ some k
    → IsFree pool.list k
unfolding ifconfig_pool_find
ifconfig_pool_find-IsFree pool cn k h =
    elim (find_from-some pool.duplicate_cn cn pool.list 0 none none k h) [
      | inl old ↦ absurd (cc old)
      | inr (inl (r, new)) ↦ absurd (cc new)
      | inr (inr (j, at, found)) ↦
          let same : j ≡ k = omega arith in subst (IsFree pool.list) same found
    ]
