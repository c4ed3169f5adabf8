-- ===== src/Openvpn/Pool/Seen.antt =====
-- The entries that `ifconfig_pool_find` of vpn/openvpn-2.2.1/pool.c has looked at.
use seguridad_en_redes.Base.{
  ℕ, suc, ◌≤◌, ◌<◌, ◌≡◌, refl, sym, ap, ◌∙◌, ◌⊎◌, inl, inr, Bool, true, false, not, ◌&&◌, List,
  Option, none, some, get_elem?, ltb, if◌then◌else◌, Bytes, Bool-cases, arith,
}
use seguridad_en_redes.Openvpn.Pool.{PoolEntry, same_name, is_earlier, new_usage, previous_usage}

-- A free entry at a place.
abbrev pub FreeAt : List PoolEntry → ℕ → PoolEntry → Type 0
FreeAt list k e = (get_elem? list k ≡ some e) × (e.in_use ≡ false)

-- The first `i` entries have been looked at: the place of one that the client had, if there is one.
abbrev pub SeenName : Option Bytes → List PoolEntry → ℕ → Option ℕ → Type 0
SeenName cn all i none =
    (j : ℕ) (e : PoolEntry) → j < i → FreeAt all j e → same_name cn e.common_name ≡ false
SeenName cn all i (some p) = (e : PoolEntry) × FreeAt all p e × (same_name cn e.common_name ≡ true)

-- The first `i` entries have been looked at: the one that was released first, if there is one.
abbrev pub SeenUsage : List PoolEntry → ℕ → Option (ℕ × ℕ) → Type 0
SeenUsage all i none = (j : ℕ) (e : PoolEntry) → j < i → FreeAt all j e → e.fixed ≡ true
SeenUsage all i (some u) =
    ((e : PoolEntry) × FreeAt all u.0 e × (e.fixed ≡ false) × (e.last_release ≡ u.1))
    × ((j : ℕ) (e : PoolEntry) → j < i → FreeAt all j e → (e.fixed ≡ true) ⊎ (u.1 ≤ e.last_release))

-- The entry at place `i` of which one knows what it is.
same_entry :
    (all : List PoolEntry) (i j : ℕ) (e e' : PoolEntry)
    → get_elem? all i ≡ some e
    → FreeAt all j e'
    → j < suc i
    → (j < i) ⊎ (e' ≡ e)
same_entry all i j e e' at (at', _) lt = elim (Bool-cases (ltb j i)) [
  | inl less ↦ inl (ground (arith, less))
  | inr more ↦
      let place : j ≡ i = ground (arith, more, lt) in
      let both : some e' ≡ some e = sym at' ∙ ap (get_elem? all) place ∙ at in inr (cc both)
]

pub next-SeenName :
    (cn : Option Bytes) (all : List PoolEntry) (i : ℕ) (e : PoolEntry) (previous : Option ℕ)
    → FreeAt all i e
    → SeenName cn all i previous
    → SeenName cn all (suc i) (previous_usage cn e i previous)
unfolding previous_usage
next-SeenName cn all i e (some p) free seen = seen
next-SeenName cn all i e none free seen = by_name (same_name cn e.common_name) refl
  where
    by_name :
        (b : Bool)
        → same_name cn e.common_name ≡ b
        → SeenName cn all (suc i) (if b then some i else none)
    by_name true named = (e, free, named)
    by_name false other = λ j e' lt free'. elim (same_entry all i j e e' free.0 free' lt) [
      | inl before ↦ seen j e' before free'
      | inr same ↦ ap (λ (x : PoolEntry). same_name cn x.common_name) same ∙ other
    ]

pub next-SeenUsage :
    (all : List PoolEntry) (i : ℕ) (e : PoolEntry) (usage : Option (ℕ × ℕ))
    → FreeAt all i e
    → SeenUsage all i usage
    → SeenUsage all (suc i) (new_usage e i usage)
unfolding new_usage is_earlier
next-SeenUsage all i e none free seen = by_fixed e.fixed refl
  where
    by_fixed :
        (b : Bool)
        → e.fixed ≡ b
        → SeenUsage all (suc i) (if true && not b then some (i, e.last_release) else none)
    by_fixed true kept = λ j e' lt free'. elim (same_entry all i j e e' free.0 free' lt) [
      | inl before ↦ seen j e' before free'
      | inr same ↦ ap (λ (x : PoolEntry). x.fixed) same ∙ kept
    ]
    by_fixed false open_ = (
      (e, free, open_, refl),
      λ j e' lt free'. elim (same_entry all i j e e' free.0 free' lt) [
        | inl before ↦ inl (seen j e' before free')
        | inr same ↦
            let release = ap (λ (x : PoolEntry). x.last_release) same in
            inr (omega (arith, release))
      ],
    )
next-SeenUsage all i e (some u) free (held, seen) =
    by_test (ltb e.last_release u.1 && not e.fixed) refl
  where
    by_test :
        (b : Bool)
        → (ltb e.last_release u.1 && not e.fixed) ≡ b
        → SeenUsage all (suc i) (if b then some (i, e.last_release) else some u)
    by_test true h =
        let earlier : e.last_release < u.1 = ground (arith, h) in
        (
          (e, free, ground (arith, h), refl),
          λ j e' lt free'. elim (same_entry all i j e e' free.0 free' lt) [
            | inl before ↦ elim (seen j e' before free') [
              | inl kept ↦ inl kept
              | inr later ↦ inr (omega (arith, later, earlier))
            ]
            | inr same ↦
                let release = ap (λ (x : PoolEntry). x.last_release) same in
                inr (omega (arith, release))
          ],
        )
    by_test false h = (
      held,
      λ j e' lt free'. elim (same_entry all i j e e' free.0 free' lt) [
        | inl before ↦ seen j e' before free'
        | inr same ↦
            let release = ap (λ (x : PoolEntry). x.last_release) same in
            let fixed = ap (λ (x : PoolEntry). x.fixed) same in
            elim (Bool-cases e.fixed) [
              | inl kept ↦ inl (fixed ∙ kept)
              | inr open_ ↦ inr (ground (arith, h, open_, release))
            ]
      ],
    )

-- An entry in use is no choice.
pub skip-SeenName :
    (cn : Option Bytes) (all : List PoolEntry) (i : ℕ) (e : PoolEntry) (previous : Option ℕ)
    → get_elem? all i ≡ some e
    → e.in_use ≡ true
    → SeenName cn all i previous
    → SeenName cn all (suc i) previous
skip-SeenName cn all i e (some p) at used seen = seen
skip-SeenName cn all i e none at used seen = λ j e' lt free.
    elim (same_entry all i j e e' at free lt) [
      | inl before ↦ seen j e' before free
      | inr same ↦
          let both : true ≡ false =
            sym used ∙ ap (λ (x : PoolEntry). x.in_use) (sym same) ∙ free.1 in
          absurd (cc both)
    ]

pub skip-SeenUsage :
    (all : List PoolEntry) (i : ℕ) (e : PoolEntry) (usage : Option (ℕ × ℕ))
    → get_elem? all i ≡ some e
    → e.in_use ≡ true
    → SeenUsage all i usage
    → SeenUsage all (suc i) usage
skip-SeenUsage all i e usage at used seen = by_usage usage seen
  where
    earlier : (j : ℕ) (e' : PoolEntry) → FreeAt all j e' → j < suc i → j < i
    earlier j e' free lt = elim (same_entry all i j e e' at free lt) [
      | inl before ↦ before
      | inr same ↦
          let both : true ≡ false =
            sym used ∙ ap (λ (x : PoolEntry). x.in_use) (sym same) ∙ free.1 in
          absurd (cc both)
    ]

    by_usage : (usage : Option (ℕ × ℕ)) → SeenUsage all i usage → SeenUsage all (suc i) usage
    by_usage none seen = λ j e' lt free. seen j e' (earlier j e' free lt) free
    by_usage (some u) (held, seen) = (held, λ j e' lt free. seen j e' (earlier j e' free lt) free)
