-- ===== src/Openvpn/Hash/Removed.antt =====
-- `hash_remove` of vpn/openvpn-2.2.1/list.c.
use seguridad_en_redes.Base.{
  ℕ, ◌-◌, ◌≡◌, refl, sym, ap, ◌∙◌, inl, inr, Bool, true, false, [], ◌∷◌, Option, none, some,
  if◌then◌else◌, Bool-cases, arith,
}
use mathlib.Core.Path.{subst}
use seguridad_en_redes.Openvpn.Hash.{
  HashElement, HashBucket, Hash, same_key, hash_value, bucket_index, remove_at, hash_remove_fast,
  hash_remove,
}
use seguridad_en_redes.Openvpn.Hash.Bucket.{
  IsKeyEquality, has_key, find, IsFor, AreDistinct, UnlinkResult, find-equal,
}
use seguridad_en_redes.Openvpn.Hash.Table.{IsTable, keys_of, content, elements, length-elements}
use seguridad_en_redes.Openvpn.Hash.Change.{
  unlink-keys_of, with_bucket, with_bucket-IsTable, with_bucket-content,
}
use seguridad_en_redes.Openvpn.Hash.Opened.{Opened, opened, found_key}
use seguridad_en_redes.Openvpn.Hash.Added.{is_some}

module _ {K : Type 0} where
  find-rest :
      (hash : Hash K) (i : ℕ) (key : K) (he : HashElement K) (rest : HashBucket K)
      → IsKeyEquality (keys_of hash)
      → IsFor (keys_of hash) i he
      → has_key (keys_of hash) key he ≡ true
      → AreDistinct (keys_of hash) (he ∷ rest)
      → (k : K)
      → find (keys_of hash) k rest
        ≡ (if hash.compare_function k key then none else find (keys_of hash) k (he ∷ rest))
  unfolding find same_key
  find-rest hash i key he rest same (c, named, hv, place) at (first, _) k =
      let test = found_key hash i key k he same (c, named, hv, place) at in
      elim (Bool-cases (hash.compare_function k key)) [
        | inr out ↦
            let miss : has_key (keys_of hash) k he ≡ false = test ∙ out in rw (out, miss) refl
        | inl in_ ↦
            let equal : hash.compare_function k c ≡ true =
              sym (ap (same_key hash.compare_function k) named) ∙ test ∙ in_ in
            let gone : find (keys_of hash) k rest ≡ none =
              find-equal (keys_of hash) same k c rest equal ∙ first c named in
            rw in_ gone
      ]

  -- `hash_remove` tells whether the table held a value for the key, which it then does not hold any
  -- more. Nothing else changes.
  pub hash_remove-content :
      (hash : Hash K) (key : K)
      → IsTable hash
      → (hash' : Hash K) × (hash_remove hash key ≡ some (is_some (content hash key), hash'))
        × IsTable hash'
        × ((k : K)
            → content hash' k ≡ (if hash.compare_function k key then none else content hash k))
        × (hash'.compare_function ≡ hash.compare_function)
  unfolding hash_remove hash_remove_fast remove_at hash_value find content
  hash_remove-content hash key v =
      let (bucket, o) = opened hash v key in
      subst Result (sym o.holds) (by_result bucket o o.result)
    where
      i : ℕ
      i = bucket_index hash (hash_value hash key)

      Result : Option ℕ → Type 0
      Result held =
          (hash' : Hash K) × (hash_remove hash key ≡ some (is_some held, hash'))
          × IsTable hash'
          × ((k : K)
              → content hash' k ≡ (if hash.compare_function k key then none else content hash k))
          × (hash'.compare_function ≡ hash.compare_function)

      removed : Option (HashElement K × HashBucket K) → Option (Bool × Hash K)
      removed r = some (remove_at hash i r)

      unchanged :
          (k : K)
          → content hash key ≡ none
          → content hash k ≡ (if hash.compare_function k key then none else content hash k)
      unchanged k absent = elim (Bool-cases (hash.compare_function k key)) [
        | inr out ↦ rw out refl
        | inl in_ ↦
            rw in_ (find-equal (keys_of hash) v.same k key (elements hash.buckets) in_ ∙ absent)
      ]

      by_result :
          (bucket : HashBucket K)
          → Opened hash v key bucket
          → UnlinkResult (keys_of hash) v.same i key bucket
          → Result (find (keys_of hash) key bucket)
      by_result bucket o (inl (nothing, absent)) =
          let nothing' = unlink-keys_of hash key (hash_value hash key) bucket ∙ nothing in
          subst Result (sym absent) (
            hash,
            rw (o.at, hash_remove) (ap removed nothing'),
            v,
            λ k. unchanged k (o.holds ∙ absent),
            refl,
          )
      by_result bucket o (inr (he, rest, u)) =
          let found = unlink-keys_of hash key (hash_value hash key) bucket ∙ u.found in
          let size = u.size in
          let headed : find (keys_of hash) key (he ∷ rest) ≡ some he.value = rw u.at_key refl in
          let least = length-elements hash.buckets i bucket [] o.at in
          let (_, distinct) = u.distinct o.distinct in
          let v' =
            with_bucket-IsTable hash key bucket rest (hash.n_elements - 1) v o.at u.for_rest
              distinct (omega (arith, size, least, v.count)) in
          subst Result (sym (u.same_map key ∙ headed)) (
            with_bucket hash key rest (hash.n_elements - 1),
            rw (o.at, hash_remove) (ap removed found),
            v',
            with_bucket-content hash key bucket rest (hash.n_elements - 1)
                (λ k held. if hash.compare_function k key then none else held) v v' o.at
                (λ k.
                  find-rest hash i key he rest v.same u.for_it u.at_key (u.distinct o.distinct) k
                  ∙ ap (λ held. if hash.compare_function k key then none else held)
                      (sym (u.same_map k)))
                (λ k held out. rw out refl),
            refl,
          )
