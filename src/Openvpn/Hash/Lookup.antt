-- ===== src/Openvpn/Hash/Lookup.antt =====
-- `hash_lookup` of vpn/openvpn-2.2.1/list.h.
use seguridad_en_redes.Base.{ℕ, ◌≡◌, refl, sym, ap, ◌∙◌, inl, inr, ◌∷◌, Option, some, arith}
use seguridad_en_redes.Openvpn.Hash.{
  HashElement, HashBucket, Hash, hash_value, bucket_index, move_to_head, hash_lookup_fast,
  value_found, hash_lookup,
}
use seguridad_en_redes.Openvpn.Hash.Bucket.{find, UnlinkResult}
use seguridad_en_redes.Openvpn.Hash.Table.{IsTable, keys_of, content}
use seguridad_en_redes.Openvpn.Hash.Change.{
  unlink-keys_of, with_bucket, with_bucket-IsTable, with_bucket-content,
}
use seguridad_en_redes.Openvpn.Hash.Opened.{Opened, opened}

module _ {K : Type 0} where
  -- `hash_lookup` gives what the table holds for the key, and the table holds the same afterwards.
  pub hash_lookup-content :
      (hash : Hash K) (key : K)
      → IsTable hash
      → (hash' : Hash K) × (hash_lookup hash key ≡ some (content hash key, hash'))
        × IsTable hash'
        × ((k : K) → content hash' k ≡ content hash k)
        × (hash'.compare_function ≡ hash.compare_function)
  unfolding hash_lookup hash_lookup_fast move_to_head value_found hash_value find
  hash_lookup-content hash key v =
      let (bucket, o) = opened hash v key in by_result bucket o o.result
    where
      i : ℕ
      i = bucket_index hash (hash_value hash key)

      looked : HashBucket K → Option (HashElement K × HashBucket K) → Option (Option ℕ × Hash K)
      looked bucket r =
          let found = move_to_head bucket r in some (value_found hash i found.0 found.1)

      Result : Type 0
      Result =
          (hash' : Hash K) × (hash_lookup hash key ≡ some (content hash key, hash'))
          × IsTable hash'
          × ((k : K) → content hash' k ≡ content hash k)
          × (hash'.compare_function ≡ hash.compare_function)

      by_result :
          (bucket : HashBucket K)
          → Opened hash v key bucket
          → UnlinkResult (keys_of hash) v.same i key bucket
          → Result
      by_result bucket o (inl (nothing, absent)) =
          let nothing' = unlink-keys_of hash key (hash_value hash key) bucket ∙ nothing in
          let v' =
            with_bucket-IsTable hash key bucket bucket hash.n_elements v o.at o.for_ o.distinct
              (omega arith) in
          (
            with_bucket hash key bucket hash.n_elements,
            rw (o.at, hash_lookup) (ap (looked bucket) nothing')
                ∙ ap (λ r. some (r, with_bucket hash key bucket hash.n_elements))
                    (sym (o.holds ∙ absent)),
            v',
            with_bucket-content hash key bucket bucket hash.n_elements (λ k held. held) v v' o.at
                (λ k. refl) (λ k held _. refl),
            refl,
          )
      by_result bucket o (inr (he, rest, u)) =
          let found = unlink-keys_of hash key (hash_value hash key) bucket ∙ u.found in
          let size = u.size in
          let headed : find (keys_of hash) key (he ∷ rest) ≡ some he.value = rw u.at_key refl in
          let v' =
            with_bucket-IsTable hash key bucket (he ∷ rest) hash.n_elements v o.at
              (u.for_it, u.for_rest) (u.distinct o.distinct) (omega (arith, size)) in
          (
            with_bucket hash key (he ∷ rest) hash.n_elements,
            rw (o.at, hash_lookup) (ap (looked bucket) found)
                ∙ ap (λ r. some (r, with_bucket hash key (he ∷ rest) hash.n_elements))
                    (sym (o.holds ∙ u.same_map key ∙ headed)),
            v',
            with_bucket-content hash key bucket (he ∷ rest) hash.n_elements (λ k held. held) v v'
                o.at (λ k. sym (u.same_map k)) (λ k held _. refl),
            refl,
          )
