-- ===== src/Openvpn/Hash/Opened.antt =====
-- The bucket that an operation of the hash table of vpn/openvpn-2.2.1/list.c opens.
use seguridad_en_redes.Base.{
  ℕ, ◌≡◌, refl, sym, ap, ◌∙◌, inl, inr, Bool, true, false, some, get_elem?, Bool-cases, arith,
}
use mathlib.Core.Path.{subst}
use seguridad_en_redes.Openvpn.Hash.{
  HashElement, HashBucket, Hash, same_key, hash_value, bucket_index,
}
use seguridad_en_redes.Openvpn.Hash.Bucket.{
  IsKeyEquality, has_key, find, IsFor, AreFor, AreDistinct, UnlinkResult, unlink_lem,
}
use seguridad_en_redes.Openvpn.Hash.Table.{IsTable, keys_of, content, AllFor-get}
use seguridad_en_redes.Openvpn.Hash.Change.{bucket_of, content-bucket}

module _ {K : Type 0} where
  -- The key's bucket, and what the loop over it gives.
  pub record Opened (hash : Hash K) (v : IsTable hash) (key : K) (bucket : HashBucket K)
      : Type 0 where
    pub at : get_elem? hash.buckets (bucket_index hash (hash_value hash key)) ≡ some bucket
    pub for_ : AreFor (keys_of hash) (bucket_index hash (hash_value hash key)) bucket
    pub distinct : AreDistinct (keys_of hash) bucket
    pub result :
        UnlinkResult (keys_of hash) v.same (bucket_index hash (hash_value hash key)) key bucket
    pub holds : content hash key ≡ find (keys_of hash) key bucket

  pub opened :
      (hash : Hash K) (v : IsTable hash) (key : K)
      → (bucket : HashBucket K) × Opened hash v key bucket
  opened hash v key =
      let i = bucket_index hash (hash_value hash key) in
      let (bucket, at) = bucket_of hash key v in
      let (for_, distinct) = AllFor-get (keys_of hash) 0 i hash.buckets bucket v.placed at in
      let own : AreFor (keys_of hash) i bucket =
        subst (λ j. AreFor (keys_of hash) j bucket) (omega arith) for_ in
      (
        bucket,
        record {
          at = at;
          for_ = own;
          distinct = distinct;
          result = unlink_lem (keys_of hash) v.same i key bucket own;
          holds = content-bucket hash key bucket v at;
        },
      )

  -- Every key equal to a found element's is equal to the key that was searched for.
  pub found_key :
      (hash : Hash K) (i : ℕ) (key k : K) (he : HashElement K)
      → IsKeyEquality (keys_of hash)
      → IsFor (keys_of hash) i he
      → has_key (keys_of hash) key he ≡ true
      → has_key (keys_of hash) k he ≡ hash.compare_function k key
  unfolding same_key
  found_key hash i key k he same (c, named, _, _) at =
      let key_c : hash.compare_function key c ≡ true =
        sym (ap (same_key hash.compare_function key) named) ∙ at in
      ap (same_key hash.compare_function k) named ∙ equal key_c (hash.compare_function k c) refl
    where
      equal :
          hash.compare_function key c ≡ true
          → (b : Bool) → hash.compare_function k c ≡ b
          → hash.compare_function k c ≡ hash.compare_function k key
      equal key_c true e = e ∙ sym (same.transitive k c key e (same.symmetric c key ∙ key_c))
      equal key_c false e = elim (Bool-cases (hash.compare_function k key)) [
        | inr out ↦ e ∙ sym out
        | inl in_ ↦ let both = same.transitive k key c in_ key_c in absurd (cc (both, e))
      ]
