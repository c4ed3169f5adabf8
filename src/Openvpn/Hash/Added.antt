-- ===== src/Openvpn/Hash/Added.antt =====
-- `hash_add` of vpn/openvpn-2.2.1/list.c.
use seguridad_en_redes.Base.{
  ℕ, suc, ◌+◌, ◌≡◌, refl, sym, ap, ◌∙◌, inl, inr, Bool, true, false, not, ◌&&◌, ◌||◌, ◌∷◌, Option,
  none, some, length, if◌then◌else◌, Bool-cases, arith,
}
use mathlib.Core.Path.{subst}
use seguridad_en_redes.Openvpn.Hash.{
  HashElement, HashBucket, Hash, same_key, hash_value, bucket_index, move_to_head, hash_lookup_fast,
  hash_add_fast, set_value, add_at, hash_add,
}
use seguridad_en_redes.Openvpn.Hash.Bucket.{
  IsKeyEquality, has_key, find, IsFor, AreFor, AreDistinct, UnlinkResult,
}
use seguridad_en_redes.Openvpn.Hash.Table.{IsTable, keys_of, content}
use seguridad_en_redes.Openvpn.Hash.Change.{
  unlink-keys_of, with_bucket, with_bucket-IsTable, with_bucket-content,
}
use seguridad_en_redes.Openvpn.Hash.Opened.{Opened, opened, found_key}

abbrev pub is_some : Option ℕ → Bool
is_some none = false
is_some (some v) = true

module _ {K : Type 0} where
  abbrev new_element : Hash K → K → ℕ → HashElement K
  new_element hash key value = record {
    value = value;
    key = some key;
    hash_value = hash_value hash key;
  }

  new-IsFor :
      (hash : Hash K) (key : K) (value : ℕ)
      → IsFor (keys_of hash) (bucket_index hash (hash_value hash key)) (new_element hash key value)
  unfolding bucket_index hash_value
  new-IsFor hash key value = (key, refl, refl, refl)

  new-IsAbsent :
      (hash : Hash K) (key : K) (bucket : HashBucket K)
      → find (keys_of hash) key bucket ≡ none
      → (k : K) → some key ≡ some k
      → find (keys_of hash) k bucket ≡ none
  new-IsAbsent hash key bucket absent k e =
      let same : key ≡ k = cc e in subst (λ a. find (keys_of hash) a bucket ≡ none) same absent

  -- The map with a value for a key.
  abbrev with_value : Hash K → K → ℕ → Bool → K → Option ℕ → Option ℕ
  with_value hash key value added k held =
      if hash.compare_function k key && added then some value else held

  with_value-other :
      (hash : Hash K) (key : K) (value : ℕ) (added : Bool) (k : K) (held : Option ℕ)
      → hash.compare_function k key ≡ false
      → with_value hash key value added k held ≡ held
  with_value-other hash key value added k held out = rw out refl

  find-new :
      (hash : Hash K) (key k : K) (value : ℕ) (bucket : HashBucket K)
      → find (keys_of hash) k (new_element hash key value ∷ bucket)
        ≡ with_value hash key value true k (find (keys_of hash) k bucket)
  unfolding find same_key
  find-new hash key k value bucket = elim (Bool-cases (hash.compare_function k key)) [
    | inl in_ ↦ rw in_ refl
    | inr out ↦ rw out refl
  ]

  find-replaced :
      (hash : Hash K) (i : ℕ) (key k : K) (value : ℕ) (he : HashElement K) (rest : HashBucket K)
      → IsKeyEquality (keys_of hash)
      → IsFor (keys_of hash) i he
      → has_key (keys_of hash) key he ≡ true
      → find (keys_of hash) k (record he { value = value } ∷ rest)
        ≡ with_value hash key value true k (find (keys_of hash) k (he ∷ rest))
  unfolding find same_key
  find-replaced hash i key k value he rest same for_ at =
      let same_test = found_key hash i key k he same for_ at in
      elim (Bool-cases (hash.compare_function k key)) [
        | inl in_ ↦
            let has : has_key (keys_of hash) k he ≡ true = same_test ∙ in_ in rw (in_, has) refl
        | inr out ↦
            let has : has_key (keys_of hash) k he ≡ false = same_test ∙ out in rw (out, has) refl
      ]

  -- The bucket after `hash_add` has found an element.
  abbrev found_bucket : Bool → ℕ → HashElement K → HashBucket K → HashBucket K
  found_bucket replace value he rest = if replace then set_value value (he ∷ rest) else he ∷ rest

  found-AreFor :
      (hash : Hash K) (i value : ℕ) (replace : Bool) (he : HashElement K) (rest : HashBucket K)
      → AreFor (keys_of hash) i (he ∷ rest)
      → AreFor (keys_of hash) i (found_bucket replace value he rest)
  unfolding set_value
  found-AreFor hash i value true he rest for_ = for_
  found-AreFor hash i value false he rest for_ = for_

  found-AreDistinct :
      (hash : Hash K) (value : ℕ) (replace : Bool) (he : HashElement K) (rest : HashBucket K)
      → AreDistinct (keys_of hash) (he ∷ rest)
      → AreDistinct (keys_of hash) (found_bucket replace value he rest)
  unfolding set_value
  found-AreDistinct hash value true he rest distinct = distinct
  found-AreDistinct hash value false he rest distinct = distinct

  length-found :
      (value : ℕ) (replace : Bool) (he : HashElement K) (rest : HashBucket K)
      → length (found_bucket replace value he rest) ≡ suc (length rest)
  unfolding set_value
  length-found value true he rest = refl
  length-found value false he rest = refl

  find-found :
      (hash : Hash K) (i : ℕ) (key : K) (value : ℕ) (replace : Bool) (he : HashElement K)
      (rest : HashBucket K)
      → IsKeyEquality (keys_of hash)
      → IsFor (keys_of hash) i he
      → has_key (keys_of hash) key he ≡ true
      → (k : K)
      → find (keys_of hash) k (found_bucket replace value he rest)
        ≡ with_value hash key value replace k (find (keys_of hash) k (he ∷ rest))
  unfolding set_value
  find-found hash i key value true he rest same for_ at k =
      find-replaced hash i key k value he rest same for_ at
  find-found hash i key value false he rest same for_ at k =
      elim (Bool-cases (hash.compare_function k key)) [
        | inl in_ ↦ rw in_ refl
        | inr out ↦ rw out refl
      ]

  -- `hash_add` tells whether the table holds the new value for the key: it does unless the table
  -- held a value for the key that was not to be replaced. Nothing else changes.
  pub hash_add-content :
      (hash : Hash K) (key : K) (value : ℕ) (replace : Bool)
      → IsTable hash
      → (hash' : Hash K) × (hash_add hash key value replace
          ≡ some (not (is_some (content hash key)) || replace, hash'))
        × IsTable hash'
        × ((k : K)
            → content hash' k ≡ (
                if hash.compare_function k key && (not (is_some (content hash key)) || replace)
                then some value
                else content hash k))
        × (hash'.compare_function ≡ hash.compare_function)
  unfolding hash_add hash_lookup_fast move_to_head add_at hash_add_fast set_value hash_value find
  hash_add-content hash key value replace v =
      let (bucket, o) = opened hash v key in
      subst Result (sym o.holds) (by_result bucket o o.result)
    where
      i : ℕ
      i = bucket_index hash (hash_value hash key)

      added : HashBucket K → Option (HashElement K × HashBucket K) → Option (Bool × Hash K)
      added bucket r =
          let found = move_to_head bucket r in
          some (add_at hash i key (hash_value hash key) value replace found.0 found.1)

      Result : Option ℕ → Type 0
      Result held =
          (hash' : Hash K) × (hash_add hash key value replace
            ≡ some (not (is_some held) || replace, hash'))
          × IsTable hash'
          × ((k : K)
              → content hash' k
                ≡ with_value hash key value (not (is_some held) || replace) k (content hash k))
          × (hash'.compare_function ≡ hash.compare_function)

      by_result :
          (bucket : HashBucket K)
          → Opened hash v key bucket
          → UnlinkResult (keys_of hash) v.same i key bucket
          → Result (find (keys_of hash) key bucket)
      by_result bucket o (inl (nothing, absent)) =
          let nothing' = unlink-keys_of hash key (hash_value hash key) bucket ∙ nothing in
          let new = new_element hash key value in
          let v' =
            with_bucket-IsTable hash key bucket (new ∷ bucket) (hash.n_elements + 1) v o.at
              (new-IsFor hash key value, o.for_) (new-IsAbsent hash key bucket absent, o.distinct)
              (omega arith) in
          subst Result (sym absent) (
            with_bucket hash key (new ∷ bucket) (hash.n_elements + 1),
            rw (o.at, hash_add) (ap (added bucket) nothing'),
            v',
            with_bucket-content hash key bucket (new ∷ bucket) (hash.n_elements + 1)
                (with_value hash key value true) v v' o.at (λ k. find-new hash key k value bucket)
                (with_value-other hash key value true),
            refl,
          )
      by_result bucket o (inr (he, rest, u)) =
          let found = unlink-keys_of hash key (hash_value hash key) bucket ∙ u.found in
          let size = u.size in
          let headed : find (keys_of hash) key (he ∷ rest) ≡ some he.value = rw u.at_key refl in
          let after = found_bucket replace value he rest in
          let v' =
            with_bucket-IsTable hash key bucket after hash.n_elements v o.at
              (found-AreFor hash i value replace he rest (u.for_it, u.for_rest))
              (found-AreDistinct hash value replace he rest (u.distinct o.distinct))
              (omega (arith, size, length-found value replace he rest)) in
          subst Result (sym (u.same_map key ∙ headed)) (
            with_bucket hash key after hash.n_elements,
            rw (o.at, hash_add) (ap (added bucket) found),
            v',
            with_bucket-content hash key bucket after hash.n_elements
                (with_value hash key value replace) v v' o.at
                (λ k.
                  find-found hash i key value replace he rest v.same u.for_it u.at_key k
                  ∙ ap (with_value hash key value replace k) (sym (u.same_map k)))
                (with_value-other hash key value replace),
            refl,
          )
