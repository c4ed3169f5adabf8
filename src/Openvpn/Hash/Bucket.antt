-- ===== src/Openvpn/Hash/Bucket.antt =====
-- One bucket of the hash table of vpn/openvpn-2.2.1/list.c.
use seguridad_en_redes.Base.{
  ℕ, suc, ◌≡◌, refl, sym, ap, ◌∙◌, inl, inr, ◌⊎◌, Bool, true, false, [], ◌∷◌, Option, none, some,
  length, if◌then◌else◌, Bool-cases, arith,
}
use seguridad_en_redes.Openvpn.Hash.{
  HashElement, HashBucket, Hash, same_key, is_match, unlink, hash_value, bucket_index,
}

-- The comparison of keys is an equivalence, which the hash function respects.
pub record IsKeyEquality {K : Type 0} (hash : Hash K) : Type 0 where
  pub reflexive : (a : K) → hash.compare_function a a ≡ true
  pub symmetric : (a b : K) → hash.compare_function a b ≡ hash.compare_function b a
  pub transitive :
      (a b c : K)
      → hash.compare_function a b ≡ true
      → hash.compare_function b c ≡ true
      → hash.compare_function a c ≡ true
  pub respected :
      (a b : K) → hash.compare_function a b ≡ true → hash_value hash a ≡ hash_value hash b

module _ {K : Type 0} (hash : Hash K) where
  abbrev pub has_key : K → HashElement K → Bool
  has_key key he = same_key hash.compare_function key he.key

  -- What a bucket holds for a key, whatever the hash values.
  unfoldable pub find : K → HashBucket K → Option ℕ
  find key [] = none
  find key (he ∷ rest) = if has_key key he then some he.value else find key rest

  -- An element has a key, the key's hash value, and the place of that.
  abbrev pub IsFor : ℕ → HashElement K → Type 0
  IsFor i he =
      (k : K) × (he.key ≡ some k)
      × (he.hash_value ≡ hash_value hash k)
      × (bucket_index hash (hash_value hash k) ≡ i)

  abbrev pub AreFor : ℕ → HashBucket K → Type 0
  AreFor i [] = Unit
  AreFor i (he ∷ rest) = IsFor i he × AreFor i rest

  -- No two elements have the same key.
  abbrev pub AreDistinct : HashBucket K → Type 0
  AreDistinct [] = Unit
  AreDistinct (he ∷ rest) = ((k : K) → he.key ≡ some k → find k rest ≡ none) × AreDistinct rest

  abbrev pub push :
      HashElement K → Option (HashElement K × HashBucket K) → Option (HashElement K × HashBucket K)
  push he none = none
  push he (some (found, others)) = some (found, he ∷ others)

  module _ (same : IsKeyEquality hash) where
    is_match-has_key :
        (i : ℕ) (key : K) (he : HashElement K)
        → IsFor i he
        → is_match hash key (hash_value hash key) he ≡ has_key key he
    unfolding is_match same_key
    is_match-has_key i key he (k, named, hv, place) =
        let keys : has_key key he ≡ hash.compare_function key k =
          ap (same_key hash.compare_function key) named in
        elim (Bool-cases (hash.compare_function key k)) [
          | inl yes_ ↦
              let equal = same.respected key k yes_ in ground (arith, keys, yes_, equal, hv)
          | inr no_ ↦ ground (arith, keys, no_)
        ]

    -- Elements that a key matches have each other's key.
    match-match :
        (i : ℕ) (a b : K) (he found : HashElement K)
        → IsFor i found
        → has_key a he ≡ true
        → has_key a found ≡ true
        → has_key b found ≡ true
        → has_key b he ≡ true
    unfolding same_key
    match-match i a b he found (k, named, _, _) ah af bf = by_key he.key refl ah
      where
        a_is : hash.compare_function a k ≡ true
        a_is = sym (ap (same_key hash.compare_function a) named) ∙ af

        b_is : hash.compare_function b k ≡ true
        b_is = sym (ap (same_key hash.compare_function b) named) ∙ bf

        by_key :
            (key : Option K)
            → he.key ≡ key
            → same_key hash.compare_function a key ≡ true
            → same_key hash.compare_function b he.key ≡ true
        by_key none e h = absurd (cc h)
        by_key (some c) e h =
            ap (same_key hash.compare_function b) e
            ∙ same.transitive b a c (same.transitive b k a b_is (same.symmetric k a ∙ a_is)) h

    miss :
        (i : ℕ) (key : K) (he : HashElement K) (rest : HashBucket K)
        → IsFor i he
        → has_key key he ≡ false
        → unlink hash key (hash_value hash key) (he ∷ rest)
          ≡ push he (unlink hash key (hash_value hash key) rest)
    unfolding unlink
    miss i key he rest for_he h =
        let m : is_match hash key (hash_value hash key) he ≡ false =
          is_match-has_key i key he for_he ∙ h in
        rw m refl

    hit :
        (i : ℕ) (key : K) (he : HashElement K) (rest : HashBucket K)
        → IsFor i he
        → has_key key he ≡ true
        → unlink hash key (hash_value hash key) (he ∷ rest) ≡ some (he, rest)
    unfolding unlink
    hit i key he rest for_he h =
        let m : is_match hash key (hash_value hash key) he ≡ true =
          is_match-has_key i key he for_he ∙ h in
        rw m refl

    -- An element that another key matches can change places with the one that is found.
    find-swap :
        (i : ℕ) (key k : K) (he found : HashElement K) (rest : HashBucket K)
        → IsFor i found
        → has_key key he ≡ false
        → has_key key found ≡ true
        → find k (he ∷ found ∷ rest) ≡ find k (found ∷ he ∷ rest)
    unfolding find
    find-swap i key k he found rest for_found other at = elim (Bool-cases (has_key k he)) [
      | inr no_ ↦ rw no_ refl
      | inl yes_ ↦ elim (Bool-cases (has_key k found)) [
        | inr out ↦ rw (yes_, out) refl
        | inl in_ ↦
            let both = match-match i k key he found for_found yes_ in_ at in
            absurd (cc (both, other))
      ]
    ]

    find-none :
        (k : K) (he : HashElement K) (rest : HashBucket K)
        → find k (he ∷ rest) ≡ none
        → (has_key k he ≡ false) × (find k rest ≡ none)
    unfolding find
    find-none k he rest h = elim (Bool-cases (has_key k he)) [
      | inl in_ ↦ let e : some he.value ≡ none = sym (ap cut in_) ∙ h in absurd (cc e)
      | inr out ↦ (out, sym (ap cut out) ∙ h)
    ]
      where
        cut : Bool → Option ℕ
        cut b = if b then some he.value else find k rest

    Distinct-swap :
        (i : ℕ) (he found : HashElement K) (rest : HashBucket K)
        → IsFor i he
        → AreDistinct (he ∷ found ∷ rest)
        → AreDistinct (found ∷ he ∷ rest)
    unfolding find same_key
    Distinct-swap i he found rest (k, named, _, _) (first, (second, others)) = (
      λ kf kf_named.
          let both : has_key kf he ≡ has_key k found =
            ap (same_key hash.compare_function kf) named
            ∙ same.symmetric kf k
            ∙ sym (ap (same_key hash.compare_function k) kf_named) in
          let out : has_key kf he ≡ false = both ∙ (find-none k found rest (first k named)).0 in
          rw out (second kf kf_named),
      (λ k' named'. (find-none k' found rest (first k' named')).1, others),
    )

    -- What the loop finds, and what it leaves.
    pub record Unlinked (i : ℕ) (key : K) (bucket : HashBucket K) (he : HashElement K)
        (rest : HashBucket K) : Type 0 where
      pub found : unlink hash key (hash_value hash key) bucket ≡ some (he, rest)
      pub at_key : has_key key he ≡ true
      pub for_it : IsFor i he
      pub for_rest : AreFor i rest
      pub size : length bucket ≡ suc (length rest)
      pub same_map : (k : K) → find k bucket ≡ find k (he ∷ rest)
      pub distinct : AreDistinct bucket → AreDistinct (he ∷ rest)

    -- What `unlink` gives: no element, and then none has the key, or one that has it.
    abbrev pub UnlinkResult : ℕ → K → HashBucket K → Type 0
    UnlinkResult i key bucket =
        ((unlink hash key (hash_value hash key) bucket ≡ none) × (find key bucket ≡ none))
        ⊎ ((he : HashElement K) × (rest : HashBucket K) × Unlinked i key bucket he rest)

    after_miss :
        (i : ℕ) (key : K) (he : HashElement K) (rest : HashBucket K)
        → IsFor i he
        → has_key key he ≡ false
        → UnlinkResult i key rest
        → UnlinkResult i key (he ∷ rest)
    unfolding find
    after_miss i key he rest for_he other (inl (nothing, absent)) =
        inl (miss i key he rest for_he other ∙ ap (push he) nothing, rw other absent)
    after_miss i key he rest for_he other (inr (f, others, u)) = inr (
      f,
      he ∷ others,
      record {
        found = miss i key he rest for_he other ∙ ap (push he) u.found;
        at_key = u.at_key;
        for_it = u.for_it;
        for_rest = (for_he, u.for_rest);
        size = ap suc u.size;
        same_map = λ k.
            ap (λ found. if has_key k he then some he.value else found) (u.same_map k)
            ∙ find-swap i key k he f others u.for_it other u.at_key;
        distinct = λ (first, distinct).
            Distinct-swap i he f others for_he
              (λ k named. sym (u.same_map k) ∙ first k named, u.distinct distinct);
      },
    )

    pub unlink_lem :
        (i : ℕ) (key : K) (bucket : HashBucket K) → AreFor i bucket → UnlinkResult i key bucket
    unfolding unlink find
    unlink_lem i key [] for_ = inl (refl, refl)
    unlink_lem i key (he ∷ rest) (for_he, for_rest) = elim (Bool-cases (has_key key he)) [
      | inl at ↦ inr (
        he,
        rest,
        record {
          found = hit i key he rest for_he at;
          at_key = at;
          for_it = for_he;
          for_rest = for_rest;
          size = refl;
          same_map = λ k. refl;
          distinct = λ d. d;
        },
      )
      | inr other ↦ after_miss i key he rest for_he other (unlink_lem i key rest for_rest)
    ]

    -- Equal keys find the same.
    pub find-equal :
        (a b : K) (bucket : HashBucket K)
        → hash.compare_function a b ≡ true
        → find a bucket ≡ find b bucket
    unfolding find same_key
    find-equal a b [] h = refl
    find-equal a b (he ∷ rest) h = by_key he.key (find-equal a b rest h)
      where
        either : Option K → Bool
        either key = same_key hash.compare_function a key

        equal : (key : Option K) → either key ≡ same_key hash.compare_function b key
        equal none = refl
        equal (some c) = elim (Bool-cases (hash.compare_function b c)) [
          | inl in_ ↦ same.transitive a b c h in_ ∙ sym in_
          | inr out ↦ elim (Bool-cases (hash.compare_function a c)) [
            | inr out' ↦ out' ∙ sym out
            | inl in' ↦
                let in_ = same.transitive b a c (same.symmetric b a ∙ h) in' in
                absurd (cc (in_, out))
          ]
        ]

        by_key :
            (key : Option K)
            → find a rest ≡ find b rest
            → (if same_key hash.compare_function a key then some he.value else find a rest)
              ≡ (if same_key hash.compare_function b key then some he.value else find b rest)
        by_key key later =
            ap (λ c. if c then some he.value else find a rest) (equal key)
            ∙ ap (λ f. if same_key hash.compare_function b key then some he.value else f) later
