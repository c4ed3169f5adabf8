-- ===== src/Openvpn/Hash/Table.antt =====
-- The whole hash table of vpn/openvpn-2.2.1/list.c.
use seguridad_en_redes.Base.{
  ℕ, zero, suc, ◌+◌, ◌-◌, ◌<◌, ◌≡◌, ◌≢◌, refl, sym, ap, ◌∙◌, inl, inr, Bool, false, List, [], ◌∷◌,
  ◌++◌, Option, none, some, length, length-append, get_elem?, set, power, if◌then◌else◌, Bool-cases,
  arith,
}
use mathlib.Core.Path.{subst}
use seguridad_en_redes.Openvpn.Hash.{
  HashElement, HashBucket, Hash, same_key, hash_value, bucket_index,
}
use seguridad_en_redes.Openvpn.Hash.Bucket.{IsKeyEquality, has_key, find, AreFor, AreDistinct}

module _ {K : Type 0} where
  -- All the elements of some buckets.
  unfoldable pub elements : List (HashBucket K) → List (HashElement K)
  elements [] = []
  elements (bucket ∷ buckets) = bucket ++ elements buckets

  -- The buckets from index `s` on hold what is for them.
  abbrev pub AllFor : Hash K → ℕ → List (HashBucket K) → Type 0
  AllFor hash s [] = Unit
  AllFor hash s (bucket ∷ buckets) =
      AreFor hash s bucket × AreDistinct hash bucket × AllFor hash (suc s) buckets

  -- A table's functions, without its elements.
  abbrev pub keys_of : Hash K → Hash K
  keys_of hash = record hash { n_elements = 0; buckets = [] }

  -- A sound table: the comparison is an equivalence that the hash function respects, the number of
  -- buckets is a power of two, each element is in its bucket, no two elements have the same key, and
  -- the elements are counted.
  pub record IsTable (hash : Hash K) : Type 0 where
    pub same : IsKeyEquality (keys_of hash)
    pub exponent : ℕ
    pub size : hash.n_buckets ≡ power exponent
    pub mask_is : hash.mask ≡ power exponent - 1
    pub full : length hash.buckets ≡ hash.n_buckets
    pub placed : AllFor (keys_of hash) 0 hash.buckets
    pub count : hash.n_elements ≡ length (elements hash.buckets)

  -- What the table holds for a key: the value of the first element that the comparison alone finds.
  unfoldable pub content : Hash K → K → Option ℕ
  content hash key = find (keys_of hash) key (elements hash.buckets)

  pub AllFor-get :
      (hash : Hash K) (s j : ℕ) (buckets : List (HashBucket K)) (bucket : HashBucket K)
      → AllFor hash s buckets
      → get_elem? buckets j ≡ some bucket
      → AreFor hash (s + j) bucket × AreDistinct hash bucket
  AllFor-get hash s j [] bucket all h = absurd (cc h)
  AllFor-get hash s zero (b ∷ buckets) bucket (for_, distinct, all) h =
      let eq : b ≡ bucket = cc h in
      let place : s ≡ s + 0 = omega arith in
      (
        subst (λ c. AreFor hash (s + 0) c) eq (subst (λ n. AreFor hash n b) place for_),
        subst (AreDistinct hash) eq distinct,
      )
  AllFor-get hash s (suc j) (b ∷ buckets) bucket (for_, distinct, all) h =
      let (found, apart) = AllFor-get hash (suc s) j buckets bucket all h in
      let place : suc s + j ≡ s + suc j = omega arith in
      (subst (λ n. AreFor hash n bucket) place found, apart)

  pub AllFor-set :
      (hash : Hash K) (s j : ℕ) (buckets : List (HashBucket K)) (bucket : HashBucket K)
      → AllFor hash s buckets
      → AreFor hash (s + j) bucket
      → AreDistinct hash bucket
      → AllFor hash s (set buckets j bucket)
  AllFor-set hash s j [] bucket all for_ distinct = all
  AllFor-set hash s zero (b ∷ buckets) bucket (_, _, all) for_ distinct =
      let place : s + 0 ≡ s = omega arith in
      (subst (λ n. AreFor hash n bucket) place for_, distinct, all)
  AllFor-set hash s (suc j) (b ∷ buckets) bucket (for_b, distinct_b, all) for_ distinct =
      let place : s + suc j ≡ suc s + j = omega arith in
      (
        for_b,
        distinct_b,
        AllFor-set hash (suc s) j buckets bucket all (subst (λ n. AreFor hash n bucket) place for_)
            distinct,
      )

  find-append :
      (hash : Hash K) (key : K) (xs ys : HashBucket K)
      → find hash key xs ≡ none
      → find hash key (xs ++ ys) ≡ find hash key ys
  unfolding find
  find-append hash key [] ys h = refl
  find-append hash key (x ∷ xs) ys h = elim (Bool-cases (has_key hash key x)) [
    | inl in_ ↦ let e : some x.value ≡ none = sym (ap cut in_) ∙ h in absurd (cc e)
    | inr out ↦ rw out (find-append hash key xs ys (sym (ap cut out) ∙ h))
  ]
    where
      cut : Bool → Option ℕ
      cut b = if b then some x.value else find hash key xs

  find-before :
      (hash : Hash K) (key : K) (xs ys : HashBucket K)
      → find hash key ys ≡ none
      → find hash key (xs ++ ys) ≡ find hash key xs
  unfolding find
  find-before hash key [] ys h = h
  find-before hash key (x ∷ xs) ys h =
      ap (λ f. if has_key hash key x then some x.value else f) (find-before hash key xs ys h)

  -- A bucket that is not for the key does not have it.
  find-elsewhere :
      (hash : Hash K) (i : ℕ) (key : K) (bucket : HashBucket K)
      → IsKeyEquality hash
      → AreFor hash i bucket
      → bucket_index hash (hash_value hash key) ≢ i
      → find hash key bucket ≡ none
  unfolding find same_key
  find-elsewhere hash i key [] same for_ out = refl
  find-elsewhere hash i key (he ∷ rest) same ((k, named, hv, place), for_) out =
      let later = find-elsewhere hash i key rest same for_ out in
      elim (Bool-cases (hash.compare_function key k)) [
        | inl in_ ↦ absurd (out (ap (bucket_index hash) (same.respected key k in_) ∙ place))
        | inr apart ↦
            let miss : has_key hash key he ≡ false =
              ap (same_key hash.compare_function key) named ∙ apart in
            rw miss later
      ]

  buckets-elsewhere :
      (hash : Hash K) (s : ℕ) (key : K) (buckets : List (HashBucket K))
      → IsKeyEquality hash
      → AllFor hash s buckets
      → bucket_index hash (hash_value hash key) < s
      → find hash key (elements buckets) ≡ none
  unfolding elements find
  buckets-elsewhere hash s key [] same all low = refl
  buckets-elsewhere hash s key (b ∷ buckets) same (for_, _, all) low =
      find-append hash key b (elements buckets)
        (find-elsewhere hash s key b same for_ (λ e. absurd (omega (arith, e))))
      ∙ buckets-elsewhere hash (suc s) key buckets same all (omega arith)

  -- A search of all the buckets finds what is in the key's own.
  pub find-elements :
      (hash : Hash K) (s j : ℕ) (key : K) (buckets : List (HashBucket K)) (bucket : HashBucket K)
      → IsKeyEquality hash
      → AllFor hash s buckets
      → bucket_index hash (hash_value hash key) ≡ s + j
      → get_elem? buckets j ≡ some bucket
      → find hash key (elements buckets) ≡ find hash key bucket
  unfolding elements
  find-elements hash s j key [] bucket same all place h = absurd (cc h)
  find-elements hash s zero key (b ∷ buckets) bucket same (_, _, all) place h =
      let eq : b ≡ bucket = cc h in
      find-before hash key b (elements buckets)
        (buckets-elsewhere hash (suc s) key buckets same all (omega (arith, place)))
      ∙ ap (find hash key) eq
  find-elements hash s (suc j) key (b ∷ buckets) bucket same (for_, _, all) place h =
      find-append hash key b (elements buckets)
        (find-elsewhere hash s key b same for_ (λ e. absurd (omega (arith, e, place))))
      ∙ find-elements hash (suc s) j key buckets bucket same all (omega (arith, place)) h

  pub length-elements :
      (buckets : List (HashBucket K)) (j : ℕ) (bucket bucket' : HashBucket K)
      → get_elem? buckets j ≡ some bucket
      → length (elements (set buckets j bucket')) + length bucket
        ≡ length (elements buckets) + length bucket'
  unfolding elements
  length-elements [] j bucket bucket' h = absurd (cc h)
  length-elements (b ∷ buckets) zero bucket bucket' h =
      let eq : b ≡ bucket = cc h in
      let now = length-append bucket' (elements buckets) in
      let was = length-append b (elements buckets) in omega (arith, now, was, ap length eq)
  length-elements (b ∷ buckets) (suc j) bucket bucket' h =
      let rest = length-elements buckets j bucket bucket' h in
      let now = length-append b (elements (set buckets j bucket')) in
      let was = length-append b (elements buckets) in omega (arith, rest, now, was)
