-- ===== src/Openvpn/Hash/Change.antt =====
-- A change of one bucket of the hash table of vpn/openvpn-2.2.1/list.c.
use seguridad_en_redes.Base.{
  ℕ, zero, suc, ◌+◌, ◌%◌, ◌<◌, ◌≡◌, ◌≢◌, refl, sym, ap, ◌∙◌, inl, inr, Bool, true, false, List, [],
  ◌∷◌, Option, none, some, length, length-set, get_elem?, set, ◌==◌, bit_and, bit_and-mask, power,
  power_pos, if◌then◌else◌, Bool-cases, arith,
}
use mathlib.Core.Path.{subst}
use seguridad_en_redes.Openvpn.Hash.{
  HashElement, HashBucket, Hash, same_key, is_match, unlink, hash_value, bucket_index,
}
use seguridad_en_redes.Openvpn.Hash.Bucket.{find, AreFor, AreDistinct}
use seguridad_en_redes.Openvpn.Hash.Table.{
  IsTable, keys_of, content, AllFor-set, find-elements, length-elements,
}

module _ {K : Type 0} where
  -- The index of a key's bucket, and the bucket.
  pub bucket_of :
      (hash : Hash K) (key : K)
      → IsTable hash
      → (bucket : HashBucket K) × (get_elem? hash.buckets (bucket_index hash (hash_value hash key))
          ≡ some bucket)
  unfolding bucket_index
  bucket_of hash key v =
      let hv = hash_value hash key in
      let place : bit_and hv hash.mask ≡ hv % power v.exponent =
        ap (bit_and hv) v.mask_is ∙ bit_and-mask hv v.exponent in
      let pos = power_pos v.exponent in
      present hash.buckets (bit_and hv hash.mask) (omega (arith, place, pos, v.full, v.size))
    where
      present :
          (buckets : List (HashBucket K)) (i : ℕ)
          → i < length buckets
          → (bucket : HashBucket K) × (get_elem? buckets i ≡ some bucket)
      present [] i lt = absurd (omega arith)
      present (b ∷ buckets) zero lt = (b, refl)
      present (b ∷ buckets) (suc i) lt = present buckets i (omega arith)

  pub unlink-keys_of :
      (hash : Hash K) (key : K) (hv : ℕ) (bucket : HashBucket K)
      → unlink hash key hv bucket ≡ unlink (keys_of hash) key hv bucket
  unfolding unlink is_match same_key
  unlink-keys_of hash key hv [] = refl
  unlink-keys_of hash key hv (he ∷ rest) =
      let later = unlink-keys_of hash key hv rest in
      ap
        (λ (l : Option (HashElement K × HashBucket K)).
          if is_match (keys_of hash) key hv he
          then some (he, rest)
          else elim l [ none ↦ none | some (found, others) ↦ some (found, he ∷ others) ])
        later

  -- A table with a new bucket for `key`, and a new count.
  abbrev pub with_bucket : Hash K → K → HashBucket K → ℕ → Hash K
  with_bucket hash key bucket n = record hash {
    n_elements = n;
    buckets = set hash.buckets (bucket_index hash (hash_value hash key)) bucket;
  }

  get-set :
      (buckets : List (HashBucket K)) (i : ℕ) (b b' : HashBucket K)
      → get_elem? buckets i ≡ some b
      → get_elem? (set buckets i b') i ≡ some b'
  get-set [] i b b' h = absurd (cc h)
  get-set (x ∷ buckets) zero b b' h = refl
  get-set (x ∷ buckets) (suc i) b b' h = get-set buckets i b b' h

  get-set_ne :
      (buckets : List (HashBucket K)) (i j : ℕ) (b' : HashBucket K)
      → i ≢ j
      → get_elem? (set buckets i b') j ≡ get_elem? buckets j
  get-set_ne [] i j b' ne = refl
  get-set_ne (x ∷ buckets) zero zero b' ne = absurd (ne refl)
  get-set_ne (x ∷ buckets) zero (suc j) b' ne = refl
  get-set_ne (x ∷ buckets) (suc i) zero b' ne = refl
  get-set_ne (x ∷ buckets) (suc i) (suc j) b' ne = get-set_ne buckets i j b' λ e. ne (ap suc e)

  pub with_bucket-IsTable :
      (hash : Hash K) (key : K) (bucket bucket' : HashBucket K) (n : ℕ)
      → IsTable hash
      → get_elem? hash.buckets (bucket_index hash (hash_value hash key)) ≡ some bucket
      → AreFor (keys_of hash) (bucket_index hash (hash_value hash key)) bucket'
      → AreDistinct (keys_of hash) bucket'
      → n + length bucket ≡ hash.n_elements + length bucket'
      → IsTable (with_bucket hash key bucket' n)
  with_bucket-IsTable hash key bucket bucket' n v at for_ distinct sum =
      let i = bucket_index hash (hash_value hash key) in
      let lengths = length-elements hash.buckets i bucket bucket' at in
      record {
        same = v.same;
        exponent = v.exponent;
        size = v.size;
        mask_is = v.mask_is;
        full = length-set hash.buckets i bucket' ∙ v.full;
        placed =
            AllFor-set (keys_of hash) 0 i hash.buckets bucket' v.placed
              (subst (λ j. AreFor (keys_of hash) j bucket') (omega arith) for_) distinct;
        count = omega (arith, lengths, sum, v.count);
      }

  -- What is found in the key's own bucket is what the table holds.
  pub content-bucket :
      (hash : Hash K) (key : K) (bucket : HashBucket K)
      → IsTable hash
      → get_elem? hash.buckets (bucket_index hash (hash_value hash key)) ≡ some bucket
      → content hash key ≡ find (keys_of hash) key bucket
  unfolding content hash_value bucket_index
  content-bucket hash key bucket v at =
      find-elements (keys_of hash) 0 (bucket_index hash (hash_value hash key)) key hash.buckets
        bucket v.same v.placed (omega arith) at

  -- A map that is changed for one key, or not at all.
  pub with_bucket-content :
      (hash : Hash K) (key : K) (bucket bucket' : HashBucket K) (n : ℕ)
      (update : K → Option ℕ → Option ℕ)
      → IsTable hash
      → IsTable (with_bucket hash key bucket' n)
      → get_elem? hash.buckets (bucket_index hash (hash_value hash key)) ≡ some bucket
      → ((k : K) → find (keys_of hash) k bucket' ≡ update k (find (keys_of hash) k bucket))
      → ((k : K) (held : Option ℕ) → hash.compare_function k key ≡ false → update k held ≡ held)
      → (k : K) → content (with_bucket hash key bucket' n) k ≡ update k (content hash k)
  unfolding hash_value bucket_index
  with_bucket-content hash key bucket bucket' n update v v' at here others k =
      elim (Bool-cases (place k == place key)) [
        | inl together ↦
            let same : place key ≡ place k = ground (arith, together) in
            let at' : get_elem? hash.buckets (place k) ≡ some bucket =
              ap (get_elem? hash.buckets) (sym same) ∙ at in
            let now : get_elem? changed (place k) ≡ some bucket' =
              ap (get_elem? changed) (sym same)
              ∙ get-set hash.buckets (place key) bucket bucket' at in
            content-bucket (with_bucket hash key bucket' n) k bucket' v' now
            ∙ here k
            ∙ ap (update k) (sym (content-bucket hash k bucket v at'))
        | inr apart ↦
            let (own, at') = bucket_of hash k v in
            let ne : place key ≢ place k = λ e. separate e apart in
            let now : get_elem? changed (place k) ≡ some own =
              get-set_ne hash.buckets (place key) (place k) bucket' ne ∙ at' in
            let other : hash.compare_function k key ≡ false =
              unlike (hash.compare_function k key) refl apart in
            content-bucket (with_bucket hash key bucket' n) k own v' now
            ∙ sym (content-bucket hash k own v at')
            ∙ sym (others k (content hash k) other)
      ]
    where
      place : K → ℕ
      place a = bucket_index hash (hash_value hash a)

      changed : List (HashBucket K)
      changed = set hash.buckets (place key) bucket'

      separate : place key ≡ place k → (place k == place key) ≡ false → ⊥
      separate e apart = absurd (ground (arith, e, apart))

      unlike :
          (c : Bool)
          → hash.compare_function k key ≡ c
          → (place k == place key) ≡ false
          → hash.compare_function k key ≡ false
      unlike false e apart = e
      unlike true e apart =
          let together : place k ≡ place key = ap (bucket_index hash) (v.same.respected k key e) in
          absurd (ground (arith, together, apart))
