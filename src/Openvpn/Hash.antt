-- ===== src/Openvpn/Hash.antt =====
-- vpn/openvpn-2.2.1/list.c and list.h: the hash table by which the server finds its clients. A
-- bucket is the list of its elements, and a value is a pointer, which is a number and not NULL. An
-- element that is marked for removal has the key NULL, `none`. An outer `none` stands for an index
-- outside an array or a failed `ASSERT`.
pub mod Bucket
pub mod Table
pub mod Change
pub mod Opened
pub mod Lookup
pub mod Added
pub mod Removed
pub mod Runs
use seguridad_en_redes.Base.{
  ℕ, zero, suc, ◌+◌, ◌-◌, ◌^◌, Bool, true, false, ◌&&◌, List, [], ◌∷◌, Option, none, some,
  get_elem?, set, replicate, bit_and, ltb, ◌==◌, if◌then◌else◌,
}
use seguridad_en_redes.Openvpn.Checked.{◌>>=◌, ◌>>◌, assert}
use seguridad_en_redes.Openvpn.Mbuf.{adjust_power_of_2}

-- `struct hash_element`; `next` is the rest of the bucket.
pub record HashElement (K : Type 0) : Type 0 where
  pub value : ℕ
  pub key : Option K
  pub hash_value : ℕ

-- `struct hash_bucket`
abbrev pub HashBucket : Type 0 → Type 0
HashBucket K = List (HashElement K)

-- `struct hash`
pub record Hash (K : Type 0) : Type 0 where
  pub n_buckets : ℕ
  pub n_elements : ℕ
  pub mask : ℕ
  pub iv : ℕ
  pub hash_function : K → ℕ → ℕ
  pub compare_function : K → K → Bool
  pub buckets : List (HashBucket K)

module _ {K : Type 0} where
  -- `hash_init`
  unfoldable pub hash_init : ℕ → ℕ → (K → ℕ → ℕ) → (K → K → Bool) → Option (Hash K)
  hash_init n_buckets iv hash_function compare_function = do
    assert (ltb 0 n_buckets)
    n ← adjust_power_of_2 n_buckets
    some (record {
      n_buckets = n;
      n_elements = 0;
      mask = n - 1;
      iv = iv;
      hash_function = hash_function;
      compare_function = compare_function;
      buckets = replicate n [];
    })

  -- `compare_function (key, he->key)`; an element with no key is only there while it is removed.
  unfoldable pub same_key : (K → K → Bool) → K → Option K → Bool
  same_key compare_function key none = false
  same_key compare_function key (some k) = compare_function key k

  -- `hv == he->hash_value && compare_function (key, he->key)`
  unfoldable pub is_match : Hash K → K → ℕ → HashElement K → Bool
  is_match hash key hv he = hv == he.hash_value && same_key hash.compare_function key he.key

  -- The loop of `hash_lookup_fast` and of `hash_remove_fast`: the first element that matches, and
  -- the bucket without it, by `prev->next = he->next` or `bucket->list = he->next`.
  unfoldable pub unlink : Hash K → K → ℕ → HashBucket K → Option (HashElement K × HashBucket K)
  unlink hash key hv [] = none
  unlink hash key hv (he ∷ rest) =
      let later = unlink hash key hv rest in
      if is_match hash key hv he
      then some (he, rest)
      else elim later [ none ↦ none | some (found, others) ↦ some (found, he ∷ others) ]

  -- What is found moves to the head of its bucket.
  unfoldable pub move_to_head :
      HashBucket K → Option (HashElement K × HashBucket K) → Option (HashElement K) × HashBucket K
  move_to_head bucket none = (none, bucket)
  move_to_head bucket (some (he, rest)) = (some he, he ∷ rest)

  -- `hash_lookup_fast`
  unfoldable pub hash_lookup_fast :
      Hash K → HashBucket K → K → ℕ → Option (HashElement K) × HashBucket K
  hash_lookup_fast hash bucket key hv = move_to_head bucket (unlink hash key hv bucket)

  -- What is found is freed, in the bucket at index `i`.
  unfoldable pub remove_at : Hash K → ℕ → Option (HashElement K × HashBucket K) → Bool × Hash K
  remove_at hash i none = (false, hash)
  remove_at hash i (some (he, rest)) =
      (true, record hash { n_elements = hash.n_elements - 1; buckets = set hash.buckets i rest })

  -- `hash_remove_fast`, for the bucket at index `i`
  unfoldable pub hash_remove_fast : Hash K → ℕ → HashBucket K → K → ℕ → Bool × Hash K
  hash_remove_fast hash i bucket key hv = remove_at hash i (unlink hash key hv bucket)

  -- `hash_value`
  unfoldable pub hash_value : Hash K → K → ℕ
  hash_value hash key = hash.hash_function key hash.iv

  -- `hv & hash->mask`
  unfoldable pub bucket_index : Hash K → ℕ → ℕ
  bucket_index hash hv = bit_and hv hash.mask

  -- `hash_add_fast`, for the bucket at index `i`
  unfoldable pub hash_add_fast : Hash K → ℕ → HashBucket K → K → ℕ → ℕ → Hash K
  hash_add_fast hash i bucket key hv value =
      let he : HashElement K = record { value = value; key = some key; hash_value = hv } in
      record hash { n_elements = hash.n_elements + 1; buckets = set hash.buckets i (he ∷ bucket) }

  -- `hash_lookup`, after `hash_lookup_fast` for the bucket at index `i`
  unfoldable pub value_found :
      Hash K → ℕ → Option (HashElement K) → HashBucket K → Option ℕ × Hash K
  value_found hash i none bucket = (none, record hash { buckets = set hash.buckets i bucket })
  value_found hash i (some he) bucket =
      (some he.value, record hash { buckets = set hash.buckets i bucket })

  -- `hash_lookup`
  unfoldable pub hash_lookup : Hash K → K → Option (Option ℕ × Hash K)
  hash_lookup hash key = do
    let hv = hash_value hash key
    let i = bucket_index hash hv
    bucket ← get_elem? hash.buckets i
    let found = hash_lookup_fast hash bucket key hv
    some (value_found hash i found.0 found.1)

  -- `he->value = value`, for the element that the lookup has moved to the head
  unfoldable pub set_value : ℕ → HashBucket K → HashBucket K
  set_value value [] = []
  set_value value (he ∷ rest) = record he { value = value } ∷ rest

  -- `hash_add`, for the bucket at index `i`, after the lookup has found an element or none
  unfoldable pub add_at :
      Hash K → ℕ → K → ℕ → ℕ → Bool → Option (HashElement K) → HashBucket K → Bool × Hash K
  add_at hash i key hv value replace none bucket = (true, hash_add_fast hash i bucket key hv value)
  add_at hash i key hv value replace (some he) bucket = (
    replace,
    record hash {
      buckets = set hash.buckets i (if replace then set_value value bucket else bucket);
    },
  )

  -- `hash_add`
  unfoldable pub hash_add : Hash K → K → ℕ → Bool → Option (Bool × Hash K)
  hash_add hash key value replace = do
    let hv = hash_value hash key
    let i = bucket_index hash hv
    bucket ← get_elem? hash.buckets i
    let found = hash_lookup_fast hash bucket key hv
    some (add_at hash i key hv value replace found.0 found.1)

  -- `hash_remove`
  unfoldable pub hash_remove : Hash K → K → Option (Bool × Hash K)
  hash_remove hash key = do
    let hv = hash_value hash key
    let i = bucket_index hash hv
    bucket ← get_elem? hash.buckets i
    some (hash_remove_fast hash i bucket key hv)
