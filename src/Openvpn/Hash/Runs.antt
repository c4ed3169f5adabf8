-- ===== src/Openvpn/Hash/Runs.antt =====
-- The hash table of vpn/openvpn-2.2.1/list.c from `hash_init` on, against a map from keys to values.
use seguridad_en_redes.Base.{
  ℕ, zero, suc, ◌-◌, ◌^◌, ◌≤◌, ◌<◌, ◌≡◌, refl, sym, ap, ◌∙◌, Bool, true, not, ◌&&◌, ◌||◌, List, [],
  ◌∷◌, Option, none, some, length, length-replicate, replicate, ltb, power, if◌then◌else◌, arith,
}
use seguridad_en_redes.Openvpn.Checked.{◌>>=◌}
use seguridad_en_redes.Openvpn.Mbuf.Size.{adjust_power_of_2_lem}
use seguridad_en_redes.Openvpn.Hash.{
  Hash, hash_value, hash_init, hash_lookup, hash_add, hash_remove,
}
use seguridad_en_redes.Openvpn.Hash.Bucket.{find}
use seguridad_en_redes.Openvpn.Hash.Table.{elements, AllFor, IsTable, keys_of, content}
use seguridad_en_redes.Openvpn.Hash.Lookup.{hash_lookup-content}
use seguridad_en_redes.Openvpn.Hash.Added.{is_some, hash_add-content}
use seguridad_en_redes.Openvpn.Hash.Removed.{hash_remove-content}

pub data Operation (K : Type 0) : Type 0 where
  lookup : K → Operation K
  add : K → ℕ → Bool → Operation K
  remove : K → Operation K

pub data Reply : Type 0 where
  found : Option ℕ → Reply
  done : Bool → Reply

-- A comparison that is an equivalence, which a hash function respects.
pub record AreKeyFunctions {K : Type 0} (hash_function : K → ℕ → ℕ) (compare : K → K → Bool)
    : Type 0 where
  pub reflexive : (a : K) → compare a a ≡ true
  pub symmetric : (a b : K) → compare a b ≡ compare b a
  pub transitive : (a b c : K) → compare a b ≡ true → compare b c ≡ true → compare a c ≡ true
  pub respected : (a b : K) (iv : ℕ) → compare a b ≡ true → hash_function a iv ≡ hash_function b iv

module _ {K : Type 0} where
  -- An operation on a table.
  unfoldable pub operate : Hash K → Operation K → Option (Reply × Hash K)
  operate hash (lookup key) = do r ← hash_lookup hash key; some (found r.0, r.1)
  operate hash (add key value replace) = do
    r ← hash_add hash key value replace
    some (done r.0, r.1)
  operate hash (remove key) = do r ← hash_remove hash key; some (done r.0, r.1)

  unfoldable pub operate_all : Hash K → List (Operation K) → Option (List Reply × Hash K)
  operate_all hash [] = some ([], hash)
  operate_all hash (op ∷ ops) = do
    r ← operate hash op
    rest ← operate_all r.1 ops
    some (r.0 ∷ rest.0, rest.1)

  -- An operation on a map: its reply, and the map afterwards.
  unfoldable pub reply : (K → Option ℕ) → Operation K → Reply
  reply map (lookup key) = found (map key)
  reply map (add key value replace) = done (not (is_some (map key)) || replace)
  reply map (remove key) = done (is_some (map key))

  unfoldable pub updated : (K → K → Bool) → (K → Option ℕ) → Operation K → K → Option ℕ
  updated compare map (lookup key) k = map k
  updated compare map (add key value replace) k =
      if compare k key && (not (is_some (map key)) || replace) then some value else map k
  updated compare map (remove key) k = if compare k key then none else map k

  unfoldable pub replies : (K → K → Bool) → (K → Option ℕ) → List (Operation K) → List Reply
  replies compare map [] = []
  replies compare map (op ∷ ops) = reply map op ∷ replies compare (updated compare map op) ops

  -- The table holds what the map has.
  abbrev pub Holds : Hash K → (K → Option ℕ) → Type 0
  Holds hash map = (k : K) → content hash k ≡ map k

  operate-reply :
      (hash : Hash K) (op : Operation K) (map : K → Option ℕ)
      → IsTable hash
      → Holds hash map
      → (hash' : Hash K) × (operate hash op ≡ some (reply map op, hash'))
        × IsTable hash'
        × Holds hash' (updated hash.compare_function map op)
        × (hash'.compare_function ≡ hash.compare_function)
  unfolding operate reply updated
  operate-reply hash (lookup key) map v holds =
      let (hash', run, v', same, functions) = hash_lookup-content hash key v in
      let run' : operate hash (lookup key) ≡ some (found (content hash key), hash') =
        rw (run, operate) refl in
      (
        hash',
        run' ∙ ap (λ held. some (found held, hash')) (holds key),
        v',
        (λ k. same k ∙ holds k),
        functions,
      )
  operate-reply hash (add key value replace) map v holds =
      let (hash', run, v', same, functions) = hash_add-content hash key value replace v in
      let run' : operate hash (add key value replace)
          ≡ some (done (not (is_some (content hash key)) || replace), hash') =
        rw (run, operate) refl in
      (
        hash',
        run' ∙ ap (λ held. some (done (not (is_some held) || replace), hash')) (holds key),
        v',
        (λ k.
            same k
            ∙ ap
                (λ held.
                  if hash.compare_function k key && (not (is_some held) || replace)
                  then some value
                  else content hash k)
                (holds key)
            ∙ ap
                (λ held.
                  if hash.compare_function k key && (not (is_some (map key)) || replace)
                  then some value
                  else held)
                (holds k)),
        functions,
      )
  operate-reply hash (remove key) map v holds =
      let (hash', run, v', same, functions) = hash_remove-content hash key v in
      let run' : operate hash (remove key) ≡ some (done (is_some (content hash key)), hash') =
        rw (run, operate) refl in
      (
        hash',
        run' ∙ ap (λ held. some (done (is_some held), hash')) (holds key),
        v',
        (λ k. same k ∙ ap (λ held. if hash.compare_function k key then none else held) (holds k)),
        functions,
      )

  operate_all-replies :
      (hash : Hash K) (ops : List (Operation K)) (map : K → Option ℕ)
      → IsTable hash
      → Holds hash map
      → (hash' : Hash K) × (operate_all hash ops
          ≡ some (replies hash.compare_function map ops, hash'))
        × IsTable hash'
  unfolding operate_all replies
  operate_all-replies hash [] map v holds = (hash, refl, v)
  operate_all-replies hash (op ∷ ops) map v holds =
      let (hash₁, run, v₁, holds₁, functions) = operate-reply hash op map v holds in
      let (hash₂, rest, v₂) =
        operate_all-replies hash₁ ops (updated hash.compare_function map op) v₁ holds₁ in
      let rest' =
        rest
        ∙ ap (λ c. some (replies c (updated hash.compare_function map op) ops, hash₂)) functions in
      (hash₂, rw (run, operate_all, rest') refl, v₂)

  empty-elements : (n : ℕ) → elements {K = K} (replicate n []) ≡ []
  unfolding elements
  empty-elements zero = refl
  empty-elements (suc n) = empty-elements n

  empty-AllFor : (hash : Hash K) (s n : ℕ) → AllFor hash s (replicate n [])
  empty-AllFor hash s zero = tt
  empty-AllFor hash s (suc n) = (tt, tt, empty-AllFor hash (suc s) n)

  hash_init-IsTable :
      (n iv : ℕ) (hash_function : K → ℕ → ℕ) (compare : K → K → Bool)
      → AreKeyFunctions hash_function compare
      → 0 < n
      → n ≤ 2 ^ 30
      → (hash : Hash K) × (hash_init n iv hash_function compare ≡ some hash)
        × IsTable hash
        × Holds hash (λ k. none)
        × (hash.compare_function ≡ compare)
        × (n ≤ hash.n_buckets)
  unfolding hash_init content hash_value find
  hash_init-IsTable n iv hash_function compare keys pos small =
      let (e, size, enough, _) = adjust_power_of_2_lem n (omega arith) in
      let positive : ltb 0 n ≡ true = ground arith in
      let made : Hash K = record {
        n_buckets = power e;
        n_elements = 0;
        mask = power e - 1;
        iv = iv;
        hash_function = hash_function;
        compare_function = compare;
        buckets = replicate (power e) [];
      } in
      (
        made,
        rw (positive, size) refl,
        record {
          same = record {
            reflexive = keys.reflexive;
            symmetric = keys.symmetric;
            transitive = keys.transitive;
            respected = λ a b. keys.respected a b iv;
          };
          exponent = e;
          size = refl;
          mask_is = refl;
          full = length-replicate (power e) [];
          placed = empty-AllFor (keys_of made) 0 (power e);
          count = sym (ap length (empty-elements (power e)));
        },
        (λ k. ap (find (keys_of made) k) (empty-elements (power e))),
        refl,
        enough,
      )

  -- From `hash_init` on, with at most 2^30 buckets asked for, a comparison that is an equivalence
  -- and a hash function that respects it: no sequence of lookups, additions and removals fails an
  -- assertion or leaves the array of buckets, and each reply is that of a map from keys to values
  -- that starts empty, where an addition without `replace` keeps a value that is there. The table
  -- that is left is sound: the elements are counted, each is in its bucket, and no two have the same
  -- key.
  pub operate_all-Implements :
      (n iv : ℕ) (hash_function : K → ℕ → ℕ) (compare : K → K → Bool) (ops : List (Operation K))
      → AreKeyFunctions hash_function compare
      → 0 < n
      → n ≤ 2 ^ 30
      → (hash : Hash K) × (hash' : Hash K) × (hash_init n iv hash_function compare ≡ some hash)
        × (operate_all hash ops ≡ some (replies compare (λ k. none) ops, hash'))
        × IsTable hash'
  operate_all-Implements n iv hash_function compare ops keys pos small =
      let (hash, made, v, empty, functions, _) =
        hash_init-IsTable n iv hash_function compare keys pos small in
      let (hash', run, v') = operate_all-replies hash ops (λ k. none) v empty in
      (hash, hash', made, run ∙ ap (λ c. some (replies c (λ k. none) ops, hash')) functions, v')
