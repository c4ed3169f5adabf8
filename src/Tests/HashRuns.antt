-- ===== src/Tests/HashRuns.antt =====
-- Runs of OpenVPN's hash table.
use seguridad_en_redes.Base.{
  ℕ, ◌+◌, ◌%◌, ◌^◌, ◌≡◌, ap, true, false, List, [], ◌∷◌, none, some, ◌==◌, arith,
}
use seguridad_en_redes.Openvpn.Hash.{Hash, hash_init}
use seguridad_en_redes.Openvpn.Hash.Table.{IsTable}
use seguridad_en_redes.Openvpn.Hash.Runs.{
  Operation, lookup, add, remove, AreKeyFunctions, operate_all, replies, operate_all-Implements,
}

abbrev by_number : ℕ → ℕ → ℕ
by_number key iv = (key + iv) % 2 ^ 32

numbers : AreKeyFunctions by_number (λ a b. a == b)
numbers = record {
  reflexive = λ a. ground arith;
  symmetric = λ a b. ground arith;
  transitive = λ a b c h k. ground (arith, h, k);
  respected = λ a b iv h. let e : a ≡ b = ground (arith, h) in ap (λ n. by_number n iv) e;
}

-- Two keys of one bucket, of which one is removed.
abbrev some_operations : List (Operation ℕ)
some_operations =
    add 1 10 false
    ∷ add 5 50 false
    ∷ add 1 11 false
    ∷ lookup 1
    ∷ add 1 12 true
    ∷ lookup 1
    ∷ remove 5
    ∷ lookup 5
    ∷ remove 5
    ∷ []

operate_all-Implements_example :
    (hash : Hash ℕ) × (hash' : Hash ℕ) × (hash_init 3 7 by_number (λ a b. a == b) ≡ some hash)
    × (operate_all hash some_operations
        ≡ some (replies (λ a b. a == b) (λ k. none) some_operations, hash'))
    × IsTable hash'
operate_all-Implements_example =
    operate_all-Implements 3 7 by_number (λ a b. a == b) some_operations numbers (omega arith)
      (omega arith)
