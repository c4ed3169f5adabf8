-- ===== src/Openvpn/Pool/Restored.antt =====
-- A pool's file after a restart (vpn/openvpn-2.2.1/pool.c).
use seguridad_en_redes.Base.{
  ℕ, suc, ◌+◌, ◌-◌, ◌*◌, ◌^◌, ◌≤◌, ◌<◌, ◌≡◌, ◌≢◌, refl, sym, ap, ◌∙◌, Bool, false, List, [], ◌∷◌,
  ◌++◌, Option, none, some, length, length-append, replicate, length-replicate, Bytes, arith,
}
use mathlib.Core.Path.{subst}
use seguridad_en_redes.Openvpn.Pool.{
  PoolType, net30, indiv, other_type, PoolEntry, IfconfigPool, blank_entry, ifconfig_pool_set,
  ifconfig_pool_handle_to_ip_base,
}
use seguridad_en_redes.Openvpn.Checked.{◌>>=◌}
use seguridad_en_redes.Openvpn.Pool.File.{list_from}
use seguridad_en_redes.Openvpn.Pool.Range.{stride, remote_place}
use seguridad_en_redes.Openvpn.Pool.Distinct.{first_remote, last_remote, SpansRange}
use seguridad_en_redes.Openvpn.Pool.Persist.{
  names, names-append, append-one, names-one, with_list, set-place,
}

-- Names are set at their addresses, one after the other.
unfoldable pub set_all : ℕ → Bool → List (Bytes × ℕ) → IfconfigPool → Option IfconfigPool
set_all now fixed [] pool = some pool
set_all now fixed (line ∷ lines) pool = do
  changed ← ifconfig_pool_set now pool line.0 line.1 fixed
  set_all now fixed lines changed

-- The entries from a place on are written, and the lines are read into a pool that is done up to
-- that place and blank behind it.
abbrev pub Restores :
    ℕ → Bool → IfconfigPool → List PoolEntry → List PoolEntry → List PoolEntry → ℕ → Type 0
Restores now fixed pool done blank entries i =
    (lines : List (Bytes × ℕ)) × (after : List PoolEntry) × (list_from pool entries i ≡ some lines)
    × (set_all now fixed lines (with_list pool (done ++ blank)) ≡ some (with_list pool after))
    × (names after ≡ names done ++ names entries)

-- A place is done.
next-Restores :
    (now : ℕ) (fixed : Bool) (pool : IfconfigPool) (done blank entries : List PoolEntry)
    (q : PoolEntry)
    → Restores now fixed pool (done ++ q ∷ []) blank entries (length (done ++ q ∷ []))
    → (lines : List (Bytes × ℕ)) × (after : List PoolEntry) × (list_from pool entries
          (suc (length done))
        ≡ some lines)
      × (set_all now fixed lines (with_list pool (done ++ q ∷ blank)) ≡ some (with_list pool after))
      × (names after ≡ names done ++ q.common_name ∷ names entries)
next-Restores now fixed pool done blank entries q (lines, after, out, back, same) =
    let place : length (done ++ q ∷ []) ≡ suc (length done) =
      omega (arith, length-append done (q ∷ [])) in
    (
      lines,
      after,
      ap (list_from pool entries) (sym place) ∙ out,
      ap (λ l. set_all now fixed lines (with_list pool l)) (sym (append-one done blank q)) ∙ back,
      same ∙ names-one done q (names entries),
    )

list_from-unnamed :
    (pool : IfconfigPool) (e : PoolEntry) (entries : List PoolEntry) (i : ℕ)
    → e.common_name ≡ none
    → list_from pool (e ∷ entries) i ≡ list_from pool entries (suc i)
unfolding list_from
list_from-unnamed pool e entries i h = rw (h, list_from) refl

list_from-named :
    (pool : IfconfigPool) (e : PoolEntry) (entries : List PoolEntry) (i ip : ℕ) (cn : Bytes)
    (lines : List (Bytes × ℕ))
    → e.common_name ≡ some cn
    → ifconfig_pool_handle_to_ip_base pool i ≡ some ip
    → list_from pool entries (suc i) ≡ some lines
    → list_from pool (e ∷ entries) i ≡ some ((cn, ip) ∷ lines)
unfolding list_from
list_from-named pool e entries i ip cn lines h there out = rw (h, list_from, there, out) refl

read-step :
    (now : ℕ) (fixed : Bool) (cn : Bytes) (ip : ℕ) (lines : List (Bytes × ℕ))
    (pool pool' pool'' : IfconfigPool)
    → ifconfig_pool_set now pool cn ip fixed ≡ some pool'
    → set_all now fixed lines pool' ≡ some pool''
    → set_all now fixed ((cn, ip) ∷ lines) pool ≡ some pool''
unfolding set_all
read-step now fixed cn ip lines pool pool' pool'' set_ back = rw (set_, set_all) back

pub entries-Restores :
    (now : ℕ) (fixed : Bool) (pool : IfconfigPool) (done entries : List PoolEntry)
    → pool.type_ ≢ other_type
    → pool.base + (length done + length entries) * stride pool.type_ ≤ 2 ^ 32
    → length done + length entries ≤ 2 ^ 30
    → Restores now fixed pool done (replicate (length entries) blank_entry) entries (length done)
unfolding list_from set_all
entries-Restores now fixed pool done [] known below few =
    ([], done ++ [], refl, refl, names-append done [])
entries-Restores now fixed pool done (e ∷ entries) known below few = by_name e.common_name refl λ q.
    let sum : length done + suc (length entries) ≡ length (done ++ q ∷ []) + length entries =
      omega (arith, length-append done (q ∷ [])) in
    next-Restores now fixed pool done (replicate (length entries) blank_entry) entries q (
      entries-Restores now fixed pool (done ++ q ∷ []) entries known
        (subst (λ n. pool.base + n * stride pool.type_ ≤ 2 ^ 32) sum below)
        (subst (λ n. n ≤ 2 ^ 30) sum few))
  where
    blank : List PoolEntry
    blank = replicate (length entries) blank_entry

    Rest : PoolEntry → Type 0
    Rest q =
        (lines : List (Bytes × ℕ)) × (after : List PoolEntry) × (list_from pool entries
            (suc (length done))
          ≡ some lines)
        × (set_all now fixed lines (with_list pool (done ++ q ∷ blank))
            ≡ some (with_list pool after))
        × (names after ≡ names done ++ q.common_name ∷ names entries)

    by_name :
        (name : Option Bytes)
        → e.common_name ≡ name
        → ((q : PoolEntry) → Rest q)
        → Restores now fixed pool done (blank_entry ∷ blank) (e ∷ entries) (length done)
    by_name none h rest =
        let (lines, after, out, back, same) = rest blank_entry in
        (
          lines,
          after,
          list_from-unnamed pool e entries (length done) h ∙ out,
          back,
          same ∙ ap (λ n. names done ++ n ∷ names entries) (sym h),
        )
    by_name (some cn) h rest =
        let total = length-append done (blank_entry ∷ blank) in
        let count = length-replicate (length entries) blank_entry in
        let sum : length done + suc (length entries) ≡ length (done ++ blank_entry ∷ blank) =
          omega (arith, total, count) in
        let (ip, there, put) =
          set-place now fixed pool done blank cn known
            (subst (λ n. pool.base + n * stride pool.type_ ≤ 2 ^ 32) sum below)
            (subst (λ n. n ≤ 2 ^ 30) sum few) in
        let entry : PoolEntry = record {
          in_use = false;
          common_name = some cn;
          last_release = now;
          fixed = fixed;
        } in
        let (lines, after, out, back, same) = rest entry in
        (
          (cn, ip) ∷ lines,
          after,
          list_from-named pool e entries (length done) ip cn lines h there out,
          read-step now fixed cn ip lines (with_list pool (done ++ blank_entry ∷ blank))
              (with_list pool (done ++ entry ∷ blank)) (with_list pool after) put back,
          same ∙ ap (λ n. names done ++ n ∷ names entries) (sym h),
        )

-- A pool's range is small.
pub few_entries :
    (start end_ : ℕ) (pool : IfconfigPool)
    → SpansRange start end_ pool
    → start ≤ end_
    → end_ - start < 65536
    → length pool.list ≤ 2 ^ 30
few_entries start end_ pool (below, first, last) low small = by_type pool.type_ first last
  where
    by_type :
        (t : PoolType)
        → first_remote t start ≤ pool.base + remote_place t
        → pool.base + length pool.list * stride t + remote_place t ≤ last_remote t end_ + stride t
        → length pool.list ≤ 2 ^ 30
    by_type net30 first last = omega arith
    by_type indiv first last = omega arith
    by_type other_type first last = omega arith
