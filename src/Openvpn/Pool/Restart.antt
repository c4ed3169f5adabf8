-- ===== src/Openvpn/Pool/Restart.antt =====
-- A server's restart with its pool's file (vpn/openvpn-2.2.1/pool.c).
use seguridad_en_redes.Base.{
  ℕ, suc, ◌+◌, ◌*◌, ◌%◌, ◌^◌, ◌≤◌, ◌<◌, ◌≡◌, ◌≢◌, refl, sym, ap, ◌∙◌, Bool, true, List, [], ◌∷◌,
  Option, none, some, length, replicate, Bytes, arith,
}
use mathlib.Core.Path.{subst}
use seguridad_en_redes.Openvpn.Checked.{◌>>=◌}
use seguridad_en_redes.Openvpn.Pool.{
  PoolType, net30, indiv, other_type, PoolEntry, IfconfigPool, Address, blank_entry,
  ifconfig_pool_verify_range, ifconfig_pool_init, ifconfig_pool_handle_to_ip_base,
}
use seguridad_en_redes.Openvpn.Pool.File.{
  Inet, IsInet, list_from, print_lines, ifconfig_pool_list, ifconfig_pool_read,
}
use seguridad_en_redes.Openvpn.Pool.Lines.{read_lines-print, length-print_lines}
use seguridad_en_redes.Openvpn.Pool.Plain.{
  HavePlainNames, ArePlain, blank-ArePlain, changes-ArePlain, list_from-AreLines,
}
use seguridad_en_redes.Openvpn.Pool.Lease.{Change, changes}
use seguridad_en_redes.Openvpn.Pool.Changes.{IsSamePool, changes-Keeps}
use seguridad_en_redes.Openvpn.Pool.Range.{stride}
use seguridad_en_redes.Openvpn.Pool.Distinct.{init-SpansRange, verified-IsSmall}
use seguridad_en_redes.Openvpn.Pool.Persist.{names, with_list}
use seguridad_en_redes.Openvpn.Pool.Restored.{set_all, entries-Restores, few_entries}

-- The lines do not depend on the entries of the pool itself.
list_from-pool :
    (pool pool' : IfconfigPool) (entries : List PoolEntry) (i : ℕ)
    → pool'.base ≡ pool.base
    → pool'.type_ ≡ pool.type_
    → list_from pool' entries i ≡ list_from pool entries i
unfolding list_from ifconfig_pool_handle_to_ip_base
list_from-pool pool pool' [] i base kind = refl
list_from-pool pool pool' (e ∷ entries) i base kind =
    by_name e.common_name (list_from-pool pool pool' entries (suc i) base kind)
  where
    address : ℕ → PoolType → Option ℕ
    address b t = elim t [
      | net30 ↦ some ((b + i * 4) % 2 ^ 32)
      | indiv ↦ some ((b + i) % 2 ^ 32)
      | other_type ↦ none
    ]

    ip : ifconfig_pool_handle_to_ip_base pool' i ≡ ifconfig_pool_handle_to_ip_base pool i
    ip = ap (address pool'.base) kind ∙ ap (λ b. address b pool.type_) base

    line : Option Bytes → Option (List (Bytes × ℕ)) → Option ℕ → Option (List (Bytes × ℕ))
    line name after ip' = elim name [
      | none ↦ after
      | some cn ↦ ip' >>= λ a. after >>= λ lines. some ((cn, a) ∷ lines)
    ]

    by_name :
        (name : Option Bytes)
        → list_from pool' entries (suc i) ≡ list_from pool entries (suc i)
        → line name (list_from pool' entries (suc i)) (ifconfig_pool_handle_to_ip_base pool' i)
          ≡ line name (list_from pool entries (suc i)) (ifconfig_pool_handle_to_ip_base pool i)
    by_name name rest =
        ap (λ after. line name after (ifconfig_pool_handle_to_ip_base pool' i)) rest
        ∙ ap (line name (list_from pool entries (suc i))) ip

-- What is written of a pool is read into a blank one of the same range.
restore :
    (inet : Inet) (now : ℕ) (fixed : Bool) (first pool : IfconfigPool)
    → IsInet inet
    → ArePlain pool.list
    → first.type_ ≢ other_type
    → first.base + length first.list * stride first.type_ ≤ 2 ^ 32
    → length first.list ≤ 2 ^ 30
    → first.list ≡ replicate (length first.list) blank_entry
    → IsSamePool first pool
    → (file : Bytes) × (after : List PoolEntry) × (ifconfig_pool_list inet pool ≡ some file)
      × (ifconfig_pool_read inet now fixed file first ≡ some (with_list first after))
      × (names after ≡ names pool.list)
unfolding ifconfig_pool_list ifconfig_pool_read
restore inet now fixed first pool lawful plain known below few blank (base, kind, size) =
    let count : length first.list ≡ 0 + length pool.list = omega (arith, size) in
    let (lines, after, out, back, same) =
      entries-Restores now fixed first [] pool.list known
        (subst (λ n. first.base + n * stride first.type_ ≤ 2 ^ 32) count below)
        (subst (λ n. n ≤ 2 ^ 30) count few) in
    let clear : replicate (length pool.list) blank_entry ≡ first.list =
      ap (λ n. replicate n blank_entry) size ∙ sym blank in
    let listed = list_from-pool first pool pool.list 0 base kind ∙ out in
    let good = list_from-AreLines pool pool.list 0 lines plain listed in
    let file = print_lines inet lines in
    (
      file,
      after,
      rw listed refl,
      read_lines-print inet now fixed lines (suc (length file)) first lawful good
            (omega (arith, length-print_lines inet lines lawful good))
          ∙ sym (ap (λ l. set_all now fixed lines (with_list first l)) clear)
          ∙ back,
      same,
    )

-- A server's pool after clients have come and gone, whose names fit a field of a line and neither
-- begin like a comment nor hold a comma or the end of a line, is written to its file; and the server
-- starts again with the same options and reads the file: no assertion fails, the file's lines are
-- read to their end, and the new pool has, for every handle, the client's name that the old pool had
-- for it, or none if it had none.
pub ifconfig_pool_read-ifconfig_pool_list :
    (inet : Inet) (type_ : PoolType) (start end_ now : ℕ) (dup fixed : Bool) (cs : List Change)
    → IsInet inet
    → HavePlainNames cs
    → type_ ≢ other_type
    → start < 2 ^ 32
    → end_ < 2 ^ 32
    → ifconfig_pool_verify_range start end_ ≡ true
    → (first : IfconfigPool) × (pool : IfconfigPool) × (leases : List Address) × (file : Bytes)
      × (restored : IfconfigPool) × (ifconfig_pool_init type_ start end_ dup ≡ some first)
      × (changes first [] cs ≡ some (pool, leases))
      × (ifconfig_pool_list inet pool ≡ some file)
      × (ifconfig_pool_read inet now fixed file first ≡ some restored)
      × (names restored.list ≡ names pool.list)
ifconfig_pool_read-ifconfig_pool_list inet type_ start end_ now dup fixed cs lawful named known s32
      e32 verified =
    let (low, small) = verified-IsSmall start end_ s32 e32 verified in
    let (first, made, spans, empty, same, blank) =
      init-SpansRange type_ start end_ dup known low e32 small in
    let known' : first.type_ ≢ other_type = λ other. known (sym same ∙ other) in
    let (pool, leases, run, leased, alike) = changes-Keeps first [] cs known' empty in
    let few = few_entries start end_ first spans low small in
    let clear = subst ArePlain (sym blank) (blank-ArePlain (length first.list)) in
    let plain = changes-ArePlain first pool [] leases cs clear named run in
    let (file, after, out, back, names_) =
      restore inet now fixed first pool lawful plain known' (spans.0) few blank alike in
    (first, pool, leases, file, with_list first after, made, run, out, back, names_)
