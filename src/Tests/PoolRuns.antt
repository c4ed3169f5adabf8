-- ===== src/Tests/PoolRuns.antt =====
-- Runs of OpenVPN's pool of addresses.
use seguridad_en_redes.Base.{
  ℕ, ◌≡◌, ◌≢◌, refl, true, false, List, [], ◌∷◌, some, codes, arith, none,
}
use seguridad_en_redes.Openvpn.Pool.{
  net30, other_type, IfconfigPool, Address, ifconfig_pool_verify_range, ifconfig_pool_init,
}
use seguridad_en_redes.Openvpn.Pool.File.{Inet, IsInet, ifconfig_pool_list, ifconfig_pool_read}
use seguridad_en_redes.Base.{Option, ◌+◌, ◌-◌, ◌/◌, ◌%◌, ◌^◌}
use seguridad_en_redes.Openvpn.Pool.Lease.{Change, connect, disconnect, changes}
use seguridad_en_redes.Openvpn.Pool.Range.{AreApart, AreWithin}
use seguridad_en_redes.Openvpn.Pool.Distinct.{first_remote, last_remote, changes-AreApart}
use seguridad_en_redes.Openvpn.Pool.{ifconfig_pool_find}
use seguridad_en_redes.Openvpn.Pool.Choice.{IsChoice, ifconfig_pool_find-IsChoice}
use seguridad_en_redes.Openvpn.Pool.Persist.{names}
use seguridad_en_redes.Openvpn.Pool.Restart.{ifconfig_pool_read-ifconfig_pool_list}

-- Two clients connect, the second one goes, another connects, and the second one comes back.
abbrev comings : List Change
comings =
    connect (some (codes "ana"))
    ∷ connect (some (codes "luis"))
    ∷ disconnect 0 100 false
    ∷ connect (some (codes "eva"))
    ∷ connect (some (codes "luis"))
    ∷ []

-- The range from 10.8.0.4 to 10.8.0.19.
abbrev lowest : ℕ
lowest = 168296452

abbrev highest : ℕ
highest = 168296467

networks-known : net30 ≢ other_type
networks-known e = absurd (cc e)

verified : ifconfig_pool_verify_range lowest highest ≡ true
unfolding ifconfig_pool_verify_range
verified = refl

changes-AreApart_example :
    (pool : IfconfigPool) × (pool' : IfconfigPool) × (leases : List Address) × (ifconfig_pool_init
        net30 lowest highest false
      ≡ some pool)
    × (changes pool [] comings ≡ some (pool', leases))
    × AreApart leases
    × AreWithin (first_remote net30 lowest) (last_remote net30 highest) leases
changes-AreApart_example =
    changes-AreApart net30 lowest highest false comings networks-known (omega arith) (omega arith)
      verified

-- A stand-in for the text of an address: each byte is one character, and a dot stands between two.
abbrev short_inet : Inet
short_inet = record {
  inet_ntoa = λ addr.
      (addr / 2 ^ 24 % 2 ^ 8 + 48)
      ∷ 46
      ∷ (addr / 2 ^ 16 % 2 ^ 8 + 48)
      ∷ 46
      ∷ (addr / 2 ^ 8 % 2 ^ 8 + 48)
      ∷ 46
      ∷ (addr % 2 ^ 8 + 48)
      ∷ [];
  scan_quad = scanned_quad;
}
  where
    scanned_quad : List ℕ → Option (ℕ × ℕ × ℕ × ℕ)
    scanned_quad (a ∷ _ ∷ b ∷ _ ∷ c ∷ _ ∷ d ∷ []) = some (a - 48, b - 48, c - 48, d - 48)
    scanned_quad _ = none

short_inet-IsInet : IsInet short_inet
short_inet-IsInet = record {
  plain = λ addr. ground arith;
  short = λ addr. omega arith;
  scanned = λ addr small. same (omega arith) (omega arith) (omega arith) (omega arith);
}
  where
    same :
        {a b c d a' b' c' d' : ℕ}
        → a ≡ a'
        → b ≡ b'
        → c ≡ c'
        → d ≡ d'
        → ◌≡◌ {A = Option (ℕ × ℕ × ℕ × ℕ)} (some (a, b, c, d)) (some (a', b', c', d'))
    same e f g h = cc (e, f, g, h)

ifconfig_pool_read-ifconfig_pool_list_example :
    (first : IfconfigPool) × (pool : IfconfigPool) × (leases : List Address) × (file : List ℕ)
    × (restored : IfconfigPool) × (ifconfig_pool_init net30 lowest highest false ≡ some first)
    × (changes first [] comings ≡ some (pool, leases))
    × (ifconfig_pool_list short_inet pool ≡ some file)
    × (ifconfig_pool_read short_inet 200 true file first ≡ some restored)
    × (names restored.list ≡ names pool.list)
ifconfig_pool_read-ifconfig_pool_list_example =
    ifconfig_pool_read-ifconfig_pool_list short_inet net30 lowest highest 200 false true comings
      short_inet-IsInet
      (
        (refl, omega arith, refl),
        ((refl, omega arith, refl), ((refl, omega arith, refl), ((refl, omega arith, refl), tt))),
      )
      networks-known (omega arith) (omega arith) verified

-- The first entry is in use, the second was released last and had a client's name.
abbrev three_entries : IfconfigPool
three_entries = record {
  base = lowest;
  type_ = net30;
  duplicate_cn = false;
  list =
      record { in_use = true; common_name = none; last_release = 0; fixed = false }
      ∷ record { in_use = false; common_name = some (codes "ana"); last_release = 90; fixed = true }
      ∷ record { in_use = false; common_name = none; last_release = 80; fixed = false }
      ∷ [];
}

ifconfig_pool_find-IsChoice_example :
    IsChoice
      (some (codes "ana"))
      three_entries.list
      (ifconfig_pool_find three_entries (some (codes "ana")))
ifconfig_pool_find-IsChoice_example =
    ifconfig_pool_find-IsChoice three_entries (some (codes "ana")) refl
