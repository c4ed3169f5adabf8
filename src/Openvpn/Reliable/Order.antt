-- ===== src/Openvpn/Reliable/Order.antt =====
-- The order of packet ids in reliable.c is that of their distance modulo 2^32.
use seguridad_en_redes.Base.{ℕ, ◌+◌, ◌-◌, ◌%◌, ◌^◌, ◌<◌, ◌≡◌, ◌≢◌, not, ltb, arith}
use seguridad_en_redes.Openvpn.Reliable.{reliable_pid_in_range1, reliable_pid_min}

-- For ids of 32 bits and any extent, `reliable_pid_in_range1` holds exactly when the distance from
-- `base` up to `test`, modulo 2^32, is below the extent.
pub reliable_pid_in_range1_lem :
    (test base extent : ℕ)
    → test < 2 ^ 32
    → base < 2 ^ 32
    → reliable_pid_in_range1 test base extent ≡ ltb ((test + 2 ^ 32 - base) % 2 ^ 32) extent
unfolding reliable_pid_in_range1
reliable_pid_in_range1_lem test base extent h k = ground arith

-- Of two 32-bit ids that differ, and not by exactly 2^31, one is the smaller by
-- `reliable_pid_min`, and only one.
pub reliable_pid_min_lem :
    (p q : ℕ)
    → p < 2 ^ 32
    → q < 2 ^ 32
    → p ≢ q
    → (p + 2 ^ 31) % 2 ^ 32 ≢ q
    → reliable_pid_min p q ≡ not (reliable_pid_min q p)
unfolding reliable_pid_min reliable_pid_in_range1
reliable_pid_min_lem p q h k ne far = ground arith
