-- ===== src/Openvpn/PacketId/Receive.antt =====
-- The replay check of a received packet, in `openvpn_decrypt` of vpn/openvpn-2.2.1/crypto.c, over a
-- run of packets, and what a mode of the check must promise for it.
use seguridad_en_redes.Base.{
  ℕ, ◌^◌, ◌<◌, ◌≡◌, ◌≢◌, ◌⊎◌, refl, inl, inr, Bool, true, false, List, [], ◌∷◌, Option, some,
  if◌then◌else◌,
}
use seguridad_en_redes.Openvpn.Checked.{◌>>=◌}
use seguridad_en_redes.Openvpn.PacketId.{
  PacketIdNet, PacketIdRec, packet_id_reap_test, packet_id_test, packet_id_add,
}

-- The statements of `openvpn_decrypt` on a packet's number, without those on a persistence file:
-- the state after it and whether the packet is accepted.
unfoldable pub receive : ℕ → PacketIdRec → PacketIdNet → Option (PacketIdRec × Bool)
receive now p pin = do
  swept ← packet_id_reap_test now p
  fresh ← packet_id_test swept pin
  if fresh
      then (do added ← packet_id_add now swept pin; some (added, true))
      else some (swept, false)

-- Packets with the times at which they arrive, one after the other: the state at the end, and the
-- packets accepted.
unfoldable pub receive_all :
    List (ℕ × PacketIdNet) → PacketIdRec → Option (PacketIdRec × List PacketIdNet)
receive_all [] p = some (p, [])
receive_all ((now, pin) ∷ packets) p = do
  done ← receive now p pin
  rest ← receive_all packets done.0
  some (rest.0, if done.1 then pin ∷ rest.1 else rest.1)

-- A list without `q`, and one without repetitions.
abbrev pub Avoids : PacketIdNet → List PacketIdNet → Type 0
Avoids q [] = Unit
Avoids q (x ∷ xs) = (q ≢ x) × Avoids q xs

abbrev pub IsDistinct : List PacketIdNet → Type 0
IsDistinct [] = Unit
IsDistinct (x ∷ xs) = Avoids x xs × IsDistinct xs

-- The clock is past the two special values, and the numbers have 32 bits.
abbrev pub AreWire : List (ℕ × PacketIdNet) → Type 0
AreWire [] = Unit
AreWire ((now, pin) ∷ packets) = (1 < now) × (pin.id < 2 ^ 32) × AreWire packets

-- A mode of the check: the states of a receiver in it, the packets that a state refuses for good,
-- and the laws of the three operations. None of them fails an assertion.
pub record Guard : Type 1 where
  pub State : Type 0
  pub at : State → PacketIdRec
  pub Blocks : State → PacketIdNet → Type 0
  pub refused : (s : State) (q : PacketIdNet) → Blocks s q → packet_id_test (at s) q ≡ some false
  pub answers :
      (s : State) (q : PacketIdNet)
      → (packet_id_test (at s) q ≡ some true) ⊎ (packet_id_test (at s) q ≡ some false)
  pub sweeps :
      (now : ℕ) (s : State)
      → (s' : State) × (packet_id_reap_test now (at s) ≡ some (at s'))
        × ((q : PacketIdNet) → Blocks s q → Blocks s' q)
  pub adds :
      (now : ℕ) (s : State) (pin : PacketIdNet)
      → packet_id_test (at s) pin ≡ some true
      → 1 < now
      → pin.id < 2 ^ 32
      → (s' : State) × (packet_id_add now (at s) pin ≡ some (at s'))
        × Blocks s' pin
        × ((q : PacketIdNet) → Blocks s q → Blocks s' q)

module _ (G : Guard) where
  -- How a run ends: no packet is accepted twice, and none that was refused for good.
  pub record Clean (s : G.State) (accepted : List PacketIdNet) : Type 0 where
    pub distinct : IsDistinct accepted
    pub avoids : (q : PacketIdNet) → G.Blocks s q → Avoids q accepted

  Clean-added :
      (s s' : G.State) (pin : PacketIdNet) (acc : List PacketIdNet)
      → packet_id_test (G.at s) pin ≡ some true
      → G.Blocks s' pin
      → ((q : PacketIdNet) → G.Blocks s q → G.Blocks s' q)
      → Clean s' acc
      → Clean s (pin ∷ acc)
  Clean-added s s' pin acc fresh here kept c = record {
    distinct = (c.avoids pin here, c.distinct);
    avoids = λ q b. (differs q (G.refused s q b), c.avoids q (kept q b));
  }
    where
      differs : (q : PacketIdNet) → packet_id_test (G.at s) q ≡ some false → q ≢ pin
      differs q e same = cc (e, fresh, same)

  -- A run ends without a failed assertion.
  pub receive_all-Clean :
      (packets : List (ℕ × PacketIdNet)) (s : G.State)
      → AreWire packets
      → (p' : PacketIdRec) × (acc : List PacketIdNet) × (receive_all packets (G.at s)
          ≡ some (p', acc))
        × Clean s acc
  unfolding receive receive_all
  receive_all-Clean [] s h = (G.at s, [], refl, record { distinct = tt; avoids = λ q b. tt })
  receive_all-Clean ((now, pin) ∷ packets) s (clock, word, h) =
      let (m, swept, kept) = G.sweeps now s in
      elim (G.answers m pin) [
        | inl fresh ↦
            let (n, added, here, kept') = G.adds now m pin fresh clock word in
            let (p', acc, runs, c) = receive_all-Clean packets n h in
            let c' = Clean-added m n pin acc fresh here kept' c in
            (
              p',
              pin ∷ acc,
              rw (swept, fresh, added, runs) refl,
              record { distinct = c'.distinct; avoids = λ q b. c'.avoids q (kept q b) },
            )
        | inr stale ↦
            let (p', acc, runs, c) = receive_all-Clean packets m h in
            (
              p',
              acc,
              rw (swept, stale, runs) refl,
              record { distinct = c.distinct; avoids = λ q b. c.avoids q (kept q b) },
            )
      ]
