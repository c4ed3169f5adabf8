-- ===== src/Openvpn/PacketId/Send.antt =====
-- The sending half of vpn/openvpn-2.2.1/packet_id.h. `now` is a parameter.
use seguridad_en_redes.Base.{
  ℕ, ◌+◌, ◌-◌, ◌%◌, ◌^◌, ◌<◌, ◌≡◌, ◌==◌, ◌⊎◌, refl, inl, inr, Bool, true, false, List, [], ◌∷◌,
  Option, some, leb, ltb, Bool-cases, if◌then◌else◌, arith,
}
use seguridad_en_redes.Openvpn.Checked.{◌>>=◌, ◌>>◌, assert}
use seguridad_en_redes.Openvpn.PacketId.{PacketIdNet}

-- `PACKET_ID_WRAP_TRIGGER`
abbrev pub packet_id_wrap_trigger : ℕ
packet_id_wrap_trigger = 0xff000000

-- `struct packet_id_send`
pub record PacketIdSend : Type 0 where
  pub id : ℕ
  pub time : ℕ

-- `packet_id_close_to_wrapping`
unfoldable pub packet_id_close_to_wrapping : PacketIdSend → Bool
packet_id_close_to_wrapping p = leb packet_id_wrap_trigger p.id

-- `packet_id_alloc_outgoing`: the state and the packet id.
unfoldable pub packet_id_alloc_outgoing :
    ℕ → PacketIdSend → Bool → Option (PacketIdSend × PacketIdNet)
packet_id_alloc_outgoing now p long_form =
    let time = if p.time == 0 then now else p.time in
    let id = (p.id + 1) % 2 ^ 32 in
    if id == 0
    then (do assert long_form; some (record { id = 1; time = now }, record { id = 1; time = now }))
    else some (record { id = id; time = time }, record { id = id; time = time })

-- `check_timestamp_delta`; the difference is an `unsigned int`.
unfoldable pub check_timestamp_delta : ℕ → ℕ → ℕ → Bool
check_timestamp_delta now remote max_delta =
    let abs = (if leb remote now then now - remote else remote - now) % 2 ^ 32 in leb abs max_delta

-- One packet id after the other, at the given times.
unfoldable pub alloc_all : Bool → List ℕ → PacketIdSend → Option (PacketIdSend × List PacketIdNet)
alloc_all long_form [] p = some (p, [])
alloc_all long_form (now ∷ clock) p = do
  given ← packet_id_alloc_outgoing now p long_form
  rest ← alloc_all long_form clock given.0
  some (rest.0, given.1 ∷ rest.1)

-- The sender holds a number of 32 bits, and a time if it has sent anything.
pub record IsSender (p : PacketIdSend) : Type 0 where
  pub word : p.id < 2 ^ 32
  pub dated : (p.id ≡ 0) ⊎ (0 < p.time)

-- A sender that has not used up its numbers gives the next number with the time of its series.
pub alloc_outgoing-next :
    (now : ℕ) (p : PacketIdSend) (long_form : Bool)
    → p.id + 1 < 2 ^ 32
    → let time = if p.time == 0 then now else p.time in
      packet_id_alloc_outgoing now p long_form
      ≡ some (record { id = p.id + 1; time = time }, record { id = p.id + 1; time = time })
unfolding packet_id_alloc_outgoing
alloc_outgoing-next now p long_form h = rw (same, nonzero) refl
  where
    same : (p.id + 1) % 2 ^ 32 ≡ p.id + 1
    same = omega arith

    nonzero : (p.id + 1 == 0) ≡ false
    nonzero = ground arith

-- When a sender with timestamps whose numbers are used up allocates at a later time than that of
-- its series, or one with numbers left allocates at any time after the epoch, the packet id is not
-- 0, has 32 bits and comes after the last one in time or, at the same time, in number; and the
-- sender's state is that packet id.
pub alloc_outgoing-after :
    (now : ℕ) (p : PacketIdSend)
    → IsSender p
    → 0 < now
    → (p.id + 1 < 2 ^ 32) ⊎ (p.time < now)
    → (p' : PacketIdSend) × (pin : PacketIdNet) × (packet_id_alloc_outgoing now p true
        ≡ some (p', pin))
      × (p'.id ≡ pin.id)
      × (p'.time ≡ pin.time)
      × (0 < pin.id)
      × (pin.id < 2 ^ 32)
      × ((p.time < pin.time) ⊎ (p.time ≡ pin.time) × (p.id < pin.id))
unfolding packet_id_alloc_outgoing
alloc_outgoing-after now p s pos room = elim (Bool-cases (ltb (p.id + 1) (2 ^ 32))) [
  | inl h ↦ (
    record { id = p.id + 1; time = if p.time == 0 then now else p.time },
    record { id = p.id + 1; time = if p.time == 0 then now else p.time },
    alloc_outgoing-next now p true (ground arith),
    refl,
    refl,
    omega arith,
    ground arith,
    ground arith,
  )
  | inr h ↦ (
    record { id = 1; time = now },
    record { id = 1; time = now },
    rw (wrapped h) refl,
    refl,
    refl,
    omega arith,
    omega arith,
    inl (ground arith),
  )
]
  where
    wrapped : ltb (p.id + 1) (2 ^ 32) ≡ false → ((p.id + 1) % 2 ^ 32 == 0) ≡ true
    wrapped h = ground (arith, s.word)
