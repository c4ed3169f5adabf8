-- ===== src/Openvpn/PacketId/Exchange.antt =====
-- A sender and a receiver of packet ids together.
use seguridad_en_redes.Base.{
  ℕ, suc, ◌+◌, ◌^◌, ◌≤◌, ◌<◌, ◌%◌, ◌≡◌, ◌==◌, refl, sym, ap, ◌∙◌, inr, Bool, true, List, [], ◌∷◌,
  some, length, arith, if◌then◌else◌,
}
use mathlib.Core.Path.{subst}
use seguridad_en_redes.Openvpn.Checked.{◌>>=◌}
use seguridad_en_redes.Openvpn.PacketId.{PacketIdNet, PacketIdRec, packet_id_init}
use seguridad_en_redes.Openvpn.PacketId.Receive.{receive_all, AreWire}
use seguridad_en_redes.Openvpn.PacketId.Ordered.{AreOrdered, packets_of, receive_all-ordered}
use seguridad_en_redes.Openvpn.Buffer.{Buffer}
use seguridad_en_redes.Openvpn.PacketId.Wire.{packet_id_read, packet_id_write, packet_id_read-write}
use seguridad_en_redes.Openvpn.PacketId.Send.{PacketIdSend, alloc_all, alloc_outgoing-next}

-- Packets with their times of arrival.
abbrev pub arrive : List ℕ → List PacketIdNet → List (ℕ × PacketIdNet)
arrive [] pins = []
arrive (now ∷ clock) [] = []
arrive (now ∷ clock) (pin ∷ pins) = (now, pin) ∷ arrive clock pins

-- All the readings of a clock are above `n`.
abbrev pub AreAbove : ℕ → List ℕ → Type 0
AreAbove n [] = Unit
AreAbove n (now ∷ clock) = (n < now) × AreAbove n clock

-- A running series of packet ids.
abbrev AreSeries : ℕ → ℕ → List PacketIdNet → Type 0
AreSeries time id [] = Unit
AreSeries time id (pin ∷ pins) =
    (pin.time ≡ time) × (pin.id ≡ id + 1) × AreSeries time (id + 1) pins

-- The time of the series that the sender goes on with.
abbrev series_time : PacketIdSend → List ℕ → ℕ
series_time p [] = p.time
series_time p (now ∷ clock) = if p.time == 0 then now else p.time

alloc_all-AreSeries :
    (long_form : Bool) (clock : List ℕ) (p : PacketIdSend)
    → AreAbove 0 clock
    → p.id + length clock < 2 ^ 32
    → (p' : PacketIdSend) × (pins : List PacketIdNet) × (alloc_all long_form clock p
        ≡ some (p', pins))
      × AreSeries (series_time p clock) p.id pins
      × (length pins ≡ length clock)
unfolding alloc_all
alloc_all-AreSeries long_form [] p h room = (p, [], refl, tt, refl)
alloc_all-AreSeries long_form (now ∷ clock) p (pos, h) room =
    let (p', pins, runs, s, n) = alloc_all-AreSeries long_form clock next h (omega arith) in
    (
      p',
      record { id = p.id + 1; time = next.time } ∷ pins,
      rw (alloc_outgoing-next now p long_form (omega arith), runs) refl,
      (refl, refl, subst (λ t. AreSeries t (p.id + 1) pins) (same clock) s),
      ap suc n,
    )
  where
    next : PacketIdSend
    next = record { id = p.id + 1; time = if p.time == 0 then now else p.time }

    positive : 0 < next.time
    positive = ground arith

    same : (clock : List ℕ) → series_time next clock ≡ next.time
    same [] = refl
    same (n ∷ clock) = ground (arith, positive)

-- What arrives of a series is in order.
arrive-AreOrdered :
    (arrivals : List ℕ) (pins : List PacketIdNet) (time id : ℕ)
    → AreSeries time id pins
    → AreOrdered time id (arrive arrivals pins)
arrive-AreOrdered [] pins time id s = tt
arrive-AreOrdered (now ∷ arrivals) [] time id s = tt
arrive-AreOrdered (now ∷ arrivals) (pin ∷ pins) time id (et, ei, s) = (
  (omega arith, inr (sym et, omega arith)),
  arrive-AreOrdered arrivals pins pin.time pin.id (
      subst (λ t. AreSeries t pin.id pins) (sym et)
        (subst (λ n. AreSeries time n pins) (sym ei) s)),
)

arrive-AreWire :
    (arrivals : List ℕ) (pins : List PacketIdNet) (time id : ℕ)
    → AreAbove 1 arrivals
    → AreSeries time id pins
    → id + length pins < 2 ^ 32
    → AreWire (arrive arrivals pins)
arrive-AreWire [] pins time id h s room = tt
arrive-AreWire (now ∷ arrivals) [] time id h s room = tt
arrive-AreWire (now ∷ arrivals) (pin ∷ pins) time id (late, h) (et, ei, s) room =
    (late, omega arith, arrive-AreWire arrivals pins time (id + 1) h s (omega arith))

arrive-packets_of :
    (arrivals : List ℕ) (pins : List PacketIdNet)
    → length pins ≡ length arrivals
    → packets_of (arrive arrivals pins) ≡ pins
arrive-packets_of [] [] h = refl
arrive-packets_of [] (pin ∷ pins) h = absurd (omega arith)
arrive-packets_of (now ∷ arrivals) [] h = refl
arrive-packets_of (now ∷ arrivals) (pin ∷ pins) h =
    ap (◌∷◌ pin) (arrive-packets_of arrivals pins (omega arith))

-- What arrives of a packet id that is written in front of the payload of `buf` and read back.
unfoldable pub carry : Buffer → Bool → PacketIdNet → PacketIdNet
carry buf long_form pin = (packet_id_read (packet_id_write pin buf long_form true).1 long_form).1

abbrev pub carry_all : Buffer → Bool → List PacketIdNet → List PacketIdNet
carry_all buf long_form [] = []
carry_all buf long_form (pin ∷ pins) = carry buf long_form pin ∷ carry_all buf long_form pins

abbrev carried_time : Bool → ℕ → ℕ
carried_time long_form time = if long_form then time % 2 ^ 32 else 0

carry_lem :
    (buf : Buffer) (long_form : Bool) (pin : PacketIdNet)
    → 8 ≤ buf.offset
    → pin.id < 2 ^ 32
    → carry buf long_form pin ≡ record { id = pin.id; time = carried_time long_form pin.time }
unfolding carry
carry_lem buf long_form pin space small =
    let (buf', wrote_, _, read_) = packet_id_read-write pin buf long_form small space in
    ap (λ (r : Bool × Buffer). (packet_id_read r.1 long_form).1) wrote_
    ∙ ap (λ (r : Bool × PacketIdNet × Buffer). r.1) read_

carry_all-AreSeries :
    (buf : Buffer) (long_form : Bool) (time id : ℕ) (pins : List PacketIdNet)
    → 8 ≤ buf.offset
    → id + length pins < 2 ^ 32
    → AreSeries time id pins
    → AreSeries (carried_time long_form time) id (carry_all buf long_form pins)
carry_all-AreSeries buf long_form time id [] space room s = tt
carry_all-AreSeries buf long_form time id (pin ∷ pins) space room (et, ei, s) =
    let e = carry_lem buf long_form pin space (omega arith) in
    (
      ap (λ (p : PacketIdNet). p.time) e ∙ ap (carried_time long_form) et,
      ap (λ (p : PacketIdNet). p.id) e ∙ ei,
      carry_all-AreSeries buf long_form time (id + 1) pins space (omega arith) s,
    )

length-carry_all :
    (buf : Buffer) (long_form : Bool) (pins : List PacketIdNet)
    → length (carry_all buf long_form pins) ≡ length pins
length-carry_all buf long_form [] = refl
length-carry_all buf long_form (pin ∷ pins) = ap suc (length-carry_all buf long_form pins)

series-AreOrdered :
    (arrivals : List ℕ) (time : ℕ) (pins : List PacketIdNet)
    → AreSeries time 0 pins
    → AreOrdered 0 0 (arrive arrivals pins)
series-AreOrdered [] time pins s = tt
series-AreOrdered (now ∷ arrivals) time [] s = tt
series-AreOrdered (now ∷ arrivals) time (pin ∷ pins) s =
    let rest = arrive-AreOrdered (now ∷ arrivals) (pin ∷ pins) time 0 s in
    (ground (arith, rest.0), rest.1)

-- A new sender that allocates fewer than 2^32 packet ids, at any times after the epoch, and writes
-- each, in the long or the short form, in front of a payload with 8 bytes free there; and a receiver
-- set up with a window and the bounds of `packet_id_init`, which reads them from there, in order,
-- after the first second: every packet id is allocated, and every one is accepted as it was read.
pub alloc_all-accepted :
    (buf : Buffer) (long_form : Bool) (seq_backtrack time_backtrack : ℕ) (clock arrivals : List ℕ)
    → 8 ≤ buf.offset
    → 0 < seq_backtrack
    → seq_backtrack ≤ 65536
    → time_backtrack ≤ 600
    → AreAbove 0 clock
    → AreAbove 1 arrivals
    → length arrivals ≡ length clock
    → length clock < 2 ^ 32
    → (p : PacketIdSend) × (q : PacketIdRec) × (pins : List PacketIdNet) × (alloc_all long_form
          clock
          (record { id = 0; time = 0 })
        ≡ some (p, pins))
      × (length pins ≡ length clock)
      × ((packet_id_init seq_backtrack time_backtrack
            >>= receive_all (arrive arrivals (carry_all buf long_form pins)))
          ≡ some (q, carry_all buf long_form pins))
alloc_all-accepted buf long_form sb tb clock arrivals space pos le le' sent late same room =
    let (p, pins, runs, s, n) =
      alloc_all-AreSeries long_form clock (record { id = 0; time = 0 }) sent (omega arith) in
    let time = series_time (record { id = 0; time = 0 }) clock in
    let read_ = carry_all buf long_form pins in
    let series = carry_all-AreSeries buf long_form time 0 pins space (omega (arith, n)) s in
    let count = length-carry_all buf long_form pins in
    let (q, accepted) =
      receive_all-ordered sb tb (arrive arrivals read_) pos le le'
        (arrive-AreWire arrivals read_ (carried_time long_form time) 0 late series
          (omega (arith, count, n)))
        (series-AreOrdered arrivals (carried_time long_form time) read_ series) in
    (
      p,
      q,
      pins,
      runs,
      n,
      accepted ∙ ap (λ x. some (q, x)) (arrive-packets_of arrivals read_ (omega (arith, count, n))),
    )
