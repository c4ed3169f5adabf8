-- ===== src/Openvpn/Reliable/Receiver/Progress.antt =====
-- The packet in turn is never kept out of a receiver of the control channel
-- (vpn/openvpn-2.2.1/reliable.c, ssl.c).
use seguridad_en_redes.Base.{
  ℕ, suc, ◌+◌, ◌≤◌, ◌<◌, ◌≡◌, ◌^◌, refl, sym, ◌∙◌, ap, ◌⊎◌, Bool, true, false, ◌&&◌, not, inl, inr,
  List, [], ◌∷◌, ◌++◌, Option, none, some, length, ltb, leb, ◌==◌, Bytes, Bool-cases, Option-cases,
  ==_refl, arith,
}
use mathlib.Core.Path.{subst}
use seguridad_en_redes.Openvpn.Buffer.{Buffer, buf_size_max, htonl}
use seguridad_en_redes.Openvpn.Reliable.Entries.{Reliable}
use seguridad_en_redes.Openvpn.Reliable.Receiver.{
  Written, wrote, done, write_status, control_packet, deliver, p_ack_v1,
}
use seguridad_en_redes.Openvpn.Reliable.Receiver.Window.{pending, is_some}
use seguridad_en_redes.Openvpn.Reliable.Receiver.Inbox.{
  Inbox, accepts, accept, Implements, turn_status, turn_calls, after_turn,
}
use seguridad_en_redes.Openvpn.Reliable.Receiver.Arrival.{control_packet-Implements}
use seguridad_en_redes.Openvpn.Reliable.Receiver.Turn.{deliver-Implements}

-- An inbox that has been sent the packet in turn holds one, the new one or an earlier one.
accept-held :
    (inbox : Inbox) (content : Bytes)
    → 0 < inbox.size
    → let inbox' = accept inbox inbox.next content in
      (c : Bytes) × (inbox'.held inbox'.next ≡ some c) × (inbox'.next ≡ inbox.next)
accept-held inbox content low = elim (Bool-cases (accepts inbox inbox.next)) [
  | inl new ↦ rw new (content, rw (==_refl inbox.next) refl, refl)
  | inr kept ↦ rw kept (older (Option-cases (inbox.held inbox.next)) kept)
]
  where
    inside : (leb inbox.next inbox.next && ltb inbox.next (inbox.next + inbox.size)) ≡ true
    inside = ground arith

    by_held : Option Bytes → Bool
    by_held o =
        (leb inbox.next inbox.next && ltb inbox.next (inbox.next + inbox.size)) && not (is_some o)

    older :
        (inbox.held inbox.next ≡ none) ⊎ ((c : Bytes) × (inbox.held inbox.next ≡ some c))
        → accepts inbox inbox.next ≡ false
        → (c : Bytes) × (inbox.held inbox.next ≡ some c) × (inbox.next ≡ inbox.next)
    older (inl nothing) kept =
        let taken : by_held none ≡ false = ap by_held (sym nothing) ∙ kept in
        absurd (ground (arith, inside, taken))
    older (inr (c, e)) kept = (c, e, refl)

-- A TLS object that takes what it is given.
turn_status-done :
    (bio : Bytes → Written) (content : Bytes)
    → ((c : Bytes) → bio c ≡ wrote (length c))
    → turn_status bio (some content) ≡ some done
unfolding write_status
turn_status-done bio [] takes = refl
turn_status-done bio (b ∷ content) takes =
    rw (takes (b ∷ content), ==_refl (length (b ∷ content))) refl

-- For a receiver with at least one entry that implements an inbox, its ids below 2^31, however many
-- of its buffers are in use: when the packet in turn comes in, or comes in again, and the TLS object
-- then takes what it is given, the packet that is held under that id is given to it, if it is not
-- empty, and the receiver turns to the next id.
pub packet_in_turn-done :
    (volume max : ℕ) (rel : Reliable) (inbox : Inbox) (ack : List ℕ) (op offset room : ℕ)
    (content : Bytes) (bio : Bytes → Written)
    → Implements volume max rel inbox
    → 0 < inbox.size
    → rel.packet_id + length rel.array ≤ 2 ^ 31
    → (op == p_ack_v1) ≡ false
    → length content ≤ max
    → max < buf_size_max
    → ((c : Bytes) → bio c ≡ wrote (length c))
    → let packet : Buffer = record {
      offset = offset;
      content = htonl rel.packet_id ++ content;
      room = room;
    } in
      (rel₁ : Reliable) × (ack₁ : List ℕ) × (rel₂ : Reliable) × (c : Bytes) × (control_packet rel
          ack packet op
        ≡ some (rel₁, ack₁))
      × (pending rel₁.array rel.packet_id ≡ some c)
      × (deliver bio rel₁ ≡ some (some done, rel₂, turn_calls bio (some c)))
      × (rel₂.packet_id ≡ suc rel.packet_id)
packet_in_turn-done volume max rel inbox ack op offset room content bio m low near control small
      fits takes =
    let (rel₁, ack₁, e₁, m₁, _) =
      control_packet-Implements volume max rel inbox ack rel.packet_id op offset room content m near
        (omega (arith, m.next, m.size)) control small fits in
    let m₁' : Implements volume max rel₁ (accept inbox inbox.next content) =
      subst (λ id. Implements volume max rel₁ (accept inbox id content)) m.next m₁ in
    let (c, held, same) = accept-held inbox content low in
    let (rel₂, e₂, m₂) =
      deliver-Implements volume max rel₁ (accept inbox inbox.next content) bio m₁'
        (omega (arith, m₁'.next, same, m.next, m.size)) in
    let status = ap (turn_status bio) held ∙ turn_status-done bio c takes in
    let m₂' =
      subst (λ s. Implements volume max rel₂ (after_turn (accept inbox inbox.next content) s))
        status m₂ in
    (
      rel₁,
      ack₁,
      rel₂,
      c,
      e₁,
      m₁'.held rel.packet_id ∙ ap (accept inbox inbox.next content).held (m.next ∙ sym same) ∙ held,
      e₂
          ∙ ap
              (λ s. some (
                s,
                rel₂,
                turn_calls bio
                    ((accept inbox inbox.next content).held (accept inbox inbox.next content).next),
              ))
              status
          ∙ ap (λ o. some (some done, rel₂, turn_calls bio o)) held,
      m₂'.next ∙ ap suc (same ∙ sym m.next),
    )
