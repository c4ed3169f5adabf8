-- ===== src/Openvpn/Reliable/Acks.antt =====
-- The records of acknowledged packets of reliable.c are sets of at most eight ids.
use seguridad_en_redes.Base.{
  ℕ, ◌≤◌, ◌<◌, ◌≡◌, ◌==◌, refl, inl, inr, ◌∙◌, true, false, not, ◌&&◌, ◌||◌, List, [], ◌∷◌, ◌++◌,
  length, length-append, ltb, Bool-cases, arith,
}
use seguridad_en_redes.Openvpn.Reliable.{
  reliable_ack_packet_id_present, reliable_ack_acknowledge_packet_id,
}

-- No id stands twice.
abbrev pub HasNoRepeats : List ℕ → Type 0
HasNoRepeats [] = Unit
HasNoRepeats (p ∷ ack) = (reliable_ack_packet_id_present ack p ≡ false) × HasNoRepeats ack

present-append :
    (ack : List ℕ) (p q : ℕ)
    → reliable_ack_packet_id_present (ack ++ (q ∷ [])) p
      ≡ reliable_ack_packet_id_present ack p || (q == p)
unfolding reliable_ack_packet_id_present
present-append [] p q = ground arith
present-append (x ∷ ack) p q = ground (arith, present-append ack p q)

append-HasNoRepeats :
    (ack : List ℕ) (pid : ℕ)
    → HasNoRepeats ack
    → reliable_ack_packet_id_present ack pid ≡ false
    → HasNoRepeats (ack ++ (pid ∷ []))
unfolding reliable_ack_packet_id_present
append-HasNoRepeats [] pid s h = (refl, tt)
append-HasNoRepeats (x ∷ ack) pid s h =
    (present-append ack x pid ∙ ground (arith, s.0), append-HasNoRepeats ack pid s.1 (ground arith))

-- On a record of at most eight different ids, acknowledging an id leaves such a record, and it
-- succeeds exactly if the id was not there and there was room; the id is then there.
pub acknowledge-HasNoRepeats :
    (ack : List ℕ) (pid : ℕ)
    → HasNoRepeats ack
    → length ack ≤ 8
    → let r = reliable_ack_acknowledge_packet_id ack pid in
      HasNoRepeats r.1
      × (length r.1 ≤ 8)
      × (r.0 ≡ (not (reliable_ack_packet_id_present ack pid) && ltb (length ack) 8))
      × ((r.0 || reliable_ack_packet_id_present ack pid) ≡ reliable_ack_packet_id_present r.1 pid)
unfolding reliable_ack_acknowledge_packet_id
acknowledge-HasNoRepeats ack pid s le =
    elim (Bool-cases (not (reliable_ack_packet_id_present ack pid) && ltb (length ack) 8)) [
      | inl h ↦ rw h (
        append-HasNoRepeats ack pid s (ground arith),
        omega (arith, length-append ack (pid ∷ []), room h),
        refl,
        ground (arith, present-append ack pid pid),
      )
      | inr h ↦ rw h (s, le, refl, refl)
    ]
  where
    room :
        (not (reliable_ack_packet_id_present ack pid) && ltb (length ack) 8) ≡ true → length ack < 8
    room h = ground arith
