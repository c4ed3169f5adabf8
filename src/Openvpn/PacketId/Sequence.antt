-- ===== src/Openvpn/PacketId/Sequence.antt =====
-- The check of received packets without backtracking: no packet is accepted twice.
use seguridad_en_redes.Base.{
  ℕ, ◌+◌, ◌^◌, ◌≤◌, ◌<◌, ◌≡◌, ◌==◌, ◌⊎◌, ◌&&◌, ap, ◌∙◌, sym, refl, inl, inr, Bool, true, false, not,
  List, Option, none, some, leb, Bool-cases, arith,
}
use seguridad_en_redes.Openvpn.Checked.{◌>>=◌}
use seguridad_en_redes.Openvpn.CircList.{CircList}
use seguridad_en_redes.Openvpn.PacketId.{
  PacketIdNet, PacketIdRec, packet_id_init, packet_id_test, packet_id_add, packet_id_reap,
  packet_id_reap_test, reaped, sequence_test, with_window, seq_reap_interval, add_to_list,
}
use seguridad_en_redes.Openvpn.PacketId.Receive.{
  receive_all, IsDistinct, AreWire, Guard, receive_all-Clean,
}

-- The state without backtracking.
record IsSequence (p : PacketIdRec) : Type 0 where
  pub ready : p.initialized ≡ true
  pub mode : p.seq_backtrack ≡ 0
  pub no_sweep : p.time_backtrack ≡ 0
  pub no_list : p.seq_list ≡ none
  pub word : p.id < 2 ^ 32

abbrev Past : PacketIdRec → PacketIdNet → Type 0
Past p q = (q.id ≡ 0) ⊎ (q.time < p.time) ⊎ ((q.time ≡ p.time) × (q.id ≤ p.id) × (0 < p.id))

test_lem :
    (p : PacketIdRec) (q : PacketIdNet)
    → IsSequence p
    → packet_id_test p q ≡ some (not (q.id == 0) && sequence_test p q)
unfolding packet_id_test
test_lem p q w =
    rw (w.ready, w.mode) (elim (Bool-cases (q.id == 0)) [ inl h ↦ rw h refl | inr h ↦ rw h refl ])

Past-refused :
    (p : PacketIdRec) (q : PacketIdNet) → IsSequence p → Past p q → packet_id_test p q ≡ some false
unfolding sequence_test
Past-refused p q w past = test_lem p q w ∙ ap some (ground (arith, past, w.word))

answers :
    (p : PacketIdRec) (q : PacketIdNet)
    → IsSequence p
    → (packet_id_test p q ≡ some true) ⊎ (packet_id_test p q ≡ some false)
answers p q w = elim (Bool-cases (not (q.id == 0) && sequence_test p q)) [
  | inl h ↦ inl (test_lem p q w ∙ ap some h)
  | inr h ↦ inr (test_lem p q w ∙ ap some h)
]

-- The fields of `with_window`, and of `reaped`.
with_window-IsSequence :
    (p : PacketIdRec) (time id : ℕ)
    → IsSequence p
    → id < 2 ^ 32
    → IsSequence (with_window p time id none)
unfolding with_window
with_window-IsSequence p time id w h = record {
  ready = w.ready;
  mode = w.mode;
  no_sweep = w.no_sweep;
  no_list = refl;
  word = h;
}

-- The states without backtracking.
abbrev Sequenced : Type 0
Sequenced = (p : PacketIdRec) × IsSequence p

sweeps :
    (now : ℕ) (s : Sequenced)
    → (s' : Sequenced) × (packet_id_reap_test now s.0 ≡ some s'.0)
      × ((q : PacketIdNet) → Past s.0 q → Past s'.0 q)
unfolding packet_id_reap_test packet_id_reap reaped
sweeps now (p, w) = elim (Bool-cases (leb (p.last_reap + seq_reap_interval) now)) [
  | inl h ↦ (
    (
      reaped now p p.seq_list,
      record {
        ready = w.ready;
        mode = w.mode;
        no_sweep = w.no_sweep;
        no_list = w.no_list;
        word = w.word;
      },
    ),
    rw h (swept w.no_sweep),
    λ q past. past,
  )
  | inr h ↦ ((p, w), rw h refl, λ q past. past)
]
  where
    swept : p.time_backtrack ≡ 0 → packet_id_reap now p ≡ some (reaped now p p.seq_list)
    swept e = ground (arith, e)

adds :
    (now : ℕ) (s : Sequenced) (pin : PacketIdNet)
    → packet_id_test s.0 pin ≡ some true
    → 1 < now
    → pin.id < 2 ^ 32
    → (s' : Sequenced) × (packet_id_add now s.0 pin ≡ some s'.0)
      × Past s'.0 pin
      × ((q : PacketIdNet) → Past s.0 q → Past s'.0 q)
unfolding packet_id_add sequence_test with_window
adds now (p, w) pin fresh clock word = (
  (with_window p pin.time pin.id none, with_window-IsSequence p pin.time pin.id w word),
  ap by_option w.no_list,
  inr (inr (refl, omega arith, numbered accepted)),
  λ q past. older q past accepted,
)
  where
    by_option : Option (CircList ℕ) → Option PacketIdRec
    by_option o = elim o [
      | some seq_list ↦ add_to_list now p pin seq_list
      | none ↦ some (with_window p pin.time pin.id none)
    ]

    value : (o o' : Bool) → some o ≡ some o' → o ≡ o'
    value o o' e = cc e

    accepted : (not (pin.id == 0) && sequence_test p pin) ≡ true
    accepted = value _ _ (sym (test_lem p pin w) ∙ fresh)

    numbered : (not (pin.id == 0) && sequence_test p pin) ≡ true → 0 < pin.id
    numbered h = ground arith

    older :
        (q : PacketIdNet)
        → Past p q
        → (not (pin.id == 0) && sequence_test p pin) ≡ true
        → Past (with_window p pin.time pin.id none) q
    older q past h = ground (arith, w.word)

pub sequence : Guard
sequence = record {
  State = Sequenced;
  at = λ s. s.0;
  Blocks = λ s q. Past s.0 q;
  refused = λ s q b. Past-refused s.0 q s.1 b;
  answers = λ s q. answers s.0 q s.1;
  sweeps = sweeps;
  adds = adds;
}

-- A receiver set up without backtracking, on packets of 32-bit numbers with any times: the run ends
-- without a failed assertion, and no packet (number and time) is accepted twice.
pub receive_all-IsDistinct_sequence :
    (time_backtrack : ℕ) (packets : List (ℕ × PacketIdNet))
    → AreWire packets
    → (p' : PacketIdRec) × (acc : List PacketIdNet) × ((packet_id_init 0 time_backtrack
          >>= receive_all packets)
        ≡ some (p', acc))
      × IsDistinct acc
unfolding packet_id_init sequence
receive_all-IsDistinct_sequence tb packets h =
    let (p', acc, runs, c) = receive_all-Clean sequence packets (start, ready) h in
    (p', acc, runs, c.distinct)
  where
    start : PacketIdRec
    start = record {
      last_reap = 0;
      time = 0;
      id = 0;
      seq_backtrack = 0;
      time_backtrack = 0;
      initialized = true;
      seq_list = none;
    }

    ready : IsSequence start
    ready = record {
      ready = refl;
      mode = refl;
      no_sweep = refl;
      no_list = refl;
      word = omega arith;
    }
