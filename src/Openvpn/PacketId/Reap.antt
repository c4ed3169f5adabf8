-- ===== src/Openvpn/PacketId/Reap.antt =====
-- `packet_id_reap` and `packet_id_reap_test`: a sweep ends, and accepts nothing new.
use seguridad_en_redes.Base.{
  ℕ, zero, suc, ◌+◌, ◌-◌, ◌≤◌, ◌≡◌, ◌==◌, refl, ◌∙◌, inl, inr, Bool, true, false, not, ◌&&◌, ◌||◌,
  some, ltb, leb, Bool-cases, arith,
}
use seguridad_en_redes.Openvpn.CircList.{CircList}
use seguridad_en_redes.Openvpn.CircList.Laws.{
  IsWell, circ_list_item-some, Assigned, circ_list_set-Assigned,
}
use seguridad_en_redes.Openvpn.PacketId.{
  PacketIdNet, PacketIdRec, seq_expired, seq_reap_interval, reap_loop, reaped, packet_id_reap,
  packet_id_reap_test,
}
use seguridad_en_redes.Openvpn.PacketId.Window.{Blocks, Assigned-Blocks}
use seguridad_en_redes.Openvpn.PacketId.Test.{IsWindow, Blocked}

-- What a sweep leaves of a list.
record Swept (l l' : CircList ℕ) : Type 0 where
  pub well : IsWell l'
  pub cap : l'.x_cap ≡ l.x_cap
  pub size : l'.x_size ≡ l.x_size
  pub kept : (i : ℕ) → Blocks l i → Blocks l' i

Swept-refl : (l : CircList ℕ) → IsWell l → Swept l l
Swept-refl l w = record { well = w; cap = refl; size = refl; kept = λ i b. b }

Swept-after : (i : ℕ) (l m n : CircList ℕ) → Assigned l i seq_expired m → Swept m n → Swept l n
Swept-after i l m n a s = record {
  well = s.well;
  cap = s.cap ∙ a.cap;
  size = s.size ∙ a.size;
  kept = λ j b. s.kept j (Assigned-Blocks i 0 j l m a b);
}

reap_loop-Swept :
    (n i tb now : ℕ) (expire : Bool) (l : CircList ℕ)
    → IsWell l
    → i + n ≤ l.x_size
    → (l' : CircList ℕ) × (reap_loop n i tb now expire l ≡ some l') × Swept l l'
unfolding reap_loop
reap_loop-Swept zero i tb now expire l w h = (l, refl, Swept-refl l w)
reap_loop-Swept (suc n) i tb now expire l w h =
    let (t, read) = circ_list_item-some l w i (omega arith) in
    elim (Bool-cases (t == seq_expired)) [
      | inl stop ↦ (l, rw (read, stop) refl, Swept-refl l w)
      | inr go ↦ elim (Bool-cases (expire || (not (t == 0) && ltb (t + tb) now))) [
        | inl old ↦
            let (m, put, a) = circ_list_set-Assigned l i seq_expired w (omega arith) in
            let (l', runs, s) =
              reap_loop-Swept n (i + 1) tb now true m a.well (omega (arith, a.size)) in
            (l', rw (read, go, old, put) runs, Swept-after i l m l' a s)
        | inr young ↦
            let (l', runs, s) = reap_loop-Swept n (i + 1) tb now false l w (omega arith) in
            (l', rw (read, go, young) runs, s)
      ]
    ]

-- What a sweep promises.
pub record Reaped (p : PacketIdRec) (l : CircList ℕ) (p' : PacketIdRec) (l' : CircList ℕ)
    : Type 0 where
  pub window : IsWindow p' l'
  pub size : l'.x_size ≡ l.x_size
  pub at_time : p'.time ≡ p.time
  pub at_id : p'.id ≡ p.id
  pub kept : (q : PacketIdNet) → Blocked p l q → Blocked p' l' q

Swept-Reaped :
    (now : ℕ) (p : PacketIdRec) (l l' : CircList ℕ)
    → IsWindow p l
    → Swept l l'
    → Reaped p l (reaped now p (some l')) l'
unfolding reaped
Swept-Reaped now p l l' w s = record {
  window = record {
    ready = w.ready;
    list = refl;
    well = s.well;
    cap = s.cap ∙ w.cap;
    behind = omega (arith, s.size, w.behind);
    word = w.word;
  };
  size = s.size;
  at_time = refl;
  at_id = refl;
  kept = kept;
}
  where
    kept : (q : PacketIdNet) → Blocked p l q → Blocked (reaped now p (some l')) l' q
    kept q (inl z) = inl z
    kept q (inr (inl old)) = inr (inl old)
    kept q (inr (inr (t, le, b))) = inr (inr (t, le, s.kept (p.id - q.id) b))

packet_id_reap-Reaped :
    (now : ℕ) (p : PacketIdRec) (l : CircList ℕ)
    → IsWindow p l
    → (p' : PacketIdRec) × (l' : CircList ℕ) × (packet_id_reap now p ≡ some p') × Reaped p l p' l'
unfolding packet_id_reap
packet_id_reap-Reaped now p l w = elim (Bool-cases (p.time_backtrack == 0)) [
  | inl h ↦ (
    reaped now p (some l),
    l,
    rw h (simp w.list refl),
    Swept-Reaped now p l l w (Swept-refl l w.well),
  )
  | inr h ↦
      let (l', runs, s) =
        reap_loop-Swept l.x_size 0 p.time_backtrack now false l w.well (omega arith) in
      (reaped now p (some l'), l', rw h (simp (w.list, runs) refl), Swept-Reaped now p l l' w s)
]

pub packet_id_reap_test-Reaped :
    (now : ℕ) (p : PacketIdRec) (l : CircList ℕ)
    → IsWindow p l
    → (p' : PacketIdRec) × (l' : CircList ℕ) × (packet_id_reap_test now p ≡ some p')
      × Reaped p l p' l'
unfolding packet_id_reap_test
packet_id_reap_test-Reaped now p l w =
    elim (Bool-cases (leb (p.last_reap + seq_reap_interval) now)) [
      | inl h ↦ let (p', l', runs, r) = packet_id_reap-Reaped now p l w in (p', l', rw h runs, r)
      | inr h ↦ (
        p,
        l,
        rw h refl,
        record { window = w; size = refl; at_time = refl; at_id = refl; kept = λ q b. b },
      )
    ]
