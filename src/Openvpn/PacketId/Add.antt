-- ===== src/Openvpn/PacketId/Add.antt =====
-- `packet_id_add` in backtrack mode: what was refused stays refused.
use seguridad_en_redes.Base.{
  ℕ, ◌+◌, ◌-◌, ◌^◌, ◌≤◌, ◌<◌, ◌≡◌, refl, ap, ◌∙◌, ◌⊎◌, inl, inr, Bool, true, false, Option, none,
  some, min, ltb, if◌then◌else◌, Bool-cases, arith,
}
use mathlib.Core.Path.{subst}
use seguridad_en_redes.Openvpn.CircList.{CircList, circ_list_reset, circ_list_item}
use seguridad_en_redes.Openvpn.CircList.Laws.{IsWell}
use seguridad_en_redes.Openvpn.PacketId.{
  PacketIdNet, PacketIdRec, seq_unseen, mark_seen, with_window, packet_id_add, add_to_list,
  starts_series, series_base,
}
use seguridad_en_redes.Openvpn.PacketId.Window.{Blocks, mark_seen_lem}
use seguridad_en_redes.Openvpn.PacketId.Test.{IsWindow, Blocked, Accepted}

-- What `packet_id_add` promises for an accepted packet `pin`.
pub record Added (p : PacketIdRec) (l : CircList ℕ) (pin : PacketIdNet) (p' : PacketIdRec)
    (l' : CircList ℕ) : Type 0 where
  pub window : IsWindow p' l'
  pub settings : (p'.seq_backtrack ≡ p.seq_backtrack) × (p'.time_backtrack ≡ p.time_backtrack)
  pub filled : 0 < l'.x_size
  pub at_time : p'.time ≡ pin.time
  pub at_id : (p.time < pin.time) ⊎ (p.id ≤ pin.id) → p'.id ≡ pin.id
  pub here : Blocked p' l' pin
  pub series :
      starts_series p l pin ≡ true
      → (l'.x_size ≡ min pin.id p.seq_backtrack)
        × ((i : ℕ) → 0 < i → i < l'.x_size → circ_list_item l' i ≡ some seq_unseen)
  pub kept : (q : PacketIdNet) → 0 < l.x_size → Blocked p l q → Blocked p' l' q

module _ (now : ℕ) (p : PacketIdRec) (l : CircList ℕ) (pin : PacketIdNet) (w : IsWindow p l)
    (a : Accepted p pin) (word : pin.id < 2 ^ 32) (clock : 1 < now) where
  -- In the window of the running series.
  same_series :
      starts_series p l pin ≡ false
      → (p' : PacketIdRec) × (l' : CircList ℕ) × (mark_seen now p p.time p.id pin l ≡ some p')
        × Added p l pin p' l'
  unfolding starts_series with_window
  same_series h =
      let (l', runs, m) = mark_seen_lem now p p.time p.id pin l w.well w.word word clock in
      (
        with_window p p.time (p.id + (pin.id - p.id)) (some l'),
        l',
        runs,
        record {
          window = record {
            ready = w.ready;
            list = refl;
            well = m.well;
            cap = m.cap ∙ w.cap;
            behind = omega (arith, m.size, w.behind);
            word = omega (arith, w.word);
          };
          settings = (refl, refl);
          filled = ground (arith, m.size, w.well.head-lt);
          at_time = ground (arith, a.recent);
          at_id = λ n. caught_up n;
          here = inr (inr (ground (arith, a.recent), omega arith, m.here));
          series = λ h'. absurd (cc (h, h'));
          kept = λ q f b. carry q b l' m.kept;
        },
      )
    where
      caught_up : (p.time < pin.time) ⊎ (p.id ≤ pin.id) → p.id + (pin.id - p.id) ≡ pin.id
      caught_up n = ground arith

      carry :
          (q : PacketIdNet)
          → Blocked p l q
          → (l' : CircList ℕ) → ((i : ℕ) → Blocks l i → Blocks l' (pin.id - p.id + i))
          → (q.id ≡ 0)
            ⊎ (q.time < p.time)
            ⊎ ((q.time ≡ p.time)
                × (q.id ≤ p.id + (pin.id - p.id))
                × Blocks l' (p.id + (pin.id - p.id) - q.id))
      carry q (inl z) l' kept = inl z
      carry q (inr (inl old)) l' kept = inr (inl old)
      carry q (inr (inr (t, le, b))) l' kept =
          inr (inr (t, omega arith, subst (Blocks l') (moved q le) (kept (p.id - q.id) b)))
        where
          moved :
              (q : PacketIdNet)
              → q.id ≤ p.id
              → pin.id - p.id + (p.id - q.id) ≡ p.id + (pin.id - p.id) - q.id
          moved q le = omega arith

  -- In the window of a new series.
  new_series :
      starts_series p l pin ≡ true
      → (p' : PacketIdRec) × (l' : CircList ℕ) × (mark_seen now p pin.time
            (series_base p pin)
            pin
            (circ_list_reset l)
          ≡ some p')
        × Added p l pin p' l'
  unfolding starts_series with_window circ_list_reset series_base
  new_series h =
      let (l', runs, m) =
        mark_seen_lem now p pin.time (series_base p pin) pin (circ_list_reset l) well base_word word
          clock in
      (
        with_window p pin.time (series_base p pin + (pin.id - series_base p pin)) (some l'),
        l',
        runs,
        record {
          window = record {
            ready = w.ready;
            list = refl;
            well = m.well;
            cap = m.cap ∙ w.cap;
            behind = omega (arith, m.size);
            word = omega (arith, below);
          };
          settings = (refl, refl);
          filled = omega (arith, m.size, below, w.well.head-lt);
          at_time = refl;
          at_id = λ n. omega (arith, below);
          here = inr (inr (refl, omega arith, m.here));
          series = λ h'. (
            ground (arith, m.size, w.cap, below),
            λ i pos lt. m.unseen i (omega (arith, lt, m.size)) lt (omega (arith, pos, below)),
          );
          kept = λ q f b. passed q f b l' (omega (arith, m.size, w.cap));
        },
      )
    where
      well : IsWell (circ_list_reset l)
      well = record {
        head-lt = omega (arith, w.well.head-lt);
        length-list = w.well.length-list;
        size-le = omega arith;
      }

      below : series_base p pin < pin.id
      below = ground (arith, a.numbered, w.cap, w.well.head-lt)

      base_word : series_base p pin < 2 ^ 32
      base_word = omega (arith, below)

      passed :
          (q : PacketIdNet)
          → 0 < l.x_size
          → Blocked p l q
          → (l' : CircList ℕ) → l'.x_size ≤ p.seq_backtrack
          → (q.id ≡ 0)
            ⊎ (q.time < pin.time)
            ⊎ ((q.time ≡ pin.time)
                × (q.id ≤ series_base p pin + (pin.id - series_base p pin))
                × Blocks l' (series_base p pin + (pin.id - series_base p pin) - q.id))
      passed q f (inl z) l' le = inl z
      passed q f (inr (inl old)) l' le = inr (inl (omega (arith, a.recent)))
      passed q f (inr (inr (t, before, b))) l' le = elim (Bool-cases (ltb p.time pin.time)) [
        | inl later ↦ inr (inl (ground arith))
        | inr now' ↦ inr (inr (ground (arith, a.recent), ground arith, inl (ground arith)))
      ]

  by_list : packet_id_add now p pin ≡ add_to_list now p pin l
  unfolding packet_id_add
  by_list = ap by_option w.list
    where
      by_option : Option (CircList ℕ) → Option PacketIdRec
      by_option o = elim o [
        | some seq_list ↦ add_to_list now p pin seq_list
        | none ↦ some (with_window p pin.time pin.id none)
      ]

  -- An accepted packet is added without a failed assertion, and is refused from then on, like all
  -- the packets that were refused before.
  pub packet_id_add-Added :
      (p' : PacketIdRec) × (l' : CircList ℕ) × (packet_id_add now p pin ≡ some p')
      × Added p l pin p' l'
  unfolding add_to_list
  packet_id_add-Added = elim (Bool-cases (starts_series p l pin)) [
    | inl h ↦
        let (p', l', runs, added) = new_series h in (p', l', by_list ∙ branch true h ∙ runs, added)
    | inr h ↦
        let (p', l', runs, added) = same_series h in
        (p', l', by_list ∙ branch false h ∙ runs, added)
  ]
    where
      branch :
          (b : Bool)
          → starts_series p l pin ≡ b
          → add_to_list now p pin l ≡ (
              if b
              then mark_seen now p pin.time (series_base p pin) pin (circ_list_reset l)
              else mark_seen now p p.time p.id pin l)
      branch b h =
          ap
            (λ c.
              if c
              then mark_seen now p pin.time (series_base p pin) pin (circ_list_reset l)
              else mark_seen now p p.time p.id pin l)
            h
