-- ===== src/Openvpn/PacketId/Window.antt =====
-- The window of packet_id.c: how `packet_id_add` moves it and which distances it blocks.
use seguridad_en_redes.Base.{
  ℕ, zero, suc, ◌+◌, ◌-◌, ◌%◌, ◌^◌, ◌≤◌, ◌<◌, ◌≡◌, ◌≢◌, ◌==◌, refl, ap, ◌∙◌, ◌⊎◌, inl, inr, true,
  false, some, min, ltb, Bool-cases, arith,
}
use mathlib.Core.Path.{subst}
use seguridad_en_redes.Openvpn.CircList.{CircList, circ_list_item}
use seguridad_en_redes.Openvpn.CircList.Laws.{
  IsWell, Pushed, circ_list_push-Pushed, Assigned, circ_list_set-Assigned,
}
use seguridad_en_redes.Openvpn.PacketId.{
  PacketIdNet, PacketIdRec, seq_unseen, seq_expired, unseen_loop, mark_seen, with_window,
}

-- A packet `i` numbers before the newest one is refused: it is behind the window or it was seen.
abbrev pub Blocks : CircList ℕ → ℕ → Type 0
Blocks l i = (l.x_size ≤ i) ⊎ ((v : ℕ) × (circ_list_item l i ≡ some (suc v)))

-- `k` new places in front of those of `l`.
pub record Shifted (k : ℕ) (l l' : CircList ℕ) : Type 0 where
  pub well : IsWell l'
  pub cap : l'.x_cap ≡ l.x_cap
  pub size : l'.x_size ≡ min (l.x_size + k) l.x_cap
  pub older : (i : ℕ) → k + i < l'.x_size → circ_list_item l' (k + i) ≡ circ_list_item l i
  pub fresh : (i : ℕ) → i < k → i < l'.x_size → circ_list_item l' i ≡ some seq_unseen

Shifted-zero : (l : CircList ℕ) → IsWell l → Shifted 0 l l
Shifted-zero l w = record {
  well = w;
  cap = refl;
  size = omega (arith, w.size-le);
  older = λ i h. ap (circ_list_item l) (plain i);
  fresh = λ i lt h. absurd (omega arith);
}
  where
    plain : (i : ℕ) → 0 + i ≡ i
    plain i = omega arith

Shifted-suc :
    (k : ℕ) (l m n : CircList ℕ) → Pushed l seq_unseen m → Shifted k m n → Shifted (suc k) l n
Shifted-suc k l m n p s = record {
  well = s.well;
  cap = s.cap ∙ p.cap;
  size = omega (arith, s.size, p.size, p.cap);
  older = λ i h.
      ap (circ_list_item n) (shift i)
      ∙ s.older (suc i) (omega (arith, h))
      ∙ p.older i (omega (arith, h, s.size, p.size, p.cap));
  fresh = λ i lt h. elim (Bool-cases (ltb i k)) [
    | inl front ↦ s.fresh i (ground arith) h
    | inr back ↦
        ap (circ_list_item n) (last i (ground arith))
        ∙ s.older 0 (omega (arith, h, last i (ground arith)))
        ∙ p.newest
  ];
}
  where
    last : (i : ℕ) → (i < suc k) × (k ≤ i) → i ≡ k + 0
    last i h = omega (arith, h)

    shift : (i : ℕ) → suc k + i ≡ k + suc i
    shift i = omega arith

-- The loop of `packet_id_add` ends within its fuel, at the number wanted.
unseen_loop_lem :
    (k id pin_id : ℕ) (l : CircList ℕ)
    → pin_id - id ≡ k
    → IsWell l
    → (l' : CircList ℕ) × (unseen_loop k id pin_id l ≡ some (id + k, l')) × Shifted k l l'
unfolding unseen_loop
unseen_loop_lem zero id pin_id l h w = (l, ground arith, Shifted-zero l w)
unseen_loop_lem (suc k) id pin_id l h w =
    let (m, pushed, p) = circ_list_push-Pushed l seq_unseen w in
    let (n, runs, s) = unseen_loop_lem k (id + 1) pin_id m (omega arith) p.well in
    (n, rw (more, pushed, runs) (ap (λ x. some (x, n)) (next id k)), Shifted-suc k l m n p s)
  where
    more : ltb id pin_id ≡ true
    more = ground arith

    next : (a b : ℕ) → a + 1 + b ≡ a + suc b
    next a b = omega arith

Shifted-Blocks : (k i : ℕ) (l l' : CircList ℕ) → Shifted k l l' → Blocks l i → Blocks l' (k + i)
Shifted-Blocks k i l l' s (inl h) = inl (omega (arith, s.size))
Shifted-Blocks k i l l' s (inr (v, e)) = elim (Bool-cases (ltb (k + i) l'.x_size)) [
  | inl h ↦ inr (v, s.older i (ground arith) ∙ e)
  | inr h ↦ inl (ground arith)
]

pub Assigned-Blocks :
    (d now i : ℕ) (l l' : CircList ℕ) → Assigned l d (suc now) l' → Blocks l i → Blocks l' i
Assigned-Blocks d now i l l' a (inl h) = inl (omega (arith, a.size))
Assigned-Blocks d now i l l' a (inr (v, e)) = elim (Bool-cases (ltb i l.x_size)) [
  | inl h ↦ elim (Bool-cases (d == i)) [
    | inl same ↦ inr (now, ap (circ_list_item l') (eq d i same) ∙ a.here)
    | inr other ↦ inr (v, a.elsewhere i (ground arith) (ne d i other) ∙ e)
  ]
  | inr h ↦ inl (ground (arith, a.size))
]
  where
    eq : (x y : ℕ) → (x == y) ≡ true → y ≡ x
    eq x y h = ground arith

    ne : (x y : ℕ) → (x == y) ≡ false → x ≢ y
    ne x y h = ground arith

-- What the end of `packet_id_add` leaves: the window moved by `k`, and the packet blocked.
pub record Marked (k d : ℕ) (l l' : CircList ℕ) : Type 0 where
  pub well : IsWell l'
  pub cap : l'.x_cap ≡ l.x_cap
  pub size : l'.x_size ≡ min (l.x_size + k) l.x_cap
  pub kept : (i : ℕ) → Blocks l i → Blocks l' (k + i)
  pub here : Blocks l' d
  pub unseen : (i : ℕ) → i < k → i < l'.x_size → d ≢ i → circ_list_item l' i ≡ some seq_unseen

pub mark_seen_lem :
    (now : ℕ) (p : PacketIdRec) (time id : ℕ) (pin : PacketIdNet) (l : CircList ℕ)
    → IsWell l
    → id < 2 ^ 32
    → pin.id < 2 ^ 32
    → 1 < now
    → let k = pin.id - id in
      (l' : CircList ℕ) × (mark_seen now p time id pin l
        ≡ some (with_window p time (id + k) (some l')))
      × Marked k (id + k - pin.id) l l'
unfolding mark_seen
mark_seen_lem now p time id pin l w small pin_small clock =
    let (m, runs, s) = unseen_loop_lem (pin.id - id) id pin.id l refl w in
    elim (Bool-cases (ltb (id + (pin.id - id) - pin.id) m.x_size)) [
      | inl h ↦
          let (n, put, a) =
            circ_list_set-Assigned m (id + (pin.id - id) - pin.id) now s.well (ground arith) in
          (
            n,
            rw (runs, diff, h, late, put) refl,
            record {
              well = a.well;
              cap = a.cap ∙ s.cap;
              size = a.size ∙ s.size;
              kept = λ i b.
                  Assigned-Blocks (id + (pin.id - id) - pin.id) (now - 1) (pin.id - id + i) m n
                    (subst (λ x. Assigned m (id + (pin.id - id) - pin.id) x n) positive a)
                    (Shifted-Blocks (pin.id - id) i l m s b);
              here = inr (now - 1, a.here ∙ ap some positive);
              unseen = λ i lt h ne.
                  a.elsewhere i (omega (arith, h, a.size)) ne
                  ∙ s.fresh i lt (omega (arith, h, a.size));
            },
          )
      | inr h ↦ (
        m,
        rw (runs, diff, h) refl,
        record {
          well = s.well;
          cap = s.cap;
          size = s.size;
          kept = λ i b. Shifted-Blocks (pin.id - id) i l m s b;
          here = inl (ground arith);
          unseen = λ i lt h ne. s.fresh i lt h;
        },
      )
    ]
  where
    late : ltb seq_expired now ≡ true
    late = ground arith

    positive : now ≡ suc (now - 1)
    positive = omega arith

    diff : (id + (pin.id - id) + 2 ^ 32 - pin.id) % 2 ^ 32 ≡ id + (pin.id - id) - pin.id
    diff = omega arith
