-- ===== src/Openvpn/Reliable/Sender/Best.antt =====
-- `reliable_send` of vpn/openvpn-2.2.1/reliable.c: which packet it sends, and when that one is due
-- again.
use seguridad_en_redes.Base.{
  ℕ, zero, suc, ◌+◌, ◌*◌, ◌≤◌, ◌<◌, ◌≡◌, ◌^◌, refl, sym, ap, ◌∙◌, Bool, true, false, ◌&&◌, ◌⊎◌, inl,
  inr, List, [], ◌∷◌, Option, none, some, get_elem?, set, ltb, leb, if◌then◌else◌, Bool-cases,
  arith,
}
use mathlib.Core.Path.{subst}
use seguridad_en_redes.Openvpn.Reliable.{reliable_pid_in_range1, reliable_pid_min}
use seguridad_en_redes.Openvpn.Reliable.Entries.{ReliableEntry, Reliable}
use seguridad_en_redes.Openvpn.Reliable.Sender.{
  n_current, is_retry, is_better, best_entry, put_off, reliable_send,
}
use seguridad_en_redes.Openvpn.Reliable.Sender.Window.{AreOutstanding}
use seguridad_en_redes.Openvpn.Reliable.Sender.Retry.{reliable_unique_retry_lem}

-- An entry that waits, and whose time has come.
abbrev pub is_due : ℕ → ReliableEntry → Bool
is_due now e = e.active && leb e.next_try now

-- An id is at most that of each entry that is due.
abbrev pub IsFirstDue : ℕ → ℕ → List ReliableEntry → Type 0
IsFirstDue now m [] = Unit
IsFirstDue now m (e ∷ array) = (is_due now e ≡ true → m ≤ e.packet_id) × IsFirstDue now m array

-- The timeouts can be doubled.
abbrev pub AreShort : List ReliableEntry → Type 0
AreShort [] = Unit
AreShort (e ∷ array) = (e.timeout * 2 < 2 ^ 31) × AreShort array

abbrev BoundsBest : Option (ℕ × ReliableEntry) → ℕ → Type 0
BoundsBest none m = Unit
BoundsBest (some best) m = m ≤ best.1.packet_id

-- The entry `e` at place `i` was the best before, or it is due and stands from place `k` on.
abbrev IsPlaced :
    ℕ → List ReliableEntry → ℕ → Option (ℕ × ReliableEntry) → ℕ → ReliableEntry → Type 0
IsPlaced now array k best i e =
    (best ≡ some (i, e))
    ⊎ ((j : ℕ) × (i ≡ k + j) × (get_elem? array j ≡ some e) × (is_due now e ≡ true))

-- What the loop finds, from place `k` on: nothing, or the entry with the least id that is due.
abbrev IsBest :
    ℕ → List ReliableEntry → ℕ → Option (ℕ × ReliableEntry) → Option (ℕ × ReliableEntry) → Type 0
IsBest now array k best none = (best ≡ none) × (n_current now array ≡ 0)
IsBest now array k best (some (i, e)) =
    IsPlaced now array k best i e × BoundsBest best e.packet_id × IsFirstDue now e.packet_id array

-- The best entry so far after one that is due.
best-step :
    (k : ℕ) (e : ReliableEntry) (best : Option (ℕ × ReliableEntry))
    → e.packet_id < 2 ^ 31
    → ((b : ℕ × ReliableEntry) → best ≡ some b → b.1.packet_id < 2 ^ 31)
    → (b : ℕ × ReliableEntry) × ((if is_better e.packet_id best then some (k, e) else best)
        ≡ some b)
      × ((b ≡ (k, e)) ⊎ (best ≡ some b))
      × (b.1.packet_id ≤ e.packet_id)
      × BoundsBest best b.1.packet_id
      × (b.1.packet_id < 2 ^ 31)
unfolding is_better reliable_pid_min reliable_pid_in_range1
best-step k e none small below = ((k, e), refl, inl refl, omega arith, tt, small)
best-step k e (some b) small below =
    let before = below b refl in
    elim (Bool-cases (is_better e.packet_id (some b))) [
      | inl better ↦ ((k, e), rw better refl, inl refl, omega arith, ground (arith, better), small)
      | inr later ↦ (b, rw later refl, inr refl, ground (arith, later), omega arith, before)
    ]

BoundsBest-mono :
    (best : Option (ℕ × ReliableEntry)) (l m : ℕ) → BoundsBest best l → m ≤ l → BoundsBest best m
BoundsBest-mono none l m h le = tt
BoundsBest-mono (some c) l m h le = omega arith

-- Where the best entry behind a due one `e` stands, when the best so far is `b`.
placed :
    (now : ℕ) (e : ReliableEntry) (array : List ReliableEntry) (k i : ℕ)
    (best : Option (ℕ × ReliableEntry)) (b : ℕ × ReliableEntry) (x : ReliableEntry)
    → is_due now e ≡ true
    → (b ≡ (k, e)) ⊎ (best ≡ some b)
    → IsPlaced now array (suc k) (some b) i x
    → IsPlaced now (e ∷ array) k best i x
placed now e array k i best b x due from (inr (j, at, got, due')) =
    inr (suc j, omega arith, got, due')
placed now e array k i best b x due (inr older) (inl same) = inl (older ∙ same)
placed now e array k i best b x due (inl new) (inl same) =
    let pair : ◌≡◌ {A = ℕ × ReliableEntry} (k, e) (i, x) = cc (new, same) in
    let entry : e ≡ x = ap (λ (p : ℕ × ReliableEntry). p.1) pair in
    inr (
      0,
      ap (λ (p : ℕ × ReliableEntry). p.0) (sym pair) ∙ omega arith,
      ap some entry,
      subst (λ y. is_due now y ≡ true) entry due,
    )

best_entry-IsBest :
    (now next n : ℕ) (array : List ReliableEntry) (k : ℕ) (best : Option (ℕ × ReliableEntry))
    → AreOutstanding next n array
    → next < 2 ^ 31
    → ((b : ℕ × ReliableEntry) → best ≡ some b → b.1.packet_id < 2 ^ 31)
    → (r : Option (ℕ × ReliableEntry)) × (best_entry now array k best ≡ r)
      × IsBest now array k best r
unfolding best_entry n_current
best_entry-IsBest now next n [] k none w near below = (none, refl, (refl, refl))
best_entry-IsBest now next n [] k (some b) w near below =
    (some b, refl, (inl refl, omega arith, tt))
best_entry-IsBest now next n (e ∷ array) k best (here, w) near below =
    elim (Bool-cases (is_due now e)) [
      | inr idle ↦
          let (r, found, is_best) = best_entry-IsBest now next n array (suc k) best w near below in
          (r, rw idle found, passed idle r is_best)
      | inl due ↦
          let small : e.packet_id < 2 ^ 31 = omega (arith, here (ground (arith, due))) in
          let (b, e', from, le, bounds, less) = best-step k e best small below in
          let lower : (c : ℕ × ReliableEntry) → some b ≡ some c → c.1.packet_id < 2 ^ 31 = λ c eq.
            let same : b ≡ c = cc eq in
            subst (λ (x : ℕ × ReliableEntry). x.1.packet_id < 2 ^ 31) same less in
          let (r, found, is_best) =
            best_entry-IsBest now next n array (suc k) (some b) w near lower in
          (r, rw (due, e') found, taken due b from le bounds r is_best)
    ]
  where
    passed :
        is_due now e ≡ false
        → (r : Option (ℕ × ReliableEntry)) → IsBest now array (suc k) best r
        → IsBest now (e ∷ array) k best r
    passed idle none (start, nothing) = (start, rw idle (omega (arith, nothing)))
    passed idle (some (i, x)) (inl same, bounds, first) =
        (inl same, bounds, (λ due. absurd (cc (idle, due)), first))
    passed idle (some (i, x)) (inr (j, at, got, due), bounds, first) =
        (inr (suc j, omega arith, got, due), bounds, (λ due'. absurd (cc (idle, due')), first))

    taken :
        is_due now e ≡ true
        → (b : ℕ × ReliableEntry) → (b ≡ (k, e)) ⊎ (best ≡ some b)
        → b.1.packet_id ≤ e.packet_id
        → BoundsBest best b.1.packet_id
        → (r : Option (ℕ × ReliableEntry)) → IsBest now array (suc k) (some b) r
        → IsBest now (e ∷ array) k best r
    taken due b from le bounds none (start, nothing) = absurd (cc start)
    taken due b from le bounds (some (i, x)) (place, le', first) = (
      placed now e array k i best b x due from place,
      BoundsBest-mono best b.1.packet_id x.packet_id bounds le',
      (λ due'. omega arith, first),
    )

get_elem?-AreShort :
    (array : List ReliableEntry) (i : ℕ) (e : ReliableEntry)
    → AreShort array
    → get_elem? array i ≡ some e
    → e.timeout * 2 < 2 ^ 31
get_elem?-AreShort [] i e h at = absurd (cc at)
get_elem?-AreShort (x ∷ array) zero e (h, _) at =
    subst (λ y. y.timeout * 2 < 2 ^ 31) (let same : x ≡ e = cc at in same) h
get_elem?-AreShort (x ∷ array) (suc i) e (_, h) at = get_elem?-AreShort array i e h at

-- `reliable_send` sends nothing, and no active entry is due; or it sends one that is due, the one
-- with the lowest id. This entry alone changes: its timeout doubles, and its next try is after the
-- old timeout at the earliest, at a time that no active entry had.
abbrev pub SendsFirst : ℕ → Reliable → Type 0
SendsFirst now rel =
    ((n_current now rel.array ≡ 0) × (reliable_send now rel ≡ some (none, rel)))
    ⊎ ((i : ℕ) × (e : ReliableEntry) × (retry : ℕ) × (get_elem? rel.array i ≡ some e)
        × (is_due now e ≡ true)
        × IsFirstDue now e.packet_id rel.array
        × (now + e.timeout ≤ retry)
        × (is_retry rel.array retry ≡ false)
        × (reliable_send now rel
            ≡ some (
              some (i, e.opcode),
              record rel {
                array = set rel.array i (record e { timeout = e.timeout * 2; next_try = retry });
              },
            )))

-- For a sender whose active ids are among the `n` before the next one, all below 2^31, and whose
-- timeouts can be doubled in an `int`: `reliable_send` ends and fails no assertion. It sends nothing
-- exactly if no active entry is due. Otherwise it sends one that is due, the one with the lowest
-- id; this entry alone changes: its timeout doubles, and its next try is after the old timeout at
-- the earliest, at a time that no active entry had.
pub reliable_send_lem :
    (now n : ℕ) (rel : Reliable)
    → AreOutstanding rel.packet_id n rel.array
    → AreShort rel.array
    → rel.packet_id < 2 ^ 31
    → SendsFirst now rel
unfolding reliable_send put_off
reliable_send_lem now n rel w short near =
    by_best (best_entry-IsBest now rel.packet_id n rel.array 0 none w near λ b e. absurd (cc e))
  where
    by_best :
        (r : Option (ℕ × ReliableEntry)) × (best_entry now rel.array 0 none ≡ r)
          × IsBest now rel.array 0 none r
        → SendsFirst now rel
    by_best (none, found, (_, nothing)) = inl (nothing, rw (found, reliable_send) refl)
    by_best (some (i, e), found, (inl start, _, _)) = absurd (cc start)
    by_best (some (i, e), found, (inr (j, at, got, due), _, first)) =
        let (retry, finds, low, own, _) = reliable_unique_retry_lem rel.array (now + e.timeout) in
        let place : i ≡ j = omega arith in
        let here : get_elem? rel.array i ≡ some e = ap (get_elem? rel.array) place ∙ got in
        let doubles : ltb (e.timeout * 2) (2 ^ 31) ≡ true =
          ground (arith, get_elem?-AreShort rel.array i e short here) in
        inr
          (i, e, retry, here, due, first, low, own, rw (found, reliable_send, finds, doubles) refl)
