-- ===== src/Openvpn/Mbuf/References/Cleared.antt =====
-- Clearing a client's packets out of the ring of vpn/openvpn-2.2.1/mbuf.c, and freeing the ring.
use seguridad_en_redes.Base.{
  ℕ, zero, suc, ◌+◌, ◌≤◌, ◌<◌, ◌≡◌, refl, sym, ap, ◌∙◌, inl, inr, Bool, true, false, List, [], ◌∷◌,
  some, get_elem?, get_or, set, length, length-set, map, get_elem?-eq-get_or, if◌then◌else◌,
  Bool-cases, arith,
}
use mathlib.Core.Path.{subst}
use seguridad_en_redes.Openvpn.Mbuf.{
  MbufItem, MbufSet, Store, blank_item, mbuf_index, mbuf_free_buf, is_for, dereference,
}
use seguridad_en_redes.Openvpn.Mbuf.Ring.{
  wrap, wrap-lt, queued, queued-set, get_elem?-queued, length-queued, queue, index-wrap,
}
use seguridad_en_redes.Openvpn.Mbuf.References.{holds, references, AreWhole, mbuf_free_buf_lem}
use seguridad_en_redes.Openvpn.Mbuf.References.Added.{IsSound}

-- An item of the client is cleared.
abbrev pub cleared : ℕ → MbufItem → MbufItem
cleared mi item = if is_for mi item then blank_item else item

-- The items from place `i` on are cleared.
abbrev pub cleared_from : ℕ → ℕ → List MbufItem → List MbufItem
cleared_from mi i [] = []
cleared_from mi zero (item ∷ items) = cleared mi item ∷ cleared_from mi zero items
cleared_from mi (suc i) (item ∷ items) = item ∷ cleared_from mi i items

pub cleared_from-all :
    (mi : ℕ) (items : List MbufItem) → cleared_from mi 0 items ≡ map (cleared mi) items
cleared_from-all mi [] = refl
cleared_from-all mi (item ∷ items) = ap (◌∷◌ (cleared mi item)) (cleared_from-all mi items)

cleared_from-end :
    (mi i : ℕ) (items : List MbufItem) → length items ≤ i → cleared_from mi i items ≡ items
cleared_from-end mi i [] h = refl
cleared_from-end mi zero (item ∷ items) h = absurd (omega arith)
cleared_from-end mi (suc i) (item ∷ items) h =
    ap (◌∷◌ item) (cleared_from-end mi i items (omega arith))

cleared_from-set :
    (mi i : ℕ) (items : List MbufItem) (item : MbufItem)
    → get_elem? items i ≡ some item
    → cleared_from mi (suc i) (set items i (cleared mi item)) ≡ cleared_from mi i items
cleared_from-set mi i [] item h = absurd (cc h)
cleared_from-set mi zero (x ∷ items) item h =
    let same : item ≡ x = cc h in ap (λ y. cleared mi y ∷ cleared_from mi zero items) same
cleared_from-set mi (suc i) (x ∷ items) item h = ap (◌∷◌ x) (cleared_from-set mi i items item h)

set_self :
    (items : List MbufItem) (i : ℕ) (item : MbufItem)
    → get_elem? items i ≡ some item
    → set items i item ≡ items
set_self [] i item h = refl
set_self (x ∷ items) zero item h = let same : item ≡ x = cc h in ap (λ y. y ∷ items) same
set_self (x ∷ items) (suc i) item h = ap (◌∷◌ x) (set_self items i item h)

references-set_blank :
    (items : List MbufItem) (i : ℕ) (item : MbufItem) (p : ℕ)
    → get_elem? items i ≡ some item
    → references (set items i blank_item) p + holds item.buffer p ≡ references items p
unfolding references
references-set_blank [] i item p h = absurd (cc h)
references-set_blank (x ∷ items) zero item p h =
    let same : item ≡ x = cc h in omega (arith, ap (λ y. holds y.buffer p) same)
references-set_blank (x ∷ items) (suc i) item p h =
    omega (arith, references-set_blank items i item p h)

set_blank-AreWhole :
    (items : List MbufItem) (i : ℕ) → AreWhole items → AreWhole (set items i blank_item)
set_blank-AreWhole [] i w = tt
set_blank-AreWhole (x ∷ items) zero (_, w) = ((λ h. refl), w)
set_blank-AreWhole (x ∷ items) (suc i) (v, w) = (v, set_blank-AreWhole items i w)

-- What the loop leaves, from place `i` on.
abbrev pub Clears : MbufSet → ℕ → ℕ → ℕ → Store → (ℕ → ℕ) → Type 0
Clears ms mi n i store extra =
    (ms' : MbufSet) × (store' : Store) × (dereference ms mi n i store ≡ some (ms', store'))
    × IsSound ms' store' extra
    × (queue ms' ≡ cleared_from mi i (queue ms))

-- The ring with one item cleared.
set_blank-IsSound :
    (ms : MbufSet) (store : Store) (extra : ℕ → ℕ) (i : ℕ) (item : MbufItem)
    → IsSound ms store extra
    → i < ms.len
    → get_elem? (queue ms) i ≡ some item
    → (store' : Store) × (mbuf_free_buf store item.buffer ≡ some store')
      × IsSound
          (record ms { array = set ms.array (wrap ms.head i ms.capacity) blank_item })
          store'
          extra
      × (queued (set ms.array (wrap ms.head i ms.capacity) blank_item) ms.capacity ms.head ms.len
          ≡ set (queue ms) i blank_item)
set_blank-IsSound ms store extra i item v lt at =
    let out = λ (p : ℕ). references-set_blank (queue ms) i item p at in
    let (store', freed, counts) =
      mbuf_free_buf_lem store item.buffer λ p. omega (arith, out p, v.counted p) in
    let changed =
      queued-set ms.array ms.capacity ms.head ms.len i blank_item v.ring.full_array v.ring.head_in
        v.ring.len_in lt in
    (
      store',
      freed,
      record {
        ring = record {
          exponent = v.ring.exponent;
          size = v.ring.size;
          full_array =
              length-set ms.array (wrap ms.head i ms.capacity) blank_item ∙ v.ring.full_array;
          head_in = v.ring.head_in;
          len_in = v.ring.len_in;
        };
        whole = subst AreWhole (sym changed) (set_blank-AreWhole (queue ms) i v.whole);
        counted =
            λ p. omega (arith, counts p, out p, v.counted p, ap (λ l. references l p) changed);
      },
      changed,
    )

pub dereference_lem :
    (ms : MbufSet) (mi n i : ℕ) (store : Store) (extra : ℕ → ℕ)
    → IsSound ms store extra
    → i + n ≡ ms.len
    → Clears ms mi n i store extra
unfolding dereference
dereference_lem ms mi zero i store extra v e = (
  ms,
  store,
  refl,
  v,
  sym (
      cleared_from-end mi i (queue ms)
        (omega (arith, length-queued ms.array ms.capacity ms.head ms.len))),
)
dereference_lem ms mi (suc n) i store extra v e = elim (Bool-cases (is_for mi item)) [
  | inr other ↦
      let (ms', store', f, v', rest) =
        dereference_lem ms mi n (suc i) store extra v (omega arith) in
      (ms', store', rw (index, at, other) f, v', rest ∙ sym (kept other))
  | inl ours ↦
      let (store₁, freed, v₁, changed) = set_blank-IsSound ms store extra i item v here at_queue in
      let (ms', store', f, v', rest) =
        dereference_lem (record ms { array = set ms.array place blank_item }) mi n (suc i) store₁
          extra v₁ (omega arith) in
      (
        ms',
        store',
        rw (index, at, ours, freed) f,
        v',
        rest ∙ ap (cleared_from mi (suc i)) changed ∙ gone ours,
      )
]
  where
    place : ℕ
    place = wrap ms.head i ms.capacity

    item : MbufItem
    item = get_or ms.array place blank_item

    here : i < ms.len
    here = omega arith

    index : mbuf_index ms.head i ms.capacity ≡ place
    index = index-wrap ms i v.ring (omega (arith, v.ring.len_in))

    at : get_elem? ms.array place ≡ some item
    at = get_elem?-eq-get_or ms.array place blank_item (
        omega (
          arith,
          wrap-lt ms.head i ms.capacity v.ring.head_in (omega (arith, v.ring.len_in)),
          v.ring.full_array,
        ))

    at_queue : get_elem? (queue ms) i ≡ some item
    at_queue =
        get_elem?-queued ms.array ms.capacity ms.head ms.len i v.ring.head_in v.ring.len_in here

    step :
        cleared_from mi (suc i) (set (queue ms) i (cleared mi item)) ≡ cleared_from mi i (queue ms)
    step = cleared_from-set mi i (queue ms) item at_queue

    by_test : Bool → MbufItem
    by_test b = if b then blank_item else item

    kept :
        is_for mi item ≡ false → cleared_from mi i (queue ms) ≡ cleared_from mi (suc i) (queue ms)
    kept other =
        sym step
        ∙ ap (λ x. cleared_from mi (suc i) (set (queue ms) i x)) (ap by_test other)
        ∙ ap (cleared_from mi (suc i)) (set_self (queue ms) i item at_queue)

    gone :
        is_for mi item ≡ true
        → cleared_from mi (suc i) (set (queue ms) i blank_item) ≡ cleared_from mi i (queue ms)
    gone ours =
        ap (λ x. cleared_from mi (suc i) (set (queue ms) i x)) (sym (ap by_test ours)) ∙ step
