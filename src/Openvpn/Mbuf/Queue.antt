-- ===== src/Openvpn/Mbuf/Queue.antt =====
-- The ring of vpn/openvpn-2.2.1/mbuf.c is a bounded queue that loses its oldest packets.
use seguridad_en_redes.Base.{
  ℕ, zero, suc, ◌≤◌, ◌<◌, ◌≡◌, refl, sym, ap, ◌∙◌, inl, inr, List, [], ◌∷◌, ◌++◌, Option, none,
  some, get_elem?, get_or, set, length-set, get_elem?-eq-get_or, ltb, if◌then◌else◌, Option-cases,
  lt→ltb, arith,
}
use seguridad_en_redes.Openvpn.Mbuf.{
  MbufItem, MbufSet, blank_item, mbuf_index, extract, mbuf_extract_item, append_item,
}
use seguridad_en_redes.Openvpn.Mbuf.Ring.{
  wrap, wrap-lt, queued, queued-append, IsRing, queue, index-wrap,
}

-- The first item of a queue that has an instance, and what stands behind it.
abbrev pub first : List MbufItem → Option MbufItem
first [] = none
first (item ∷ items) = elim item.instance_ [ none ↦ first items | some mi ↦ some item ]

abbrev pub behind : List MbufItem → List MbufItem
behind [] = []
behind (item ∷ items) = elim item.instance_ [ none ↦ behind items | some mi ↦ items ]

pub first_absent :
    (item : MbufItem) (items : List MbufItem)
    → item.instance_ ≡ none
    → first (item ∷ items) ≡ first items
first_absent item items h = ap (λ o. elim o [ none ↦ first items | some mi ↦ some item ]) h

pub behind_absent :
    (item : MbufItem) (items : List MbufItem)
    → item.instance_ ≡ none
    → behind (item ∷ items) ≡ behind items
behind_absent item items h = ap (λ o. elim o [ none ↦ behind items | some mi ↦ items ]) h

pub first_present :
    (item : MbufItem) (items : List MbufItem) (mi : ℕ)
    → item.instance_ ≡ some mi
    → first (item ∷ items) ≡ some item
first_present item items mi h = ap (λ o. elim o [ none ↦ first items | some mi ↦ some item ]) h

pub behind_present :
    (item : MbufItem) (items : List MbufItem) (mi : ℕ)
    → item.instance_ ≡ some mi
    → behind (item ∷ items) ≡ items
behind_present item items mi h = ap (λ o. elim o [ none ↦ behind items | some mi ↦ items ]) h

-- What taking an item out leaves: of the queue, and of its length.
abbrev Extracts : MbufSet → ℕ → ℕ → Type 0
Extracts ms head n =
    (head' : ℕ) × (n' : ℕ) × (extract n head ms.capacity ms.array
      ≡ some (first (queued ms.array ms.capacity head n), head', n'))
    × (head' < ms.capacity)
    × (n' ≤ n)
    × (queued ms.array ms.capacity head' n' ≡ behind (queued ms.array ms.capacity head n))

index_next :
    (ms : MbufSet) (head : ℕ)
    → IsRing ms
    → head < ms.capacity
    → mbuf_index head 1 ms.capacity ≡ wrap head 1 ms.capacity
index_next ms head w lt =
    index-wrap (record ms { head = head; len = 0 }) 1
      (record {
        exponent = w.exponent;
        size = w.size;
        full_array = w.full_array;
        head_in = lt;
        len_in = omega arith;
      })
      (omega (arith, lt))

extract_lem :
    (ms : MbufSet) (head n : ℕ)
    → IsRing ms
    → head < ms.capacity
    → n ≤ ms.capacity
    → Extracts ms head n
unfolding extract
extract_lem ms head zero w lt le = (head, 0, refl, lt, omega arith, refl)
extract_lem ms head (suc n) w lt le =
    let at = get_elem?-eq-get_or ms.array head blank_item (omega (arith, lt, w.full_array)) in
    let next = index_next ms head w lt in
    let inside = wrap-lt head 1 ms.capacity lt (omega arith) in
    elim (Option-cases item.instance_) [
      | inr (mi, present) ↦ (
        wrap head 1 ms.capacity,
        n,
        rw (first_present item items mi present) (rw (at, extract, present, next) refl),
        inside,
        omega arith,
        sym (behind_present item items mi present),
      )
      | inl absent ↦
          passed absent at next (extract_lem ms (wrap head 1 ms.capacity) n w inside (omega arith))
    ]
  where
    item : MbufItem
    item = get_or ms.array head blank_item

    items : List MbufItem
    items = queued ms.array ms.capacity (wrap head 1 ms.capacity) n

    passed :
        (get_or ms.array head blank_item).instance_ ≡ none
        → get_elem? ms.array head ≡ some (get_or ms.array head blank_item)
        → mbuf_index head 1 ms.capacity ≡ wrap head 1 ms.capacity
        → Extracts ms (wrap head 1 ms.capacity) n
        → Extracts ms head (suc n)
    passed absent at next (head', n', e, lt', le', rest) = (
      head',
      n',
      rw (first_absent item items absent) (rw (at, extract, absent, next) e),
      lt',
      omega arith,
      rest ∙ sym (behind_absent item items absent),
    )

-- On a ring, `mbuf_extract_item` fails no check; it gives the first packet that still has an
-- instance, if there is one, and leaves a ring with the packets behind it.
pub mbuf_extract_item-queue :
    (ms : MbufSet)
    → IsRing ms
    → (ms' : MbufSet) × (mbuf_extract_item ms ≡ some (first (queue ms), ms'))
      × IsRing ms'
      × (queue ms' ≡ behind (queue ms))
      × (ms'.capacity ≡ ms.capacity)
unfolding mbuf_extract_item
mbuf_extract_item-queue ms w =
    let (head', n', e, lt, le, rest) = extract_lem ms ms.head ms.len w w.head_in w.len_in in
    (
      record ms { head = head'; len = n' },
      rw e refl,
      record {
        exponent = w.exponent;
        size = w.size;
        full_array = w.full_array;
        head_in = lt;
        len_in = omega (arith, le, w.len_in);
      },
      rest,
      refl,
    )

-- With room, an item goes to the end.
pub append_item-queue :
    (ms : MbufSet) (item : MbufItem)
    → IsRing ms
    → ms.len < ms.capacity
    → (ms' : MbufSet) × (append_item ms item ≡ some ms')
      × IsRing ms'
      × (queue ms' ≡ queue ms ++ (item ∷ []))
      × (ms'.capacity ≡ ms.capacity)
unfolding append_item
append_item-queue ms item w room = (
  after,
  rw (lt→ltb ms.len ms.capacity room, index, at) refl,
  record {
    exponent = w.exponent;
    size = w.size;
    full_array = length-set ms.array place item ∙ w.full_array;
    head_in = w.head_in;
    len_in = room;
  },
  queued-append ms.array ms.capacity ms.head ms.len item w.full_array w.head_in room,
  refl,
)
  where
    place : ℕ
    place = wrap ms.head ms.len ms.capacity

    after : MbufSet
    after = record ms {
      len = suc ms.len;
      max_queued = if ltb ms.max_queued (suc ms.len) then suc ms.len else ms.max_queued;
      array = set ms.array place item;
    }

    index : mbuf_index ms.head ms.len ms.capacity ≡ place
    index = index-wrap ms ms.len w (omega (arith, room))

    at : get_elem? ms.array place ≡ some (get_or ms.array place blank_item)
    at = get_elem?-eq-get_or ms.array place blank_item (
        omega
          (arith, wrap-lt ms.head ms.len ms.capacity w.head_in (omega (arith, room)), w.full_array))
