-- ===== src/Openvpn/Mbuf/References/Freed.antt =====
-- `mbuf_dereference_instance` and `mbuf_free` of vpn/openvpn-2.2.1/mbuf.c.
use seguridad_en_redes.Base.{
  ℕ, zero, suc, ◌+◌, ◌<◌, ◌≡◌, refl, sym, ap, ◌∙◌, some, get_elem?, get_or, length, drop,
  drop-eq-cons, drop-all, map, get_elem?-eq-get_or, arith,
}
use seguridad_en_redes.Openvpn.Mbuf.{
  MbufItem, MbufSet, Store, blank_item, mbuf_index, mbuf_dereference_instance, free_items,
  mbuf_free,
}
use seguridad_en_redes.Openvpn.Mbuf.Ring.{
  wrap, wrap-lt, get_elem?-queued, length-queued, IsRing, queue, index-wrap,
}
use seguridad_en_redes.Openvpn.Mbuf.References.{
  holds, references, refcount_of, IsCounted, mbuf_free_buf_lem,
}
use seguridad_en_redes.Openvpn.Mbuf.References.Added.{IsSound}
use seguridad_en_redes.Openvpn.Mbuf.References.Cleared.{cleared, cleared_from-all, dereference_lem}

-- For a ring whose counts are right, `mbuf_dereference_instance` fails no check and touches no freed
-- buffer; it clears the packets of that instance, and no other, and leaves the counts right.
pub mbuf_dereference_instance-IsSound :
    (ms : MbufSet) (mi : ℕ) (store : Store) (extra : ℕ → ℕ)
    → IsSound ms store extra
    → (ms' : MbufSet) × (store' : Store) × (mbuf_dereference_instance ms mi store
        ≡ some (ms', store'))
      × IsSound ms' store' extra
      × (queue ms' ≡ map (cleared mi) (queue ms))
unfolding mbuf_dereference_instance
mbuf_dereference_instance-IsSound ms mi store extra v =
    let (ms', store', e, v', rest) = dereference_lem ms mi ms.len 0 store extra v (omega arith) in
    (ms', store', e, v', rest ∙ cleared_from-all mi (queue ms))

free_items_lem :
    (ms : MbufSet) (n i : ℕ) (store : Store) (extra : ℕ → ℕ)
    → IsRing ms
    → i + n ≡ ms.len
    → IsCounted store (drop i (queue ms)) extra
    → (store' : Store) × (free_items ms n i store ≡ some store')
      × ((p : ℕ) → refcount_of store' p ≡ extra p)
unfolding free_items references
free_items_lem ms zero i store extra w e counted = (
  store,
  refl,
  λ p.
      let over = length-queued ms.array ms.capacity ms.head ms.len in
      counted p
      ∙ ap (λ l. references l p + extra p) (drop-all i (queue ms) (omega arith))
      ∙ omega arith,
)
free_items_lem ms (suc n) i store extra w e counted =
    let (store₁, freed, counts) =
      mbuf_free_buf_lem store item.buffer λ p. omega (arith, counted p, split p) in
    let (store', f, rest) =
      free_items_lem ms n (suc i) store₁ extra w (omega arith)
        λ p. omega (arith, counts p, counted p, split p) in
    (store', rw (index, at, freed) f, rest)
  where
    place : ℕ
    place = wrap ms.head i ms.capacity

    item : MbufItem
    item = get_or ms.array place blank_item

    here : i < ms.len
    here = omega arith

    index : mbuf_index ms.head i ms.capacity ≡ place
    index = index-wrap ms i w (omega (arith, w.len_in))

    at : get_elem? ms.array place ≡ some item
    at = get_elem?-eq-get_or ms.array place blank_item (
        omega
          (arith, wrap-lt ms.head i ms.capacity w.head_in (omega (arith, w.len_in)), w.full_array))

    in_queue : i < length (queue ms)
    in_queue = omega (arith, length-queued ms.array ms.capacity ms.head ms.len)

    same : get_or (queue ms) i blank_item ≡ item
    same = some_inj (
        sym (get_elem?-eq-get_or (queue ms) i blank_item in_queue)
        ∙ get_elem?-queued ms.array ms.capacity ms.head ms.len i w.head_in w.len_in here)
      where
        some_inj :
            some (get_or (queue ms) i blank_item) ≡ some item
            → get_or (queue ms) i blank_item ≡ item
        some_inj h = cc h

    split :
        (p : ℕ)
        → references (drop i (queue ms)) p
          ≡ holds item.buffer p + references (drop (suc i) (queue ms)) p
    split p =
        ap (λ l. references l p) (drop-eq-cons (queue ms) i blank_item in_queue)
        ∙ ap (λ x. holds x.buffer p + references (drop (suc i) (queue ms)) p) same

-- For a ring whose counts are right, `mbuf_free` touches no freed buffer, and leaves each buffer
-- with the references held elsewhere alone: those with none have been freed.
pub mbuf_free_lem :
    (ms : MbufSet) (store : Store) (extra : ℕ → ℕ)
    → IsSound ms store extra
    → (store' : Store) × (mbuf_free ms store ≡ some store')
      × ((p : ℕ) → refcount_of store' p ≡ extra p)
unfolding mbuf_free
mbuf_free_lem ms store extra v =
    free_items_lem ms ms.len 0 store extra v.ring (omega arith) v.counted
