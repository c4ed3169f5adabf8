-- ===== src/Openvpn/Mbuf/References/Added.antt =====
-- Adding a packet to the ring of vpn/openvpn-2.2.1/mbuf.c.
use seguridad_en_redes.Base.{
  ℕ, ◌≤◌, ◌<◌, ◌≡◌, ◌≢◌, refl, sym, ap, ◌∙◌, inl, inr, true, List, [], ◌∷◌, ◌++◌, none, some,
  length, ◌==◌, if◌then◌else◌, Bool-cases, Option-cases, arith,
}
use mathlib.Core.Path.{subst}
use seguridad_en_redes.Openvpn.Mbuf.{MbufItem, MbufSet, Store, make_room, mbuf_add_item}
use seguridad_en_redes.Openvpn.Mbuf.Ring.{IsRing, queue, length-queued}
use seguridad_en_redes.Openvpn.Mbuf.Queue.{
  first, behind, first_absent, behind_absent, behind_present, mbuf_extract_item-queue,
  append_item-queue,
}
use seguridad_en_redes.Openvpn.Mbuf.References.{
  references, IsCounted, AreWhole, mbuf_free_buf_lem, add_reference_lem, references-append,
  AreWhole-append, references-behind, AreWhole-behind,
}

-- The queue without the packet that a full ring loses.
abbrev pub after_room : MbufSet → List MbufItem
after_room ms = if ms.len == ms.capacity then behind (queue ms) else queue ms

-- A ring, its queue in order, and the counts right.
pub record IsSound (ms : MbufSet) (store : Store) (extra : ℕ → ℕ) : Type 0 where
  pub ring : IsRing ms
  pub whole : AreWhole (queue ms)
  pub counted : IsCounted store (queue ms) extra

length-behind :
    (items : List MbufItem) (item : MbufItem)
    → first items ≡ some item
    → length (behind items) < length items
length-behind [] item h = absurd (cc h)
length-behind (x ∷ items) item h = elim (Option-cases x.instance_) [
  | inl absent ↦
      rw (behind_absent x items absent)
        (omega (arith, length-behind items item (sym (first_absent x items absent) ∙ h)))
  | inr (mi, present) ↦ rw (behind_present x items mi present) (omega arith)
]

-- A queue that has lost a packet leaves room.
shorter :
    (ms ms' : MbufSet) (item : MbufItem)
    → first (queue ms) ≡ some item
    → queue ms' ≡ behind (queue ms)
    → ms'.capacity ≡ ms.capacity
    → ms.len ≤ ms.capacity
    → ms'.len < ms'.capacity
shorter ms ms' item found rest size le = omega (
  arith,
  length-queued ms.array ms.capacity ms.head ms.len,
  length-queued ms'.array ms'.capacity ms'.head ms'.len,
  ap length rest,
  length-behind (queue ms) item found,
)

make_room-IsSound :
    (ms : MbufSet) (store : Store) (extra : ℕ → ℕ)
    → IsSound ms store extra
    → ((ms.len == ms.capacity) ≡ true → first (queue ms) ≢ none)
    → (ms' : MbufSet) × (store' : Store) × (make_room ms store ≡ some (ms', store'))
      × IsSound ms' store' extra
      × (queue ms' ≡ after_room ms)
      × (ms'.len < ms'.capacity)
      × (ms'.capacity ≡ ms.capacity)
unfolding make_room
make_room-IsSound ms store extra v live = elim (Bool-cases (ms.len == ms.capacity)) [
  | inr room ↦ (
    ms,
    store,
    rw (room, make_room) refl,
    v,
    rw room refl,
    ground (arith, room, v.ring.len_in),
    refl,
  )
  | inl full ↦ elim (Option-cases (first (queue ms))) [
    | inl nothing ↦ absurd (live full nothing)
    | inr (rm, found) ↦
        let (ms', e, ring, rest, size) = mbuf_extract_item-queue ms v.ring in
        let out = λ (p : ℕ). references-behind (queue ms) rm p v.whole found in
        let (store', freed, counts) =
          mbuf_free_buf_lem store rm.buffer λ p. omega (arith, out p, v.counted p) in
        (
          ms',
          store',
          rw (full, make_room, e, found, freed) refl,
          record {
            ring = ring;
            whole = subst AreWhole (sym rest) (AreWhole-behind (queue ms) v.whole);
            counted =
                λ p. omega (arith, counts p, out p, v.counted p, ap (λ q. references q p) rest);
          },
          rw full rest,
          shorter ms ms' rm found rest size v.ring.len_in,
          size,
        )
  ]
]

-- For a ring whose counts are right, and a packet for an instance, in a buffer that the caller holds
-- a reference to: `mbuf_add_item` fails no check and touches no freed buffer, unless the ring is
-- full and none of its packets has an instance. It leaves the queue with the packet at its end, a
-- full one without its first packet that had an instance and those before it, and the counts
-- right, so that the buffer of the packet lost is freed if that was its last reference.
pub mbuf_add_item-IsSound :
    (ms : MbufSet) (store : Store) (extra : ℕ → ℕ) (p mi : ℕ)
    → IsSound ms store extra
    → 0 < extra p
    → ((ms.len == ms.capacity) ≡ true → first (queue ms) ≢ none)
    → let item : MbufItem = record { buffer = some p; instance_ = some mi } in
      (ms' : MbufSet) × (store' : Store) × (mbuf_add_item ms store item ≡ some (ms', store'))
      × IsSound ms' store' extra
      × (queue ms' ≡ after_room ms ++ (item ∷ []))
      × (ms'.capacity ≡ ms.capacity)
unfolding mbuf_add_item references
mbuf_add_item-IsSound ms store extra p mi v own live =
    let (ms₁, store₁, room, v₁, rest, space, size) = make_room-IsSound ms store extra v live in
    let (ms₂, e, ring, longer, size₂) = append_item-queue ms₁ item v₁.ring space in
    let (store₂, f, counts) = add_reference_lem store₁ p (omega (arith, v₁.counted p)) in
    (
      ms₂,
      store₂,
      rw (room, e, f) refl,
      record {
        ring = ring;
        whole =
            subst AreWhole (sym longer)
              (AreWhole-append (queue ms₁) (item ∷ []) v₁.whole ((λ h. absurd (cc h)), tt));
        counted = λ q. omega (
          arith,
          counts q,
          v₁.counted q,
          ap (λ l. references l q) longer,
          references-append (queue ms₁) (item ∷ []) q,
        );
      },
      longer ∙ ap (λ l. l ++ (item ∷ [])) rest,
      size₂ ∙ size,
    )
  where
    item : MbufItem
    item = record { buffer = some p; instance_ = some mi }

-- On a full ring none of whose packets has an instance any more, `mbuf_add_item` ends the process:
-- it asserts that there is a packet to lose, and there is none.
pub mbuf_add_item-full :
    (ms : MbufSet) (store : Store) (item : MbufItem)
    → IsRing ms
    → ms.len ≡ ms.capacity
    → first (queue ms) ≡ none
    → mbuf_add_item ms store item ≡ none
unfolding mbuf_add_item make_room
mbuf_add_item-full ms store item ring full nothing =
    let (ms', e, _, _, _) = mbuf_extract_item-queue ms ring in
    let is_full : (ms.len == ms.capacity) ≡ true = ground (arith, full) in
    let stuck : make_room ms store ≡ none = rw (is_full, make_room, e, nothing) refl in
    rw stuck refl
