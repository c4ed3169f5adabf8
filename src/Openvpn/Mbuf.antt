-- ===== src/Openvpn/Mbuf.antt =====
-- vpn/openvpn-2.2.1/mbuf.c and mbuf.h: the ring of packets that wait for client instances, with
-- their shared buffers. A pointer to a buffer is its place in the store; a buffer with no references
-- has been freed. An instance is known by a number. `none` stands for a failed `ASSERT`, an index
-- outside the array, and the use of a null pointer or of a buffer after it was freed.
pub mod Ring
pub mod Queue
pub mod Size
pub mod References
use seguridad_en_redes.Base.{
  ℕ, zero, suc, ◌+◌, ◌-◌, ◌*◌, ◌%◌, ◌^◌, Bool, true, false, not, ◌&&◌, List, [], ◌∷◌, ◌++◌, Option,
  none, some, get_elem?, set, length, replicate, ◌==◌, ltb, leb, if◌then◌else◌, bit_and,
}
use seguridad_en_redes.Openvpn.Checked.{◌>>=◌, ◌>>◌, assert}
use seguridad_en_redes.Openvpn.Buffer.{Buffer}

-- `struct mbuf_buffer`
pub record MbufBuffer : Type 0 where
  pub buf : Buffer
  pub refcount : ℕ
  pub flags : ℕ

-- `struct mbuf_item`
pub record MbufItem : Type 0 where
  pub buffer : Option ℕ
  pub instance_ : Option ℕ

-- `struct mbuf_set`
pub record MbufSet : Type 0 where
  pub head : ℕ
  pub len : ℕ
  pub capacity : ℕ
  pub max_queued : ℕ
  pub array : List MbufItem

-- The buffers that have been allocated.
abbrev pub Store : Type 0
Store = List MbufBuffer

-- The loop of `adjust_power_of_2`, with `n` rounds left; `size_t` has 64 bits.
unfoldable pub double_up : ℕ → ℕ → ℕ → Option ℕ
double_up zero ret u = none
double_up (suc n) ret u =
    let doubled = double_up n (ret * 2 % 2 ^ 64) u in
    if ltb ret u then (if ltb 0 (ret * 2 % 2 ^ 64) then doubled else none) else some ret

-- `adjust_power_of_2` of misc.c
unfoldable pub adjust_power_of_2 : ℕ → Option ℕ
adjust_power_of_2 u = double_up 65 1 u

-- An item of the array before it is first written; what it holds is not read.
abbrev pub blank_item : MbufItem
blank_item = record { buffer = none; instance_ = none }

-- `mbuf_init`; the capacity is an `unsigned int`.
unfoldable pub mbuf_init : ℕ → Option MbufSet
mbuf_init size = do
  adjusted ← adjust_power_of_2 size
  let capacity = adjusted % 2 ^ 32
  some (record {
    head = 0;
    len = 0;
    capacity = capacity;
    max_queued = 0;
    array = replicate capacity blank_item;
  })

-- `MBUF_INDEX`
unfoldable pub mbuf_index : ℕ → ℕ → ℕ → ℕ
mbuf_index head offset size = bit_and (head + offset) (size - 1)

-- `mbuf_alloc_buf`: the store with a buffer more, and its pointer.
unfoldable pub mbuf_alloc_buf : Store → Buffer → Store × ℕ
mbuf_alloc_buf store buf =
    (store ++ (record { buf = buf; refcount = 1; flags = 0 } ∷ []), length store)

-- One reference less; at none left the buffer is freed.
unfoldable pub drop_reference : Store → ℕ → Option Store
drop_reference store p = do
  mb ← get_elem? store p
  assert (ltb 0 mb.refcount)
  some (set store p (record mb { refcount = mb.refcount - 1 }))

-- `mbuf_free_buf`
unfoldable pub mbuf_free_buf : Store → Option ℕ → Option Store
mbuf_free_buf store none = some store
mbuf_free_buf store (some p) = drop_reference store p

-- `++item->buffer->refcount`
unfoldable pub add_reference : Store → Option ℕ → Option Store
add_reference store none = none
add_reference store (some p) = do
  mb ← get_elem? store p
  assert (ltb 0 mb.refcount)
  some (set store p (record mb { refcount = mb.refcount + 1 }))

-- The loop of `mbuf_extract_item`, with `len` items left: items without an instance are passed over.
unfoldable pub extract : ℕ → ℕ → ℕ → List MbufItem → Option (Option MbufItem × ℕ × ℕ)
extract zero head capacity array = some (none, head, 0)
extract (suc n) head capacity array =
    let rest = extract n (mbuf_index head 1 capacity) capacity array in
    elim (get_elem? array head) [
      | none ↦ none
      | some item ↦ elim item.instance_ [
        | none ↦ rest
        | some mi ↦ some (some item, mbuf_index head 1 capacity, n)
      ]
    ]

-- `mbuf_extract_item`: the item, if there is one with an instance.
unfoldable pub mbuf_extract_item : MbufSet → Option (Option MbufItem × MbufSet)
mbuf_extract_item ms = do
  r ← extract ms.len ms.head ms.capacity ms.array
  some (r.0, record ms { head = r.1; len = r.2 })

-- `mbuf_add_item`: a full ring loses its first item.
unfoldable pub make_room : MbufSet → Store → Option (MbufSet × Store)
make_room ms store = elim (ms.len == ms.capacity) [
  | false ↦ some (ms, store)
  | true ↦ do
    r ← mbuf_extract_item ms
    rm ← r.0
    freed ← mbuf_free_buf store rm.buffer
    some (r.1, freed)
]

-- `mbuf_add_item`, with room for the item.
unfoldable pub append_item : MbufSet → MbufItem → Option MbufSet
append_item ms item = do
  assert (ltb ms.len ms.capacity)
  old ← get_elem? ms.array (mbuf_index ms.head ms.len ms.capacity)
  some (record ms {
    len = suc ms.len;
    max_queued = if ltb ms.max_queued (suc ms.len) then suc ms.len else ms.max_queued;
    array = set ms.array (mbuf_index ms.head ms.len ms.capacity) item;
  })

-- `mbuf_add_item`
unfoldable pub mbuf_add_item : MbufSet → Store → MbufItem → Option (MbufSet × Store)
mbuf_add_item ms store item = do
  r ← make_room ms store
  added ← append_item r.0 item
  counted ← add_reference r.1 item.buffer
  some (added, counted)

-- The loop of `mbuf_peek_dowork`, from item `i` on with `n` items left.
unfoldable pub peek : MbufSet → ℕ → ℕ → Option (Option ℕ)
peek ms zero i = some none
peek ms (suc n) i =
    let rest = peek ms n (suc i) in
    elim (get_elem? ms.array (mbuf_index ms.head i ms.capacity)) [
      | none ↦ none
      | some item ↦ elim item.instance_ [ none ↦ rest | some mi ↦ some (some mi) ]
    ]

-- `mbuf_peek`, with `mbuf_defined` and `mbuf_peek_dowork`
unfoldable pub mbuf_peek : MbufSet → Option (Option ℕ)
mbuf_peek ms = if ltb 0 ms.len then peek ms ms.len 0 else some none

-- `item->instance == mi`
unfoldable pub is_for : ℕ → MbufItem → Bool
is_for mi item = elim item.instance_ [ none ↦ false | some i ↦ i == mi ]

-- The loop of `mbuf_dereference_instance`, from item `i` on with `n` items left.
unfoldable pub dereference : MbufSet → ℕ → ℕ → ℕ → Store → Option (MbufSet × Store)
dereference ms mi zero i store = some (ms, store)
dereference ms mi (suc n) i store = do
  item ← get_elem? ms.array (mbuf_index ms.head i ms.capacity)
  freed ← (if is_for mi item then mbuf_free_buf store item.buffer else some store)
  dereference
      (if is_for mi item
        then record ms { array = set ms.array (mbuf_index ms.head i ms.capacity) blank_item }
        else ms)
      mi n (suc i) freed

-- `mbuf_dereference_instance`
unfoldable pub mbuf_dereference_instance : MbufSet → ℕ → Store → Option (MbufSet × Store)
mbuf_dereference_instance ms mi store = dereference ms mi ms.len 0 store

-- The loop of `mbuf_free`.
unfoldable pub free_items : MbufSet → ℕ → ℕ → Store → Option Store
free_items ms zero i store = some store
free_items ms (suc n) i store = do
  item ← get_elem? ms.array (mbuf_index ms.head i ms.capacity)
  freed ← mbuf_free_buf store item.buffer
  free_items ms n (suc i) freed

-- `mbuf_free`
unfoldable pub mbuf_free : MbufSet → Store → Option Store
mbuf_free ms store = free_items ms ms.len 0 store
