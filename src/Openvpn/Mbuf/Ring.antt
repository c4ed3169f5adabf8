-- ===== src/Openvpn/Mbuf/Ring.antt =====
-- The queue that stands in the ring of vpn/openvpn-2.2.1/mbuf.c.
use seguridad_en_redes.Base.{
  ℕ, zero, suc, ◌+◌, ◌-◌, ◌≤◌, ◌<◌, ◌≡◌, ◌≢◌, refl, sym, ap, ap₂, ◌∙◌, inl, inr, List, [], ◌∷◌,
  ◌++◌, some, get_elem?, get_or, set, length, get_or-set_self, get_or-set_ne, leb, if◌then◌else◌,
  Bool-cases, power, bit_and-mask, arith,
}
use native.Mathlib.Nat.{mod-eq_of_lt, mod-eq-sub-mod}
use seguridad_en_redes.Openvpn.Mbuf.{MbufItem, MbufSet, blank_item, mbuf_index}

-- The place `i` behind the head, in a ring of `cap` places.
abbrev pub wrap : ℕ → ℕ → ℕ → ℕ
wrap head i size = if leb size (head + i) then head + i - size else head + i

pub mbuf_index-wrap :
    (k head i : ℕ)
    → head < power k
    → i ≤ power k
    → mbuf_index head i (power k) ≡ wrap head i (power k)
unfolding mbuf_index
mbuf_index-wrap k head i lt le =
    bit_and-mask (head + i) k ∙ elim (Bool-cases (leb (power k) (head + i))) [
      | inl over ↦ rw over (mod-eq-sub-mod (ground (arith, over)) ∙ mod-eq_of_lt (omega arith))
      | inr within ↦ rw within (mod-eq_of_lt (ground (arith, within)))
    ]

pub wrap-lt : (head i size : ℕ) → head < size → i ≤ size → wrap head i size < size
wrap-lt head i size lt le = ground arith

pub wrap-wrap :
    (head i size : ℕ)
    → head < size
    → i < size
    → wrap (wrap head 1 size) i size ≡ wrap head (suc i) size
wrap-wrap head i size lt le = ground arith

wrap_ne : (head i size : ℕ) → head < size → suc i < size → wrap head (suc i) size ≢ head
wrap_ne head i size lt le e = ground arith

-- The `n` items from the head on.
abbrev pub queued : List MbufItem → ℕ → ℕ → ℕ → List MbufItem
queued array size head zero = []
queued array size head (suc n) =
    get_or array head blank_item ∷ queued array size (wrap head 1 size) n

pub length-queued :
    (array : List MbufItem) (size head n : ℕ) → length (queued array size head n) ≡ n
length-queued array size head zero = refl
length-queued array size head (suc n) = ap suc (length-queued array size (wrap head 1 size) n)

-- The item at a place of the queue.
pub get_elem?-queued :
    (array : List MbufItem) (size head n i : ℕ)
    → head < size
    → n ≤ size
    → i < n
    → get_elem? (queued array size head n) i ≡ some (get_or array (wrap head i size) blank_item)
get_elem?-queued array size head zero i lt le h = absurd (omega arith)
get_elem?-queued array size head (suc n) zero lt le h =
    let here : head ≡ wrap head 0 size = ground arith in
    ap (λ j. some (get_or array j blank_item)) here
get_elem?-queued array size head (suc n) (suc i) lt le h =
    get_elem?-queued array size (wrap head 1 size) n i (wrap-lt head 1 size lt (omega arith))
      (omega arith) (omega arith)
    ∙ ap (λ j. some (get_or array j blank_item)) (wrap-wrap head i size lt (omega arith))

-- A store behind the queue makes it longer.
pub queued-append :
    (array : List MbufItem) (size head n : ℕ) (item : MbufItem)
    → length array ≡ size
    → head < size
    → n < size
    → queued (set array (wrap head n size) item) size head (suc n)
      ≡ queued array size head n ++ (item ∷ [])
queued-append array size head zero item e lt h =
    let here : wrap head 0 size ≡ head = ground arith in
    ap (λ j. get_or (set array j item) head blank_item ∷ []) here
    ∙ ap (λ x. x ∷ []) (get_or-set_self array head item blank_item (omega arith))
queued-append array size head (suc n) item e lt h =
    ap₂ ◌∷◌
      (get_or-set_ne array (wrap head (suc n) size) head item blank_item (wrap_ne head n size lt h))
      (ap (λ j. queued (set array j item) size (wrap head 1 size) (suc n))
          (sym (wrap-wrap head n size lt (omega arith)))
        ∙ queued-append array size (wrap head 1 size) n item e
            (wrap-lt head 1 size lt (omega arith)) (omega arith))

-- A store at a place that is not of the queue does not change it.
queued-set_outside :
    (array : List MbufItem) (size head n j : ℕ) (item : MbufItem)
    → head < size
    → n ≤ size
    → ((i : ℕ) → i < n → j ≢ wrap head i size)
    → queued (set array j item) size head n ≡ queued array size head n
queued-set_outside array size head zero j item lt le h = refl
queued-set_outside array size head (suc n) j item lt le h =
    ap₂ ◌∷◌
      (get_or-set_ne array j head item blank_item
        λ e. h 0 (omega arith) (let here : head ≡ wrap head 0 size = ground arith in e ∙ here))
      (queued-set_outside array size (wrap head 1 size) n j item
        (wrap-lt head 1 size lt (omega arith)) (omega arith)
        λ i k e. h (suc i) (omega arith) (e ∙ wrap-wrap head i size lt (omega arith)))

-- A store at a place of the queue changes the item there.
pub queued-set :
    (array : List MbufItem) (size head n i : ℕ) (item : MbufItem)
    → length array ≡ size
    → head < size
    → n ≤ size
    → i < n
    → queued (set array (wrap head i size) item) size head n ≡ set (queued array size head n) i item
queued-set array size head zero i item e lt le h = absurd (omega arith)
queued-set array size head (suc n) zero item e lt le h =
    let here : wrap head 0 size ≡ head = ground arith in
    ap (λ j. queued (set array j item) size head (suc n)) here
    ∙ ap₂ ◌∷◌ (get_or-set_self array head item blank_item (omega arith)) (
        queued-set_outside array size (wrap head 1 size) n head item
          (wrap-lt head 1 size lt (omega arith)) (omega arith)
          λ i k eq.
            wrap_ne head i size lt (omega arith)
              (sym (eq ∙ wrap-wrap head i size lt (omega arith))))
queued-set array size head (suc n) (suc i) item e lt le h =
    ap₂ ◌∷◌
      (get_or-set_ne array (wrap head (suc i) size) head item blank_item
        (wrap_ne head i size lt (omega arith)))
      (ap (λ j. queued (set array j item) size (wrap head 1 size) n)
          (sym (wrap-wrap head i size lt (omega arith)))
        ∙ queued-set array size (wrap head 1 size) n i item e (wrap-lt head 1 size lt (omega arith))
            (omega arith) (omega arith))

-- A ring: its capacity is a power of two, and head and length are in range.
pub record IsRing (ms : MbufSet) : Type 0 where
  pub exponent : ℕ
  pub size : ms.capacity ≡ power exponent
  pub full_array : length ms.array ≡ ms.capacity
  pub head_in : ms.head < ms.capacity
  pub len_in : ms.len ≤ ms.capacity

-- The queue in the ring.
abbrev pub queue : MbufSet → List MbufItem
queue ms = queued ms.array ms.capacity ms.head ms.len

pub index-wrap :
    (ms : MbufSet) (i : ℕ)
    → IsRing ms
    → i ≤ ms.capacity
    → mbuf_index ms.head i ms.capacity ≡ wrap ms.head i ms.capacity
index-wrap ms i w le = rw w.size (
    mbuf_index-wrap w.exponent ms.head i (omega (arith, w.head_in, w.size))
      (omega (arith, le, w.size)))
