-- ===== src/Openvpn/CircList/Laws.antt =====
-- The circular list of vpn/openvpn-2.2.1/circ_list.h as a bounded history: a push shifts every item
-- by one place and forgets the oldest when the list is full.
use seguridad_en_redes.Base.{
  ℕ, suc, ◌+◌, ◌≤◌, ◌<◌, ◌≡◌, ◌≢◌, refl, sym, ap, ◌∙◌, some, get_elem?, set, length, length-set,
  length-replicate, min, lt→ltb, arith,
}
use seguridad_en_redes.Openvpn.CircList.{
  CircList, circ_list_alloc, circ_list_push, circ_list_index, circ_list_item, circ_list_set,
}
use seguridad_en_redes.Openvpn.CircList.Places.{
  get_elem?-some, get_elem?-set_self, get_elem?-set_ne, put_lem, place, before, modulo_add_lem,
  modulo_sub_lem, place-before, place-lt, before-lt, place-ne, place-zero, before-ne,
}

module _ {ℓ} {A : Type ℓ} where
  -- The head is a place of the array, and there are at most as many items as places.
  pub record IsWell (l : CircList A) : Type ℓ where
    pub head-lt : l.x_head < l.x_cap
    pub length-list : length l.x_list ≡ l.x_cap
    pub size-le : l.x_size ≤ l.x_cap

  pub circ_list_alloc-IsWell : (z : A) (n : ℕ) → 0 < n → IsWell (circ_list_alloc z n)
  unfolding circ_list_alloc
  circ_list_alloc-IsWell z n h = record {
    head-lt = h;
    length-list = length-replicate n z;
    size-le = omega arith;
  }

  index_lem :
      (l : CircList A) (w : IsWell l) (i : ℕ)
      → i < l.x_size
      → circ_list_index l i ≡ some (place l.x_head i l.x_cap)
  unfolding circ_list_index
  index_lem l w i h =
      rw (lt→ltb i l.x_size h)
        (modulo_add_lem l.x_head i l.x_cap w.head-lt (omega (arith, w.size-le)))

  item_lem :
      (l : CircList A) (w : IsWell l) (i : ℕ)
      → i < l.x_size
      → circ_list_item l i ≡ get_elem? l.x_list (place l.x_head i l.x_cap)
  unfolding circ_list_item
  item_lem l w i h = rw (index_lem l w i h) refl

  pub circ_list_item-some :
      (l : CircList A) (w : IsWell l) (i : ℕ)
      → i < l.x_size
      → (a : A) × (circ_list_item l i ≡ some a)
  circ_list_item-some l w i h =
      let (a, e) = get_elem?-some l.x_list (place l.x_head i l.x_cap) in_list in
      (a, item_lem l w i h ∙ e)
    where
      in_list : place l.x_head i l.x_cap < length l.x_list
      in_list =
          omega
            (arith, place-lt l.x_head i l.x_cap w.head-lt (omega (arith, w.size-le)), w.length-list)

  -- What a push promises.
  pub record Pushed (l : CircList A) (v : A) (l' : CircList A) : Type ℓ where
    pub well : IsWell l'
    pub cap : l'.x_cap ≡ l.x_cap
    pub size : l'.x_size ≡ min (l.x_size + 1) l.x_cap
    pub newest : circ_list_item l' 0 ≡ some v
    pub older : (i : ℕ) → suc i < l'.x_size → circ_list_item l' (suc i) ≡ circ_list_item l i

  -- On a list whose head is a place of its array and whose size is at most its capacity,
  -- `CIRC_LIST_PUSH` fails no assertion and writes inside the array; after it item 0 is the one
  -- pushed, item `i + 1` is what item `i` was, and the size has grown by one up to the capacity, so
  -- that of a full list the oldest item is forgotten.
  pub circ_list_push-Pushed :
      (l : CircList A) (v : A)
      → IsWell l
      → (l' : CircList A) × (circ_list_push l v ≡ some l') × Pushed l v l'
  unfolding circ_list_push
  circ_list_push-Pushed l v w = (
    after,
    runs,
    record {
      well = well;
      cap = refl;
      size = refl;
      newest =
          item_lem after well 0 (ground (arith, w.head-lt))
          ∙ ap (λ i. get_elem? after.x_list i)
              (place-zero (before l.x_head l.x_cap) l.x_cap head_lt)
          ∙ get_elem?-set_self l.x_list (before l.x_head l.x_cap) v in_list;
      older = λ i h.
          item_lem after well (suc i) h
          ∙ ap (λ j. get_elem? after.x_list j)
              (place-before l.x_head i l.x_cap w.head-lt (ground (arith, h)))
          ∙ get_elem?-set_ne l.x_list (before l.x_head l.x_cap) (place l.x_head i l.x_cap) v
              (before-ne l.x_head i l.x_cap w.head-lt (ground (arith, h)))
          ∙ sym (item_lem l w i (ground (arith, h)));
    },
  )
    where
      head_lt : before l.x_head l.x_cap < l.x_cap
      head_lt = before-lt l.x_head l.x_cap w.head-lt

      in_list : before l.x_head l.x_cap < length l.x_list
      in_list = omega (arith, head_lt, w.length-list)

      after : CircList A
      after = record {
        x_head = before l.x_head l.x_cap;
        x_size = min (l.x_size + 1) l.x_cap;
        x_cap = l.x_cap;
        x_list = set l.x_list (before l.x_head l.x_cap) v;
      }

      well : IsWell after
      well = record {
        head-lt = head_lt;
        length-list = length-set l.x_list (before l.x_head l.x_cap) v ∙ w.length-list;
        size-le = omega arith;
      }

      runs : circ_list_push l v ≡ some after
      runs =
          rw
            (
              modulo_sub_lem l.x_head l.x_cap w.head-lt,
              put_lem l.x_list (before l.x_head l.x_cap) v in_list,
            )
            refl

  -- What an assignment to an item promises.
  pub record Assigned (l : CircList A) (i : ℕ) (v : A) (l' : CircList A) : Type ℓ where
    pub well : IsWell l'
    pub cap : l'.x_cap ≡ l.x_cap
    pub size : l'.x_size ≡ l.x_size
    pub here : circ_list_item l' i ≡ some v
    pub elsewhere : (j : ℕ) → j < l.x_size → i ≢ j → circ_list_item l' j ≡ circ_list_item l j

  -- On such a list (the head a place of the array, the size at most the capacity) and an index
  -- below the size, an assignment to `CIRC_LIST_ITEM` fails no assertion and writes inside the
  -- array; after it that item has the new value, the other items and the size are as before.
  pub circ_list_set-Assigned :
      (l : CircList A) (i : ℕ) (v : A)
      → IsWell l
      → i < l.x_size
      → (l' : CircList A) × (circ_list_set l i v ≡ some l') × Assigned l i v l'
  unfolding circ_list_set
  circ_list_set-Assigned l i v w h = (
    after,
    runs,
    record {
      well = well;
      cap = refl;
      size = refl;
      here =
          item_lem after well i h
          ∙ get_elem?-set_self l.x_list (place l.x_head i l.x_cap) v in_list;
      elsewhere = λ j k ne.
          item_lem after well j k
          ∙ get_elem?-set_ne l.x_list (place l.x_head i l.x_cap) (place l.x_head j l.x_cap) v
              (place-ne l.x_head i j l.x_cap w.head-lt in_cap (omega (arith, k, w.size-le)) ne)
          ∙ sym (item_lem l w j k);
    },
  )
    where
      in_cap : i < l.x_cap
      in_cap = omega (arith, h, w.size-le)

      in_list : place l.x_head i l.x_cap < length l.x_list
      in_list = omega (arith, place-lt l.x_head i l.x_cap w.head-lt in_cap, w.length-list)

      after : CircList A
      after = record {
        x_head = l.x_head;
        x_size = l.x_size;
        x_cap = l.x_cap;
        x_list = set l.x_list (place l.x_head i l.x_cap) v;
      }

      well : IsWell after
      well = record {
        head-lt = w.head-lt;
        length-list = length-set l.x_list (place l.x_head i l.x_cap) v ∙ w.length-list;
        size-le = w.size-le;
      }

      runs : circ_list_set l i v ≡ some after
      runs = rw (index_lem l w i h, put_lem l.x_list (place l.x_head i l.x_cap) v in_list) refl
