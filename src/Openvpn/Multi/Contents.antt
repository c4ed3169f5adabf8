-- ===== src/Openvpn/Multi/Contents.antt =====
-- The queue of vpn/openvpn-2.2.1/mbuf.c and multi.c never changes what its buffers hold.
use seguridad_en_redes.Base.{
  ℕ, zero, suc, ◌+◌, ◌-◌, ◌≡◌, refl, sym, ap, ◌∙◌, Bool, true, false, List, [], ◌∷◌, ◌++◌, Option,
  none, some, get_elem?, set, ltb, ◌==◌, if◌then◌else◌,
}
use mathlib.Core.Path.{subst}
use seguridad_en_redes.Openvpn.Checked.{◌>>=◌, ◌>>◌, assert}
use seguridad_en_redes.Openvpn.Returns.{Returns, bind-Returns, returned, anything}
use seguridad_en_redes.Openvpn.Buffer.{Buffer}
use seguridad_en_redes.Openvpn.Mbuf.{
  MbufBuffer, MbufItem, MbufSet, Store, drop_reference, mbuf_free_buf, add_reference,
  mbuf_extract_item, make_room, append_item, mbuf_add_item,
}
use seguridad_en_redes.Openvpn.Multi.{multi_add_mbuf, add_all}

-- The contents of the buffers, freed ones too.
abbrev pub contents : Store → List Buffer
contents [] = []
contents (mb ∷ store) = mb.buf ∷ contents store

pub contents-append :
    (store : Store) (mb : MbufBuffer)
    → contents (store ++ (mb ∷ [])) ≡ contents store ++ (mb.buf ∷ [])
contents-append [] mb = refl
contents-append (x ∷ store) mb = ap (◌∷◌ x.buf) (contents-append store mb)

contents-set :
    (store : Store) (p : ℕ) (mb mb' : MbufBuffer)
    → get_elem? store p ≡ some mb
    → mb'.buf ≡ mb.buf
    → contents (set store p mb') ≡ contents store
contents-set [] p mb mb' at same = refl
contents-set (x ∷ store) zero mb mb' at same =
    let here : x ≡ mb = cc at in
    ap (λ b. b ∷ contents store) (same ∙ ap (λ (y : MbufBuffer). y.buf) (sym here))
contents-set (x ∷ store) (suc p) mb mb' at same =
    ap (◌∷◌ x.buf) (contents-set store p mb mb' at same)

abbrev Keeps : Store → Store → Type 0
Keeps store store' = contents store' ≡ contents store

abbrev KeepsBoth : Store → MbufSet × Store → Type 0
KeepsBoth store r = contents r.1 ≡ contents store

changed-Keeps :
    (store : Store) (p : ℕ) (change : MbufBuffer → MbufBuffer)
    → ((mb : MbufBuffer) → (change mb).buf ≡ mb.buf)
    → Returns
        (Keeps store)
        (do mb ← get_elem? store p; assert (ltb 0 mb.refcount); some (set store p (change mb)))
changed-Keeps store p change same =
    bind-Returns (λ mb. get_elem? store p ≡ some mb) (Keeps store) (get_elem? store p)
      (λ mb. assert (ltb 0 mb.refcount) >> some (set store p (change mb)))
      (returned (get_elem? store p))
      (λ mb at.
        by_test (ltb 0 mb.refcount) (set store p (change mb))
          (contents-set store p mb (change mb) at (same mb)))
  where
    by_test :
        (b : Bool) (store' : Store)
        → Keeps store store'
        → Returns (Keeps store) (assert b >> some store')
    by_test true store' h = h
    by_test false store' h = tt

mbuf_free_buf-Keeps :
    (store : Store) (pointer : Option ℕ) → Returns (Keeps store) (mbuf_free_buf store pointer)
unfolding mbuf_free_buf drop_reference
mbuf_free_buf-Keeps store none = refl
mbuf_free_buf-Keeps store (some p) =
    changed-Keeps store p (λ mb. record mb { refcount = mb.refcount - 1 }) (λ mb. refl)

add_reference-Keeps :
    (store : Store) (pointer : Option ℕ) → Returns (Keeps store) (add_reference store pointer)
unfolding add_reference
add_reference-Keeps store none = tt
add_reference-Keeps store (some p) =
    changed-Keeps store p (λ mb. record mb { refcount = mb.refcount + 1 }) (λ mb. refl)

make_room-Keeps : (ms : MbufSet) (store : Store) → Returns (KeepsBoth store) (make_room ms store)
unfolding make_room
make_room-Keeps ms store = by_test (ms.len == ms.capacity)
  where
    lost : Option (MbufSet × Store)
    lost = do
      r ← mbuf_extract_item ms
      rm ← r.0
      freed ← mbuf_free_buf store rm.buffer
      some (r.1, freed)

    lost-Keeps : Returns (KeepsBoth store) lost
    lost-Keeps =
        bind-Returns (λ r. Unit) (KeepsBoth store) (mbuf_extract_item ms)
          (λ r. r.0 >>= λ rm. mbuf_free_buf store rm.buffer >>= λ freed. some (r.1, freed))
          (anything (mbuf_extract_item ms))
          (λ r _.
            bind-Returns (λ rm. Unit) (KeepsBoth store) r.0
              (λ rm. mbuf_free_buf store rm.buffer >>= λ freed. some (r.1, freed)) (anything r.0)
              (λ rm _.
                bind-Returns (Keeps store) (KeepsBoth store) (mbuf_free_buf store rm.buffer)
                  (λ freed. some (r.1, freed)) (mbuf_free_buf-Keeps store rm.buffer)
                  (λ freed h. h)))

    by_test :
        (full : Bool)
        → Returns (KeepsBoth store) (elim full [ false ↦ some (ms, store) | true ↦ lost ])
    by_test false = refl
    by_test true = lost-Keeps

mbuf_add_item-Keeps :
    (ms : MbufSet) (store : Store) (item : MbufItem)
    → Returns (KeepsBoth store) (mbuf_add_item ms store item)
unfolding mbuf_add_item
mbuf_add_item-Keeps ms store item =
    bind-Returns (KeepsBoth store) (KeepsBoth store) (make_room ms store)
      (λ r. append_item r.0 item >>= λ added.
        add_reference r.1 item.buffer >>= λ counted. some (added, counted))
      (make_room-Keeps ms store)
      (λ r h.
        bind-Returns (λ added. Unit) (KeepsBoth store) (append_item r.0 item)
          (λ added. add_reference r.1 item.buffer >>= λ counted. some (added, counted))
          (anything (append_item r.0 item))
          (λ added _.
            bind-Returns (Keeps r.1) (KeepsBoth store) (add_reference r.1 item.buffer)
              (λ counted. some (added, counted)) (add_reference-Keeps r.1 item.buffer)
              (λ counted k. k ∙ h)))

multi_add_mbuf-Keeps :
    (ready : ℕ → Bool) (ms : MbufSet) (store : Store) (mi mb : ℕ)
    → Returns (KeepsBoth store) (multi_add_mbuf ready ms store mi mb)
unfolding multi_add_mbuf
multi_add_mbuf-Keeps ready ms store mi mb = by_test (ready mi)
  where
    item : MbufItem
    item = record { buffer = some mb; instance_ = some mi }

    by_test :
        (b : Bool)
        → Returns (KeepsBoth store) (if b then mbuf_add_item ms store item else some (ms, store))
    by_test true = mbuf_add_item-Keeps ms store item
    by_test false = refl

add_all-Keeps :
    (pass ready : ℕ → Bool) (ms : MbufSet) (store : Store) (iter : List ℕ) (mb : ℕ)
    → Returns (KeepsBoth store) (add_all pass ready ms store iter mb)
unfolding add_all
add_all-Keeps pass ready ms store [] mb = refl
add_all-Keeps pass ready ms store (mi ∷ iter) mb =
    bind-Returns (KeepsBoth store) (KeepsBoth store)
      (if pass mi then multi_add_mbuf ready ms store mi mb else some (ms, store))
      (λ r. add_all pass ready r.0 r.1 iter mb) (by_test (pass mi))
      (λ r h.
        onto r.1 h (add_all pass ready r.0 r.1 iter mb) (add_all-Keeps pass ready r.0 r.1 iter mb))
  where
    by_test :
        (b : Bool)
        → Returns
            (KeepsBoth store)
            (if b then multi_add_mbuf ready ms store mi mb else some (ms, store))
    by_test true = multi_add_mbuf-Keeps ready ms store mi mb
    by_test false = refl

    onto :
        (before : Store)
        → contents before ≡ contents store
        → (m : Option (MbufSet × Store)) → Returns (KeepsBoth before) m
        → Returns (KeepsBoth store) m
    onto before h none k = tt
    onto before h (some r) k = k ∙ h

-- The results of the loop of `multi_bcast`, and of the freeing after it.
pub add_all-contents :
    (pass ready : ℕ → Bool) (ms ms' : MbufSet) (store store' : Store) (iter : List ℕ) (mb : ℕ)
    → add_all pass ready ms store iter mb ≡ some (ms', store')
    → contents store' ≡ contents store
add_all-contents pass ready ms ms' store store' iter mb e =
    subst (Returns (KeepsBoth store)) e (add_all-Keeps pass ready ms store iter mb)

pub mbuf_free_buf-contents :
    (store store' : Store) (pointer : Option ℕ)
    → mbuf_free_buf store pointer ≡ some store'
    → contents store' ≡ contents store
mbuf_free_buf-contents store store' pointer e =
    subst (Returns (Keeps store)) e (mbuf_free_buf-Keeps store pointer)
