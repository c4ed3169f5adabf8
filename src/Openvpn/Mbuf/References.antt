-- ===== src/Openvpn/Mbuf/References.antt =====
-- The reference counts of vpn/openvpn-2.2.1/mbuf.c.
pub mod Added
pub mod Cleared
pub mod Freed
use seguridad_en_redes.Base.{
  ℕ, zero, suc, ◌+◌, ◌-◌, ◌≤◌, ◌<◌, ◌≡◌, ◌≢◌, refl, sym, ap, ◌∙◌, inl, inr, Bool, true, false, List,
  [], ◌∷◌, ◌++◌, Option, none, some, get_elem?, set, length, ltb, ◌==◌, if◌then◌else◌, Bool-cases,
  Option-cases, arith,
}
use mathlib.Core.Path.{subst}
use seguridad_en_redes.Openvpn.Checked.{◌>>=◌, ◌>>◌, assert}
use seguridad_en_redes.Openvpn.Mbuf.{
  MbufBuffer, MbufItem, MbufSet, Store, blank_item, drop_reference, mbuf_free_buf, add_reference,
}
use seguridad_en_redes.Openvpn.Mbuf.Queue.{
  first, behind, first_absent, behind_absent, first_present, behind_present,
}

-- Whether a pointer is `p`, as a number.
abbrev pub holds : Option ℕ → ℕ → ℕ
holds none p = 0
holds (some q) p = if q == p then 1 else 0

-- How many items point to buffer `p`.
unfoldable pub references : List MbufItem → ℕ → ℕ
references [] p = 0
references (item ∷ items) p = holds item.buffer p + references items p

-- The reference count of buffer `p`; of none there is 0.
unfoldable pub refcount_of : Store → ℕ → ℕ
refcount_of [] p = 0
refcount_of (mb ∷ store) zero = mb.refcount
refcount_of (mb ∷ store) (suc p) = refcount_of store p

-- Each buffer's count is the number of items that point to it, and of the `extra` references that
-- are held elsewhere.
abbrev pub IsCounted : Store → List MbufItem → (ℕ → ℕ) → Type 0
IsCounted store items extra = (p : ℕ) → refcount_of store p ≡ references items p + extra p

-- An item with no instance has no buffer either.
abbrev pub IsWhole : MbufItem → Type 0
IsWhole item = item.instance_ ≡ none → item.buffer ≡ none

abbrev pub AreWhole : List MbufItem → Type 0
AreWhole [] = Unit
AreWhole (item ∷ items) = IsWhole item × AreWhole items

-- The buffer with a count that is not 0 is in the store.
counted-get :
    (store : Store) (p : ℕ)
    → 0 < refcount_of store p
    → (mb : MbufBuffer) × (get_elem? store p ≡ some mb) × (mb.refcount ≡ refcount_of store p)
unfolding refcount_of
counted-get [] p h = absurd (omega arith)
counted-get (mb ∷ store) zero h = (mb, refl, refl)
counted-get (mb ∷ store) (suc p) h = counted-get store p h

refcount_of-set :
    (store : Store) (p q : ℕ) (mb mb' : MbufBuffer)
    → get_elem? store p ≡ some mb
    → refcount_of (set store p mb') q ≡ (if p == q then mb'.refcount else refcount_of store q)
unfolding refcount_of
refcount_of-set [] p q mb mb' h = absurd (cc h)
refcount_of-set (x ∷ store) zero zero mb mb' h = refl
refcount_of-set (x ∷ store) zero (suc q) mb mb' h = ground arith
refcount_of-set (x ∷ store) (suc p) zero mb mb' h = ground arith
refcount_of-set (x ∷ store) (suc p) (suc q) mb mb' h =
    let rest = refcount_of-set store p q mb mb' h in ground (arith, rest)

-- Freeing a buffer that is referred to gives back one reference.
pub mbuf_free_buf_lem :
    (store : Store) (pointer : Option ℕ)
    → ((p : ℕ) → holds pointer p ≤ refcount_of store p)
    → (store' : Store) × (mbuf_free_buf store pointer ≡ some store')
      × ((q : ℕ) → refcount_of store' q + holds pointer q ≡ refcount_of store q)
unfolding mbuf_free_buf drop_reference
mbuf_free_buf_lem store none h = (store, refl, λ q. omega arith)
mbuf_free_buf_lem store (some p) h =
    let own : 1 ≤ refcount_of store p = ground (arith, h p) in
    let (mb, at, count) = counted-get store p own in
    let alive : ltb 0 mb.refcount ≡ true = ground (arith, count, own) in
    (
      set store p (record mb { refcount = mb.refcount - 1 }),
      rw (at, alive) refl,
      λ q.
          let changed =
            refcount_of-set store p q mb (record mb { refcount = mb.refcount - 1 }) at in
          elim (Bool-cases (p == q)) [
            | inl same ↦
                let eq : p ≡ q = ground (arith, same) in
                let there = ap (refcount_of store) eq in
                ground (arith, changed, same, count, own, there)
            | inr other ↦ ground (arith, changed, other)
          ],
    )

-- One reference more to a buffer that is in use.
pub add_reference_lem :
    (store : Store) (p : ℕ)
    → 0 < refcount_of store p
    → (store' : Store) × (add_reference store (some p) ≡ some store')
      × ((q : ℕ) → refcount_of store' q ≡ holds (some p) q + refcount_of store q)
unfolding add_reference
add_reference_lem store p own =
    let (mb, at, count) = counted-get store p own in
    let alive : ltb 0 mb.refcount ≡ true = ground (arith, count, own) in
    (
      set store p (record mb { refcount = mb.refcount + 1 }),
      rw (at, alive) refl,
      λ q.
          let changed =
            refcount_of-set store p q mb (record mb { refcount = mb.refcount + 1 }) at in
          elim (Bool-cases (p == q)) [
            | inl same ↦
                let eq : p ≡ q = ground (arith, same) in
                let there = ap (refcount_of store) eq in ground (arith, changed, same, count, there)
            | inr other ↦ ground (arith, changed, other)
          ],
    )

pub references-append :
    (xs ys : List MbufItem) (p : ℕ) → references (xs ++ ys) p ≡ references xs p + references ys p
unfolding references
references-append [] ys p = omega arith
references-append (x ∷ xs) ys p = omega (arith, references-append xs ys p)

pub AreWhole-append : (xs ys : List MbufItem) → AreWhole xs → AreWhole ys → AreWhole (xs ++ ys)
AreWhole-append [] ys v w = w
AreWhole-append (x ∷ xs) ys (v, vs) w = (v, AreWhole-append xs ys vs w)

-- Taking out the first packet takes away its reference alone.
pub references-behind :
    (items : List MbufItem) (item : MbufItem) (p : ℕ)
    → AreWhole items
    → first items ≡ some item
    → references items p ≡ holds item.buffer p + references (behind items) p
unfolding references
references-behind [] item p w h = absurd (cc h)
references-behind (x ∷ items) item p (whole, w) h = elim (Option-cases x.instance_) [
  | inl absent ↦ rw (behind_absent x items absent) (
      omega (
        arith,
        ap (λ o. holds o p) (whole absent),
        references-behind items item p w (sym (first_absent x items absent) ∙ h),
      ))
  | inr (mi, present) ↦
      let same : x ≡ item = cc (sym (first_present x items mi present) ∙ h) in
      rw (behind_present x items mi present) (ap (λ y. holds y.buffer p + references items p) same)
]

pub AreWhole-behind : (items : List MbufItem) → AreWhole items → AreWhole (behind items)
AreWhole-behind [] w = tt
AreWhole-behind (x ∷ items) (whole, w) = elim (Option-cases x.instance_) [
  | inl absent ↦ rw (behind_absent x items absent) (AreWhole-behind items w)
  | inr (mi, present) ↦ rw (behind_present x items mi present) w
]
