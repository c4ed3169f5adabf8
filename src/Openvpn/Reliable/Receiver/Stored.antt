-- ===== src/Openvpn/Reliable/Receiver/Stored.antt =====
-- What saving a packet, and delivering one, does to the entries of a `struct reliable` that receives
-- (vpn/openvpn-2.2.1/reliable.c, ssl.c).
use seguridad_en_redes.Base.{
  ℕ, zero, suc, ◌+◌, ◌≤◌, ◌<◌, ◌≡◌, refl, ap, true, false, ◌&&◌, ◌⊎◌, inl, inr, List, [], ◌∷◌, none,
  some, get_elem?, set, ◌==◌, if◌then◌else◌, Bool-cases, arith,
}
use seguridad_en_redes.Openvpn.Buffer.{Buffer, capacity}
use seguridad_en_redes.Openvpn.Reliable.Entries.{
  ReliableEntry, free_place, next_place, put_buf, reliable_get_buf_sequenced,
}
use seguridad_en_redes.Openvpn.Reliable.Entries.Laws.{free_place-tail, free_place-head}
use seguridad_en_redes.Openvpn.Reliable.Receiver.Window.{pending, AreInWindow}

-- Every buffer has the capacity `n`.
abbrev pub HaveCapacity : ℕ → List ReliableEntry → Type 0
HaveCapacity n [] = Unit
HaveCapacity n (e ∷ array) = (capacity e.buf ≡ n) × HaveCapacity n array

pub get_elem?-HaveCapacity :
    (n : ℕ) (array : List ReliableEntry) (i : ℕ) (e : ReliableEntry)
    → HaveCapacity n array
    → get_elem? array i ≡ some e
    → capacity e.buf ≡ n
get_elem?-HaveCapacity n [] i e h at = absurd (cc at)
get_elem?-HaveCapacity n (x ∷ array) zero e (h, _) at = cc (at, h)
get_elem?-HaveCapacity n (x ∷ array) (suc i) e (_, h) at = get_elem?-HaveCapacity n array i e h at

pub set-HaveCapacity :
    (n : ℕ) (array : List ReliableEntry) (i : ℕ) (e : ReliableEntry)
    → HaveCapacity n array
    → capacity e.buf ≡ n
    → HaveCapacity n (set array i e)
set-HaveCapacity n [] i e h c = tt
set-HaveCapacity n (x ∷ array) zero e (_, h) c = (c, h)
set-HaveCapacity n (x ∷ array) (suc i) e (a, h) c = (a, set-HaveCapacity n array i e h c)

pub set-AreInWindow :
    (base n : ℕ) (array : List ReliableEntry) (i : ℕ) (e : ReliableEntry)
    → AreInWindow base n array
    → (e.active ≡ true → (base ≤ e.packet_id) × (e.packet_id < base + n))
    → AreInWindow base n (set array i e)
set-AreInWindow base n [] i e w h = tt
set-AreInWindow base n (x ∷ array) zero e (_, w) h = (h, w)
set-AreInWindow base n (x ∷ array) (suc i) e (a, w) h = (a, set-AreInWindow base n array i e w h)

-- Changing the buffer at a place, and then the entry, changes the entry.
pub get_elem?-put_buf :
    (array : List ReliableEntry) (i : ℕ) (e : ReliableEntry) (buf : Buffer)
    → get_elem? array i ≡ some e
    → get_elem? (put_buf array i buf) i ≡ some (record e { buf = buf })
unfolding put_buf
get_elem?-put_buf [] i e buf at = absurd (cc at)
get_elem?-put_buf (x ∷ array) zero e buf at = cc at
get_elem?-put_buf (x ∷ array) (suc i) e buf at = get_elem?-put_buf array i e buf at

pub put_buf-put_buf :
    (array : List ReliableEntry) (i : ℕ) (b c : Buffer)
    → put_buf (put_buf array i b) i c ≡ put_buf array i c
unfolding put_buf
put_buf-put_buf [] i b c = refl
put_buf-put_buf (x ∷ array) zero b c = refl
put_buf-put_buf (x ∷ array) (suc i) b c = ap (◌∷◌ x) (put_buf-put_buf array i b c)

pub set-put_buf :
    (array : List ReliableEntry) (i : ℕ) (buf : Buffer) (n : ReliableEntry)
    → set (put_buf array i buf) i n ≡ set array i n
unfolding put_buf
set-put_buf [] i buf n = refl
set-put_buf (x ∷ array) zero buf n = refl
set-put_buf (x ∷ array) (suc i) buf n = ap (◌∷◌ x) (set-put_buf array i buf n)

-- An entry stored at a free place adds its packet.
pub pending-set_free :
    (array : List ReliableEntry) (i : ℕ) (n : ReliableEntry) (q : ℕ)
    → free_place array ≡ some i
    → n.active ≡ true
    → pending array n.packet_id ≡ none
    → pending (set array i n) q ≡ (if n.packet_id == q then some n.buf.content else pending array q)
unfolding pending free_place
pending-set_free [] i n q h on new = absurd (cc h)
pending-set_free (e ∷ array) zero n q h on new =
    let idle = free_place-head e array h in ground (arith, idle, on)
pending-set_free (e ∷ array) (suc i) n q h on new =
    let rest =
      pending-set_free array i n q (free_place-tail e array i h).1 on (ground (arith, new)) in
    elim (Bool-cases (e.active && e.packet_id == q)) [
      | inl hit ↦
          let other : (n.packet_id == q) ≡ false = ground (arith, new, hit) in rw (hit, other) refl
      | inr miss ↦ rw miss rest
    ]

-- What `reliable_get_buf_sequenced` finds: the entry with the packet in turn.
pub get_buf_sequenced-pending :
    (array : List ReliableEntry) (due : ℕ)
    → ((reliable_get_buf_sequenced array due ≡ none) × (pending array due ≡ none))
      ⊎ ((i : ℕ) × (e : ReliableEntry) × (reliable_get_buf_sequenced array due ≡ some i)
          × (get_elem? array i ≡ some e)
          × (e.active ≡ true)
          × (e.packet_id ≡ due)
          × (pending array due ≡ some e.buf.content))
unfolding reliable_get_buf_sequenced pending next_place
get_buf_sequenced-pending [] due = inl (refl, refl)
get_buf_sequenced-pending (e ∷ array) due = elim (Bool-cases (e.active && e.packet_id == due)) [
  | inl hit ↦ inr (0, e, rw hit refl, refl, ground (arith, hit), ground (arith, hit), rw hit refl)
  | inr miss ↦ elim (get_buf_sequenced-pending array due) [
    | inl (missing, nothing) ↦ inl (rw (miss, missing) refl, rw miss nothing)
    | inr (i, found, there, at, on, id, held) ↦
        inr (suc i, found, rw (miss, there) refl, at, on, id, rw miss held)
  ]
]
