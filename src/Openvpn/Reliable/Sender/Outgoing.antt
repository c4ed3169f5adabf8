-- ===== src/Openvpn/Reliable/Sender/Outgoing.antt =====
-- A packet put into the send buffer (vpn/openvpn-2.2.1/reliable.c).
use seguridad_en_redes.Base.{
  ℕ, zero, suc, ◌+◌, ◌-◌, ◌%◌, ◌≤◌, ◌<◌, ◌≡◌, ◌^◌, refl, sym, ap, ◌∙◌, Bool, true, false, ◌&&◌,
  ◌||◌, inl, inr, List, [], ◌∷◌, ◌++◌, Option, none, some, get_elem?, set, length, length-set, ◌==◌,
  if◌then◌else◌, Bool-cases, arith,
}
use mathlib.Core.Path.{subst}
use seguridad_en_redes.Openvpn.Checked.{◌>>=◌}
use seguridad_en_redes.Openvpn.Buffer.{Buffer, buf_init, htonl}
use seguridad_en_redes.Openvpn.Buffer.Laws.{buf_write_prepend_lem, length-htonl}
use seguridad_en_redes.Openvpn.Reliable.{reliable_pid_in_range1}
use seguridad_en_redes.Openvpn.Reliable.Entries.{
  ReliableEntry, Reliable, is_active, free_place, put_buf, get_buf_at, reliable_get_buf,
}
use seguridad_en_redes.Openvpn.Reliable.Entries.Laws.{AreUnique, set-AreUnique, free_place-set}
use seguridad_en_redes.Openvpn.Reliable.Receiver.Stored.{
  get_elem?-put_buf, set-put_buf, put_buf-put_buf,
}
use seguridad_en_redes.Openvpn.Reliable.Sender.{
  reliable_get_buf_output_sequenced, reliable_mark_active_outgoing,
}
use seguridad_en_redes.Openvpn.Reliable.Sender.Window.{AreOutstanding, IsLowest, min_id-IsLowest}

-- What a free buffer tells of the array.
get_buf_at-some :
    (rel rel' : Reliable) (i j : ℕ)
    → get_buf_at rel j ≡ some (some i, rel')
    → (i ≡ j) × (buf : Buffer) × (rel' ≡ record rel { array = put_buf rel.array j buf })
unfolding get_buf_at
get_buf_at-some rel rel' i j h = found (get_elem? rel.array j) h
  where
    with_buf : Option Buffer → Option (Option ℕ × Reliable)
    with_buf b = b >>= λ buf. some (some j, record rel { array = put_buf rel.array j buf })

    with_entry : Option ReliableEntry → Option (Option ℕ × Reliable)
    with_entry o = o >>= λ e. with_buf (buf_init e.buf rel.offset)

    initialised :
        (b : Option Buffer)
        → with_buf b ≡ some (some i, rel')
        → (i ≡ j) × (buf : Buffer) × (rel' ≡ record rel { array = put_buf rel.array j buf })
    initialised none h = absurd (cc h)
    initialised (some buf) h = (cc h, buf, cc h)

    found :
        (e : Option ReliableEntry)
        → with_entry e ≡ some (some i, rel')
        → (i ≡ j) × (buf : Buffer) × (rel' ≡ record rel { array = put_buf rel.array j buf })
    found none h = absurd (cc h)
    found (some e) h = initialised (buf_init e.buf rel.offset) h

reliable_get_buf-some :
    (rel rel' : Reliable) (i : ℕ)
    → reliable_get_buf rel ≡ some (some i, rel')
    → (free_place rel.array ≡ some i)
      × (buf : Buffer) × (rel' ≡ record rel { array = put_buf rel.array i buf })
unfolding reliable_get_buf
reliable_get_buf-some rel rel' i h = by_place (free_place rel.array) refl h
  where
    at_place : Option ℕ → Option (Option ℕ × Reliable)
    at_place none = some (none, rel)
    at_place (some j) = get_buf_at rel j

    by_place :
        (o : Option ℕ)
        → free_place rel.array ≡ o
        → at_place o ≡ some (some i, rel')
        → (free_place rel.array ≡ some i)
          × (buf : Buffer) × (rel' ≡ record rel { array = put_buf rel.array i buf })
    by_place none free h = absurd (cc h)
    by_place (some j) free h =
        let (same, buf, e) = get_buf_at-some rel rel' i j h in
        (
          free ∙ ap some (sym same),
          buf,
          e ∙ ap (λ k. record rel { array = put_buf rel.array k buf }) (sym same),
        )

-- An entry for the next id keeps the window if each active id is less than `n` away from it.
set-AreOutstanding :
    (next n : ℕ) (array : List ReliableEntry) (i : ℕ) (e : ReliableEntry) (m : ℕ)
    → AreOutstanding next n array
    → IsLowest m array
    → next < m + n
    → 0 < n
    → e.packet_id ≡ next
    → AreOutstanding (suc next) n (set array i e)
set-AreOutstanding next n [] i e m w low near most id = tt
set-AreOutstanding next n (x ∷ array) zero e m (_, w) (_, low) near most id =
    (λ on. (omega arith, omega arith), rest array w low)
  where
    rest :
        (l : List ReliableEntry)
        → AreOutstanding next n l
        → IsLowest m l
        → AreOutstanding (suc next) n l
    rest [] w low = tt
    rest (y ∷ l) (here, w) (le, low) =
        (λ on. (omega (arith, here on), omega (arith, le on)), rest l w low)
set-AreOutstanding next n (x ∷ array) (suc i) e m (here, w) (le, low) near most id = (
  λ on. (omega (arith, here on), omega (arith, le on)),
  set-AreOutstanding next n array i e m w low near most id,
)

-- The next id is not active.
not_active :
    (next n : ℕ) (array : List ReliableEntry)
    → AreOutstanding next n array
    → is_active array next ≡ false
unfolding is_active
not_active next n [] w = refl
not_active next n (e ∷ array) (here, w) = elim (Bool-cases (e.active && e.packet_id == next)) [
  | inl hit ↦ absurd (omega (arith, here (ground (arith, hit)), id hit))
  | inr miss ↦ rw miss (not_active next n array w)
]
  where
    id : (e.active && e.packet_id == next) ≡ true → e.packet_id ≡ next
    id hit = ground arith

-- What `reliable_get_buf_output_sequenced` finds out about the ids.
output_sequenced-some :
    (rel rel' : Reliable) (i : ℕ)
    → AreOutstanding rel.packet_id (length rel.array) rel.array
    → rel.packet_id < 2 ^ 31
    → reliable_get_buf_output_sequenced rel ≡ some (some i, rel')
    → (reliable_get_buf rel ≡ some (some i, rel'))
      × ((0 < length rel.array)
          → (m : ℕ) × IsLowest m rel.array × (rel.packet_id < m + length rel.array))
unfolding reliable_get_buf_output_sequenced reliable_pid_in_range1
output_sequenced-some rel rel' i w near h =
    elim (min_id-IsLowest rel.packet_id (length rel.array) rel.array none w near
      λ l e. absurd (cc e)) [
        | inl (nothing, _, all) ↦ (
          sym (ap by_least nothing) ∙ h,
          λ some_entry. (rel.packet_id, all rel.packet_id, omega arith),
        )
        | inr (m, found, lt, _, low) ↦ in_range m low lt (sym (ap by_least found) ∙ h)
      ]
  where
    by_least : Option ℕ → Option (Option ℕ × Reliable)
    by_least o = elim o [
      | none ↦ reliable_get_buf rel
      | some least ↦
          if reliable_pid_in_range1 rel.packet_id least (length rel.array)
          then reliable_get_buf rel
          else some (none, rel)
    ]

    in_range :
        (m : ℕ)
        → IsLowest m rel.array
        → m < rel.packet_id
        → by_least (some m) ≡ some (some i, rel')
        → (reliable_get_buf rel ≡ some (some i, rel'))
          × ((0 < length rel.array)
              → (m : ℕ) × IsLowest m rel.array × (rel.packet_id < m + length rel.array))
    in_range m low lt h =
        elim (Bool-cases (reliable_pid_in_range1 rel.packet_id m (length rel.array))) [
          | inl inside ↦
              (sym (ap cut inside) ∙ h, λ some_entry. (m, low, ground (arith, inside, lt)))
          | inr outside ↦
              let e : some (none, rel) ≡ some (some i, rel') = sym (ap cut outside) ∙ h in
              absurd (cc e)
        ]
      where
        cut : Bool → Option (Option ℕ × Reliable)
        cut b = if b then reliable_get_buf rel else some (none, rel)

-- For a sender whose active ids differ and are among the `n` before its next id, `n` the number of
-- its entries, with ids below 2^31: if `reliable_get_buf_output_sequenced` gives a buffer, and
-- whatever the caller then puts into it behind at least four free bytes,
-- `reliable_mark_active_outgoing` fails no assertion, puts the next id in front of the content,
-- makes that id active beside those that were, and counts on; the ids still differ and are among
-- the `n` before the next.
pub mark_active_outgoing-AreOutstanding :
    (rel rel' : Reliable) (i opcode : ℕ) (buf : Buffer)
    → AreUnique rel.array
    → AreOutstanding rel.packet_id (length rel.array) rel.array
    → rel.packet_id + 1 < 2 ^ 31
    → reliable_get_buf_output_sequenced rel ≡ some (some i, rel')
    → 4 ≤ buf.offset
    → let filled : Reliable = record rel' { array = put_buf rel'.array i buf } in
      (rel₂ : Reliable) × (e : ReliableEntry) × (reliable_mark_active_outgoing filled i opcode
        ≡ some rel₂)
      × (rel₂.packet_id ≡ suc rel.packet_id)
      × (e.buf.content ≡ htonl rel.packet_id ++ buf.content)
      × (rel₂.array ≡ set rel.array i e)
      × ((q : ℕ) → is_active rel₂.array q ≡ ((rel.packet_id == q) || is_active rel.array q))
      × AreUnique rel₂.array
      × AreOutstanding rel₂.packet_id (length rel₂.array) rel₂.array
unfolding reliable_mark_active_outgoing
mark_active_outgoing-AreOutstanding rel rel' i opcode buf u w near h headroom =
    let (got, window) = output_sequenced-some rel rel' i w (omega arith) h in
    let (free, blank, same) = reliable_get_buf-some rel rel' i got in
    let (e, at, idle, ids) = free_place-set rel.array i entry free in
    let (m, low, most) = window (nonempty rel.array i e at) in
    (
      after,
      entry,
      ap (λ r. reliable_mark_active_outgoing (record r { array = put_buf r.array i buf }) i opcode)
            same
          ∙ rw
              (
                put_buf-put_buf rel.array i blank buf,
                get_elem?-put_buf rel.array i e buf at,
                buf_write_prepend_lem buf (htonl rel.packet_id)
                    (omega (arith, length-htonl rel.packet_id)),
                set-put_buf rel.array i buf entry,
              )
              (ap (λ n. some (record after { packet_id = n })) following),
      refl,
      refl,
      refl,
      ids,
      set-AreUnique rel.array i entry free (fresh rel.array w) u,
      subst (λ n. AreOutstanding (suc rel.packet_id) n (set rel.array i entry))
          (sym (length-set rel.array i entry))
          (set-AreOutstanding rel.packet_id (length rel.array) rel.array i entry m w low most
            (nonempty rel.array i e at) refl),
    )
  where
    entry : ReliableEntry
    entry = record {
      active = true;
      timeout = rel.initial_timeout;
      next_try = 0;
      packet_id = rel.packet_id;
      opcode = opcode;
      buf = record {
        offset = buf.offset - length (htonl rel.packet_id);
        content = htonl rel.packet_id ++ buf.content;
        room = buf.room;
      };
    }

    after : Reliable
    after = record rel { packet_id = suc rel.packet_id; array = set rel.array i entry }

    following : (rel.packet_id + 1) % 2 ^ 32 ≡ suc rel.packet_id
    following = omega arith

    nonempty :
        (l : List ReliableEntry) (i : ℕ) (e : ReliableEntry) → get_elem? l i ≡ some e → 0 < length l
    nonempty [] i e at = absurd (cc at)
    nonempty (x ∷ l) i e at = omega arith

    fresh :
        (l : List ReliableEntry)
        → AreOutstanding rel.packet_id (length rel.array) l
        → is_active l rel.packet_id ≡ false
    fresh l w = not_active rel.packet_id (length rel.array) l w
