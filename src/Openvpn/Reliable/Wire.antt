-- ===== src/Openvpn/Reliable/Wire.antt =====
-- The records of acknowledged packets of reliable.c in a packet: what is written is read back.
use mathlib.Core.Path.{subst}
use seguridad_en_redes.Base.{
  ℕ, ◌+◌, ◌-◌, ◌*◌, ◌≤◌, ◌≡◌, ◌==◌, refl, ap, ◌∙◌, true, ◌||◌, List, [], ◌∷◌, ◌++◌, some, length,
  length-append, length-take, take, drop, append_assoc, ltb, if◌then◌else◌, Bytes, arith,
}
use seguridad_en_redes.Openvpn.Buffer.{Buffer, session_id_defined}
use seguridad_en_redes.Openvpn.Reliable.{
  read_counted, reliable_ack_read, net_ids, ack_bytes, reliable_ack_write,
}
use seguridad_en_redes.Openvpn.Buffer.Laws.{buf_read-append, buf_write_prepend_lem}
use seguridad_en_redes.Openvpn.Reliable.Ids.{
  AreWords, take-AreWords, length-net_ids, trailer, read_counted-net_ids,
}

length-ack_bytes :
    (n : ℕ) (ack : List ℕ) (sid : Bytes)
    → n ≤ length ack
    → length (ack_bytes n ack sid) ≡ 1 + (4 * n + length (trailer n sid))
unfolding ack_bytes
length-ack_bytes n ack sid h = omega (
  arith,
  length-append (net_ids (take n ack)) (trailer n sid),
  length-net_ids (take n ack),
  length-take n ack,
)

-- Reading a record that was written.
reliable_ack_read-ack_bytes :
    (n : ℕ) (ack : List ℕ) (sid rest : Bytes) (offset room : ℕ)
    → AreWords ack
    → n ≤ length ack
    → n ≤ 8
    → length sid ≡ 8
    → session_id_defined sid ≡ true
    → reliable_ack_read []
        (record { offset = offset; content = ack_bytes n ack sid ++ rest; room = room })
        sid
      ≡ (
        true,
        take n ack,
        record {
          offset = offset + (1 + (4 * n + length (trailer n sid)));
          content = rest;
          room = room;
        },
      )
unfolding reliable_ack_read ack_bytes
reliable_ack_read-ack_bytes n ack sid rest offset room w h le hs hd =
    ap (λ c. reliable_ack_read [] (record { offset = offset; content = n ∷ c; room = room }) sid)
      (append_assoc (net_ids (take n ack)) (trailer n sid) rest)
    ∙ rw
        (
          buf_read-append offset room 1 (n ∷ []) (net_ids (take n ack) ++ (trailer n sid ++ rest))
              refl,
          reliable_ack_read,
        )
        (subst
          (λ k.
            read_counted k []
              (record {
                offset = offset + 1;
                content = net_ids (take n ack) ++ (trailer k sid ++ rest);
                room = room;
              })
              sid
            ≡ (
              true,
              take n ack,
              record {
                offset = offset + (1 + (4 * k + length (trailer k sid)));
                content = rest;
                room = room;
              },
            ))
          same
          (read_counted-net_ids (take n ack) sid rest (offset + 1) room (take-AreWords n ack w)
              (omega (arith, same)) hs hd
            ∙ ap (λ o. (true, take n ack, record { offset = o; content = rest; room = room }))
                (omega arith)))
  where
    same : length (take n ack) ≡ n
    same = omega (arith, length-take n ack)

-- A record of at most eight 32-bit ids, and a session id that is not all zeros: written in front of
-- a buffer with 41 bytes free there, the first ids, `max` at most, leave the record; and reading
-- from the result into an empty record gives those ids and the buffer as it was.
pub reliable_ack_read-write :
    (ack : List ℕ) (buf : Buffer) (sid : Bytes) (max : ℕ)
    → AreWords ack
    → length ack ≤ 8
    → length sid ≡ 8
    → session_id_defined sid ≡ true
    → 41 ≤ buf.offset
    → let n = if ltb max (length ack) then max else length ack in
      (buf' : Buffer) × (reliable_ack_write ack buf sid max true ≡ some (true, drop n ack, buf'))
      × (reliable_ack_read [] buf' sid ≡ (true, take n ack, buf))
unfolding reliable_ack_write
reliable_ack_read-write ack buf sid max w le hs hd free = (
  prepended,
  rw (buf_write_prepend_lem buf (ack_bytes n ack sid) fits, reliable_ack_write, valid) refl,
  read-prepended,
)
  where
    n : ℕ
    n = if ltb max (length ack) then max else length ack

    prepended : Buffer
    prepended = record {
      offset = buf.offset - length (ack_bytes n ack sid);
      content = ack_bytes n ack sid ++ buf.content;
      room = buf.room;
    }

    at_most : n ≤ length ack
    at_most = ground arith

    short : length (trailer n sid) ≤ 8
    short = ground (arith, hs)

    fits : length (ack_bytes n ack sid) ≤ buf.offset
    fits = omega (arith, length-ack_bytes n ack sid at_most, short, at_most, le)

    valid : (n == 0 || session_id_defined sid) ≡ true
    valid = ground (arith, hd)

    read-prepended : reliable_ack_read [] prepended sid ≡ (true, take n ack, buf)
    read-prepended =
        reliable_ack_read-ack_bytes n ack sid buf.content
          (buf.offset - length (ack_bytes n ack sid)) buf.room w at_most (omega (arith, at_most)) hs
          hd
        ∙ ap
            (λ o. (true, take n ack, record { offset = o; content = buf.content; room = buf.room }))
            (omega (arith, length-ack_bytes n ack sid at_most, fits))
