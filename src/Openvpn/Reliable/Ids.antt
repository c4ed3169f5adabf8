-- ===== src/Openvpn/Reliable/Ids.antt =====
-- How reliable_ack_read of reliable.c reads the ids and the session id of a record.
use seguridad_en_redes.Base.{
  ℕ, zero, suc, ◌+◌, ◌*◌, ◌^◌, ◌≤◌, ◌<◌, ◌≡◌, ◌==◌, refl, sym, ap, ap₂, ◌∙◌, true, false, List, [],
  ◌∷◌, ◌++◌, length, length-append, take, append_assoc, append-nil, leb, if◌then◌else◌, Bytes,
  arith,
}
use seguridad_en_redes.Openvpn.Buffer.{htonl, session_id_equal, session_id_defined}
use seguridad_en_redes.Openvpn.Reliable.{
  read_ids, read_session, read_counted, net_ids, reliable_ack_size,
}
use seguridad_en_redes.Openvpn.Buffer.Laws.{
  ntohl-htonl, length-htonl, buf_read-append, same_bytes_refl,
}

-- The ids have 32 bits.
abbrev pub AreWords : List ℕ → Type 0
AreWords [] = Unit
AreWords (p ∷ ack) = (p < 2 ^ 32) × AreWords ack

pub read_ids-net_ids :
    (xs ack : List ℕ) (offset room : ℕ) (rest : Bytes)
    → AreWords xs
    → length ack + length xs ≤ 8
    → read_ids
        (length xs)
        ack
        (record { offset = offset; content = net_ids xs ++ rest; room = room })
      ≡ (true, ack ++ xs, record { offset = offset + 4 * length xs; content = rest; room = room })
unfolding read_ids net_ids
read_ids-net_ids [] ack offset room rest w le =
    ap₂ (λ a o. (true, a, record { offset = o; content = rest; room = room }))
      (sym (append-nil ack)) (omega arith)
read_ids-net_ids (x ∷ xs) ack offset room rest (wx, w) le =
    ap (λ c. read_ids (suc (length xs)) ack (record { offset = offset; content = c; room = room }))
      (append_assoc (htonl x) (net_ids xs) rest)
    ∙ rw
        (
          buf_read-append offset room 4 (htonl x) (net_ids xs ++ rest) (length-htonl x),
          read_ids,
          vacant,
          ntohl-htonl x wx,
          read_ids-net_ids xs (ack ++ (x ∷ [])) (offset + 4) room rest w
              (omega (arith, length-append ack (x ∷ []))),
        )
        (ap₂ (λ a o. (true, a, record { offset = o; content = rest; room = room }))
          (append_assoc ack (x ∷ []) xs) (omega arith))
  where
    vacant : leb reliable_ack_size (length ack) ≡ false
    vacant = ground arith

pub take-AreWords : (n : ℕ) (ack : List ℕ) → AreWords ack → AreWords (take n ack)
take-AreWords zero ack w = tt
take-AreWords (suc n) [] w = tt
take-AreWords (suc n) (x ∷ ack) (wx, w) = (wx, take-AreWords n ack w)

pub length-net_ids : (ack : List ℕ) → length (net_ids ack) ≡ 4 * length ack
unfolding net_ids
length-net_ids [] = omega arith
length-net_ids (x ∷ ack) =
    omega (arith, length-append (htonl x) (net_ids ack), length-htonl x, length-net_ids ack)

pub read_session-append :
    (ack : List ℕ) (sid rest : Bytes) (offset room : ℕ)
    → length sid ≡ 8
    → session_id_defined sid ≡ true
    → read_session ack (record { offset = offset; content = sid ++ rest; room = room }) sid
      ≡ (true, ack, record { offset = offset + 8; content = rest; room = room })
unfolding session_id_equal read_session
read_session-append ack sid rest offset room hs hd =
    rw (buf_read-append offset room 8 sid rest hs, read_session, hd, same_bytes_refl sid) refl

-- The session id stands behind the ids, if there are any.
abbrev pub trailer : ℕ → Bytes → Bytes
trailer n sid = if n == 0 then [] else sid

pub read_counted-net_ids :
    (xs : List ℕ) (sid rest : Bytes) (offset room : ℕ)
    → AreWords xs
    → length xs ≤ 8
    → length sid ≡ 8
    → session_id_defined sid ≡ true
    → read_counted
        (length xs)
        []
        (record {
          offset = offset;
          content = net_ids xs ++ (trailer (length xs) sid ++ rest);
          room = room;
        })
        sid
      ≡ (
        true,
        xs,
        record {
          offset = offset + (4 * length xs + length (trailer (length xs) sid));
          content = rest;
          room = room;
        },
      )
unfolding read_counted read_ids net_ids
read_counted-net_ids [] sid rest offset room w le hs hd =
    ap (λ o. (true, [], record { offset = o; content = rest; room = room })) (omega arith)
read_counted-net_ids (x ∷ xs) sid rest offset room w le hs hd =
    some_ids
    ∙ rw
        (
          read_ids-net_ids (x ∷ xs) [] offset room (sid ++ rest) w (omega arith),
          nonzero (length xs),
          read_session-append (x ∷ xs) sid rest (offset + 4 * length (x ∷ xs)) room hs hd,
        )
        (ap (λ o. (true, x ∷ xs, record { offset = o; content = rest; room = room }))
          (omega (arith, hs)))
  where
    nonzero : (n : ℕ) → (suc n == 0) ≡ false
    nonzero n = ground arith

    some_ids :
        read_counted
          (length (x ∷ xs))
          []
          (record {
            offset = offset;
            content = net_ids (x ∷ xs) ++ (trailer (length (x ∷ xs)) sid ++ rest);
            room = room;
          })
          sid
        ≡ read_counted
            (length (x ∷ xs))
            []
            (record { offset = offset; content = net_ids (x ∷ xs) ++ (sid ++ rest); room = room })
            sid
    some_ids = rw (nonzero (length xs)) refl
