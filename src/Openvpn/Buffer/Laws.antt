-- ===== src/Openvpn/Buffer/Laws.antt =====
-- Reading what was written, on the buffers of vpn/openvpn-2.2.1/buffer.h.
use seguridad_en_redes.Base.{
  ℕ, ◌+◌, ◌-◌, ◌^◌, ◌≤◌, ◌<◌, ◌≡◌, refl, true, false, [], ◌∷◌, ◌++◌, some, length, length-append,
  take-append_eq, drop-append_eq, ltb, Bytes, arith,
}
use seguridad_en_redes.Openvpn.Buffer.{
  Buffer, buf_read, buf_write_prepend, htonl, ntohl, same_bytes,
}

pub ntohl-htonl : (x : ℕ) → x < 2 ^ 32 → ntohl (htonl x) ≡ x
unfolding ntohl htonl
ntohl-htonl x h = omega arith

pub length-htonl : (x : ℕ) → length (htonl x) ≡ 4
unfolding htonl
length-htonl x = refl

pub buf_read-append :
    (offset room n : ℕ) (xs rest : Bytes)
    → length xs ≡ n
    → buf_read (record { offset = offset; content = xs ++ rest; room = room }) n
      ≡ some (xs, record { offset = offset + n; content = rest; room = room })
unfolding buf_read
buf_read-append offset room n xs rest h =
    rw (enough, take-append_eq n xs rest h, drop-append_eq n xs rest h) refl
  where
    enough : ltb (length (xs ++ rest)) n ≡ false
    enough = ground (arith, length-append xs rest)

pub same_bytes_refl : (a : Bytes) → same_bytes a a ≡ true
unfolding same_bytes
same_bytes_refl [] = refl
same_bytes_refl (x ∷ a) = ground (arith, same_bytes_refl a)

pub buf_write_prepend_lem :
    (dest : Buffer) (src : Bytes)
    → length src ≤ dest.offset
    → buf_write_prepend dest src
      ≡ some (record {
        offset = dest.offset - length src;
        content = src ++ dest.content;
        room = dest.room;
      })
unfolding buf_write_prepend
buf_write_prepend_lem dest src h = ground arith
