-- ===== src/Openvpn/Reliable/Receiver/Save.antt =====
-- Saving a packet to a free buffer (vpn/openvpn-2.2.1/ssl.c, reliable.c).
use seguridad_en_redes.Base.{
  ℕ, ◌+◌, ◌-◌, ◌≤◌, ◌<◌, ◌≡◌, ◌^◌, refl, true, false, ◌&&◌, not, [], some, get_elem?, set, length,
  ltb, leb, arith,
}
use seguridad_en_redes.Openvpn.Buffer.{
  Buffer, capacity, buf_init, buf_write, buf_copy, buf_size_max,
}
use seguridad_en_redes.Openvpn.Reliable.{
  reliable_pid_min, reliable_pid_in_range1, reliable_pid_in_range2,
}
use seguridad_en_redes.Openvpn.Reliable.Entries.{
  ReliableEntry, Reliable, reliable_wont_break_sequentiality, free_place, put_buf, get_buf_at,
  reliable_get_buf, reliable_mark_active_incoming,
}
use seguridad_en_redes.Openvpn.Reliable.Receiver.Stored.{
  get_elem?-put_buf, put_buf-put_buf, set-put_buf,
}
use seguridad_en_redes.Openvpn.Reliable.Receiver.{save_packet}

-- The entry that holds a packet just saved.
unfoldable pub saved_entry : ℕ → ℕ → Buffer → ℕ → ℕ → ReliableEntry
saved_entry size offset packet id op = record {
  active = true;
  timeout = 0;
  next_try = 0;
  packet_id = id;
  opcode = op;
  buf = record {
    offset = offset;
    content = packet.content;
    room = size - offset - length packet.content;
  };
}

-- Below 2^31, the tests for the sequence and for a packet from before are those for the window.
pub in_window_lem :
    (rel : Reliable) (id : ℕ)
    → rel.packet_id + length rel.array ≤ 2 ^ 31
    → id < 2 ^ 32
    → (reliable_wont_break_sequentiality rel id && not (reliable_pid_min id rel.packet_id))
      ≡ (leb rel.packet_id id && ltb id (rel.packet_id + length rel.array))
unfolding reliable_wont_break_sequentiality reliable_pid_min reliable_pid_in_range1
    reliable_pid_in_range2
in_window_lem rel id near wide = ground arith

-- An empty buffer of a capacity, from an offset on.
unfoldable pub emptied : ℕ → ℕ → Buffer
emptied offset size = record { offset = offset; content = []; room = size - offset }

buf_init_lem :
    (buf : Buffer) (offset : ℕ)
    → offset ≤ capacity buf
    → buf_init buf offset
      ≡ some (record { offset = offset; content = []; room = capacity buf - offset })
unfolding buf_init
buf_init_lem buf offset h = ground arith

buf_copy_lem :
    (packet : Buffer) (offset room : ℕ)
    → length packet.content < buf_size_max
    → length packet.content ≤ room
    → buf_copy (record { offset = offset; content = []; room = room }) packet
      ≡ some (record {
        offset = offset;
        content = packet.content;
        room = room - length packet.content;
      })
unfolding buf_copy buf_write
buf_copy_lem packet offset room small fits = ground arith

-- `reliable_get_buf`, with a free place whose buffer is large enough.
pub reliable_get_buf_lem :
    (rel : Reliable) (i : ℕ) (e : ReliableEntry)
    → free_place rel.array ≡ some i
    → get_elem? rel.array i ≡ some e
    → rel.offset ≤ capacity e.buf
    → reliable_get_buf rel
      ≡ some
          (some i, record rel { array = put_buf rel.array i (emptied rel.offset (capacity e.buf)) })
unfolding reliable_get_buf get_buf_at emptied
reliable_get_buf_lem rel i e free at fits =
    rw (free, reliable_get_buf) (rw (at, buf_init_lem e.buf rel.offset fits) refl)

-- With a free place, and a buffer that is large enough, a packet that is not from before is saved.
pub save_packet_lem :
    (rel : Reliable) (packet : Buffer) (id op i : ℕ) (e : ReliableEntry)
    → free_place rel.array ≡ some i
    → get_elem? rel.array i ≡ some e
    → rel.offset + length packet.content ≤ capacity e.buf
    → length packet.content < buf_size_max
    → reliable_pid_min id rel.packet_id ≡ false
    → save_packet rel packet id op
      ≡ some (record rel {
        array = set rel.array i (saved_entry (capacity e.buf) rel.offset packet id op);
      })
unfolding save_packet reliable_mark_active_incoming saved_entry emptied
save_packet_lem rel packet id op i e free at fits small later =
    let blank = emptied rel.offset (capacity e.buf) in
    rw
      (
        reliable_get_buf_lem rel i e free at (omega arith),
        get_elem?-put_buf rel.array i e blank at,
        buf_copy_lem packet rel.offset (capacity e.buf - rel.offset) small (omega arith),
        put_buf-put_buf rel.array i blank copied,
        get_elem?-put_buf rel.array i e copied at,
        later,
        set-put_buf rel.array i copied (saved_entry (capacity e.buf) rel.offset packet id op),
      )
      refl
  where
    copied : Buffer
    copied = record {
      offset = rel.offset;
      content = packet.content;
      room = capacity e.buf - rel.offset - length packet.content;
    }
