-- ===== src/Openvpn/PacketId/Persist.antt =====
-- The persistence of packet ids across runs, in vpn/openvpn-2.2.1/packet_id.c and packet_id.h. The
-- results of the system calls on the file are parameters.
pub mod Laws
use seguridad_en_redes.Base.{
  ℕ, Bool, true, false, not, ◌&&◌, ◌||◌, Option, none, some, ◌==◌, if◌then◌else◌, Bytes,
}
use seguridad_en_redes.Openvpn.Checked.{◌>>=◌, ◌>>◌, assert}
use seguridad_en_redes.Openvpn.PacketId.{PacketIdRec, with_window}

-- `struct packet_id_persist`; no file name is a null one, no descriptor is -1.
pub record PacketIdPersist : Type 0 where
  pub filename : Option Bytes
  pub fd : Option ℕ
  pub time : ℕ
  pub id : ℕ
  pub time_last_written : ℕ
  pub id_last_written : ℕ

-- `struct packet_id_persist_file_image`
pub record PacketIdPersistFileImage : Type 0 where
  pub time : ℕ
  pub id : ℕ

-- `packet_id_persist_init`
unfoldable pub packet_id_persist_init : PacketIdPersist
packet_id_persist_init = record {
  filename = none;
  fd = none;
  time = 0;
  id = 0;
  time_last_written = 0;
  id_last_written = 0;
}

-- `packet_id_persist_enabled`
unfoldable pub packet_id_persist_enabled : PacketIdPersist → Bool
packet_id_persist_enabled p = elim p.fd [ none ↦ false | some fd ↦ true ]

-- `packet_id_persist_close`; a failing `close` only gives a message.
unfoldable pub packet_id_persist_close : PacketIdPersist → PacketIdPersist
packet_id_persist_close p = if packet_id_persist_enabled p then packet_id_persist_init else p

-- What the calls of `packet_id_persist_load` find: the descriptor that `open` returns, if it does,
-- whether `flock` succeeds, and the image, if `read` returns a whole one.
pub record Found : Type 0 where
  pub opened : Option ℕ
  pub locked : Bool
  pub image : Option PacketIdPersistFileImage

-- `packet_id_persist_load` on an open file, which ends the process when the lock fails.
unfoldable pub load_image :
    PacketIdPersist → Bytes → ℕ → Option PacketIdPersistFileImage → PacketIdPersist
load_image p filename fd (some image) = record {
  filename = some filename;
  fd = some fd;
  time = image.time;
  id = image.id;
  time_last_written = image.time;
  id_last_written = image.id;
}
load_image p filename fd none = record {
  filename = some filename;
  fd = some fd;
  time = p.time;
  id = p.id;
  time_last_written = p.time_last_written;
  id_last_written = p.id_last_written;
}

-- `packet_id_persist_load`
unfoldable pub packet_id_persist_load : Found → PacketIdPersist → Bytes → Option PacketIdPersist
packet_id_persist_load found p filename =
    if packet_id_persist_enabled p then some p else elim found.opened [
      | none ↦ some p
      | some fd ↦ do assert found.locked; some (load_image p filename fd found.image)
    ]

-- `packet_id_persist_save`: the state, and the image if one is written. `stored` tells whether
-- `lseek` and `write` succeed.
unfoldable pub packet_id_persist_save :
    Bool → PacketIdPersist → PacketIdPersist × Option PacketIdPersistFileImage
packet_id_persist_save stored p =
    if packet_id_persist_enabled p
      && (not (p.time == 0)
          && (not (p.time == p.time_last_written) || not (p.id == p.id_last_written)))
      && stored
    then (
      record {
        filename = p.filename;
        fd = p.fd;
        time = p.time;
        id = p.id;
        time_last_written = p.time;
        id_last_written = p.id;
      },
      some (record { time = p.time; id = p.id }),
    )
    else (p, none)

-- `packet_id_persist_load_obj`, on pointers that are not null
unfoldable pub packet_id_persist_load_obj : PacketIdPersist → PacketIdRec → PacketIdRec
packet_id_persist_load_obj p pid =
    if packet_id_persist_enabled p && not (p.time == 0)
    then with_window pid p.time p.id pid.seq_list
    else pid

-- `packet_id_persist_save_obj`
unfoldable pub packet_id_persist_save_obj : PacketIdPersist → PacketIdRec → PacketIdPersist
packet_id_persist_save_obj p pid =
    if packet_id_persist_enabled p && not (pid.time == 0)
    then record {
      filename = p.filename;
      fd = p.fd;
      time = pid.time;
      id = pid.id;
      time_last_written = p.time_last_written;
      id_last_written = p.id_last_written;
    }
    else p
