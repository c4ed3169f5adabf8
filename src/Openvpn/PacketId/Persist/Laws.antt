-- ===== src/Openvpn/PacketId/Persist/Laws.antt =====
-- Packet ids that outlive a run: what is restored, and what the window forgets.
use seguridad_en_redes.Base.{
  ℕ, ◌+◌, ◌-◌, ◌^◌, ◌≤◌, ◌<◌, ◌≡◌, ◌≢◌, ◌==◌, ◌⊎◌, refl, sym, ap, ◌∙◌, inl, inr, Bool, true, false,
  not, ◌||◌, Option, none, some, Bytes, arith,
}
use seguridad_en_redes.Openvpn.CircList.{CircList}
use seguridad_en_redes.Openvpn.PacketId.{
  PacketIdNet, PacketIdRec, with_window, packet_id_init, packet_id_test, packet_id_add,
  starts_series,
}
use seguridad_en_redes.Openvpn.PacketId.Test.{
  IsWindow, Blocked-refused, newer-accepted, test-Accepted, unseen-accepted,
}
use seguridad_en_redes.Openvpn.PacketId.Add.{packet_id_add-Added}
use seguridad_en_redes.Openvpn.PacketId.Backtrack.{init-IsWindow}
use seguridad_en_redes.Openvpn.PacketId.Persist.{
  PacketIdPersist, PacketIdPersistFileImage, packet_id_persist_init, packet_id_persist_enabled,
  packet_id_persist_load, load_image, packet_id_persist_save, packet_id_persist_load_obj,
  packet_id_persist_save_obj,
}

enabled_lem : (p : PacketIdPersist) (fd : ℕ) → p.fd ≡ some fd → packet_id_persist_enabled p ≡ true
unfolding packet_id_persist_enabled
enabled_lem p fd h = ap by_fd h
  where
    by_fd : Option ℕ → Bool
    by_fd o = elim o [ none ↦ false | some n ↦ true ]

-- The object that takes over a receiver's number.
taken : PacketIdPersist → PacketIdRec → PacketIdPersist
taken p pid = record {
  filename = p.filename;
  fd = p.fd;
  time = pid.time;
  id = pid.id;
  time_last_written = p.time_last_written;
  id_last_written = p.id_last_written;
}

save_obj_lem :
    (p : PacketIdPersist) (pid : PacketIdRec)
    → packet_id_persist_enabled p ≡ true
    → 0 < pid.time
    → packet_id_persist_save_obj p pid ≡ taken p pid
unfolding packet_id_persist_save_obj taken
save_obj_lem p pid on dated = rw (on, nonzero) refl
  where
    nonzero : (pid.time == 0) ≡ false
    nonzero = ground arith

save_lem :
    (p : PacketIdPersist)
    → packet_id_persist_enabled p ≡ true
    → 0 < p.time
    → (p.time ≢ p.time_last_written) ⊎ (p.id ≢ p.id_last_written)
    → (packet_id_persist_save true p).1 ≡ some (record { time = p.time; id = p.id })
unfolding packet_id_persist_save
save_lem p on dated differs = rw (on, nonzero, changed) refl
  where
    nonzero : (p.time == 0) ≡ false
    nonzero = ground arith

    changed : (not (p.time == p.time_last_written) || not (p.id == p.id_last_written)) ≡ true
    changed = ground (arith, differs)

-- The number that a receiver has reached, saved by an enabled persistence object to a file that
-- takes it, is what the next run reads from that file and sets in its own receiver, if it differs
-- from what was written last and its time is not 0.
pub persist_load-save :
    (p : PacketIdPersist) (fd fd' : ℕ) (pid next : PacketIdRec) (filename : Bytes)
    → p.fd ≡ some fd
    → 0 < pid.time
    → (pid.time ≢ p.time_last_written) ⊎ (pid.id ≢ p.id_last_written)
    → (image : PacketIdPersistFileImage) × (restored : PacketIdPersist) × ((packet_id_persist_save
          true
          (packet_id_persist_save_obj p pid)).1
        ≡ some image)
      × (packet_id_persist_load
            (record { opened = some fd'; locked = true; image = some image })
            packet_id_persist_init
            filename
          ≡ some restored)
      × (packet_id_persist_load_obj restored next ≡ with_window next pid.time pid.id next.seq_list)
unfolding packet_id_persist_load packet_id_persist_load_obj packet_id_persist_init
    packet_id_persist_enabled load_image taken
persist_load-save p fd fd' pid next filename open_file dated differs = (
  record { time = pid.time; id = pid.id },
  record {
    filename = some filename;
    fd = some fd';
    time = pid.time;
    id = pid.id;
    time_last_written = pid.time;
    id_last_written = pid.id;
  },
  written,
  refl,
  rw nonzero refl,
)
  where
    nonzero : (pid.time == 0) ≡ false
    nonzero = ground arith

    written :
        (packet_id_persist_save true (packet_id_persist_save_obj p pid)).1
        ≡ some (record { time = pid.time; id = pid.id })
    written =
        ap (λ o. (packet_id_persist_save true o).1)
          (save_obj_lem p pid (enabled_lem p fd open_file) dated)
        ∙ save_lem (taken p pid) (enabled_lem (taken p pid) fd open_file) dated differs

-- Restoring sets the number in the window.
restored-IsWindow :
    (p : PacketIdPersist) (fd : ℕ) (start : PacketIdRec) (l : CircList ℕ)
    → IsWindow start l
    → l.x_size ≡ 0
    → p.fd ≡ some fd
    → 0 < p.time
    → p.id < 2 ^ 32
    → (packet_id_persist_load_obj p start ≡ with_window start p.time p.id start.seq_list)
      × IsWindow (with_window start p.time p.id start.seq_list) l
unfolding packet_id_persist_load_obj with_window
restored-IsWindow p fd start l w empty open_file dated room = (
  rw (enabled_lem p fd open_file, nonzero) refl,
  record {
    ready = w.ready;
    list = w.list;
    well = w.well;
    cap = w.cap;
    behind = omega (arith, empty);
    word = room;
  },
)
  where
    nonzero : (p.time == 0) ≡ false
    nonzero = ground arith

-- After a restart the first packet accepted empties the window below it: a receiver that has
-- restored the number `p.id` of a running series refuses the packet of that number, then accepts
-- the next one of the series, and then accepts the packet of number `p.id`, which the last run had
-- accepted, again. This needs a window of at least two numbers.
pub restart-replay :
    (now seq_backtrack time_backtrack : ℕ) (p : PacketIdPersist) (fd : ℕ)
    → 1 < now
    → 1 < seq_backtrack
    → seq_backtrack ≤ 65536
    → time_backtrack ≤ 600
    → p.fd ≡ some fd
    → 0 < p.time
    → 0 < p.id
    → p.id + 1 < 2 ^ 32
    → let old : PacketIdNet = record { id = p.id; time = p.time } in
      let new : PacketIdNet = record { id = p.id + 1; time = p.time } in
      (start : PacketIdRec) × (after : PacketIdRec) × (packet_id_init seq_backtrack time_backtrack
        ≡ some start)
      × (packet_id_test (packet_id_persist_load_obj p start) old ≡ some false)
      × (packet_id_test (packet_id_persist_load_obj p start) new ≡ some true)
      × (packet_id_add now (packet_id_persist_load_obj p start) new ≡ some after)
      × (packet_id_test after old ≡ some true)
unfolding with_window starts_series
restart-replay now sb tb p fd clock two le le' open_file dated numbered room =
    let (start, l, made, w, _, _, empty, size) = init-IsWindow sb tb (omega arith) le le' in
    let (restored, w') = restored-IsWindow p fd start l w empty open_file dated (omega arith) in
    let state = with_window start p.time p.id start.seq_list in
    let fresh =
      newer-accepted state l (record { id = p.id + 1; time = p.time }) w' (omega arith)
        (inr (refl, omega arith)) in
    let (after, l', added, a) =
      packet_id_add-Added now state l (record { id = p.id + 1; time = p.time }) w'
        (test-Accepted state l (record { id = p.id + 1; time = p.time }) w' fresh) room clock in
    let (filled, unseen) = a.series (ground (arith, empty)) in
    (
      start,
      after,
      made,
      ap (λ r. packet_id_test r (record { id = p.id; time = p.time })) restored
          ∙ Blocked-refused state l (record { id = p.id; time = p.time }) w'
              (inr (inr (refl, omega arith, inl (omega (arith, empty))))),
      ap (λ r. packet_id_test r (record { id = p.id + 1; time = p.time })) restored ∙ fresh,
      ap (λ r. packet_id_add now r (record { id = p.id + 1; time = p.time })) restored ∙ added,
      unseen-accepted after l' (record { id = p.id; time = p.time }) a.window numbered
          (sym a.at_time) (omega (arith, a.at_id (inr (omega arith))))
          (omega (arith, a.at_id (inr (omega arith)), filled, size, two))
          (unseen (after.id - p.id) (omega (arith, a.at_id (inr (omega arith))))
            (omega (arith, a.at_id (inr (omega arith)), filled, size, two))),
    )
