-- ===== src/Tests/QueueRuns.antt =====
-- Runs of OpenVPN's queue of packets for its clients.
use seguridad_en_redes.Base.{zero, suc, ◌≡◌, refl, [], ◌∷◌, none, some, map, ltb, codes, arith}
use seguridad_en_redes.Openvpn.Buffer.{Buffer}
use seguridad_en_redes.Openvpn.Mbuf.{
  MbufBuffer, MbufItem, MbufSet, Store, blank_item, mbuf_add_item, mbuf_dereference_instance,
}
use seguridad_en_redes.Openvpn.Mbuf.Ring.{IsRing, queue}
use seguridad_en_redes.Openvpn.Mbuf.References.{holds, references, refcount_of, IsCounted}
use seguridad_en_redes.Openvpn.Mbuf.References.Added.{
  IsSound, mbuf_add_item-IsSound, mbuf_add_item-full,
}
use seguridad_en_redes.Openvpn.Mbuf.References.Cleared.{cleared}
use seguridad_en_redes.Openvpn.Mbuf.References.Freed.{mbuf_dereference_instance-IsSound}
use seguridad_en_redes.Openvpn.Multi.{Instances}
use seguridad_en_redes.Base.{true, ◌==◌}
use seguridad_en_redes.Openvpn.Multi.Output.{CanAdd}

-- A full ring of two: a packet for client 1 at place 1, and behind it one for client 2 at place 0.
abbrev for_two : MbufItem
for_two = record { buffer = some 1; instance_ = some 2 }

abbrev for_one : MbufItem
for_one = record { buffer = some 0; instance_ = some 1 }

abbrev full_ring : MbufSet
full_ring = record {
  head = 1;
  len = 2;
  capacity = 2;
  max_queued = 2;
  array = for_two ∷ for_one ∷ [];
}

abbrev payload_buf : Buffer
payload_buf = record { offset = 0; content = codes "data"; room = 0 }

abbrev once : MbufBuffer
once = record { buf = payload_buf; refcount = 1; flags = 0 }

-- Their buffers, and a third that a caller holds.
abbrev store : Store
store = once ∷ once ∷ once ∷ []

full_ring-IsRing : IsRing full_ring
full_ring-IsRing = record {
  exponent = 1;
  size = refl;
  full_array = refl;
  head_in = omega arith;
  len_in = omega arith;
}

store-IsCounted : IsCounted store (queue full_ring) (holds (some 2))
unfolding references refcount_of
store-IsCounted zero = refl
store-IsCounted (suc zero) = refl
store-IsCounted (suc (suc zero)) = refl
store-IsCounted (suc (suc (suc p))) = ground arith

full_ring-IsSound : IsSound full_ring store (holds (some 2))
full_ring-IsSound = record {
  ring = full_ring-IsRing;
  whole = ((λ h. absurd (cc h)), ((λ h. absurd (cc h)), tt));
  counted = store-IsCounted;
}

full_ring-CanAdd : CanAdd full_ring
full_ring-CanAdd full h = absurd (cc h)

mbuf_add_item-IsSound_example :
    (ms' : MbufSet) × (store' : Store) × (mbuf_add_item full_ring store
        (record { buffer = some 2; instance_ = some 3 })
      ≡ some (ms', store'))
    × IsSound ms' store' (holds (some 2))
    × (queue ms' ≡ for_two ∷ record { buffer = some 2; instance_ = some 3 } ∷ [])
    × (ms'.capacity ≡ 2)
mbuf_add_item-IsSound_example =
    mbuf_add_item-IsSound full_ring store (holds (some 2)) 2 3 full_ring-IsSound (omega arith)
      full_ring-CanAdd

-- Both clients have gone.
abbrev dead_ring : MbufSet
dead_ring = record {
  head = 1;
  len = 2;
  capacity = 2;
  max_queued = 2;
  array = blank_item ∷ blank_item ∷ [];
}

dead_ring-IsRing : IsRing dead_ring
dead_ring-IsRing = record {
  exponent = 1;
  size = refl;
  full_array = refl;
  head_in = omega arith;
  len_in = omega arith;
}

mbuf_add_item-full_example : mbuf_add_item dead_ring store for_one ≡ none
mbuf_add_item-full_example = mbuf_add_item-full dead_ring store for_one dead_ring-IsRing refl refl

mbuf_dereference_instance-IsSound_example :
    (ms' : MbufSet) × (store' : Store) × (mbuf_dereference_instance full_ring 1 store
      ≡ some (ms', store'))
    × IsSound ms' store' (holds (some 2))
    × (queue ms' ≡ map (cleared 1) (for_one ∷ for_two ∷ []))
mbuf_dereference_instance-IsSound_example =
    mbuf_dereference_instance-IsSound full_ring 1 store (holds (some 2)) full_ring-IsSound

-- Five instances, of which 5 sends, 8 is halted, and 9 is kept out by a filter.
abbrev instances : Instances
instances = record {
  iter = 4 ∷ 5 ∷ 8 ∷ 9 ∷ 6 ∷ [];
  halt = λ mi. mi == 8;
  pf_c2c_test = λ from to. ltb to 9;
  pf_addr_test = λ mi addr. true;
}
