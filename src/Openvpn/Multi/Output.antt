-- ===== src/Openvpn/Multi/Output.antt =====
-- Unicast and broadcast packets in the queue of vpn/openvpn-2.2.1/multi.c.
use seguridad_en_redes.Base.{
  ℕ, ◌+◌, ◌≡◌, ◌≢◌, Bool, true, List, [], ◌∷◌, ◌++◌, Option, none, some, length, ◌==◌,
  if◌then◌else◌,
}
use seguridad_en_redes.Openvpn.Buffer.{Buffer}
use seguridad_en_redes.Openvpn.Mbuf.{MbufItem, MbufSet, Store}
use seguridad_en_redes.Openvpn.Mbuf.Ring.{queue}
use seguridad_en_redes.Openvpn.Mbuf.Queue.{first, behind}
use seguridad_en_redes.Openvpn.Mbuf.References.{holds}
use seguridad_en_redes.Openvpn.Mbuf.References.Added.{IsSound}
use seguridad_en_redes.Openvpn.Multi.Contents.{contents}

-- The packet for an instance at the end of a queue of at most `size` packets.
abbrev pub push : ℕ → List MbufItem → MbufItem → List MbufItem
push size items item = (if length items == size then behind items else items) ++ (item ∷ [])

-- The packet for each of the instances that are ready.
abbrev pub pushes : ℕ → (ℕ → Bool) → ℕ → List ℕ → List MbufItem → List MbufItem
pushes size ready mb [] items = items
pushes size ready mb (mi ∷ targets) items =
    pushes size ready mb targets (
      if ready mi
      then push size items (record { buffer = some mb; instance_ = some mi })
      else items)

-- A full ring has a packet to lose.
abbrev pub CanAdd : MbufSet → Type 0
CanAdd ms = (ms.len == ms.capacity) ≡ true → first (queue ms) ≢ none

-- What a step leaves: a sound ring that can be added to, with its queue.
abbrev pub LeavesQueue : Option (MbufSet × Store) → (ℕ → ℕ) → ℕ → List MbufItem → Type 0
LeavesQueue result extra size items =
    (ms' : MbufSet) × (store' : Store) × (result ≡ some (ms', store'))
    × IsSound ms' store' extra
    × CanAdd ms'
    × (queue ms' ≡ items)
    × (ms'.capacity ≡ size)

abbrev with_one : (ℕ → ℕ) → ℕ → ℕ → ℕ
with_one extra mb p = extra p + holds (some mb) p

-- What `multi_bcast` leaves: also what the buffers hold.
abbrev pub Leaves : Option (MbufSet × Store) → (ℕ → ℕ) → ℕ → List MbufItem → List Buffer → Type 0
Leaves result extra size items buffers =
    (ms' : MbufSet) × (store' : Store) × (result ≡ some (ms', store'))
    × IsSound ms' store' extra
    × CanAdd ms'
    × (queue ms' ≡ items)
    × (ms'.capacity ≡ size)
    × (contents store' ≡ buffers)
