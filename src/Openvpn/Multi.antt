-- ===== src/Openvpn/Multi.antt =====
-- vpn/openvpn-2.2.1/multi.c: packets put into the queue of the client instances.
pub mod Contents
pub mod Output
use seguridad_en_redes.Base.{
  ℕ, ◌+◌, ◌<◌, Bool, true, false, not, ◌&&◌, ◌==◌, List, [], ◌∷◌, Option, none, some, get_elem?,
  set, length, ltb, if◌then◌else◌,
}
use seguridad_en_redes.Openvpn.Checked.{◌>>=◌}
use seguridad_en_redes.Openvpn.Buffer.{Buffer}
use seguridad_en_redes.Openvpn.Mbuf.{
  MbufItem, MbufSet, Store, mbuf_alloc_buf, mbuf_free_buf, mbuf_add_item,
}

-- `MF_UNICAST`
abbrev pub mf_unicast : ℕ
mf_unicast = 1

-- `multi_add_mbuf`; `ready` is what `multi_output_queue_ready` says of the instance.
unfoldable pub multi_add_mbuf : (ℕ → Bool) → MbufSet → Store → ℕ → ℕ → Option (MbufSet × Store)
multi_add_mbuf ready ms store mi mb =
    if ready mi
    then mbuf_add_item ms store (record { buffer = some mb; instance_ = some mi })
    else some (ms, store)

-- `mb->flags = flags`
unfoldable pub set_flags : Store → ℕ → ℕ → Option Store
set_flags store p flags = do
  mb ← get_elem? store p
  some (set store p (record mb { flags = flags }))

-- `multi_unicast`, on a packet that is not empty
unfoldable pub unicast : (ℕ → Bool) → MbufSet → Store → Buffer → ℕ → Option (MbufSet × Store)
unicast ready ms store buf mi = do
  let a = mbuf_alloc_buf store buf
  flagged ← set_flags a.0 a.1 mf_unicast
  r ← multi_add_mbuf ready ms flagged mi a.1
  freed ← mbuf_free_buf r.1 (some a.1)
  some (r.0, freed)

-- `multi_unicast`
unfoldable pub multi_unicast : (ℕ → Bool) → MbufSet → Store → Buffer → ℕ → Option (MbufSet × Store)
multi_unicast ready ms store buf mi =
    if ltb 0 (length buf.content) then unicast ready ms store buf mi else some (ms, store)

-- What `multi_bcast` reads of the server's instances: those that the iterator over them gives, in
-- order, which of them are halted, and what the packet filters of pf.c say: of two clients, and of
-- an instance and a source address.
pub record Instances : Type 0 where
  pub iter : List ℕ
  pub halt : ℕ → Bool
  pub pf_c2c_test : ℕ → ℕ → Bool
  pub pf_addr_test : ℕ → ℕ → Bool

-- `mi != sender_instance`, for a sender that may be NULL
unfoldable pub is_other : Option ℕ → ℕ → Bool
is_other none mi = true
is_other (some sender) mi = not (sender == mi)

-- `!sender_instance || pf_c2c_test (...)`
unfoldable pub c2c_passes : Instances → Option ℕ → ℕ → Bool
c2c_passes m none mi = true
c2c_passes m (some sender) mi = m.pf_c2c_test sender mi

-- `!sender_addr || pf_addr_test (...)`
unfoldable pub addr_passes : Instances → Option ℕ → ℕ → Bool
addr_passes m none mi = true
addr_passes m (some addr) mi = m.pf_addr_test mi addr

-- `multi_bcast`: the tests that an instance passes before the packet is put into its queue.
unfoldable pub passes : Instances → Option ℕ → Option ℕ → ℕ → Bool
passes m sender sender_addr mi =
    (is_other sender mi && not (m.halt mi))
    && (c2c_passes m sender mi && addr_passes m sender_addr mi)

-- The loop of `multi_bcast`, over the instances that the iterator gives.
unfoldable pub add_all :
    (ℕ → Bool) → (ℕ → Bool) → MbufSet → Store → List ℕ → ℕ → Option (MbufSet × Store)
add_all pass ready ms store [] mb = some (ms, store)
add_all pass ready ms store (mi ∷ iter) mb = do
  r ← (if pass mi then multi_add_mbuf ready ms store mi mb else some (ms, store))
  add_all pass ready r.0 r.1 iter mb

-- `multi_bcast`, on a packet that is not empty
unfoldable pub bcast :
    Instances
    → (ℕ → Bool)
    → MbufSet
    → Store
    → Buffer
    → Option ℕ
    → Option ℕ
    → Option (MbufSet × Store)
bcast m ready ms store buf sender sender_addr = do
  let a = mbuf_alloc_buf store buf
  r ← add_all (passes m sender sender_addr) ready ms a.0 m.iter a.1
  freed ← mbuf_free_buf r.1 (some a.1)
  some (r.0, freed)

-- `multi_bcast`
unfoldable pub multi_bcast :
    Instances
    → (ℕ → Bool)
    → MbufSet
    → Store
    → Buffer
    → Option ℕ
    → Option ℕ
    → Option (MbufSet × Store)
multi_bcast m ready ms store buf sender sender_addr =
    if ltb 0 (length buf.content)
    then bcast m ready ms store buf sender sender_addr
    else some (ms, store)
