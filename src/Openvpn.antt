-- ===== src/Openvpn.antt =====
-- Parts of the OpenVPN daemon under vpn/openvpn-2.2.1.
pub mod Checked
pub mod Returns
pub mod CircList
pub mod PacketId
pub mod Buffer
pub mod Reliable
pub mod Mbuf
pub mod Multi
pub mod Pool
pub mod Hash
