-- ===== src/Discv4.antt =====
-- discovery/discv4.go: the discovery protocol, version 4.
pub mod Hex
pub mod Messages
pub mod Peer
pub mod Packet
pub mod Backend
pub mod Handle
pub mod FindNodes
pub mod Lookup
