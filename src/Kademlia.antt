-- ===== src/Kademlia.antt =====
-- discovery/kademlia: the routing table of node discovery.
pub mod Key
pub mod Bucket
pub mod Sorting
pub mod Table
