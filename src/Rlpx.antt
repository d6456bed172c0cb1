-- ===== src/Rlpx.antt =====
-- rlpx: the encrypted sessions between peers and the streams in them.
pub mod Messages
pub mod Frame
pub mod KeyExchange
pub mod Stream
pub mod Session
