-- ===== src/Eth.antt =====
-- wire/eth: the eth/66 protocol.
pub mod Messages
pub mod Handler
