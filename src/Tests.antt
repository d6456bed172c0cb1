-- ===== src/Tests.antt =====
-- The theorems at concrete inputs.
mod Kademlia
mod ForkId
mod Codecs
mod Eth
mod Rlpx
mod Discv4
mod Exchange
mod Dispatcher
mod Dnsdisc
mod Walk
