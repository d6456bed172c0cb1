-- ===== src/Lib.antt =====
-- go-devp2p, the devp2p networking library: node discovery, encrypted sessions and wire protocols.
--
-- The program's parts. A node keeps the peers that it knows in a routing table (discovery/kademlia),
-- which the discv4 protocol (discovery/discv4.go) fills by pings and queries over UDP. To a peer it
-- opens a session (rlpx): after a key exchange the two ends send encrypted frames, each announces
-- its protocols, and every protocol that both have gets a stream, with a range of message codes.
-- The eth protocol (wire/eth) runs on such a stream; its handshake compares fork identifiers
-- (forkid). A node describes itself by a record (enr), and trees of records are found in DNS
-- (dnsdisc). A dispatcher (periodic.go) tells the server which peer to dial next.
--
-- Which file models what, each with child modules for its theorems:
--   Kademlia.Key, .Bucket, .Sorting, .Table: discovery/kademlia/util.go, bucket.go, sorting.go and
--     kademlia.go. A table is the buckets, each a list of entries, and a log of the notifications;
--     Update is `update`, Remove `remove_peer`, nextBucket `next_bucket`. A table is well formed
--     (Table.Wf) if each entry is in the bucket of its common prefix and no bucket is over full.
--   ForkId: forkid/forkid.go; NewForkID is `new_fork_id`, At `at_block`, Validate `validate`.
--     ForkId.Crc32 and .Search are hash/crc32 and sort.Search.
--   Rlp: the interface of the RLP library, github.com/umbracle/fastrlp, with the laws that the codecs
--     rely on; Rlp.Tree is a model of it.
--   Crypto: Sign, RecoverPubkey and ParsePublicKey of crypto/crypto.go, over a curve with named laws.
--   Discv4.Messages: the packets of discovery/discv4.go and their codecs; Discv4.Hex, .Peer and
--     .Packet: its hexadecimal text, Peer, and decodePacket and encodePacket.
--   Discv4.Backend: the Backend of discovery/discv4.go and the operations that its handlers share.
--     The datagrams that it writes and the responses that it passes on are logs; probeNode is two
--     steps, before and behind the wait for the pong. Discv4.Handle: HandlePacket and its handlers.
--     Discv4.FindNodes: findNodes, one step for each response. Discv4.Lookup: LookupTarget, one step
--     for each reply. A backend is valid (Backend.Nodes) if every peer of its table is a known node.
--   Rlpx.Messages: rlpx/common.go and rlpx/handshake_messages.go.
--   Rlpx.KeyExchange: the key exchange of rlpx/handshake.go. A connection is the pieces that arrive
--     and those written; handshakeClient is two functions, before and behind the wait for the answer.
--   Rlpx.Frame: halfConn of rlpx/session.go. One direction is a position in the key stream, the bytes
--     hashed so far and the header buffer; `write` and `read` are the methods of these names.
--   Rlpx.Stream: rlpx/stream.go; a stream is its range of codes and its buffer.
--   Rlpx.Session: Session of rlpx/session.go and the protocol handshake of rlpx/handshake.go;
--     Rlpx.Session.Write: WriteMsg and Write of rlpx/stream.go.
--   Eth.Messages, Eth.Handler: wire/eth/messages.go and backend.go. A handler is the requests in
--     flight, a log of what it did, and what is closed; handleMsg is `handle_msg`, doRequest is
--     `request_wait` and `request_done`, with the answer, if any, in between, and `request` is a
--     request with the answers that come before and after it is stored.
--   Enr: enr/enr.go.
--   Dnsdisc: dnsdisc/entries.go; an entry is a value of `Entry`, its String `entry_string`.
--     Dnsdisc.Walk: dnsdisc/dnsdisc.go, nextNode as a loop over the names that are missing.
--   Dispatcher: periodic.go, with container/heap. The schedule that it refines is a function from
--     identifiers to jobs and times (Dispatcher.Items); an `Op` of Dispatcher.Runs is a call of Add,
--     Remove or dispatch, with the present time as an argument where the code reads the clock.
--   Tests: the theorems at concrete inputs.
--
-- A panic is a value: `none`, or an error named `panic` or `panicked`. Goroutines, locks, deadlines
-- and printing are left out: an operation is one step, and where two orders of steps matter, as for a
-- request and its answer, they are separate operations.
--
-- Bounds and fuel. Integers of w bits are natural numbers, with the wrap-around written out where the
-- source can reach it, but for the offsets of streams, which are taken to stay below 2 ^ 64.
-- MoveToFront is given two rounds for each entry, and nextBucket eight rounds for
-- each byte of the local identifier and two more; on a well-formed table that is enough, which is part
-- of the result on Update. The binary search is given one round more than the length, and the slices
-- of a neighbors answer one round for each node. The loop of nextNode ends on a tree that is finite,
-- with rounds that Dnsdisc.Served finds; no number is enough for every resolver. The loops of
-- container/heap are given one round more than the place, or the size, that they start from, and
-- Dispatcher.Loops shows that they end. Every other loop is structural recursion.
--
-- Not modelled: the sockets (rlpx/rlpx.go, discovery/udp_transport.go), the goroutines of discv4 and
-- of the dispatcher, the server (server.go), enode URLs, and the configuration. The primitives of
-- cryptography and compression, the digest of the routing table, the resolver, base64, base32 and the
-- formats of fmt are parameters.
mod Prelude
pub mod Crypto
pub mod Kademlia
pub mod ForkId
pub mod Rlp
pub mod Discv4
pub mod Rlpx
pub mod Eth
pub mod Enr
pub mod Dispatcher
pub mod Dnsdisc
pub mod Tests
