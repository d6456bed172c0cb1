-- ===== src/Rlpx/Frame.antt =====
-- The frames of rlpx/session.go: halfConn, which encrypts and authenticates one direction.
-- The primitives (AES, Keccak, snappy) are parameters; the buffers `buf`, `tmp` and `aes`, which are
-- overwritten before they are read, are not modelled. A connection takes all that is written.
pub mod Stream
pub mod Mac
pub mod Write
pub mod Wire
pub mod RoundTrip
use Prim.Native.Nat.{bit_xor}
use go_devp2p.Prelude.{
  ℕ, zero, suc, ◌+◌, ◌-◌, ◌*◌, ◌/◌, ◌%◌, ◌^◌, ◌≤◌, ◌<◌, ◌≡◌, Bool, true, false, Option, none, some,
  List, [], ◌∷◌, ◌++◌, Bytes, IsBytes, bytes_eq, length, take, drop, replicate, ltb, ◌==◌, u8,
  if◌then◌else◌, Result, ok, err, ◌>>=◌, ◌>>◌, guard, not, from_option,
}

-- What one direction of a session calls: the key stream of AES in counter mode from the zero vector,
-- the block cipher of the MAC key, which reads the first 16 bytes of its argument, the Keccak-256
-- digest, the RLP encoding of a message code, and snappy.
pub record Primitives : Type 0 where
  pub key_stream : ℕ → ℕ
  pub encrypt : Bytes → Bytes
  pub digest : Bytes → Bytes
  pub encode_code : ℕ → Bytes
  pub snappy_encode : Bytes → Bytes
  pub snappy_decode : Bytes → Option Bytes

-- `position` is how far the key stream is used, and `written` all that went into the MAC's hash.
pub record HalfConn : Type 0 where
  pub snappy : Bool
  pub position : ℕ
  pub written : Bytes
  pub header : Bytes

pub data FrameError : Type 0 where
  eof incorrect_header_mac incorrect_payload_mac too_large code_length code_too_big bad_snappy
        panic :
      FrameError

abbrev pub max_uint24 : ℕ
max_uint24 = 2 ^ 24 - 1

-- io.ReadFull of `n` bytes: what is read, and the rest
unfoldable pub read_full : ℕ → Bytes → Result FrameError (Bytes × Bytes)
read_full n input = if ltb (length input) n then err eof else ok (take n input, drop n input)

-- halfConn.readCode: buf[0] panics on an empty frame
unfoldable pub read_code : Bytes → Result FrameError (ℕ × Bytes)
read_code [] = err panic
read_code (cur ∷ rest) =
    if ltb cur 0x80
    then ok (cur, rest)
    else if ltb cur 0xb8
    then (if ltb (suc (length rest)) (cur - 0x80)
        then err code_length
        else if (cur - 0x80) == 0
        then ok (0, rest)
        else err code_too_big)
    else err code_too_big

-- The padding to a multiple of 16.
unfoldable pub padding : ℕ → ℕ
padding size = if ltb 0 (size % 16) then 16 - size % 16 else 0

-- s.aes[i] ^= seed[i], for every index of the first
unfoldable pub xor_seed : Bytes → Bytes → Bytes
xor_seed [] seed = []
xor_seed (a ∷ as') [] = a ∷ as'
xor_seed (a ∷ as') (s ∷ seed) = bit_xor a s ∷ xor_seed as' seed

-- the size in the first three bytes of a decrypted header
unfoldable pub size_of : Bytes → Result FrameError ℕ
size_of (a ∷ b ∷ c ∷ rest) = ok (c + b * 2 ^ 8 + a * 2 ^ 16)
size_of _ = err panic

-- the header of a frame before it is encrypted: bytes 6 to 15 are left from the last frame
unfoldable pub set_header : ℕ → Bytes → Bytes
set_header full_size header =
    u8 (full_size / 2 ^ 16)
    ∷ u8 (full_size / 2 ^ 8)
    ∷ u8 full_size
    ∷ 0xc0
    ∷ 0x80
    ∷ 0x80
    ∷ drop 6 header

module _ (c : Primitives) where
  open c use {key_stream, encrypt, digest, encode_code, snappy_encode, snappy_decode}

  -- stream.XORKeyStream from a position of the key stream on
  unfoldable pub xor_stream : ℕ → Bytes → Bytes
  xor_stream pos [] = []
  xor_stream pos (b ∷ bs) = bit_xor b (key_stream pos) ∷ xor_stream (suc pos) bs

  -- halfConn.updateMacImpl: what the hash holds afterwards, and the MAC
  unfoldable pub update_mac_impl : Bytes → Bytes → Bytes → Bytes × Bytes
  update_mac_impl written src seed =
      let written' = written ++ xor_seed (encrypt src) seed in (written', take 16 (digest written'))

  -- halfConn.updateMacWithHeader and updateMac
  unfoldable pub update_mac_with_header : Bytes → Bytes → Bytes × Bytes
  unfolding update_mac_impl
  update_mac_with_header written header = update_mac_impl written (digest written) (take 16 header)

  unfoldable pub update_mac : Bytes → Bytes × Bytes
  unfolding update_mac_impl
  update_mac written = update_mac_impl written (digest written) (digest written)

  -- halfConn.writeData: the state and what is sent so far
  unfoldable pub write_data : HalfConn × Bytes → Bytes → HalfConn × Bytes
  write_data (s, out) b =
      let e = xor_stream s.position b in
      (record s { position = s.position + length b; written = s.written ++ e }, out ++ e)

  -- the body of a frame: code, payload and padding, and the MAC over them
  unfoldable pub write_body : HalfConn × Bytes → Bytes → Bytes → ℕ → HalfConn × Bytes
  write_body s0 ptype payload full_size =
      let s1 = write_data s0 ptype in
      let s2 = write_data s1 payload in
      let s3 =
        if ltb 0 (full_size % 16) then write_data s2 (replicate (16 - full_size % 16) 0) else s2 in
      let (written, mac) = update_mac (s3.0).written in
      (record (s3.0) { written = written }, s3.1 ++ mac)

  -- halfConn.write: the state afterwards and the bytes sent
  unfoldable pub write : HalfConn → ℕ → Bytes → Result FrameError (HalfConn × Bytes)
  write s code buf = do
    let ptype = encode_code code
    let payload = if s.snappy then snappy_encode buf else buf
    let full_size = length ptype + length payload
    guard (not (ltb max_uint24 full_size)) too_large
    let header = set_header full_size s.header
    let enc = xor_stream s.position (take 16 header)
    let (written, mac) = update_mac_with_header s.written enc
    let s' = record s {
      position = s.position + 16;
      written = written;
      header = enc ++ drop 16 header;
    }
    ok (write_body (s', enc ++ mac) ptype payload full_size)

  -- the content of a frame, behind its code
  unfoldable pub content_of : Bool → Bytes → Result FrameError Bytes
  content_of snappy content =
      if snappy then from_option bad_snappy (snappy_decode content) else ok content

  -- halfConn.read: the code, the content, the state afterwards and the input that is left
  unfoldable pub read : HalfConn → Bytes → Result FrameError (ℕ × Bytes × HalfConn × Bytes)
  read s input = do
    (header, input1) ← read_full 32 input
    let (written1, mac1) = update_mac_with_header s.written header
    guard (bytes_eq mac1 (drop 16 header)) incorrect_header_mac
    let dec = xor_stream s.position (take 16 header)
    size ← size_of dec
    let full_size = size + padding size
    (buf, input2) ← read_full full_size input1
    let written2 = written1 ++ buf
    (mac, input3) ← read_full 16 input2
    let (written3, mac2) = update_mac written2
    guard (bytes_eq mac2 mac) incorrect_payload_mac
    let plain = xor_stream (s.position + 16) buf
    (code, rest) ← read_code (take size plain)
    content ← content_of s.snappy rest
    ok (
      code,
      content,
      record s {
        position = s.position + 16 + full_size;
        written = written3;
        header = mac ++ drop 16 header;
      },
      input3,
    )
