-- ===== src/Discv4/Packet.antt =====
-- The signed packets of discovery/discv4.go: a digest, a signature and the data that is signed.
pub mod RoundTrip
use go_devp2p.Prelude.{
  ℕ, ◌+◌, ◌-◌, Bool, true, false, Option, none, some, List, [], ◌∷◌, ◌++◌, Bytes, bytes_eq, length,
  take, drop, replicate, ltb, if◌then◌else◌, Result, ok, err, ◌>>=◌, ◌>>◌, guard, not,
}
use go_devp2p.Crypto.{Curve, CryptoError, recover_pubkey, sign}

abbrev pub mac_size : ℕ
mac_size = 32

abbrev pub sig_size : ℕ
sig_size = 65

abbrev pub head_size : ℕ
head_size = mac_size + sig_size

-- `copy(dst[n:], src)`, which stops at the end of the shorter one
unfoldable pub copy_at : ℕ → Bytes → Bytes → Bytes
copy_at n src dst = take n dst ++ (take (length dst - n) src ++ drop (n + length src) dst)

pub data PacketError : Type 0 where
  too_short mac_mismatch : PacketError
  bad_signature : CryptoError → PacketError

module _ (c : Curve) where
  -- decodePacket: the digest, the signed data and the marshalled key of the sender
  unfoldable pub decode_packet : Bytes → Result PacketError (Bytes × Bytes × Bytes)
  decode_packet payload = do
    guard (not (ltb (length payload) (head_size + 1))) too_short
    let mac = take mac_size payload
    let sig = take sig_size (drop mac_size payload)
    let sigdata = drop head_size payload
    guard (bytes_eq mac (c.keccak (drop mac_size payload))) mac_mismatch
    elim (recover_pubkey c sig (c.keccak sigdata)) [
      | ok pubkey ↦ ok (mac, sigdata, c.marshal pubkey)
      | err why ↦ err (bad_signature why)
    ]

  -- encodePacket, of a message that MarshalRLP has written
  unfoldable pub encode_packet : c.PrivateKey → ℕ → Bytes → Result CryptoError Bytes
  encode_packet key code payload = do
    let packet = replicate head_size 0 ++ code ∷ payload
    sig ← sign c key (c.keccak (drop head_size packet))
    let signed = copy_at mac_size sig packet
    ok (copy_at 0 (c.keccak (drop mac_size signed)) signed)
