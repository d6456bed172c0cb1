-- ===== src/Crypto.antt =====
-- crypto/crypto.go: signatures with a recovery byte behind them. The curve is that of btcec and
-- crypto/elliptic, the digest that of golang.org/x/crypto/sha3; neither is part of this repository.
pub mod Recover
use go_devp2p.Prelude.{
  ℕ, ◌-◌, Bool, Option, none, some, List, [], ◌∷◌, ◌++◌, Bytes, length, get_elem?, take, drop, ◌==◌,
  if◌then◌else◌, Result, ok, err, ◌>>=◌, from_option,
}

pub record Curve : Type 1 where
  pub PrivateKey : Type 0
  pub PublicKey : Type 0
  -- the field PublicKey of a private key
  pub public_key : PrivateKey → PublicKey
  -- Keccak256
  pub keccak : Bytes → Bytes
  -- btcec.SignCompact of a hash, and btcec.RecoverCompact of a signature and a hash
  pub sign_compact : PrivateKey → Bytes → Option Bytes
  pub recover_compact : Bytes → Bytes → Option PublicKey
  -- elliptic.Marshal and elliptic.Unmarshal
  pub marshal : PublicKey → Bytes
  pub unmarshal : Bytes → Option PublicKey

pub data CryptoError : Type 0 where
  panic refused : CryptoError

module _ (c : Curve) where
  open c use {PrivateKey, PublicKey, sign_compact, recover_compact, unmarshal}

  -- ParsePublicKey
  unfoldable pub parse_public_key : Bytes → Result CryptoError PublicKey
  parse_public_key buf = from_option refused (unmarshal buf)

  -- RecoverPubkey; an empty signature is read out of range
  unfoldable pub recover_pubkey : Bytes → Bytes → Result CryptoError PublicKey
  recover_pubkey signature hash = do
    let size = length signature
    last ← from_option panic (get_elem? signature (size - 1))
    let term = if last == 1 then 28 else 27
    from_option refused (recover_compact (term ∷ take (size - 1) signature) hash)

  -- Sign: the recovery byte of the compact form is moved behind the signature.
  unfoldable pub sign : PrivateKey → Bytes → Result CryptoError Bytes
  sign priv hash = do
    sig ← from_option refused (sign_compact priv hash)
    first ← from_option panic (get_elem? sig 0)
    let term = if first == 28 then 1 else 0
    ok (drop 1 (sig ++ term ∷ []))
