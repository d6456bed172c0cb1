-- ===== src/Discv4/Backend/Send.antt =====
-- sendPacket of discovery/discv4.go: a datagram for the address of the peer, or an error.
use go_devp2p.Prelude.{
  ℕ, ◌≡◌, refl, ap, ◌∙◌, ◌⊎◌, inl, inr, none, some, [], ◌∷◌, ◌++◌, Bytes, replicate, drop, ok, err,
  Option-cases, Bool-cases, ◌==◌, if◌then◌else◌,
}
use go_devp2p.Crypto.{Curve, refused, sign}
use go_devp2p.Crypto.Recover.{Laws, sign-compact}
use go_devp2p.Discv4.Peer.{Peer}
use go_devp2p.Discv4.Packet.{copy_at, encode_packet}
use go_devp2p.Discv4.Backend.{Env, Backend, Datagram, not_sent, send_packet}

-- The backend after a datagram.
abbrev pub sending : Datagram → Backend → Backend
sending d b = record b { sent = b.sent ++ d ∷ [] }

module _ (c : Curve) (l : Laws c) where
  -- Sign refuses, or signs: it never reads an empty signature.
  pub sign_cases :
      (k : c.PrivateKey) (h : Bytes)
      → (sign c k h ≡ err refused) ⊎ ((s : Bytes) × (sign c k h ≡ ok s))
  unfolding sign
  sign_cases k h = elim (Option-cases (c.sign_compact k h)) [
    | inl f ↦ inl (rw f refl)
    | inr (s, f) ↦
        let (v, r, q, code, size, back) = l.compact k h s f in
        inr (r ++ (if v == 28 then 1 else 0) ∷ [], sign-compact c l k h r v (f ∙ ap some q))
  ]

  signed_packet : Bytes → ℕ → Bytes → Bytes
  signed_packet s code payload =
      let signed = copy_at 32 s (replicate 97 0 ++ code ∷ payload) in
      copy_at 0 (c.keccak (drop 32 signed)) signed

  encode_packet_cases :
      (k : c.PrivateKey) (code : ℕ) (payload : Bytes)
      → (encode_packet c k code payload ≡ err refused)
        ⊎ ((packet : Bytes) × (encode_packet c k code payload ≡ ok packet))
  unfolding encode_packet signed_packet
  encode_packet_cases k code payload = elim (sign_cases k (c.keccak (code ∷ payload))) [
    | inl f ↦ inl (rw f refl)
    | inr (s, f) ↦ inr (signed_packet s code payload, rw f refl)
  ]

module _ (w : Env) (l : Laws w.curve) (to : Peer) (code : ℕ) (v : w.rlp.Value) (b : Backend) where
  -- What sendPacket does.
  abbrev pub Sends : Type 0
  Sends =
      (send_packet w to code v b ≡ ok (b, some not_sent))
      ⊎ ((packet : Bytes) × (encode_packet w.curve w.key code (w.rlp.marshal v) ≡ ok packet)
          × (send_packet w to code v b
              ≡ ok (sending (record { addr = to.udp_addr; buf = packet }) b, none)))

  pub send_packet_cases : Sends
  unfolding send_packet
  send_packet_cases = elim (encode_packet_cases w.curve l w.key code (w.rlp.marshal v)) [
    | inl f ↦ inl (rw (send_packet, f) refl)
    | inr (packet, f) ↦ elim (Bool-cases (w.write_to packet to.udp_addr)) [
      | inl g ↦ inr (packet, f, rw (send_packet, f, g) refl)
      | inr g ↦ inl (rw (send_packet, f, g) refl)
    ]
  ]
