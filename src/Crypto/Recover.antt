-- ===== src/Crypto/Recover.antt =====
-- Signing and recovering, in crypto/crypto.go, undo each other.
use go_devp2p.Prelude.{
  ℕ, ◌-◌, ◌≡◌, refl, ap, sym, ◌∙◌, ◌≢◌, ◌⊎◌, inl, inr, none, some, Option-cases, ok_inj, [], ◌∷◌,
  ◌++◌, Bytes, IsBytes, length, length-append, get_elem?, take-length, if◌then◌else◌, ◌==◌, ok,
  arith,
}
use go_devp2p.Crypto.{Curve, recover_pubkey, sign}

-- What the program relies on: a compact signature of an uncompressed key has its recovery code, 27
-- or 28, in front of 64 bytes and yields the signer's key; digests have 32 bytes, and a marshalled
-- key has 65 bytes and is read back.
pub record Laws (c : Curve) : Type 0 where
  pub compact :
      (k : c.PrivateKey) (h s : Bytes)
      → c.sign_compact k h ≡ some s
      → (v : ℕ) × (r : Bytes) × (s ≡ v ∷ r)
        × ((v ≡ 27) ⊎ (v ≡ 28))
        × (length r ≡ 64)
        × (c.recover_compact s h ≡ some (c.public_key k))
  pub keccak_size : (b : Bytes) → length (c.keccak b) ≡ 32
  pub marshal_size : (p : c.PublicKey) → length (c.marshal p) ≡ 65
  pub marshal_IsBytes : (p : c.PublicKey) → IsBytes (c.marshal p)
  pub unmarshal_of_marshal : (p : c.PublicKey) → c.unmarshal (c.marshal p) ≡ some p

get_elem?-last : (xs : Bytes) (y : ℕ) → get_elem? (xs ++ y ∷ []) (length xs) ≡ some y
get_elem?-last [] y = refl
get_elem?-last (x ∷ xs) y = get_elem?-last xs y

length-last : (xs : Bytes) (y : ℕ) → length (xs ++ y ∷ []) - 1 ≡ length xs
length-last xs y = omega (arith, length-append xs (y ∷ []))

module _ (c : Curve) (l : Laws c) where
  recover_pubkey-last :
      (r h : Bytes) (v t : ℕ)
      → (if t == 1 then 28 else 27) ≡ v
      → (p : c.PublicKey) → c.recover_compact (v ∷ r) h ≡ some p
      → recover_pubkey c (r ++ t ∷ []) h ≡ ok p
  unfolding recover_pubkey
  recover_pubkey-last r h v t e p q =
      rw (length-last r t, get_elem?-last r t, take-length r (t ∷ []), e, q) refl

  -- Sign, of a compact signature `v ∷ r`
  pub sign-compact :
      (k : c.PrivateKey) (h r : Bytes) (v : ℕ)
      → c.sign_compact k h ≡ some (v ∷ r)
      → sign c k h ≡ ok (r ++ (if v == 28 then 1 else 0) ∷ [])
  unfolding sign
  sign-compact k h r v e = rw e refl

  sign-refused : (k : c.PrivateKey) (h s : Bytes) → c.sign_compact k h ≡ none → sign c k h ≢ ok s
  unfolding sign
  sign-refused k h s e f = cc

  -- A signature that Sign makes has 65 bytes, and RecoverPubkey yields the signer's key from it.
  pub recover_pubkey-sign :
      (k : c.PrivateKey) (h s : Bytes)
      → sign c k h ≡ ok s
      → (length s ≡ 65) × (recover_pubkey c s h ≡ ok (c.public_key k))
  recover_pubkey-sign k h s e = elim (Option-cases (c.sign_compact k h)) [
    | inl f ↦ absurd (sign-refused k h s f e)
    | inr (w, f) ↦
        let (v, r, q, code, size, back) = l.compact k h w f in
        let made = sign-compact k h r v (f ∙ ap some q) in
        let same = ok_inj (sym e ∙ made) in
        let term : (if (if v == 28 then 1 else 0) == 1 then 28 else 27) ≡ v = ground arith in
        rw same (
          omega (arith, length-append r ((if v == 28 then 1 else 0) ∷ [])),
          recover_pubkey-last r h v (if v == 28 then 1 else 0) term (c.public_key k)
              (sym (ap (λ x. c.recover_compact x h) q) ∙ back),
        )
  ]
