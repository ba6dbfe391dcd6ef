-- ===== src/Net/Signatures.antt =====
-- src/net.rs: for which messages the signature of a packet verifies.
use wsts.Prelude.{ℕ, ◌≡◌, refl, sym, ◌∙◌, some, Option-cases, inl, inr, true, arith}
use wsts.Channel.{Channel}
use wsts.Curve.{Curve, Scalar}
use wsts.Net.{
  Message, DkgBegin, DkgEnd, DkgStatus, SignatureShareRequest, SignatureShareResponse, Packet,
  dkg_begin, dkg_private_begin, dkg_end, signature_share_request, signature_share_response, hash,
  sign, signed, verify,
}

module _ ⦃c : Curve⦄ where
  -- Pairs of messages that differ in what is not hashed: which message it is, at the two starts of a
  -- phase of key generation; the status at its end; the iteration of a round of signature shares.
  pub data Confused : Message → Message → Type 0 where
    private_begin : (m : DkgBegin) → Confused (dkg_begin m) (dkg_private_begin m)
    begin : (m : DkgBegin) → Confused (dkg_private_begin m) (dkg_begin m)
    status : (m : DkgEnd) (s : DkgStatus) → Confused (dkg_end m) (dkg_end (record m { status = s }))
    request :
        (m : SignatureShareRequest) (i : ℕ)
        → Confused
            (signature_share_request m)
            (signature_share_request (record m { sign_iter_id = i }))
    response :
        (m : SignatureShareResponse) (i : ℕ)
        → Confused
            (signature_share_response m)
            (signature_share_response (record m { sign_iter_id = i }))

  hash-Confused : {msg other : Message} → Confused msg other → hash msg ≡ hash other
  unfolding hash
  hash-Confused (private_begin m) = refl
  hash-Confused (begin m) = refl
  hash-Confused (status m s) = refl
  hash-Confused (request m i) = refl
  hash-Confused (response m i) = refl

  module _ ⦃ch : Channel⦄ where
    signed-same_hash :
        (msg other : Message) (key : Scalar) (public_key : ch.PublicKey) (packet : Packet)
        → hash msg ≡ hash other
        → signed key msg ≡ some packet
        → ch.public_key key ≡ some public_key
        → verify other packet.sig public_key ≡ some true
    unfolding signed sign verify
    signed-same_hash msg other key public_key packet same h e = elim (Option-cases (hash msg)) [
      | inl f ↦ absurd (ground (arith, h, f))
      | inr (bytes, f) ↦ elim (Option-cases (c.ecdsa_sign (c.sha256 bytes) key)) [
        | inl g ↦ absurd (ground (arith, h, f, g))
        | inr (sig, g) ↦
            let (s, found, good) = ch.ecdsa_verify-ecdsa_sign (c.sha256 bytes) key public_key g e in
            ground (arith, h, f, g, found, good, sym same ∙ f)
      ]
    ]

    -- The signature of a packet verifies, under the public key that belongs to the private key, for its
    -- message, and just as well for another that differs from it in what is not hashed.
    pub signed-Confused :
        (msg other : Message) (key : Scalar) (public_key : ch.PublicKey) (packet : Packet)
        → Confused msg other
        → signed key msg ≡ some packet
        → ch.public_key key ≡ some public_key
        → (verify msg packet.sig public_key ≡ some true)
          × (verify other packet.sig public_key ≡ some true)
    signed-Confused msg other key public_key packet confused h e = (
      signed-same_hash msg msg key public_key packet refl h e,
      signed-same_hash msg other key public_key packet (hash-Confused confused) h e,
    )
