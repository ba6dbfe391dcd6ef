-- ===== src/Taproot.antt =====
-- src/taproot.rs: BIP-340 proofs.
use wsts.Prelude.{
  ◌≡◌, ap, ◌∙◌, length, take, drop, take-append, drop-append, ◌++◌, Bool, true, false, ◌&&◌, ite,
  Option, none, some,
}
use mathlib.Core.Path.{ap₂}
use wsts.Curve.{Curve, Scalar, Point, Element, Bytes, G, ◌⊟◌, ◌⊙◌}
use wsts.Common.{Signature}
use wsts.Compute.{challenge}

module _ ⦃c : Curve⦄ where
  pub record SchnorrProof : Type 0 where
    pub r : Element
    pub s : Scalar

  unfoldable pub new : Signature → SchnorrProof
  new sig = record { r = c.x sig.R; s = sig.z }

  -- The body of `verify` once both coordinates are lifted.
  abbrev verify_lifted : SchnorrProof → Bytes → Point → Point → Bool
  verify_lifted proof msg y r =
      let h = challenge y r msg in
      let rp = proof.s ⊙ G ⊟ h ⊙ y in
      c.has_even_y rp && ite (c.element_discrete (c.x rp) proof.r) true false

  abbrev verify_commitment : SchnorrProof → Bytes → Point → Option Point → Bool
  verify_commitment proof msg y none = false
  verify_commitment proof msg y (some r) = verify_lifted proof msg y r

  abbrev verify_key : SchnorrProof → Bytes → Option Point → Bool
  verify_key proof msg none = false
  verify_key proof msg (some y) = verify_commitment proof msg y (c.lift_x proof.r)

  unfoldable pub verify : SchnorrProof → Element → Bytes → Bool
  verify proof public_key msg = verify_key proof msg (c.lift_x public_key)

  -- Of 32 bytes each, which the types of the source say.
  unfoldable pub to_bytes : SchnorrProof → Bytes
  to_bytes self = c.element_bytes self.r ++ c.to_bytes self.s

  unfoldable pub from : Bytes → SchnorrProof
  from bytes = record { r = c.element_of_bytes (take 32 bytes); s = c.of_bytes (drop 32 bytes) }

  -- Where a coordinate has 32 bytes, and coordinates and scalars are read back from their bytes: so
  -- is a proof.
  pub from-to_bytes :
      ((e : Element) → length (c.element_bytes e) ≡ 32)
      → ((e : Element) → c.element_of_bytes (c.element_bytes e) ≡ e)
      → ((s : Scalar) → c.of_bytes (c.to_bytes s) ≡ s)
      → (proof : SchnorrProof) → from (to_bytes proof) ≡ proof
  unfolding from to_bytes
  from-to_bytes wide element scalar proof =
      ap₂ (λ r s. record { r = r; s = s })
        (ap c.element_of_bytes
            (take-append 32 (c.element_bytes proof.r) (c.to_bytes proof.s) (wide proof.r))
          ∙ element proof.r)
        (ap c.of_bytes
            (drop-append 32 (c.element_bytes proof.r) (c.to_bytes proof.s) (wide proof.r))
          ∙ scalar proof.s)
