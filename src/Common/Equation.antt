-- ===== src/Common/Equation.antt =====
-- src/common.rs and src/taproot.rs: the equation that makes a signature verify.
use wsts.Prelude.{
  ◌≡◌, ◌≢◌, refl, ap, ◌∙◌, true, false, not, if_pos, inl, inr, Bool-cases, if◌then◌else◌,
}
use wsts.Curve.{Curve, Scalar, Point, Bytes, G, ◌⊕◌, ◌⊗◌, ◌⊞◌, ◌⊟◌, ◌⊙◌}
use wsts.Curve.Algebra.{module_laws, add-smul, one-smul, neg-smul, plus_assoc, plus-origin}
use wsts.Common.{Signature}
use wsts.Common.Verify.{verify}
use wsts.Compute.{challenge}
use wsts.Taproot
use wsts.Taproot.{SchnorrProof}

module _ ⦃c : Curve⦄ where
  -- A response with the right logarithm verifies.
  pub verify_of_equation :
      (sig : Signature) (key : Point) (msg : Bytes)
      → sig.z ⊙ G ≡ sig.R ⊞ challenge key sig.R msg ⊙ key
      → verify sig key msg ≡ true
  unfolding verify
  verify_of_equation sig key msg h = if_pos _ back true false
    where
      back : sig.z ⊙ G ⊞ c.neg (challenge key sig.R msg) ⊙ key ≡ sig.R
      back =
          rw
            (
              h,
              neg-smul (challenge key sig.R msg) key,
              plus_assoc sig.R (challenge key sig.R msg ⊙ key)
                  (c.opposite (challenge key sig.R msg ⊙ key)),
              c.plus-opposite (challenge key sig.R msg ⊙ key),
            )
            (plus-origin sig.R)

  -- The point with the same x coordinate and an even y.
  abbrev pub even_of : Point → Point
  even_of p = if c.has_even_y p then p else c.opposite p

  -- The sign that takes a point to its even one.
  abbrev pub even_sign : Point → Scalar
  even_sign p = if c.has_even_y p then c.one else c.neg c.one

  pub even_sign-smul : (p : Point) → even_sign p ⊙ p ≡ even_of p
  even_sign-smul p = elim (Bool-cases (c.has_even_y p)) [
    | inl even ↦ rw even (one-smul p)
    | inr odd ↦ rw odd (neg-smul c.one p ∙ ap c.opposite (one-smul p))
  ]

  x-even_of : (p : Point) → c.x (even_of p) ≡ c.x p
  x-even_of p = elim (Bool-cases (c.has_even_y p)) [
    | inl even ↦ rw even refl
    | inr odd ↦ rw odd (c.x-opposite p)
  ]

  even_of-even : (p : Point) → p ≢ c.origin → c.has_even_y (even_of p) ≡ true
  even_of-even p h = elim (Bool-cases (c.has_even_y p)) [
    | inl even ↦ rw even even
    | inr odd ↦ rw odd (c.even-opposite p h ∙ ap not odd)
  ]

  challenge-even :
      (y r : Point) (msg : Bytes) → challenge (even_of y) (even_of r) msg ≡ challenge y r msg
  unfolding challenge
  challenge-even y r msg = rw (x-even_of y, x-even_of r)

  -- A response for the even points of the commitment and of the key verifies as a BIP-340 proof.
  pub taproot_of_equation :
      (sig : Signature) (key : Point) (msg : Bytes)
      → key ≢ c.origin
      → sig.R ≢ c.origin
      → sig.z ⊙ G ≡ even_of sig.R ⊞ challenge key sig.R msg ⊙ even_of key
      → Taproot.verify (Taproot.new sig) (c.x key) msg ≡ true
  unfolding Taproot.verify Taproot.new
  taproot_of_equation sig key msg hk hr h =
      rw
        (
          c.lift_x-x key hk,
          c.lift_x-x sig.R hr,
          challenge-even key sig.R msg,
          back,
          even_of-even sig.R hr,
        )
        (if_pos _ (x-even_of sig.R) true false)
    where
      back : sig.z ⊙ G ⊟ challenge key sig.R msg ⊙ even_of key ≡ even_of sig.R
      back =
          rw
            (
              h,
              plus_assoc (even_of sig.R) (challenge key sig.R msg ⊙ even_of key)
                  (c.opposite (challenge key sig.R msg ⊙ even_of key)),
              c.plus-opposite (challenge key sig.R msg ⊙ even_of key),
            )
            (plus-origin (even_of sig.R))

  -- A response for a key, and the response for the tweaked key.
  pub tweaked-equation :
      (z r s h t : Scalar) (sum key : Point)
      → z ⊙ G ≡ r ⊙ sum ⊞ s ⊙ h ⊙ key
      → (z ⊕ s ⊗ h ⊗ t) ⊙ G ≡ r ⊙ sum ⊞ s ⊙ h ⊙ (key ⊞ t ⊙ G)
  tweaked-equation z r s h t sum key e =
      add-smul z (s ⊗ h ⊗ t) G ∙ ap (λ p. p ⊞ (s ⊗ h ⊗ t) ⊙ G) e ∙ regroup
    where
      regroup : (r ⊙ sum ⊞ s ⊙ h ⊙ key) ⊞ (s ⊗ h ⊗ t) ⊙ G ≡ r ⊙ sum ⊞ s ⊙ h ⊙ (key ⊞ t ⊙ G)
      regroup = simp module_laws
