-- ===== src/V1/Signing.antt =====
-- src/v1.rs: `Aggregator::sign` and `sign_taproot` against a specification that names no loop.
use wsts.Prelude.{
  ℕ, ◌≤◌, ◌≡◌, ◌≢◌, refl, ap, ◌∙◌, true, if_pos, if_neg, Option, List, [], ◌∷◌, length, is_empty,
  get_elem?, if◌then◌else◌,
}
use mathlib.Core.Path.{ap₂}
use wsts.Prelude.Outcome.{Outcome, ok, err}
use wsts.Curve.{Curve, Scalar, Point, Bytes, MultimultSucceeds, G, ◌⊞◌, ◌⊙◌}
use wsts.Curve.Algebra.{zero-smul, plus-origin, one-smul, smul_comm}
use wsts.Common.{PublicNonce, SignatureShare, Signature}
use wsts.Common.Verify.{verify}
use wsts.Common.Equation.{verify_of_equation, taproot_of_equation, even_sign, even_sign-smul}
use wsts.Compute.{challenge, tweak, tweaked_public_key}
use wsts.Compute.Lagrange.{Distinct}
use wsts.Errors.{AggregatorError, bad_party_sigs}
use wsts.Taproot
use wsts.V1.Aggregator.{Aggregator, sign, sign_taproot, ids_of, sign_of}
use wsts.V1.Tally.{total}
use wsts.V1.Response.{
  aggregate, failures, response, verdict-verify, verdict-taproot, sign_with_tweak-verdict,
  signed-equation,
}

module _ ⦃c : Curve⦄ (works : MultimultSucceeds) (self : Aggregator) (msg : Bytes)
    (nonces : List PublicNonce) (shares : List SignatureShare) (key_ids : List ℕ) (first : Point)
    (rest : List Point) (group : self.poly ≡ first ∷ rest) (counted : length nonces ≡ length shares)
    (distinct : Distinct (ids_of shares)) (enough : length self.poly ≤ length shares) where
  untweaked : first ⊞ c.zero ⊙ G ≡ first
  untweaked = rw (zero-smul G) (plus-origin first)

  -- The outcome that the failing shares decide.
  outcome : Point → Scalar → Outcome AggregatorError Signature
  outcome key z =
      if is_empty (failures self msg nonces shares key c.zero)
      then ok (record { R = aggregate msg nonces shares; z = z })
      else err (bad_party_sigs (failures self msg nonces shares key c.zero))

  -- The signature that no failing share leaves verifies.
  signed-verify :
      failures self msg nonces shares (first ⊞ c.zero ⊙ G) c.zero ≡ []
      → verify
          (record {
            R = aggregate msg nonces shares;
            z = response msg nonces shares (first ⊞ c.zero ⊙ G) c.zero;
          })
          (first ⊞ c.zero ⊙ G)
          msg
        ≡ true
  signed-verify clean = verify_of_equation _ (first ⊞ c.zero ⊙ G) msg (
      signed-equation works self msg nonces shares first rest group counted c.zero clean distinct
        enough
      ∙ ap₂ (λ r s. r ⊙ sum ⊞ s ⊙ challenge key sum msg ⊙ key) (plain sum) (plain key)
      ∙ ap₂ (λ p q. p ⊞ q) (one-smul sum) (one-smul _))
    where
      sum : Point
      sum = aggregate msg nonces shares

      key : Point
      key = first ⊞ c.zero ⊙ G

      plain : (p : Point) → sign_of c.zero p ≡ c.one
      plain p = if_pos (c.scalar_discrete c.zero c.zero) refl _ _

  sign-outcome :
      sign self msg nonces shares key_ids
      ≡ outcome (first ⊞ c.zero ⊙ G) (response msg nonces shares (first ⊞ c.zero ⊙ G) c.zero)
  unfolding sign outcome
  sign-outcome =
      rw (sign_with_tweak-verdict works self msg nonces shares first rest group counted c.zero)
        (verdict-verify _ msg _ (first ⊞ c.zero ⊙ G) _ _ signed-verify)

  -- `sign` over a group polynomial, one nonce for each share, shares of distinct ids and no fewer
  -- than the polynomial has coefficients: it returns the sum of the bound nonces and of the
  -- responses if every share answers for its party, and otherwise blames exactly those that do not.
  -- In particular no assembled signature fails to verify.
  pub sign-failures : sign self msg nonces shares key_ids ≡ (
      if is_empty (failures self msg nonces shares first c.zero)
      then ok (record { R = aggregate msg nonces shares; z = total shares })
      else err (bad_party_sigs (failures self msg nonces shares first c.zero)))
  unfolding outcome
  sign-failures =
      sign-outcome
      ∙ ap (λ key. outcome key (response msg nonces shares key c.zero)) untweaked
      ∙ ap (outcome first) (if_pos (c.scalar_discrete c.zero c.zero) refl _ _)

module _ ⦃c : Curve⦄ (works : MultimultSucceeds) (self : Aggregator) (msg : Bytes)
    (nonces : List PublicNonce) (shares : List SignatureShare) (key_ids : List ℕ)
    (merkle_root : Option Bytes) (first : Point) (rest : List Point)
    (group : self.poly ≡ first ∷ rest) (counted : length nonces ≡ length shares)
    (distinct : Distinct (ids_of shares)) (enough : length self.poly ≤ length shares)
    (tweaked : tweak first merkle_root ≢ c.zero)
    (key_proper : tweaked_public_key first merkle_root ≢ c.origin)
    (nonce_proper : aggregate msg nonces shares ≢ c.origin) where
  signed-taproot :
      failures self msg nonces shares
          (tweaked_public_key first merkle_root)
          (tweak first merkle_root)
        ≡ []
      → Taproot.verify
          (Taproot.new (record {
            R = aggregate msg nonces shares;
            z =
                response msg nonces shares
                  (tweaked_public_key first merkle_root)
                  (tweak first merkle_root);
          }))
          (c.x (tweaked_public_key first merkle_root))
          msg
        ≡ true
  unfolding tweaked_public_key
  signed-taproot clean = taproot_of_equation _ key msg key_proper nonce_proper (
      signed-equation works self msg nonces shares first rest group counted tap clean distinct
        enough
      ∙ ap₂ (λ r s. r ⊙ sum ⊞ s ⊙ challenge key sum msg ⊙ key) (turned sum) (turned key)
      ∙ ap₂ (λ p q. p ⊞ q) (even_sign-smul sum)
          (smul_comm (even_sign key) (challenge key sum msg) key
            ∙ ap (λ p. challenge key sum msg ⊙ p) (even_sign-smul key)))
    where
      tap : Scalar
      tap = tweak first merkle_root

      sum : Point
      sum = aggregate msg nonces shares

      key : Point
      key = first ⊞ tap ⊙ G

      turned : (p : Point) → sign_of tap p ≡ even_sign p
      turned p = if_neg (c.scalar_discrete tap c.zero) tweaked _ _

  -- `sign_taproot` over a group polynomial, one nonce for each share, shares of distinct ids and no
  -- fewer than the polynomial has coefficients, where the tweak is not zero and neither the tweaked key
  -- nor the sum of the bound nonces is the point at infinity: if every share answers for its party
  -- under the tweaked key, it returns the proof of the sum of the responses and of the tweak, and
  -- otherwise it blames exactly the shares that do not. No assembled proof fails to verify.
  pub sign_taproot-failures : sign_taproot self msg nonces shares key_ids merkle_root ≡ (
      if is_empty (
        failures self msg nonces shares
          (tweaked_public_key first merkle_root)
          (tweak first merkle_root))
      then ok (
          Taproot.new (record {
            R = aggregate msg nonces shares;
            z =
                response msg nonces shares
                  (tweaked_public_key first merkle_root)
                  (tweak first merkle_root);
          }))
      else err (
          bad_party_sigs (
            failures self msg nonces shares
              (tweaked_public_key first merkle_root)
              (tweak first merkle_root))))
  unfolding sign_taproot tweaked_public_key
  sign_taproot-failures =
      rw
        (
          ap (λ f. get_elem? f 0) group,
          sign_with_tweak-verdict works self msg nonces shares first rest group counted
              (tweak first merkle_root),
        )
        (verdict-taproot _ msg _ (first ⊞ tweak first merkle_root ⊙ G) _ _ signed-taproot)
