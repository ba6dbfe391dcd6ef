-- ===== src/V2/Signing.antt =====
-- src/v2.rs: `Aggregator::sign` and `sign_taproot` against a specification that names no loop.
use wsts.Prelude.{
  ℕ, ◌≤◌, ◌≡◌, ◌≢◌, refl, sym, ap, ◌∙◌, if_pos, if_neg, true, Option, List, [], ◌∷◌, length,
  length-map, is_empty, get_elem?, if◌then◌else◌, ==_iff,
}
use mathlib.Core.Path.{ap₂}
use wsts.Prelude.Outcome.{ok, err}
use wsts.Curve.{Curve, Scalar, Point, Bytes, MultimultSucceeds, G, ◌⊕◌, ◌⊗◌, ◌⊞◌, ◌⊙◌}
use wsts.Curve.Algebra.{zero-add, zero-smul, plus-origin, one-smul, smul_comm, mul-zero, add-zero}
use wsts.Common.{PublicNonce, SignatureShare}
use wsts.Common.Verify.{verify}
use wsts.Common.Equation.{
  verify_of_equation, taproot_of_equation, even_sign, even_sign-smul, tweaked-equation,
}
use wsts.Compute.{challenge, tweak, tweaked_public_key}
use wsts.Compute.Lagrange.{Distinct}
use wsts.Compute.Interpolation.{evaluate, combine-evaluate}
use wsts.Compute.Poly.{intermediate-sum, length-intermediate}
use wsts.Errors.{bad_party_sigs}
use wsts.Taproot
use wsts.V1.Aggregator.{verdict, no_tally, ids_of, sign_of}
use wsts.V1.Tally.{total}
use wsts.V1.Response.{aggregate, commitments, verdict-verify, verdict-taproot}
use wsts.V2.Aggregator.{Aggregator, round_of, sign_with_tweak, sign, sign_taproot}
use wsts.V2.Tally.{failing, keys_due, key_ids_of, check_shares-failing, total-due}

module _ ⦃c : Curve⦄ where
  -- The ids of the shares that do not answer for their party, for a group key and a tweak.
  abbrev pub failures :
      Aggregator → Bytes → List PublicNonce → List SignatureShare → List ℕ → Point → Scalar → List ℕ
  failures self msg nonces shares key_ids key t =
      failing (round_of self.poly key_ids key (aggregate msg nonces shares) msg t) shares
        (commitments msg nonces shares)

  -- The response of the group signature.
  abbrev pub response : Bytes → List PublicNonce → List SignatureShare → Point → Scalar → Scalar
  response msg nonces shares key t =
      total shares ⊕ sign_of t key ⊗ challenge key (aggregate msg nonces shares) msg ⊗ t

module _ ⦃c : Curve⦄ (works : MultimultSucceeds) (self : Aggregator) (msg : Bytes)
    (nonces : List PublicNonce) (shares : List SignatureShare) (key_ids : List ℕ) (first : Point)
    (rest : List Point) (group : self.poly ≡ first ∷ rest) (counted : length nonces ≡ length shares)
    (keyed : key_ids_of shares ≡ key_ids) (distinct : Distinct key_ids)
    (enough : length self.poly ≤ length key_ids) where
  rs-length : length (commitments msg nonces shares) ≡ length shares
  rs-length =
      length-intermediate msg (ids_of shares) nonces (counted ∙ sym (length-map shares _))
      ∙ length-map shares _

  sign_with_tweak-verdict :
      (t : Scalar)
      → sign_with_tweak self msg nonces shares key_ids t
        ≡ verdict
            (record {
              z = total shares;
              bad_keys = [];
              bad_sigs = failures self msg nonces shares key_ids (first ⊞ t ⊙ G) t;
            })
            (first ⊞ t ⊙ G)
            (aggregate msg nonces shares)
            (response msg nonces shares (first ⊞ t ⊙ G) t)
  unfolding sign_with_tweak
  sign_with_tweak-verdict t =
      rw ((==_iff _ _).1 counted, group, check_shares-failing works _ no_tally shares _ rs-length)
        (rw (zero-add (total shares)) refl)

  constant : evaluate c.zero self.poly ≡ first
  unfolding evaluate
  constant = rw (group, zero-smul) (plus-origin first)

  -- If no share fails, the response has the logarithm of the group key.
  signed-equation :
      (t : Scalar)
      → failures self msg nonces shares key_ids (first ⊞ t ⊙ G) t ≡ []
      → response msg nonces shares (first ⊞ t ⊙ G) t ⊙ G
        ≡ sign_of t (aggregate msg nonces shares) ⊙ aggregate msg nonces shares
          ⊞ sign_of t (first ⊞ t ⊙ G)
            ⊙ challenge (first ⊞ t ⊙ G) (aggregate msg nonces shares) msg
            ⊙ (first ⊞ t ⊙ G)
  signed-equation t clean =
      tweaked-equation (total shares) (sign_of t sum) (sign_of t key) (challenge key sum msg) t sum
        first
        (total-due (round_of self.poly key_ids key sum msg t) shares (commitments msg nonces shares)
            rs-length clean
          ∙ ap₂ (λ p q. sign_of t sum ⊙ p ⊞ sign_of t key ⊙ challenge key sum msg ⊙ q)
              (sym (intermediate-sum msg (ids_of shares) nonces))
              (ap (keys_due (round_of self.poly key_ids key sum msg t)) keyed
                ∙ combine-evaluate key_ids self.poly enough distinct
                ∙ constant))
    where
      key : Point
      key = first ⊞ t ⊙ G

      sum : Point
      sum = aggregate msg nonces shares

  untweaked : first ⊞ c.zero ⊙ G ≡ first
  untweaked = rw (zero-smul G) (plus-origin first)

  signed-verify :
      failures self msg nonces shares key_ids (first ⊞ c.zero ⊙ G) c.zero ≡ []
      → verify
          (record {
            R = aggregate msg nonces shares;
            z = response msg nonces shares (first ⊞ c.zero ⊙ G) c.zero;
          })
          (first ⊞ c.zero ⊙ G)
          msg
        ≡ true
  signed-verify clean = verify_of_equation _ (first ⊞ c.zero ⊙ G) msg (
      signed-equation c.zero clean
      ∙ ap₂ (λ r s. r ⊙ sum ⊞ s ⊙ challenge key sum msg ⊙ key) (plain sum) (plain key)
      ∙ ap₂ (λ p q. p ⊞ q) (one-smul sum) (one-smul _))
    where
      sum : Point
      sum = aggregate msg nonces shares

      key : Point
      key = first ⊞ c.zero ⊙ G

      plain : (p : Point) → sign_of c.zero p ≡ c.one
      plain p = if_pos (c.scalar_discrete c.zero c.zero) refl _ _

  -- The response where nothing is tweaked.
  response-zero : (key : Point) → response msg nonces shares key c.zero ≡ total shares
  response-zero key =
      ap (λ a. total shares ⊕ a)
        (mul-zero (sign_of c.zero key ⊗ challenge key (aggregate msg nonces shares) msg))
      ∙ add-zero (total shares)

  -- `sign` over a group polynomial, one nonce for each share, shares whose key ids are in order the
  -- distinct ids of the signing, no fewer than the polynomial has coefficients: it returns the sum
  -- of the bound nonces and of the responses if every share answers for all the keys of its party,
  -- and otherwise blames exactly those that do not. In particular no assembled signature fails to
  -- verify.
  pub sign-failing : sign self msg nonces shares key_ids ≡ (
      if is_empty (failures self msg nonces shares key_ids first c.zero)
      then ok (record { R = aggregate msg nonces shares; z = total shares })
      else err (bad_party_sigs (failures self msg nonces shares key_ids first c.zero)))
  unfolding sign
  sign-failing =
      rw (sign_with_tweak-verdict c.zero)
        (verdict-verify _ msg _ (first ⊞ c.zero ⊙ G) _ _ signed-verify)
      ∙ ap
          (λ key.
            if is_empty (failures self msg nonces shares key_ids key c.zero)
            then ok (record {
              R = aggregate msg nonces shares;
              z = response msg nonces shares key c.zero;
            })
            else err (bad_party_sigs (failures self msg nonces shares key_ids key c.zero)))
          untweaked
      ∙ ap
          (λ z.
            if is_empty (failures self msg nonces shares key_ids first c.zero)
            then ok (record { R = aggregate msg nonces shares; z = z })
            else err (bad_party_sigs (failures self msg nonces shares key_ids first c.zero)))
          (response-zero first)

  module _ (merkle_root : Option Bytes) (tweaked : tweak first merkle_root ≢ c.zero)
      (key_proper : tweaked_public_key first merkle_root ≢ c.origin)
      (nonce_proper : aggregate msg nonces shares ≢ c.origin) where
    signed-taproot :
        failures self msg nonces shares key_ids
            (tweaked_public_key first merkle_root)
            (tweak first merkle_root)
          ≡ []
        → Taproot.verify
            (Taproot.new (record {
              R = aggregate msg nonces shares;
              z =
                  response msg nonces shares
                    (tweaked_public_key first merkle_root)
                    (tweak first merkle_root);
            }))
            (c.x (tweaked_public_key first merkle_root))
            msg
          ≡ true
    unfolding tweaked_public_key
    signed-taproot clean = taproot_of_equation _ key msg key_proper nonce_proper (
        signed-equation tap clean
        ∙ ap₂ (λ r s. r ⊙ sum ⊞ s ⊙ challenge key sum msg ⊙ key) (turned sum) (turned key)
        ∙ ap₂ (λ p q. p ⊞ q) (even_sign-smul sum)
            (smul_comm (even_sign key) (challenge key sum msg) key
              ∙ ap (λ p. challenge key sum msg ⊙ p) (even_sign-smul key)))
      where
        tap : Scalar
        tap = tweak first merkle_root

        sum : Point
        sum = aggregate msg nonces shares

        key : Point
        key = first ⊞ tap ⊙ G

        turned : (p : Point) → sign_of tap p ≡ even_sign p
        turned p = if_neg (c.scalar_discrete tap c.zero) tweaked _ _

    -- `sign_taproot` over a group polynomial, one nonce for each share, shares whose key ids are in
    -- order the distinct ids of the signing, no fewer than the polynomial has coefficients, where the tweak is not zero and neither the
    -- tweaked key nor the sum of the bound nonces is the point at infinity: if every share answers
    -- for all the keys of its party under the tweaked key, it returns the proof of the sum of the
    -- responses and of the tweak, and otherwise it blames exactly the shares that do not. No
    -- assembled proof fails to verify.
    pub sign_taproot-failing : sign_taproot self msg nonces shares key_ids merkle_root ≡ (
        if is_empty (
          failures self msg nonces shares key_ids
            (tweaked_public_key first merkle_root)
            (tweak first merkle_root))
        then ok (
            Taproot.new (record {
              R = aggregate msg nonces shares;
              z =
                  response msg nonces shares
                    (tweaked_public_key first merkle_root)
                    (tweak first merkle_root);
            }))
        else err (
            bad_party_sigs (
              failures self msg nonces shares key_ids
                (tweaked_public_key first merkle_root)
                (tweak first merkle_root))))
    unfolding sign_taproot tweaked_public_key
    sign_taproot-failing =
        rw (ap (λ f. get_elem? f 0) group, sign_with_tweak-verdict (tweak first merkle_root))
          (verdict-taproot _ msg _ (first ⊞ tweak first merkle_root ⊙ G) _ _ signed-taproot)
