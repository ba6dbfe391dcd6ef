-- ===== src/V1/Rounds.antt =====
-- src/v1.rs: a signing round of parties that hold the keys of one group, from their shares to the
-- signature.
use wsts.Prelude.{
  ℕ, ◌≤◌, ◌≡◌, ◌≢◌, sym, ap, ◌∙◌, Option, List, [], ◌∷◌, map, length, length-map, is_empty,
  if◌then◌else◌,
}
use mathlib.Core.Path.{subst}
use wsts.Prelude.Outcome.{ok, err}
use wsts.Curve.{Curve, Scalar, Point, Bytes, MultimultSucceeds, G, ◌⊞◌, ◌⊙◌}
use wsts.Curve.Algebra.{zero-smul, plus-origin}
use wsts.Common.{SignatureShare}
use wsts.Compute.{intermediate, tweak, tweaked_public_key}
use wsts.Compute.Lagrange.{Distinct}
use wsts.Errors.{bad_party_sigs}
use wsts.Taproot
use wsts.V1.Party
use wsts.V1.Party.{Party}
use wsts.V1.Aggregator.{Aggregator, sign, sign_taproot, ids_of, round_of}
use wsts.V1.Tally.{total, failing}
use wsts.V1.Response.{failures, aggregate, response}
use wsts.V1.Signing.{sign-failures, sign_taproot-failures}
use wsts.V1.Honest.{
  AreHonest, ids, public_nonces, answers, ids_of-answers, failing-answers, map-sign,
}

module _ ⦃c : Curve⦄ (self : Aggregator) (msg : Bytes) (parties : List Party) (first : Point)
    (honest : AreHonest self.poly first parties) (t : Scalar) where
  abbrev pub shares_of : List SignatureShare
  shares_of =
      answers msg (ids parties) (public_nonces parties)
        (intermediate msg (ids parties) (public_nonces parties)).1 t parties

  shares-ids : ids_of shares_of ≡ ids parties
  shares-ids =
      ids_of-answers msg (ids parties) (public_nonces parties)
        (intermediate msg (ids parties) (public_nonces parties)).1 t parties

  pub failures-answers : failures self msg (public_nonces parties) shares_of (first ⊞ t ⊙ G) t ≡ []
  unfolding intermediate
  failures-answers =
      ap
        (λ is.
          failing
            (round_of self.poly is (first ⊞ t ⊙ G) (intermediate msg is (public_nonces parties)).1
              msg t)
            shares_of (intermediate msg is (public_nonces parties)).0)
        shares-ids
      ∙ failing-answers self.poly first msg (ids parties) (public_nonces parties)
          (intermediate msg (ids parties) (public_nonces parties)).1 t parties honest

module _ ⦃c : Curve⦄ (works : MultimultSucceeds) (self : Aggregator) (msg : Bytes)
    (parties : List Party) (key_ids : List ℕ) (first : Point) (rest : List Point)
    (group : self.poly ≡ first ∷ rest) (honest : AreHonest self.poly first parties)
    (distinct : Distinct (ids parties)) (enough : length self.poly ≤ length parties) where
  counted :
      (t : Scalar)
      → length (public_nonces parties) ≡ length (shares_of self msg parties first honest t)
  counted t = length-map parties _ ∙ sym (length-map parties _)

  apart : (t : Scalar) → Distinct (ids_of (shares_of self msg parties first honest t))
  apart t = subst Distinct (sym (shares-ids self msg parties first honest t)) distinct

  many : (t : Scalar) → length self.poly ≤ length (shares_of self msg parties first honest t)
  many t = subst (λ n. length self.poly ≤ n) (sym (length-map parties _)) enough

  -- Parties with distinct ids that hold the keys of the aggregator's group, no fewer than its
  -- polynomial has coefficients: from the shares that their `sign` returns, the aggregator's `sign`
  -- makes a signature, whose response is the sum of the shares' responses.
  pub sign-honest :
      sign self msg
        (public_nonces parties)
        (map (λ p. Party.sign p msg (ids parties) (public_nonces parties)) parties)
        key_ids
      ≡ ok (record {
        R = (intermediate msg (ids parties) (public_nonces parties)).1;
        z = total (map (λ p. Party.sign p msg (ids parties) (public_nonces parties)) parties);
      })
  sign-honest = rw (map-sign msg (ids parties) (public_nonces parties) parties) (
      sign-failures works self msg (public_nonces parties)
        (shares_of self msg parties first honest c.zero) key_ids first rest group (counted c.zero)
        (apart c.zero) (many c.zero)
      ∙ ap
          (λ bad.
            if is_empty bad
            then ok (record {
              R =
                  aggregate msg (public_nonces parties)
                    (shares_of self msg parties first honest c.zero);
              z = total (shares_of self msg parties first honest c.zero);
            })
            else err (bad_party_sigs bad))
          clean
      ∙ ap
          (λ is. ok (record {
            R = (intermediate msg is (public_nonces parties)).1;
            z = total (shares_of self msg parties first honest c.zero);
          }))
          (shares-ids self msg parties first honest c.zero))
    where
      clean :
          failures self msg
            (public_nonces parties)
            (shares_of self msg parties first honest c.zero)
            first
            c.zero
          ≡ []
      clean =
          ap
            (λ key.
              failures self msg (public_nonces parties)
                (shares_of self msg parties first honest c.zero) key c.zero)
            (sym (ap (λ p. first ⊞ p) (zero-smul G) ∙ plus-origin first))
          ∙ failures-answers self msg parties first honest c.zero

  -- Parties with distinct ids that hold the keys of the aggregator's group, no fewer than its
  -- polynomial has coefficients, where the tweak is not zero and neither the tweaked key nor
  -- the sum of the bound nonces is the point at infinity: from the shares that the parties sign for
  -- the tweak and that sum, `sign_taproot` makes a proof of the sum of the responses and the tweak.
  pub sign_taproot-honest :
      (merkle_root : Option Bytes)
      → tweak first merkle_root ≢ c.zero
      → tweaked_public_key first merkle_root ≢ c.origin
      → (intermediate msg (ids parties) (public_nonces parties)).1 ≢ c.origin
      → sign_taproot self msg
          (public_nonces parties)
          (answers msg
            (ids parties)
            (public_nonces parties)
            (intermediate msg (ids parties) (public_nonces parties)).1
            (tweak first merkle_root)
            parties)
          key_ids
          merkle_root
        ≡ ok (
            Taproot.new (record {
              R = (intermediate msg (ids parties) (public_nonces parties)).1;
              z =
                  response msg
                    (public_nonces parties)
                    (answers msg
                      (ids parties)
                      (public_nonces parties)
                      (intermediate msg (ids parties) (public_nonces parties)).1
                      (tweak first merkle_root)
                      parties)
                    (tweaked_public_key first merkle_root)
                    (tweak first merkle_root);
            }))
  unfolding tweaked_public_key
  sign_taproot-honest merkle_root tweaked key_proper nonce_proper =
      sign_taproot-failures works self msg (public_nonces parties) shares key_ids merkle_root first
        rest group (counted t) (apart t) (many t) tweaked key_proper
        (subst (λ is. (intermediate msg is (public_nonces parties)).1 ≢ c.origin) (sym same)
          nonce_proper)
      ∙ ap
          (λ bad.
            if is_empty bad
            then ok (
                Taproot.new (record {
                  R = aggregate msg (public_nonces parties) shares;
                  z =
                      response msg (public_nonces parties) shares
                        (tweaked_public_key first merkle_root) t;
                }))
            else err (bad_party_sigs bad))
          (failures-answers self msg parties first honest t)
      ∙ ap
          (λ is. ok (
            Taproot.new (record {
              R = (intermediate msg is (public_nonces parties)).1;
              z =
                  response msg (public_nonces parties) shares (tweaked_public_key first merkle_root)
                    t;
            })))
          same
    where
      t : Scalar
      t = tweak first merkle_root

      shares : List SignatureShare
      shares = shares_of self msg parties first honest t

      same : ids_of shares ≡ ids parties
      same = shares-ids self msg parties first honest t
