-- ===== src/V1/Lifecycle.antt =====
-- src/v1.rs: from the commitments and the shares of key generation to a signature.
use wsts.Prelude.{
  ℕ, zero, suc, ◌<◌, ◌≤◌, ◌≡◌, refl, sym, ap, ◌∙◌, List, [], ◌∷◌, map, length, length-map, arith,
}
use mathlib.Core.Path.{ap₂, subst}
use wsts.Prelude.Maps.{Map}
use wsts.Prelude.Outcome.{Outcome, ok, err, panic}
use wsts.Curve.{Curve, Scalar, Point, Bytes, MultimultSucceeds}
use wsts.Common.{PolyCommitment}
use wsts.Compute.{intermediate}
use wsts.Compute.Lagrange.{Distinct}
use wsts.Errors.{AggregatorError}
use wsts.V1.Aggregator.{Aggregator, columns, group_poly, init, sign}
use wsts.V1.Batch.{AllLength}
use wsts.V1.GroupKey.{group_poly-columns, columns-split}
use wsts.V1.Honest.{ids, public_nonces}
use wsts.V1.KeyGeneration.{Succeed, keyed, keyed-AreHonest, poly-head, compute_secret-id}
use wsts.V1.Keys.{constants}
use wsts.V1.Party
use wsts.V1.Party.{Party, compute_secret}
use wsts.V1.Rounds.{sign-honest}
use wsts.V1.Tally.{total}

module _ ⦃c : Curve⦄ where
  pub length-columns :
      (i n : ℕ) (comms : List PolyCommitment) (poly : List Point)
      → columns i n comms ≡ ok poly
      → length poly ≡ n
  unfolding columns
  length-columns i zero comms poly h = ground (arith, h)
  length-columns i (suc n) comms poly h =
      let (p, ps, e, f, g) = columns-split i n comms poly h in
      ap length g ∙ ap suc (length-columns (suc i) n comms ps f)

  pub init-made :
      (self : Aggregator) (comms : List PolyCommitment)
      → (init comms self).1 ≡ ok tt
      → (poly : List Point) × (group_poly self comms ≡ ok poly)
        × ((init comms self).0 ≡ record self { poly = poly })
  unfolding init
  init-made self comms h = by_poly (group_poly self comms) refl
    where
      by_poly :
          (o : Outcome AggregatorError (List Point))
          → group_poly self comms ≡ o
          → (poly : List Point) × (group_poly self comms ≡ ok poly)
            × ((init comms self).0 ≡ record self { poly = poly })
      by_poly (ok poly) e = (poly, e, rw e refl)
      by_poly (err x) e = absurd (ground (arith, h, e))
      by_poly panic e = absurd (ground (arith, h, e))

  pub ids-keyed :
      (comms : List PolyCommitment) (members : List (Party × Map Scalar))
      → ids (keyed comms members) ≡ ids (map (λ m. m.0) members)
  ids-keyed comms [] = refl
  ids-keyed comms ((party, shares) ∷ members) =
      ap₂ (λ i is. i ∷ is) (compute_secret-id shares comms party) (ids-keyed comms members)

  module _ (works : MultimultSucceeds) (self : Aggregator) (comms : List PolyCommitment)
      (members : List (Party × Map Scalar)) (msg : Bytes) (key_ids : List ℕ) where
    abbrev parties : List Party
    parties = keyed comms members

    -- Commitments that all have as many points as the threshold says, at least one, and of which the
    -- aggregator's `init` makes a group; parties with distinct ids, no fewer than the threshold,
    -- whose `compute_secret`s succeed with one share for each commitment, in the order of the senders
    -- and few enough for 32 bits. Whoever made the commitments and the shares: the aggregator makes
    -- a signature from the shares that these parties sign.
    pub key_generation-sign :
        0 < self.threshold
        → AllLength self.threshold comms
        → (init comms self).1 ≡ ok tt
        → Succeed comms self.threshold members
        → Distinct (ids (map (λ m. m.0) members))
        → self.threshold ≤ length members
        → sign
            (init comms self).0
            msg
            (public_nonces parties)
            (map (λ p. Party.sign p msg (ids parties) (public_nonces parties)) parties)
            key_ids
          ≡ ok (record {
            R = (intermediate msg (ids parties) (public_nonces parties)).1;
            z = total (map (λ p. Party.sign p msg (ids parties) (public_nonces parties)) parties);
          })
    key_generation-sign positive all inited succeed distinct enough =
        let (poly, made, after) = init-made self comms inited in
        let (rest, group) = poly-head works self comms poly all made positive in
        ap
          (λ a.
            sign a msg (public_nonces parties)
              (map (λ p. Party.sign p msg (ids parties) (public_nonces parties)) parties) key_ids)
          after
        ∙ sign-honest works (record self { poly = poly }) msg parties key_ids (constants comms) rest
            group (keyed-AreHonest works self comms poly all made members succeed)
            (subst Distinct (sym (ids-keyed comms members)) distinct)
            (omega (
              arith,
              enough,
              length-columns 0 self.threshold comms poly (group_poly-columns self comms poly made),
              length-map members (λ m. (compute_secret m.1 comms m.0).0),
            ))
