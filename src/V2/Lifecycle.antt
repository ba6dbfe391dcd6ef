-- ===== src/V2/Lifecycle.antt =====
-- src/v2.rs: from the commitments and the shares of key generation to a signature.
use wsts.Prelude.{
  ℕ, ◌<◌, ◌≤◌, ◌≡◌, refl, sym, ap, ◌∙◌, some, List, [], ◌∷◌, ◌++◌, map, traverse, length, arith,
}
use mathlib.Core.Path.{ap₂, subst}
use wsts.Prelude.Maps.{Map}
use wsts.Prelude.Outcome.{Outcome, ok, err, panic}
use wsts.Curve.{Curve, Scalar, Point, Bytes, MultimultSucceeds, ◌⊞◌}
use wsts.Curve.Algebra.{origin-plus}
use wsts.Common.{PolyCommitment, SignatureShare}
use wsts.Compute.{intermediate}
use wsts.Compute.Lagrange.{Distinct}
use wsts.Errors.{AggregatorError}
use wsts.V1.Aggregator.{columns}
use wsts.V1.Batch.{AllLength}
use wsts.V1.KeyRound.{columns-head}
use wsts.V1.Keys.{constants}
use wsts.V1.Lifecycle.{length-columns}
use wsts.V1.Tally.{total}
use wsts.V2.Aggregator.{Aggregator, group_poly, init, sign}
use wsts.V2.KeyGeneration.{InOrder, compute_secret-key_ids, compute_secret-HoldsKeys}
use wsts.V2.Keys.{compute_secret-private_keys}
use wsts.V2.Party
use wsts.V2.Party.{Party}
use wsts.V2.Rounds.{AreKeyed, party_ids_of, keys_of, nonces_of, sign-key_holders}
use wsts.V2.Secret.{compute_secret}

module _ ⦃c : Curve⦄ where
  -- The parties of a round, each with the shares for its keys: their group keys are cleared, and all
  -- their `compute_secret`s succeed.
  abbrev pub Succeed : List PolyCommitment → List (Party × Map (Map Scalar)) → Type 0
  Succeed comms [] = Unit {0}
  Succeed comms ((party, shares) ∷ members) =
      (party.group_key ≡ c.origin)
      × InOrder shares comms
      × ((compute_secret shares comms party).1 ≡ ok tt)
      × Succeed comms members

  -- The parties after the round.
  abbrev pub keyed : List PolyCommitment → List (Party × Map (Map Scalar)) → List Party
  keyed comms = map λ m. (compute_secret m.1 comms m.0).0

  pub keyed-AreKeyed :
      MultimultSucceeds
      → (t : ℕ) (comms : List PolyCommitment) (poly : List Point) → AllLength t comms
      → columns 0 t comms ≡ ok poly
      → (members : List (Party × Map (Map Scalar))) → Succeed comms members
      → AreKeyed poly (constants comms) (keyed comms members)
  keyed-AreKeyed works t comms poly all made [] h = tt
  keyed-AreKeyed works t comms poly all made ((party, shares) ∷ members) (cleared, o, h, rest) = (
    compute_secret-HoldsKeys works t comms poly all made shares party o h,
    (compute_secret-private_keys shares comms party h).0
        ∙ ap (λ p. p ⊞ constants comms) cleared
        ∙ origin-plus (constants comms),
    keyed-AreKeyed works t comms poly all made members rest,
  )

  pub keys_of-keyed :
      (comms : List PolyCommitment) (members : List (Party × Map (Map Scalar)))
      → keys_of (keyed comms members) ≡ keys_of (map (λ m. m.0) members)
  keys_of-keyed comms [] = refl
  keys_of-keyed comms ((party, shares) ∷ members) =
      ap₂ (λ ks rest. ks ++ rest) (compute_secret-key_ids shares comms party)
        (keys_of-keyed comms members)

  pub init-made :
      (self : Aggregator) (comms : List PolyCommitment)
      → (init comms self).1 ≡ ok tt
      → (poly : List Point) × (columns 0 self.threshold comms ≡ ok poly)
        × ((init comms self).0 ≡ record self { poly = poly })
  unfolding init group_poly
  init-made self comms h = by_poly (group_poly self comms) refl
    where
      by_poly :
          (o : Outcome AggregatorError (List Point))
          → group_poly self comms ≡ o
          → (poly : List Point) × (columns 0 self.threshold comms ≡ ok poly)
            × ((init comms self).0 ≡ record self { poly = poly })
      by_poly (ok poly) e = (poly, ground (arith, e), rw e refl)
      by_poly (err x) e = absurd (ground (arith, h, e))
      by_poly panic e = absurd (ground (arith, h, e))

  module _ (works : MultimultSucceeds) (self : Aggregator) (comms : List PolyCommitment)
      (members : List (Party × Map (Map Scalar))) (msg : Bytes) where
    abbrev parties : List Party
    parties = keyed comms members

    -- Commitments that all have as many points as the threshold of the aggregator (v2) says, at least
    -- one, and of which its `init` makes a group; parties whose group keys are cleared, with distinct
    -- key ids in all, no fewer than the threshold, whose `compute_secret`s succeed with one share of
    -- each sender for every key, in the order of the senders. Whoever made the commitments and the
    -- shares: none of these parties panics when it signs, and the aggregator makes a signature from
    -- their shares.
    pub shared_keys-sign :
        0 < self.threshold
        → AllLength self.threshold comms
        → (init comms self).1 ≡ ok tt
        → Succeed comms members
        → Distinct (keys_of (map (λ m. m.0) members))
        → self.threshold ≤ length (keys_of (map (λ m. m.0) members))
        → (shares : List SignatureShare) × (traverse
              (λ p. Party.sign p msg (party_ids_of parties) (keys_of parties) (nonces_of parties))
              parties
            ≡ some shares)
          × (sign (init comms self).0 msg (nonces_of parties) shares (keys_of parties)
              ≡ ok (record {
                R = (intermediate msg (party_ids_of parties) (nonces_of parties)).1;
                z = total shares;
              }))
    shared_keys-sign positive all inited succeed distinct enough =
        let (poly, made, after) = init-made self comms inited in
        let (rest, group) = columns-head self.threshold comms poly made positive in
        let (shares, signed, result) =
          sign-key_holders works (record self { poly = poly }) msg parties (constants comms) rest
            group (keyed-AreKeyed works self.threshold comms poly all made members succeed)
            (subst Distinct (sym (keys_of-keyed comms members)) distinct)
            (omega (
              arith,
              enough,
              length-columns 0 self.threshold comms poly made,
              ap length (keys_of-keyed comms members),
            )) in
        (
          shares,
          signed,
          ap (λ a. sign a msg (nonces_of parties) shares (keys_of parties)) after ∙ result,
        )
