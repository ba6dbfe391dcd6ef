-- ===== src/V1/KeyGeneration.antt =====
-- src/v1.rs: key generation and signing together, whatever the shares and the commitments come from.
use wsts.Prelude.{
  ℕ, ◌+◌, ◌*◌, ◌^◌, ◌<◌, ◌≡◌, refl, sym, ap, ◌∙◌, List, [], ◌∷◌, map, range, length, arith,
}
use mathlib.Core.Path.{subst}
use wsts.Prelude.Maps.{Map, keys}
use wsts.Prelude.Ordered.{From-self}
use wsts.Prelude.Outcome.{Outcome, ok, panic}
use wsts.Curve.{Curve, Scalar, Point, MultimultSucceeds, G, ◌⊞◌, ◌⊙◌}
use wsts.Curve.Algebra.{plus_comm, neg-smul, plus_cancel}
use wsts.Common.{PolyCommitment}
use wsts.Common.CheckPrivateShares.{new}
use wsts.Compute.{id}
use wsts.Compute.Interpolation.{evaluate}
use wsts.V1.Aggregator.{Aggregator, group_poly}
use wsts.V1.Batch.{AllLength}
use wsts.V1.BatchSum.{values_sum, batch-sum}
use wsts.V1.Dkg.{batch}
use wsts.V1.GroupKey.{group_poly-columns, group_poly-values}
use wsts.V1.Honest.{AreHonest}
use wsts.V1.KeyRound.{columns-head, constant_sum-constants, compute_secret-batch}
use wsts.V1.Keys.{share_sum, constants, compute_secret-sums}
use wsts.V1.Party.{Party, compute_secret}

module _ ⦃c : Curve⦄ where
  -- One share for each commitment, in the order of the senders, and few enough for 32 bits.
  abbrev pub Fits : Map Scalar → List PolyCommitment → ℕ → Type 0
  Fits shares comms t =
      (length comms ≡ length shares)
      × (keys shares ≡ range (length shares))
      × ((t + 1) * length shares < 2 ^ 32)

  vanishes : (a : Point) (s : Scalar) → a ⊞ c.neg s ⊙ G ≡ c.origin → s ⊙ G ≡ a
  vanishes a s h = plus_cancel (c.neg s ⊙ G) (s ⊙ G) a (
      ap (λ p. p ⊞ s ⊙ G) (neg-smul s G)
      ∙ plus_comm (c.opposite (s ⊙ G)) (s ⊙ G)
      ∙ c.plus-opposite (s ⊙ G)
      ∙ sym h
      ∙ plus_comm a (c.neg s ⊙ G))

  batch-nil : (x : Scalar) (shares : Map Scalar) → batch x shares [] ≡ panic
  unfolding batch new
  batch-nil x shares = refl

  -- Shares that pass the batch check add up to the logarithm of the polynomials' values.
  compute_secret-value :
      MultimultSucceeds
      → (self : Party) (shares : Map Scalar) (comms : List PolyCommitment) (t : ℕ)
      → Fits shares comms t
      → AllLength t comms
      → (compute_secret shares comms self).1 ≡ ok tt
      → share_sum shares ⊙ G ≡ values_sum (id self.id) comms
  compute_secret-value works self shares [] t (l, o, s) all h =
      absurd (cc (compute_secret-batch shares [] self h, batch-nil (id self.id) shares))
  compute_secret-value works self shares (comm ∷ comms) t (l, o, s) (full, all) h =
      vanishes (values_sum (id self.id) (comm ∷ comms)) (share_sum shares) (
        ok-inj (
          sym (
            batch-sum (id self.id) shares (comm ∷ comms) comm refl
              (subst (λ m. AllLength m (comm ∷ comms)) (sym full) (full, all)) l o
              (subst (λ m. (m + 1) * length shares < 2 ^ 32) (sym full) s) works)
          ∙ compute_secret-batch shares (comm ∷ comms) self h))
    where
      ok-inj : {E A : Type 0} {a b : A} → ◌≡◌ {A = Outcome E A} (ok a) (ok b) → a ≡ b
      ok-inj e = cc e

  pub compute_secret-id :
      (shares : Map Scalar) (comms : List PolyCommitment) (self : Party)
      → (compute_secret shares comms self).0.id ≡ self.id
  unfolding compute_secret
  compute_secret-id shares comms self = ground arith

  -- The parties of a round, each with the shares for it; all their `compute_secret`s succeed.
  abbrev pub Succeed : List PolyCommitment → ℕ → List (Party × Map Scalar) → Type 0
  Succeed comms t [] = Unit {0}
  Succeed comms t ((party, shares) ∷ members) =
      Fits shares comms t
      × ((compute_secret shares comms party).1 ≡ ok tt)
      × Succeed comms t members

  -- The parties after the round.
  abbrev pub keyed : List PolyCommitment → List (Party × Map Scalar) → List Party
  keyed comms = map λ m. (compute_secret m.1 comms m.0).0

  module _ (works : MultimultSucceeds) (self : Aggregator) (comms : List PolyCommitment)
      (poly : List Point) (all : AllLength self.threshold comms)
      (made : group_poly self comms ≡ ok poly) where
    party-on_group :
        (party : Party) (shares : Map Scalar)
        → Fits shares comms self.threshold
        → (compute_secret shares comms party).1 ≡ ok tt
        → ((compute_secret shares comms party).0.private_key ⊙ G
            ≡ evaluate (id (compute_secret shares comms party).0.id) poly)
          × ((compute_secret shares comms party).0.group_key ≡ constants comms)
    party-on_group party shares fits h =
        let (private, public, key) = compute_secret-sums shares comms party h in
        (
          ap (λ s. s ⊙ G) private
              ∙ compute_secret-value works party shares comms self.threshold fits all h
              ∙ sym (group_poly-values self comms poly (id party.id) all made)
              ∙ ap (λ i. evaluate (id i) poly) (sym (compute_secret-id shares comms party)),
          key ∙ constant_sum-constants shares comms comms 0 fits.1 fits.0 (From-self comms),
        )

    pub poly-head : 0 < self.threshold → (rest : List Point) × (poly ≡ constants comms ∷ rest)
    poly-head h = columns-head self.threshold comms poly (group_poly-columns self comms poly made) h

    -- All parties of a round of key generation of v1 that end it without an error, whoever made the shares
    -- and the commitments, hold keys of the group that the aggregator's `init` makes of the
    -- commitments.
    pub keyed-AreHonest :
        (members : List (Party × Map Scalar))
        → Succeed comms self.threshold members
        → AreHonest poly (constants comms) (keyed comms members)
    keyed-AreHonest [] h = tt
    keyed-AreHonest ((party, shares) ∷ members) (fits, h, rest) =
        let (on, knows) = party-on_group party shares fits h in
        (on, knows, keyed-AreHonest members rest)
