-- ===== src/V2/KeyGeneration.antt =====
-- src/v2.rs: key generation and signing together, whatever the shares and the commitments come from.
use wsts.Prelude.{
  ℕ, ◌≡◌, refl, sym, ap, ◌∙◌, true, some, List, [], ◌∷◌, range, length, contains, arith, ==_iff,
}
use mathlib.Core.Path.{subst}
use wsts.Prelude.Maps.{Map, lookup, keys}
use wsts.Prelude.Ordered.{From-self}
use wsts.Prelude.Outcome.{Outcome, ok, err, panic}
use wsts.Curve.{Curve, Scalar, Point, MultimultSucceeds}
use wsts.Common.{PolyCommitment}
use wsts.Compute.{id}
use wsts.Errors.{DkgError}
use wsts.V1.Aggregator.{columns}
use wsts.V1.Batch.{AllLength}
use wsts.V1.GroupKey.{columns-values}
use wsts.V1.Keys.{share_sum}
use wsts.V2.Dkg.{bad_shares_of, check_comms, check_keys}
use wsts.V2.Honest.{HoldsKeys}
use wsts.V2.KeyRound.{AllGood-sum, bad_shares_of-split}
use wsts.V2.Keys.{sum_of, compute_secret-private_keys}
use wsts.V2.Party.{Party}
use wsts.V2.Secret.{compute_secret}

module _ ⦃c : Curve⦄ where
  check_keys-shares :
      (ids : List ℕ) (n : ℕ) (shares : Map (Map Scalar)) (comms : List PolyCommitment)
      → check_keys ids n shares comms ≡ ok tt
      → bad_shares_of ids shares comms ≡ ok []
  unfolding check_keys
  check_keys-shares ids n shares comms h = by_bad (bad_shares_of ids shares comms) refl
    where
      by_bad :
          (o : Outcome DkgError (List ℕ))
          → bad_shares_of ids shares comms ≡ o
          → bad_shares_of ids shares comms ≡ ok []
      by_bad (ok []) e = e
      by_bad (ok (x ∷ xs)) e = absurd (ground (arith, h, e))
      by_bad (err x) e = absurd (ground (arith, h, e))
      by_bad panic e = absurd (ground (arith, h, e))

  compute_secret-checked :
      (shares : Map (Map Scalar)) (comms : List PolyCommitment) (self : Party)
      → (compute_secret shares comms self).1 ≡ ok tt
      → check_keys self.key_ids self.num_parties shares comms ≡ ok tt
  unfolding compute_secret
  compute_secret-checked shares comms self h = by_check (check_comms 0 comms [] self.group_key) refl
    where
      by_check :
          (o : Outcome DkgError (List ℕ × Point))
          → check_comms 0 comms [] self.group_key ≡ o
          → check_keys self.key_ids self.num_parties shares comms ≡ ok tt
      by_check (ok (bad, g)) e = ground (arith, h, e)
      by_check (err x) e = absurd (ground (arith, h, e))
      by_check panic e = absurd (ground (arith, h, e))

  pub compute_secret-key_ids :
      (shares : Map (Map Scalar)) (comms : List PolyCommitment) (self : Party)
      → (compute_secret shares comms self).0.key_ids ≡ self.key_ids
  unfolding compute_secret
  compute_secret-key_ids shares comms self = ground arith

  -- For every key, one share for each commitment, in the order of the senders.
  abbrev pub InOrder : Map (Map Scalar) → List PolyCommitment → Type 0
  InOrder shares comms =
      (key : ℕ) (mine : Map Scalar)
      → lookup key shares ≡ some mine
      → (keys mine ≡ range (length mine)) × (length comms ≡ length mine)

  module _ (works : MultimultSucceeds) (t : ℕ) (comms : List PolyCommitment) (poly : List Point)
      (all : AllLength t comms) (made : columns 0 t comms ≡ ok poly) where
    module _ (shares : Map (Map Scalar)) (self : Party) (ordered : InOrder shares comms)
        (h : (compute_secret shares comms self).1 ≡ ok tt) where
      holds :
          (ids : List ℕ)
          → ((k : ℕ) → contains ids k ≡ true → contains self.key_ids k ≡ true)
          → bad_shares_of ids shares comms ≡ ok []
          → HoldsKeys (compute_secret shares comms self).0 poly ids
      holds [] within checked = tt
      holds (k ∷ ids) within checked =
          let (mine, found, good, rest) = bad_shares_of-split k ids shares comms checked in
          let (sorted, counted) = ordered k mine found in
          (
            (
              share_sum mine,
              (compute_secret-private_keys shares comms self h).1 k
                  ∙ rw (within k (rw ((==_iff k k).1 refl) refl)) (ap sum_of found),
              AllGood-sum works comms k mine comms 0 good sorted counted (From-self comms)
                  ∙ sym (columns-values t comms poly (id k) all made),
            ),
            holds ids (λ j e. within j (ground (arith, e))) rest,
          )

      -- A party (v2) whose `compute_secret` succeeds, with one share of each sender for every key,
      -- whoever made the shares and the commitments: it has private keys on the polynomial that an
      -- aggregator makes of the commitments, for all its key ids.
      pub compute_secret-HoldsKeys :
          HoldsKeys
            (compute_secret shares comms self).0
            poly
            (compute_secret shares comms self).0.key_ids
      compute_secret-HoldsKeys =
          subst (HoldsKeys (compute_secret shares comms self).0 poly)
            (sym (compute_secret-key_ids shares comms self))
            (holds self.key_ids (λ k e. e)
              (check_keys-shares self.key_ids self.num_parties shares comms
                (compute_secret-checked shares comms self h)))
