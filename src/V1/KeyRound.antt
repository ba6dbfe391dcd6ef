-- ===== src/V1/KeyRound.antt =====
-- src/v1.rs: a round of key generation, from the shares that pass `compute_secret` to a group whose
-- parties sign.
use wsts.Prelude.{
  zero, ◌<◌, ℕ, suc, ◌≡◌, refl, sym, ap, ◌∙◌, some, List, [], ◌∷◌, range_from, length, get_elem?,
  Option-cases, inl, inr, arith,
}
use mathlib.Core.Path.{ap₂}
use wsts.Prelude.Maps.{Map, keys}
use wsts.Prelude.Ordered.{From, From-first, From-rest}
use wsts.Prelude.Outcome.{Outcome, ok, err, panic}
use wsts.Curve.{Curve, Scalar, Point, ◌⊞◌}
use wsts.Curve.Algebra.{origin-plus, plus-origin, plus_assoc}
use wsts.Common.{PolyCommitment}
use wsts.Compute.{id}
use wsts.Errors.{DkgError}
use wsts.V1.Aggregator.{column, columns}
use wsts.V1.Dkg.{batch}
use wsts.V1.GroupKey.{columns-split}
use wsts.V1.Keys.{constants, constant_sum, first_of, point_or}
use wsts.V1.Party.{Party, compute_secret}

module _ ⦃c : Curve⦄ where
  column-constants :
      (comms : List PolyCommitment) (acc p : Point)
      → column 0 comms acc ≡ some p
      → p ≡ acc ⊞ constants comms
  unfolding column constants
  column-constants [] acc p h = cc (h, plus-origin acc)
  column-constants (comm ∷ comms) acc p h = elim (Option-cases (get_elem? comm.poly 0)) [
    | inl e ↦ absurd (ground (arith, h, e))
    | inr (a, e) ↦
        column-constants comms (acc ⊞ a) p (rw (column, e) at h)
        ∙ plus_assoc acc a (constants comms)
        ∙ ap (λ o. acc ⊞ (point_or o ⊞ constants comms)) (sym e)
  ]

  pub columns-head :
      (t : ℕ) (comms : List PolyCommitment) (poly : List Point)
      → columns 0 t comms ≡ ok poly
      → 0 < t
      → (rest : List Point) × (poly ≡ constants comms ∷ rest)
  columns-head zero comms poly h l = absurd (omega arith)
  columns-head (suc n) comms poly h l =
      let (p, ps, head, tail, split) = columns-split 0 n comms poly h in
      (
        ps,
        split
            ∙ ap (λ q. q ∷ ps)
                (column-constants comms c.origin p head ∙ origin-plus (constants comms)),
      )

  -- The shares name the commitments of a list in order.
  pub constant_sum-constants :
      (shares : Map Scalar) (all comms : List PolyCommitment) (b : ℕ)
      → keys shares ≡ range_from b (length shares)
      → length comms ≡ length shares
      → From b comms all
      → constant_sum shares all ≡ constants comms
  unfolding constant_sum constants
  constant_sum-constants [] all [] b h l from = refl
  constant_sum-constants [] all (comm ∷ comms) b h l from = absurd (omega arith)
  constant_sum-constants ((i, s) ∷ shares) all [] b h l from = absurd (omega arith)
  constant_sum-constants ((i, s) ∷ shares) all (comm ∷ comms) b h l from =
      ap₂ (λ o q. first_of o ⊞ q) named
        (constant_sum-constants shares all comms (suc b) (ground (arith, h)) (omega arith)
          (From-rest b comm comms all from))
    where
      first_key : i ≡ b
      first_key = ground (arith, h)

      named : get_elem? all i ≡ some comm
      named = ap (get_elem? all) first_key ∙ From-first b comm comms all from

  pub compute_secret-batch :
      (shares : Map Scalar) (comms : List PolyCommitment) (self : Party)
      → (compute_secret shares comms self).1 ≡ ok tt
      → batch (id self.id) shares comms ≡ ok c.origin
  unfolding compute_secret
  compute_secret-batch shares comms self h = by_batch (batch (id self.id) shares comms) refl
    where
      by_batch :
          (o : Outcome DkgError Point)
          → batch (id self.id) shares comms ≡ o
          → batch (id self.id) shares comms ≡ ok c.origin
      by_batch (ok sum) e = elim (c.point_discrete sum c.origin) [
        | yes same ↦ e ∙ ap ok same
        | no other ↦ absurd (ground (arith, h, e, other))
      ]
      by_batch (err x) e = absurd (ground (arith, h, e))
      by_batch panic e = absurd (ground (arith, h, e))
