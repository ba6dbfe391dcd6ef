-- ===== src/V2/KeyRound.antt =====
-- src/v2.rs: the keys that a `compute_secret` without an error leaves, and the group polynomial.
use wsts.Prelude.{
  ℕ, suc, ◌≡◌, refl, ap, ◌∙◌, true, false, Bool, some, List, [], ◌∷◌, ◌++◌, range_from, length,
  get_elem?, Option-cases, inl, inr, arith, if◌then◌else◌,
}
use mathlib.Core.Path.{ap₂}
use wsts.Prelude.Maps.{Map, lookup, keys}
use wsts.Prelude.Ordered.{From, From-first, From-rest}
use wsts.Prelude.Outcome.{Outcome, ok, err, panic, try_filter, ◌>>=◌}
use wsts.Curve.{Curve, Scalar, MultimultSucceeds, G, ◌⊞◌, ◌⊙◌}
use wsts.Curve.Algebra.{zero-smul, add-smul}
use wsts.Common.{PolyCommitment}
use wsts.Compute.{id}
use wsts.Compute.Interpolation.{evaluate}
use wsts.Compute.Poly.{poly-total}
use wsts.Errors.{DkgError}
use wsts.V1.BatchSum.{values_sum}
use wsts.V1.Keys.{share_sum}
use wsts.V2.Dkg.{bad_share, bad_shares_of, senders}

module _ ⦃c : Curve⦄ where
  -- Every share for a key passes its check.
  abbrev pub AllGood : List PolyCommitment → ℕ → Map Scalar → Type 0
  AllGood comms key [] = Unit {0}
  AllGood comms key (e ∷ mine) = (bad_share comms key e ≡ ok false) × AllGood comms key mine

  try_filter-AllGood :
      (comms : List PolyCommitment) (key : ℕ) (mine : Map Scalar)
      → try_filter (bad_share comms key) mine ≡ ok []
      → AllGood comms key mine
  try_filter-AllGood comms key [] h = tt
  try_filter-AllGood comms key (e ∷ mine) h =
      let (f, g) = split (bad_share comms key e) (try_filter (bad_share comms key) mine) h in
      (f, try_filter-AllGood comms key mine g)
    where
      split :
          (o : Outcome DkgError Bool) (r : Outcome DkgError (Map Scalar))
          → (do keep ← o; rest ← r; ok (if keep then e ∷ rest else rest)) ≡ ok []
          → (o ≡ ok false) × (r ≡ ok [])
      split (ok true) (ok rest) k = absurd (ground (arith, k))
      split (ok false) (ok rest) k = (refl, k)
      split (ok b) (err x) k = cc k
      split (ok b) panic k = cc k
      split (err x) r k = cc k
      split panic r k = cc k

  -- A share that passes is the logarithm of the value of its sender's polynomial.
  bad_share-value :
      MultimultSucceeds
      → (comms : List PolyCommitment) (key sender : ℕ) (s : Scalar) (comm : PolyCommitment)
      → get_elem? comms sender ≡ some comm
      → bad_share comms key (sender, s) ≡ ok false
      → s ⊙ G ≡ evaluate (id key) comm.poly
  unfolding bad_share
  bad_share-value works comms key sender s comm e h =
      elim (c.point_discrete (s ⊙ G) (evaluate (id key) comm.poly)) [
        | yes same ↦ same
        | no other ↦ absurd (ground (arith, h, e, other, poly-total works (id key) comm.poly))
      ]

  pub AllGood-sum :
      MultimultSucceeds
      → (all : List PolyCommitment) (key : ℕ) (mine : Map Scalar) (comms : List PolyCommitment)
        (b : ℕ)
      → AllGood all key mine
      → keys mine ≡ range_from b (length mine)
      → length comms ≡ length mine
      → From b comms all
      → share_sum mine ⊙ G ≡ values_sum (id key) comms
  unfolding share_sum values_sum
  AllGood-sum works all key [] [] b good o l from = zero-smul G
  AllGood-sum works all key [] (comm ∷ comms) b good o l from = absurd (omega arith)
  AllGood-sum works all key ((i, s) ∷ mine) [] b good o l from = absurd (omega arith)
  AllGood-sum works all key ((i, s) ∷ mine) (comm ∷ comms) b (g, good) o l from =
      add-smul s (share_sum mine) G
      ∙ ap₂ (λ p q. p ⊞ q) (bad_share-value works all key i s comm named g)
          (AllGood-sum works all key mine comms (suc b) good (ground (arith, o)) (omega arith)
            (From-rest b comm comms all from))
    where
      first_key : i ≡ b
      first_key = ground (arith, o)

      named : get_elem? all i ≡ some comm
      named = ap (get_elem? all) first_key ∙ From-first b comm comms all from

  pub bad_shares_of-split :
      (key : ℕ) (ids : List ℕ) (shares : Map (Map Scalar)) (comms : List PolyCommitment)
      → bad_shares_of (key ∷ ids) shares comms ≡ ok []
      → (mine : Map Scalar) × (lookup key shares ≡ some mine)
        × AllGood comms key mine
        × (bad_shares_of ids shares comms ≡ ok [])
  unfolding bad_shares_of
  bad_shares_of-split key ids shares comms h = elim (Option-cases (lookup key shares)) [
    | inl e ↦ absurd (ground (arith, h, e))
    | inr (mine, e) ↦
        let (f, g) =
          split (try_filter (bad_share comms key) mine) (bad_shares_of ids shares comms)
            (rw (bad_shares_of, e) at h) in
        (mine, e, try_filter-AllGood comms key mine f, g)
  ]
    where
      split :
          (o : Outcome DkgError (Map Scalar)) (r : Outcome DkgError (List ℕ))
          → (do bad ← o; rest ← r; ok (senders bad ++ rest)) ≡ ok []
          → (o ≡ ok []) × (r ≡ ok [])
      split (ok []) (ok rest) k = (refl, k)
      split (ok (e ∷ bad)) (ok rest) k = cc k
      split (ok bad) (err x) k = cc k
      split (ok bad) panic k = cc k
      split (err x) r k = cc k
      split panic r k = cc k
