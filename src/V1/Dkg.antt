-- ===== src/V1/Dkg.antt =====
-- src/v1.rs: the checks and the sums of `Party::compute_secret`, which read no state.
use wsts.Prelude.{
  ℕ, Bool, true, false, not, ite, Option, none, some, List, [], ◌∷◌, map, range, filter_by,
  contains, get_elem?,
}
use wsts.Prelude.Maps.{Map, keys}
use wsts.Prelude.Outcome.{Outcome, ok, err, ◌>>=◌, value, try_filter}
use wsts.Curve.{Curve, Scalar, Point, G, ◌⊕◌, ◌⊞◌, ◌⊙◌}
use wsts.Common.{PolyCommitment, verify}
use wsts.Common.CheckPrivateShares.{new, multimult_trait}
use wsts.Compute.{poly}
use wsts.Errors.{DkgError, point}

module _ ⦃c : Curve⦄ where
  -- The `?` on a point operation.
  abbrev pub point_result : Option Point → Outcome DkgError Point
  point_result none = err point
  point_result (some p) = ok p

  unfoldable pub missing : ℕ → Map Scalar → List ℕ
  missing n shares = filter_by (λ i. not (contains (keys shares) i)) (range n)

  unfoldable pub bad_id : List PolyCommitment → ℕ → Outcome DkgError Bool
  bad_id comms i = do comm ← value (get_elem? comms i); good ← value (verify comm); ok (not good)

  unfoldable pub bad_ids_of : Map Scalar → List PolyCommitment → Outcome DkgError (List ℕ)
  bad_ids_of shares comms = try_filter (bad_id comms) (keys shares)

  unfoldable pub batch : Scalar → Map Scalar → List PolyCommitment → Outcome DkgError Point
  batch id shares comms = do
    check_shares ← value (new id shares comms)
    sum ← value (multimult_trait check_shares)
    point_result sum

  unfoldable pub bad_share : Scalar → List PolyCommitment → ℕ × Scalar → Outcome DkgError Bool
  bad_share id comms (i, s) = do
    comm ← value (get_elem? comms i)
    p ← point_result (poly id comm.poly)
    ok (ite (c.point_discrete (s ⊙ G) p) false true)

  unfoldable pub bad_shares_of :
      Scalar → Map Scalar → List PolyCommitment → Outcome DkgError (List ℕ)
  unfolding bad_share
  bad_shares_of id shares comms = do
    bad ← try_filter (bad_share id comms) shares
    ok (map (λ e. e.0) bad)

  -- The loop that adds the shares and the constant terms to the private key and the group key.
  unfoldable pub add_shares :
      Map Scalar → List PolyCommitment → Scalar → Point → Outcome DkgError (Scalar × Point)
  add_shares [] comms private_key group_key = ok (private_key, group_key)
  add_shares ((i, s) ∷ shares) comms private_key group_key = do
    comm ← value (get_elem? comms i)
    first ← value (get_elem? comm.poly 0)
    add_shares shares comms (private_key ⊕ s) (group_key ⊞ first)
