-- ===== src/V2/Dkg.antt =====
-- src/v2.rs: the checks and the sums of `Party::compute_secret`.
use wsts.Prelude.{
  ℕ, suc, Bool, true, false, ite, Option, none, some, List, [], ◌∷◌, ◌++◌, filter_by, get_elem?,
  is_empty, length, ◌==◌, if◌then◌else◌,
}
use wsts.Prelude.Maps.{Map, lookup, insert}
use wsts.Prelude.Outcome.{Outcome, ok, ◌>>=◌, ◌>>◌, value, require, try_filter}
use wsts.Curve.{Curve, Scalar, Point, G, ◌⊕◌, ◌⊞◌, ◌⊙◌}
use wsts.Common.{PolyCommitment, verify}
use wsts.Compute.{id, poly}
use wsts.Errors.{DkgError, not_enough_shares, bad_shares}
use wsts.V1.Dkg.{point_result}

module _ ⦃c : Curve⦄ where
  abbrev absent : Option (Map Scalar) → Bool
  absent none = true
  absent (some shares) = false

  unfoldable pub missing : List ℕ → Map (Map Scalar) → List ℕ
  missing key_ids shares = filter_by (λ key_id. absent (lookup key_id shares)) key_ids

  -- The loop over the commitments: the indices that fail to verify, and the group key to which
  -- every constant term is added, verified or not.
  unfoldable pub check_comms :
      ℕ → List PolyCommitment → List ℕ → Point → Outcome DkgError (List ℕ × Point)
  check_comms i [] bad group_key = ok (bad, group_key)
  check_comms i (comm ∷ comms) bad group_key = do
    good ← value (verify comm)
    first ← value (get_elem? comm.poly 0)
    check_comms (suc i) comms (if good then bad else bad ++ i ∷ []) (group_key ⊞ first)

  unfoldable pub too_few : ℕ → Map (Map Scalar) → ℕ → Outcome DkgError Bool
  too_few num_parties shares key_id = do
    mine ← value (lookup key_id shares)
    ok (if length mine == num_parties then false else true)

  unfoldable pub bad_share : List PolyCommitment → ℕ → ℕ × Scalar → Outcome DkgError Bool
  bad_share comms key_id (sender, s) = do
    comm ← value (get_elem? comms sender)
    p ← point_result (poly (id key_id) comm.poly)
    ok (ite (c.point_discrete (s ⊙ G) p) false true)

  abbrev pub senders : Map Scalar → List ℕ
  senders [] = []
  senders ((sender, s) ∷ shares) = sender ∷ senders shares

  unfoldable pub bad_shares_of :
      List ℕ → Map (Map Scalar) → List PolyCommitment → Outcome DkgError (List ℕ)
  bad_shares_of [] shares comms = ok []
  bad_shares_of (key_id ∷ key_ids) shares comms = do
    mine ← value (lookup key_id shares)
    bad ← try_filter (bad_share comms key_id) mine
    rest ← bad_shares_of key_ids shares comms
    ok (senders bad ++ rest)

  unfoldable pub sum_shares : Map Scalar → Scalar → Scalar
  sum_shares [] acc = acc
  sum_shares ((sender, s) ∷ shares) acc = sum_shares shares (acc ⊕ s)

  -- The private key of each key id is the sum of the shares for it.
  unfoldable pub add_keys : List ℕ → Map (Map Scalar) → Map Scalar → Outcome DkgError (Map Scalar)
  add_keys [] shares private_keys = ok private_keys
  add_keys (key_id ∷ key_ids) shares private_keys = do
    mine ← value (lookup key_id shares)
    add_keys key_ids shares (insert key_id (sum_shares mine c.zero) private_keys)

  -- The checks of `compute_secret` once every commitment verifies.
  unfoldable pub check_keys :
      List ℕ → ℕ → Map (Map Scalar) → List PolyCommitment → Outcome DkgError (Unit {0})
  check_keys key_ids num_parties shares comms = do
    few ← try_filter (too_few num_parties shares) key_ids
    require (is_empty few) (not_enough_shares few)
    bad ← bad_shares_of key_ids shares comms
    require (is_empty bad) (bad_shares bad)
