-- ===== src/V2/Secret.antt =====
-- src/v2.rs: `Party::compute_secret`.
use wsts.Prelude.{List, [], is_empty}
use wsts.Prelude.Maps.{Map}
use wsts.Prelude.Outcome.{require}
use wsts.Prelude.Run.{Run, ◌>>=◌, ◌>>◌, get, modify, lift}
use wsts.Curve.{Curve, Scalar}
use wsts.Common.{PolyCommitment}
use wsts.Errors.{DkgError, missing_shares, bad_ids}
use wsts.V2.Dkg.{missing, check_comms, check_keys, add_keys}
use wsts.V2.Party.{Party}

module _ ⦃c : Curve⦄ where
  -- The group key takes the constant terms before the ids are judged, and is never cleared.
  unfoldable pub compute_secret :
      Map (Map Scalar) → List PolyCommitment → Run Party DkgError (Unit {0})
  compute_secret shares comms = do
    self ← get
    lift (
        require (is_empty (missing self.key_ids shares))
          (missing_shares (missing self.key_ids shares)))
    checked ← lift (check_comms 0 comms [] self.group_key)
    modify (λ p. record p { group_key = checked.1 })
    lift (require (is_empty checked.0) (bad_ids checked.0))
    lift (check_keys self.key_ids self.num_parties shares comms)
    private_keys ← lift (add_keys self.key_ids shares self.private_keys)
    modify (λ p. record p { private_keys = private_keys })
