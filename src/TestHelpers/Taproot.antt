-- ===== src/TestHelpers/Taproot.antt =====
-- src/taproot.rs: the rounds of `test_helpers`, for whatever signers.
use wsts.Prelude.{
  ℕ, Option, none, some, List, [], ◌∷◌, ◌++◌, map, flat_map, is_empty, if◌then◌else◌, ◌>>=◌,
}
use wsts.Prelude.Maps.{Map}
use wsts.Prelude.Ordered.{extend}
use wsts.Prelude.Outcome.{Outcome, ok, err, panic}
use wsts.Curve.{Curve, Scalar, Rng, Bytes}
use wsts.Common.{PolyCommitment, PublicNonce, SignatureShare}
use wsts.Errors.{DkgError}
use wsts.Traits.{SignerTrait}

module _ ⦃c : Curve⦄ ⦃sgn : SignerTrait⦄ where
  unfoldable pub all_commitments : List sgn.Self → Rng → Option (List PolyCommitment × Rng)
  all_commitments [] rng = some ([], rng)
  all_commitments (s ∷ signers) rng = do
    mine ← sgn.get_poly_commitments s rng
    others ← all_commitments signers mine.1
    some (mine.0 ++ others.0, others.1)

  unfoldable pub all_shares : List sgn.Self → Map (Map Scalar) → Map (Map Scalar)
  all_shares [] shares = shares
  all_shares (s ∷ signers) shares = all_shares signers (extend (sgn.get_shares s) shares)

  -- The errors so far, with those of a signer; nothing after a panic.
  abbrev pub add_errors : Outcome (Map DkgError) (Unit {0}) → Map DkgError → Option (Map DkgError)
  add_errors (ok u) errors = some errors
  add_errors (err more) errors = some (extend more errors)
  add_errors panic errors = none

  unfoldable pub compute_each :
      Map (Map Scalar)
      → List PolyCommitment
      → List sgn.Self
      → Map DkgError
      → List sgn.Self × Option (Map DkgError)
  compute_each shares comms [] errors = ([], some errors)
  compute_each shares comms (s ∷ signers) errors =
      let r = sgn.compute_secrets shares comms s in
      elim (add_errors r.1 errors) [
        | none ↦ (r.0 ∷ signers, none)
        | some errors' ↦
            let rest = compute_each shares comms signers errors' in (r.0 ∷ rest.0, rest.1)
      ]

  abbrev pub dkg_result :
      List PolyCommitment → Option (Map DkgError) → Outcome (Map DkgError) (List PolyCommitment)
  dkg_result comms none = panic
  dkg_result comms (some errors) = if is_empty errors then ok comms else err errors

  abbrev pub dkg_with :
      List sgn.Self
      → Rng
      → Option (List PolyCommitment × Rng)
      → (List sgn.Self × Rng) × Outcome (Map DkgError) (List PolyCommitment)
  dkg_with signers rng none = ((signers, rng), panic)
  dkg_with signers rng (some (comms, rng')) =
      let r = compute_each (all_shares signers []) comms signers [] in
      ((r.0, rng'), dkg_result comms r.1)

  -- A round of key generation: what it leaves of the signers and of the randomness, and the
  -- commitments or the errors.
  unfoldable pub dkg :
      List sgn.Self → Rng → (List sgn.Self × Rng) × Outcome (Map DkgError) (List PolyCommitment)
  dkg signers rng = dkg_with signers rng (all_commitments signers rng)

  unfoldable pub gen_each : List sgn.Self → Rng → List sgn.Self × List PublicNonce × Rng
  gen_each [] rng = ([], [], rng)
  gen_each (s ∷ signers) rng =
      let (s', mine, rng') = sgn.gen_nonces s rng in
      let (signers', others, rng'') = gen_each signers rng' in
      (s' ∷ signers', mine ++ others, rng'')

  abbrev pub all_key_ids : List sgn.Self → List ℕ
  all_key_ids = flat_map sgn.get_key_ids

  -- The ids of the signers, those of their keys, their nonces, and what they and the randomness are
  -- afterwards.
  unfoldable pub sign_params :
      List sgn.Self → Rng → (List ℕ × List ℕ × List PublicNonce) × (List sgn.Self × Rng)
  sign_params signers rng =
      let (signers', nonces, rng') = gen_each signers rng in
      ((map sgn.get_id signers, all_key_ids signers, nonces), (signers', rng'))

  -- The shares of all; `None` where a signer panics.
  unfoldable pub sign_each :
      (sgn.Self → Option (List SignatureShare)) → List sgn.Self → Option (List SignatureShare)
  sign_each f [] = some []
  sign_each f (s ∷ signers) = do mine ← f s; others ← sign_each f signers; some (mine ++ others)

  unfoldable pub sign :
      Bytes
      → List sgn.Self
      → Rng
      → Option Bytes
      → (List sgn.Self × Rng) × Option (List PublicNonce × List SignatureShare)
  sign msg signers rng merkle_root =
      let ((signer_ids, key_ids, nonces), left) = sign_params signers rng in
      (
        left,
        do
          shares ←
              sign_each (λ s. sgn.sign_taproot s msg signer_ids key_ids nonces merkle_root) left.0
          some (nonces, shares),
      )
