-- ===== src/TestHelpers/V2.antt =====
-- src/v2.rs: the rounds of `test_helpers`.
use wsts.Prelude.{
  ℕ, Option, none, some, List, [], ◌∷◌, map, flat_map, traverse, is_empty, if◌then◌else◌, ◌>>=◌,
}
use wsts.Prelude.Maps.{Map, insert}
use wsts.Prelude.Outcome.{Outcome, ok, err, panic}
use wsts.Curve.{Curve, Scalar, Rng, Bytes}
use wsts.Common.{PolyCommitment, PublicNonce, SignatureShare}
use wsts.Errors.{DkgError}
use wsts.V2.Party
use wsts.V2.Party.{Party, get_poly_commitment, gen_nonce}
use wsts.V2.Secret.{compute_secret}
use wsts.V2.Signer.{collect_shares}

module _ ⦃c : Curve⦄ where
  unfoldable pub all_commitments : List Party → Rng → Option (List PolyCommitment × Rng)
  all_commitments [] rng = some ([], rng)
  all_commitments (s ∷ signers) rng = do
    mine ← get_poly_commitment s rng
    others ← all_commitments signers mine.1
    some (mine.0 ∷ others.0, others.1)

  -- What each party broadcasts.
  abbrev pub broadcast : List Party → Map (Map Scalar)
  broadcast = map λ party. (party.party_id, Party.get_shares party)

  abbrev pub note_error : ℕ → Outcome DkgError (Unit {0}) → Map DkgError → Option (Map DkgError)
  note_error party_id (ok u) errors = some errors
  note_error party_id (err e) errors = some (insert party_id e errors)
  note_error party_id panic errors = none

  abbrev pub with_shares :
      Party → List PolyCommitment → Option (Map (Map Scalar)) → Party × Outcome DkgError (Unit {0})
  with_shares party polys none = (party, panic)
  with_shares party polys (some shares) = compute_secret shares polys party

  unfoldable pub compute_each :
      Map (Map Scalar)
      → List PolyCommitment
      → List Party
      → Map DkgError
      → List Party × Option (Map DkgError)
  compute_each shares polys [] errors = ([], some errors)
  compute_each shares polys (party ∷ parties) errors =
      let r = with_shares party polys (collect_shares party.key_ids shares []) in
      elim (note_error party.party_id r.1 errors) [
        | none ↦ (r.0 ∷ parties, none)
        | some errors' ↦
            let rest = compute_each shares polys parties errors' in (r.0 ∷ rest.0, rest.1)
      ]

  abbrev pub dkg_result :
      List PolyCommitment → Option (Map DkgError) → Outcome (Map DkgError) (List PolyCommitment)
  dkg_result polys none = panic
  dkg_result polys (some errors) = if is_empty errors then ok polys else err errors

  abbrev pub dkg_with :
      List Party
      → Rng
      → Option (List PolyCommitment × Rng)
      → (List Party × Rng) × Outcome (Map DkgError) (List PolyCommitment)
  dkg_with signers rng none = ((signers, rng), panic)
  dkg_with signers rng (some (polys, rng')) =
      let r = compute_each (broadcast signers) polys signers [] in
      ((r.0, rng'), dkg_result polys r.1)

  unfoldable pub dkg :
      List Party → Rng → (List Party × Rng) × Outcome (Map DkgError) (List PolyCommitment)
  dkg signers rng = dkg_with signers rng (all_commitments signers rng)

  unfoldable pub gen_each : List Party → Rng → List Party × List PublicNonce × Rng
  gen_each [] rng = ([], [], rng)
  gen_each (s ∷ signers) rng =
      let (s', nonce, rng') = gen_nonce s rng in
      let (signers', nonces, rng'') = gen_each signers rng' in
      (s' ∷ signers', nonce ∷ nonces, rng'')

  -- What is left, and the nonces, the shares and the key ids; `None` where a signer panics.
  unfoldable pub sign :
      Bytes
      → List Party
      → Rng
      → (List Party × Rng) × Option (List PublicNonce × List SignatureShare × List ℕ)
  sign msg signers rng =
      let party_ids = map (λ s. s.party_id) signers in
      let key_ids = flat_map (λ s. s.key_ids) signers in
      let (signers', nonces, rng') = gen_each signers rng in
      (
        (signers', rng'),
        do
          shares ← traverse (λ s. Party.sign s msg party_ids key_ids nonces) signers'
          some (nonces, shares, key_ids),
      )
