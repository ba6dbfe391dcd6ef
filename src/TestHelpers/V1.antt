-- ===== src/TestHelpers/V1.antt =====
-- src/v1.rs: the rounds of `test_helpers`. The text of `dkg` is that of src/taproot.rs.
use wsts.Prelude.{Option, some, List, ◌>>=◌}
use wsts.Prelude.Maps.{Map}
use wsts.Prelude.Outcome.{Outcome}
use wsts.Curve.{Curve, Rng, Bytes}
use wsts.Common.{PolyCommitment, PublicNonce, SignatureShare}
use wsts.Errors.{DkgError}
use wsts.TestHelpers.Taproot
use wsts.TestHelpers.Taproot.{gen_each, all_key_ids, sign_each}
use wsts.V1.Signer
use wsts.V1.Signer.{Signer}
use wsts.V1.Trait.{signer_trait}

module _ ⦃c : Curve⦄ where
  unfoldable pub dkg :
      List Signer → Rng → (List Signer × Rng) × Outcome (Map DkgError) (List PolyCommitment)
  dkg signers rng = Taproot.dkg ⦃sgn = signer_trait⦄ signers rng

  -- The key ids stand for the ids of the signers too.
  unfoldable pub sign :
      Bytes
      → List Signer
      → Rng
      → (List Signer × Rng) × Option (List PublicNonce × List SignatureShare)
  sign msg signers rng =
      let ids = all_key_ids ⦃sgn = signer_trait⦄ signers in
      let (signers', nonces, rng') = gen_each ⦃sgn = signer_trait⦄ signers rng in
      (
        (signers', rng'),
        do
          shares ← sign_each ⦃sgn = signer_trait⦄ (λ s. Signer.sign s msg ids ids nonces) signers'
          some (nonces, shares),
      )
