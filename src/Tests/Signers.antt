-- ===== src/Tests/Signers.antt =====
-- Two signers of src/v1.rs that bundle the parties of a group with the polynomial 2 + x.
use wsts.Prelude.{ℕ, ◌≡◌, refl, some, List, [], ◌∷◌, arith}
use wsts.Prelude.Outcome.{ok}
use wsts.Curve.Five.{F5, f1, f2, f3, f4, five, five-MultimultSucceeds, apart}
use wsts.Common.{PublicNonce, SignatureShare}
use wsts.Compute.{id, intermediate}
use wsts.Compute.Interpolation.{evaluate}
use wsts.TestHelpers.V1
use wsts.TestHelpers.SigningRound.{sign-signers}
use wsts.V1.Aggregator
use wsts.V1.Aggregator.{Aggregator}
use wsts.V1.Party
use wsts.V1.Party.{Party}
use wsts.V1.Signer
use wsts.V1.Signer.{Signer}
use wsts.V1.Signers.{sign-parties}
use wsts.V1.Tally.{total}

abbrev party : ℕ → F5 → Party ⦃c = five⦄
party i key = record {
  id = i;
  public_key = key;
  f = f1 ∷ f3 ∷ [];
  n = 2;
  private_key = key;
  group_key = f2;
  nonce = record { d = f1; e = f2 };
}

abbrev signer : ℕ → F5 → Signer ⦃c = five⦄
signer i key = record { id = i; num_keys = 2; group_key = f2; parties = party i key ∷ [] }

abbrev signers : List (Signer ⦃c = five⦄)
signers = signer 0 f3 ∷ signer 1 f4 ∷ []

abbrev self : Aggregator ⦃c = five⦄
self = record { num_keys = 2; threshold = 2; poly = f2 ∷ f1 ∷ [] }

abbrev nonces : List (PublicNonce ⦃c = five⦄)
nonces = record { D = f1; E = f2 } ∷ record { D = f1; E = f2 } ∷ []

sign-parties_example :
    Signer.sign ⦃c = five⦄ (signer 0 f3) (7 ∷ []) (0 ∷ 1 ∷ []) (0 ∷ 1 ∷ []) nonces
    ≡ some (Party.sign ⦃c = five⦄ (party 0 f3) (7 ∷ []) (0 ∷ 1 ∷ []) nonces ∷ [])
sign-parties_example =
    sign-parties ⦃c = five⦄ five-MultimultSucceeds (signer 0 f3) (7 ∷ []) (0 ∷ 1 ∷ []) (0 ∷ 1 ∷ [])
      nonces refl

sign-signers_example :
    (nonces : List (PublicNonce ⦃c = five⦄)) × (shares : List (SignatureShare ⦃c = five⦄))
    × ((V1.sign ⦃c = five⦄ (7 ∷ []) signers 1).1 ≡ some (nonces, shares))
    × (Aggregator.sign ⦃c = five⦄ self (7 ∷ []) nonces shares []
        ≡ ok (record {
          R = (intermediate ⦃c = five⦄ (7 ∷ []) (0 ∷ 1 ∷ []) nonces).1;
          z = total ⦃c = five⦄ shares;
        }))
unfolding evaluate id
sign-signers_example =
    sign-signers ⦃c = five⦄ five-MultimultSucceeds self (7 ∷ []) signers 1 f2 (f1 ∷ []) refl
      (refl, refl, (refl, refl, tt)) ((apart f1 f2 refl, tt), (tt, tt)) (omega arith)
