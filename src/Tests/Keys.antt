-- ===== src/Tests/Keys.antt =====
-- Key generation of two parties with the polynomial 1 + 3x each.
use wsts.Prelude.{ℕ, ◌≡◌, refl, [], ◌∷◌}
use wsts.Prelude.Maps.{Map}
use wsts.Curve.Five.{F5, f1, f2, f3, f4, five}
use wsts.Common.{PolyCommitment, verify}
use wsts.Compute.{id}
use wsts.Schnorr
use wsts.Util.{hash_to_scalar}
use wsts.Common.CheckPrivateShares.{new, multimult_trait}
use wsts.V1.Dkg.{missing, bad_ids_of, bad_id, batch, add_shares}
use wsts.V1.Party
use wsts.V1.Party.{load, save, compute_secret}
use wsts.V1.Keys.{share_sum, constant_sum, compute_secret-sums}

abbrev party : Party.Party ⦃c = five⦄
party = record {
  id = 0;
  public_key = f3;
  f = f1 ∷ f3 ∷ [];
  n = 2;
  private_key = f3;
  group_key = f2;
  nonce = record { d = f1; e = f2 };
}

abbrev comm : ℕ → PolyCommitment ⦃c = five⦄
comm i = record { id = (Schnorr.new ⦃c = five⦄ (id ⦃c = five⦄ i) f1 1).0; poly = f1 ∷ f3 ∷ [] }

abbrev shares : Map F5
shares = (0, f4) ∷ (1, f4) ∷ []

abbrev after : Party.Party ⦃c = five⦄
after = (compute_secret ⦃c = five⦄ shares (comm 0 ∷ comm 1 ∷ []) party).0

compute_secret-sums_example :
    (after.private_key ≡ f3) × (after.public_key ≡ f3) × (after.group_key ≡ f2)
unfolding compute_secret missing bad_ids_of bad_id verify Schnorr.verify Schnorr.new hash_to_scalar
    id batch new multimult_trait add_shares share_sum constant_sum
compute_secret-sums_example =
    compute_secret-sums ⦃c = five⦄ shares (comm 0 ∷ comm 1 ∷ []) party refl
