-- ===== src/Tests/SharedKeys.antt =====
-- Key generation of a party that holds both keys, with the polynomial 1 + 3x.
use wsts.Prelude.{ℕ, ◌≡◌, refl, List, [], ◌∷◌, contains, if◌then◌else◌}
use wsts.Prelude.Maps.{Map, lookup}
use wsts.Curve.Five.{F5, f0, f1, f2, f3, f4, five}
use wsts.Common.{PolyCommitment, verify}
use wsts.Util.{hash_to_scalar}
use wsts.Compute.{id, poly, powers}
use wsts.Schnorr
use wsts.V2.Dkg.{missing, check_comms, check_keys, too_few, bad_shares_of, bad_share, add_keys}
use wsts.V2.Party.{Party}
use wsts.V2.Secret.{compute_secret}
use wsts.V1.Keys.{constants}
use wsts.V2.Keys.{key_of, compute_secret-private_keys}

-- The group key is left from an earlier round.
abbrev party : Party ⦃c = five⦄
party = record {
  party_id = 0;
  key_ids = 0 ∷ 1 ∷ [];
  num_keys = 2;
  num_parties = 1;
  threshold = 2;
  f = f1 ∷ f3 ∷ [];
  private_keys = [];
  group_key = f4;
  nonce = record { d = f1; e = f2 };
}

abbrev comms : List (PolyCommitment ⦃c = five⦄)
comms = record { id = (Schnorr.new ⦃c = five⦄ (id ⦃c = five⦄ 0) f1 1).0; poly = f1 ∷ f3 ∷ [] } ∷ []

abbrev shares : Map (Map F5)
shares = (0, (0, f4) ∷ []) ∷ (1, (0, f2) ∷ []) ∷ []

abbrev after : Party ⦃c = five⦄
after = (compute_secret ⦃c = five⦄ shares comms party).0

compute_secret-private_keys_example :
    (after.group_key ≡ f0)
    × ((k : ℕ)
        → lookup k after.private_keys
          ≡ (if contains (0 ∷ 1 ∷ []) k then key_of ⦃c = five⦄ shares k else lookup {V = F5} k []))
unfolding compute_secret missing check_comms verify Schnorr.verify Schnorr.new hash_to_scalar id
    check_keys too_few bad_shares_of bad_share poly powers add_keys constants
compute_secret-private_keys_example = compute_secret-private_keys ⦃c = five⦄ shares comms party refl
