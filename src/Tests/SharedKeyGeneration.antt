-- ===== src/Tests/SharedKeyGeneration.antt =====
-- Key generation of two parties of src/v2.rs with a key each, both with the polynomial 1 + 3x, and what
-- follows.
use wsts.Prelude.{ℕ, ◌≡◌, refl, some, List, [], ◌∷◌, traverse, arith}
use wsts.Prelude.Maps.{Map}
use wsts.Prelude.Outcome.{ok}
use wsts.Curve.Five.{F5, f0, f1, f2, f3, f4, five, five-MultimultSucceeds, apart}
use wsts.Common.{PolyCommitment, PublicNonce, SignatureShare, verify}
use wsts.Compute.{id, intermediate, poly, powers}
use wsts.Compute.Interpolation.{evaluate}
use wsts.Schnorr
use wsts.TestHelpers.SharedSigningRound.{sign-keyed_parties}
use wsts.TestHelpers.V2
use wsts.Util.{hash_to_scalar}
use wsts.V1.Aggregator.{columns}
use wsts.V1.Tally.{total}
use wsts.V2.Aggregator.{Aggregator, init, sign}
use wsts.V2.Dkg.{missing, check_comms, check_keys, too_few, bad_shares_of, bad_share, add_keys}
use wsts.V2.Honest.{HoldsKeys}
use wsts.V2.KeyGeneration.{InOrder, compute_secret-HoldsKeys}
use wsts.V2.Lifecycle.{keyed, Succeed, shared_keys-sign}
use wsts.V2.Party
use wsts.V2.Party.{Party}
use wsts.V2.Rounds.{party_ids_of, keys_of, nonces_of}
use wsts.V2.Secret.{compute_secret}

abbrev party : ℕ → Map F5 → F5 → Party ⦃c = five⦄
party i keys group_key = record {
  party_id = i;
  key_ids = i ∷ [];
  num_keys = 2;
  num_parties = 2;
  threshold = 2;
  f = f1 ∷ f3 ∷ [];
  private_keys = keys;
  group_key = group_key;
  nonce = record { d = f1; e = f2 };
}

abbrev comm : ℕ → PolyCommitment ⦃c = five⦄
comm i = record { id = (Schnorr.new ⦃c = five⦄ (id ⦃c = five⦄ i) f1 1).0; poly = f1 ∷ f3 ∷ [] }

abbrev comms : List (PolyCommitment ⦃c = five⦄)
comms = comm 0 ∷ comm 1 ∷ []

abbrev sent : ℕ → F5 → Map (Map F5)
sent k s = (k, (0, s) ∷ (1, s) ∷ []) ∷ []

sent-InOrder : (k : ℕ) (s : F5) → InOrder ⦃c = five⦄ (sent k s) comms
sent-InOrder k s key mine h = (ground (arith, h), ground (arith, h))

abbrev members : List (Party ⦃c = five⦄ × Map (Map F5))
members = (party 0 [] f0, sent 0 f4) ∷ (party 1 [] f0, sent 1 f2) ∷ []

abbrev self : Aggregator ⦃c = five⦄
self = record { num_keys = 2; threshold = 2; poly = [] }

abbrev parties : List (Party ⦃c = five⦄)
parties = keyed ⦃c = five⦄ comms members

members-Succeed : Succeed ⦃c = five⦄ comms members
unfolding compute_secret missing check_comms verify Schnorr.verify Schnorr.new hash_to_scalar id
    check_keys too_few bad_shares_of bad_share poly powers add_keys
members-Succeed = (refl, sent-InOrder 0 f4, refl, (refl, sent-InOrder 1 f2, refl, tt))

compute_secret-HoldsKeys_example :
    HoldsKeys ⦃c = five⦄
      (compute_secret ⦃c = five⦄ (sent 0 f4) comms (party 0 [] f0)).0
      (f2 ∷ f1 ∷ [])
      (compute_secret ⦃c = five⦄ (sent 0 f4) comms (party 0 [] f0)).0.key_ids
unfolding columns
compute_secret-HoldsKeys_example =
    compute_secret-HoldsKeys ⦃c = five⦄ five-MultimultSucceeds 2 comms (f2 ∷ f1 ∷ [])
      (refl, (refl, tt)) refl (sent 0 f4) (party 0 [] f0) (sent-InOrder 0 f4) members-Succeed.2

abbrev holders : List (Party ⦃c = five⦄)
holders = party 0 ((0, f3) ∷ []) f2 ∷ party 1 ((1, f4) ∷ []) f2 ∷ []

sign-keyed_parties_example :
    (nonces : List (PublicNonce ⦃c = five⦄)) × (shares : List (SignatureShare ⦃c = five⦄))
    × ((V2.sign ⦃c = five⦄ (7 ∷ []) holders 1).1 ≡ some (nonces, shares, 0 ∷ 1 ∷ []))
    × (sign ⦃c = five⦄ (record self { poly = f2 ∷ f1 ∷ [] }) (7 ∷ []) nonces shares (0 ∷ 1 ∷ [])
        ≡ ok (record {
          R = (intermediate ⦃c = five⦄ (7 ∷ []) (0 ∷ 1 ∷ []) nonces).1;
          z = total ⦃c = five⦄ shares;
        }))
unfolding evaluate id
sign-keyed_parties_example =
    sign-keyed_parties ⦃c = five⦄ five-MultimultSucceeds (record self { poly = f2 ∷ f1 ∷ [] })
      (7 ∷ []) holders 1 f2 (f1 ∷ []) refl
      (((f3, refl, refl), tt), refl, (((f4, refl, refl), tt), refl, tt))
      ((apart f1 f2 refl, tt), (tt, tt)) (omega arith)

shared_keys-sign_example :
    (shares : List (SignatureShare ⦃c = five⦄)) × (traverse
        (λ p.
          Party.sign ⦃c = five⦄ p
            (7 ∷ [])
            (party_ids_of ⦃c = five⦄ parties)
            (keys_of ⦃c = five⦄ parties)
            (nonces_of ⦃c = five⦄ parties))
        parties
      ≡ some shares)
    × (sign ⦃c = five⦄
          (init ⦃c = five⦄ comms self).0
          (7 ∷ [])
          (nonces_of ⦃c = five⦄ parties)
          shares
          (keys_of ⦃c = five⦄ parties)
        ≡ ok (record {
          R =
              (intermediate ⦃c = five⦄
                (7 ∷ [])
                (party_ids_of ⦃c = five⦄ parties)
                (nonces_of ⦃c = five⦄ parties)).1;
          z = total ⦃c = five⦄ shares;
        }))
unfolding init id verify Schnorr.verify Schnorr.new hash_to_scalar
shared_keys-sign_example =
    shared_keys-sign ⦃c = five⦄ five-MultimultSucceeds self comms members (7 ∷ []) (omega arith)
      (refl, (refl, tt)) refl members-Succeed ((apart f1 f2 refl, tt), (tt, tt)) (omega arith)
