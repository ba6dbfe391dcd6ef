-- ===== src/Tests/KeyGeneration.antt =====
-- Key generation of two parties of src/v1.rs, both with the polynomial 1 + 3x, and what follows.
use wsts.Prelude.{ℕ, ◌≡◌, refl, List, [], ◌∷◌, map, arith}
use wsts.Prelude.Maps.{Map}
use wsts.Prelude.Outcome.{ok}
use wsts.Curve.Five.{F5, f0, f1, f2, f3, f4, five, five-MultimultSucceeds, apart}
use wsts.Common.{PolyCommitment, PublicNonce, Signature, SignatureShare, verify}
use wsts.Common.CheckPrivateShares.{new, multimult_trait}
use wsts.Compute.{id, intermediate}
use wsts.Compute.Interpolation.{evaluate}
use wsts.Schnorr
use wsts.Util.{hash_to_scalar}
use wsts.V1.Aggregator.{Aggregator, group_poly, init, sign}
use wsts.V1.BatchSum.{batch-sum, values_sum}
use wsts.V1.Dkg.{missing, bad_ids_of, bad_id, batch, add_shares}
use wsts.V1.Honest.{AreHonest, ids, public_nonces}
use wsts.V1.HonestRound.{honest_round-sign}
use wsts.V1.KeyGeneration.{keyed, keyed-AreHonest, Succeed}
use wsts.V1.Keys.{constants, share_sum}
use wsts.V1.Lifecycle.{key_generation-sign}
use wsts.V1.Party
use wsts.V1.Party.{Party, compute_secret, get_shares, get_poly_commitment}
use wsts.V1.Tally.{total}

abbrev party : ℕ → Party ⦃c = five⦄
party i = record {
  id = i;
  public_key = f0;
  f = f1 ∷ f3 ∷ [];
  n = 2;
  private_key = f0;
  group_key = f0;
  nonce = record { d = f1; e = f2 };
}

abbrev pub comm : ℕ → PolyCommitment ⦃c = five⦄
comm i = record { id = (Schnorr.new ⦃c = five⦄ (id ⦃c = five⦄ i) f1 1).0; poly = f1 ∷ f3 ∷ [] }

abbrev comms : List (PolyCommitment ⦃c = five⦄)
comms = comm 0 ∷ comm 1 ∷ []

abbrev sent : F5 → Map F5
sent s = (0, s) ∷ (1, s) ∷ []

-- The parties, each with the values at its id.
abbrev members : List (Party ⦃c = five⦄ × Map F5)
members = (party 0, sent f4) ∷ (party 1, sent f2) ∷ []

abbrev self : Aggregator ⦃c = five⦄
self = record { num_keys = 2; threshold = 2; poly = [] }

abbrev parties : List (Party ⦃c = five⦄)
parties = keyed ⦃c = five⦄ comms members

members-Succeed : Succeed ⦃c = five⦄ comms 2 members
unfolding compute_secret missing bad_ids_of bad_id verify Schnorr.verify Schnorr.new hash_to_scalar
    id batch new multimult_trait add_shares
members-Succeed = ((refl, refl, omega arith), refl, ((refl, refl, omega arith), refl, tt))

keyed-AreHonest_example : AreHonest ⦃c = five⦄ (f2 ∷ f1 ∷ []) f2 parties
unfolding group_poly verify Schnorr.verify Schnorr.new hash_to_scalar id constants
keyed-AreHonest_example =
    keyed-AreHonest ⦃c = five⦄ five-MultimultSucceeds self comms (f2 ∷ f1 ∷ []) (refl, (refl, tt))
      refl members members-Succeed

abbrev rng : ℕ → ℕ
rng i = (Schnorr.new ⦃c = five⦄ (id ⦃c = five⦄ i) f1 1).1

batch-sum_example : batch ⦃c = five⦄ f1 (sent f2) comms ≡ ok f4
unfolding values_sum evaluate share_sum
batch-sum_example =
    batch-sum ⦃c = five⦄ f1 (sent f2) comms (comm 0) refl (refl, (refl, tt)) refl refl (omega arith)
      five-MultimultSucceeds

abbrev nonces : List (PublicNonce ⦃c = five⦄)
nonces = public_nonces ⦃c = five⦄ parties

abbrev signed : List (SignatureShare ⦃c = five⦄)
signed = map (λ p. Party.sign ⦃c = five⦄ p (7 ∷ []) (ids ⦃c = five⦄ parties) nonces) parties

abbrev signature : Signature ⦃c = five⦄
signature = record {
  R = (intermediate ⦃c = five⦄ (7 ∷ []) (ids ⦃c = five⦄ parties) nonces).1;
  z = total ⦃c = five⦄ signed;
}

key_generation-sign_example :
    sign ⦃c = five⦄ (init ⦃c = five⦄ comms self).0 (7 ∷ []) nonces signed [] ≡ ok signature
unfolding init id compute_secret verify Schnorr.verify Schnorr.new hash_to_scalar
key_generation-sign_example =
    key_generation-sign ⦃c = five⦄ five-MultimultSucceeds self comms members (7 ∷ []) []
      (omega arith) (refl, (refl, tt)) refl members-Succeed ((apart f1 f2 refl, tt), (tt, tt))
      (omega arith)

honest_round-sign_example :
    sign ⦃c = five⦄ (init ⦃c = five⦄ comms self).0 (7 ∷ []) nonces signed [] ≡ ok signature
unfolding get_shares get_poly_commitment id
honest_round-sign_example =
    honest_round-sign ⦃c = five⦄ five-MultimultSucceeds self (party 0 ∷ party 1 ∷ []) comms members
      (7 ∷ []) [] (omega arith) (omega arith) refl (omega arith)
      (
        refl,
        (refl, refl, ((1, rng 0), refl), refl, (refl, refl, ((1, rng 1), refl), refl, tt)),
        (
          refl,
          (refl, refl, ((1, rng 0), refl), refl, (refl, refl, ((1, rng 1), refl), refl, tt)),
          tt,
        ),
      )
      ((apart f1 f2 refl, tt), (tt, tt)) (omega arith)
