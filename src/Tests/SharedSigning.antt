-- ===== src/Tests/SharedSigning.antt =====
-- A group of one party that holds both keys of the polynomial 2 + x, and its signatures.
use wsts.Prelude.{ℕ, ◌≡◌, refl, some, Option, List, [], ◌∷◌, arith}
use wsts.Prelude.Outcome.{ok, err}
use wsts.Curve.Five.{F5, f0, f1, f2, f3, f4, five, five-MultimultSucceeds, apart}
use wsts.Common.{PublicNonce, SignatureShare, from}
use wsts.Compute.{
  aggregate_nonce, id, intermediate, lambda, tweak, tweaked_public_key, binding, challenge,
  tagged_hash,
}
use wsts.Compute.Lagrange.{Distinct, combine}
use wsts.Compute.Interpolation.{evaluate}
use wsts.Util.{hash_to_scalar}
use wsts.Errors.{bad_party_sigs}
use wsts.Taproot
use wsts.V1.Tally.{total}
use wsts.V2.Party
use wsts.V2.Honest.{HoldsKeys}
use wsts.Compute.AggregateNonce.{aggregate_nonce-intermediate}
use wsts.V2.Party.{sign_with_tweak, Party}
use wsts.V2.Aggregator.{Aggregator, sign, sign_taproot}
use wsts.V2.Tally.{failing}
use wsts.V2.Signing.{sign-failing, sign_taproot-failing}

abbrev party : Party ⦃c = five⦄
party = record {
  party_id = 0;
  key_ids = 0 ∷ 1 ∷ [];
  num_keys = 2;
  num_parties = 1;
  threshold = 2;
  f = f2 ∷ f1 ∷ [];
  private_keys = (0, f3) ∷ (1, f4) ∷ [];
  group_key = f2;
  nonce = record { d = f1; e = f1 };
}

abbrev message : List ℕ
message = 7 ∷ []

abbrev root : Option (List ℕ)
root = some (1 ∷ [])

abbrev self : Aggregator ⦃c = five⦄
self = record { num_keys = 2; threshold = 2; poly = f2 ∷ f1 ∷ [] }

abbrev nonces : List (PublicNonce ⦃c = five⦄)
nonces = from ⦃c = five⦄ party.nonce ∷ []

abbrev share : F5 → List (SignatureShare ⦃c = five⦄)
share z = record { id = 0; z_i = z; key_ids = 0 ∷ 1 ∷ [] } ∷ []

-- What the party signs.
party_signs :
    Party.sign ⦃c = five⦄ party message (0 ∷ []) (0 ∷ 1 ∷ []) nonces
    ≡ some (record { id = 0; z_i = f3; key_ids = 0 ∷ 1 ∷ [] })
unfolding Party.sign from intermediate binding challenge tagged_hash hash_to_scalar id lambda
party_signs = refl

two_ids-Distinct : Distinct ⦃c = five⦄ (0 ∷ 1 ∷ [])
unfolding id
two_ids-Distinct = ((apart f1 f2 refl, tt), (tt, tt))

sign-failing_example :
    sign ⦃c = five⦄ self message nonces (share f3) (0 ∷ 1 ∷ []) ≡ ok (record { R = f2; z = f3 })
unfolding intermediate sign sign_taproot Taproot.new total failing combine evaluate from binding
    hash_to_scalar id challenge tagged_hash lambda tweak tweaked_public_key
sign-failing_example =
    sign-failing ⦃c = five⦄ five-MultimultSucceeds self message nonces (share f3) (0 ∷ 1 ∷ []) f2
      (f1 ∷ []) refl refl refl two_ids-Distinct (omega arith)

-- For the tweak it would have been 1.
sign_taproot-failing_example :
    sign_taproot ⦃c = five⦄ self message nonces (share f3) (0 ∷ 1 ∷ []) root
    ≡ err (bad_party_sigs (0 ∷ []))
unfolding intermediate sign sign_taproot Taproot.new total failing combine evaluate from binding
    hash_to_scalar id challenge tagged_hash lambda tweak tweaked_public_key
sign_taproot-failing_example =
    sign_taproot-failing ⦃c = five⦄ five-MultimultSucceeds self message nonces (share f3)
      (0 ∷ 1 ∷ []) f2 (f1 ∷ []) refl refl refl two_ids-Distinct (omega arith) root
      (apart f4 f0 refl) (apart f1 f0 refl) (apart f2 f0 refl)

party-HoldsKeys : HoldsKeys ⦃c = five⦄ party (f2 ∷ f1 ∷ []) (0 ∷ 1 ∷ [])
unfolding evaluate id
party-HoldsKeys = ((f3, refl, refl), ((f4, refl, refl), tt))

aggregate_nonce-intermediate_example :
    aggregate_nonce ⦃c = five⦄ message
      (0 ∷ 1 ∷ [])
      (record { D = f1; E = f2 } ∷ record { D = f1; E = f4 } ∷ [])
    ≡ some f3
unfolding intermediate binding id hash_to_scalar
aggregate_nonce-intermediate_example =
    aggregate_nonce-intermediate ⦃c = five⦄ five-MultimultSucceeds message (0 ∷ 1 ∷ [])
      (record { D = f1; E = f2 } ∷ record { D = f1; E = f4 } ∷ []) refl
