-- ===== src/Tests/Signing.antt =====
-- A group of two parties with the polynomial 2 + x, and its signatures.
use wsts.Prelude.{ℕ, ◌≡◌, refl, some, Option, List, [], ◌∷◌, map, arith}
use wsts.Prelude.Outcome.{ok, err}
use wsts.Curve.Five.{F5, f0, f1, f2, f3, f4, five, five-MultimultSucceeds, apart}
use wsts.Common.{PublicNonce, SignatureShare, from}
use wsts.Compute.{
  id, intermediate, lambda, tweak, tweaked_public_key, binding, challenge, tagged_hash,
}
use wsts.Util.{hash_to_scalar}
use wsts.Compute.Lagrange.{Distinct, combine}
use wsts.Compute.Interpolation.{evaluate, combine-evaluate}
use wsts.Errors.{bad_party_sigs}
use wsts.Taproot
use wsts.V1.Party
use wsts.V1.Party.{Party, sign_precomputed, sign_precomputed_with_tweak, commitment_response}
use wsts.V1.Aggregator.{Aggregator, sign, sign_taproot}
use wsts.V1.Tally.{total, failing}
use wsts.V1.Signing.{sign-failures, sign_taproot-failures}
use wsts.V1.Honest.{AreHonest, public_nonces, answers}
use wsts.V1.Rounds.{sign-honest, sign_taproot-honest}

abbrev group : List F5
group = f2 ∷ f1 ∷ []

abbrev party : ℕ → F5 → F5 → F5 → Party ⦃c = five⦄
party i key d e = record {
  id = i;
  public_key = key;
  f = f1 ∷ f3 ∷ [];
  n = 2;
  private_key = key;
  group_key = f2;
  nonce = record { d = d; e = e };
}

abbrev parties : List (Party ⦃c = five⦄)
parties = party 0 f3 f1 f2 ∷ party 1 f4 f1 f4 ∷ []

abbrev message : List ℕ
message = 7 ∷ []

abbrev self : Aggregator ⦃c = five⦄
self = record { num_keys = 2; threshold = 2; poly = group }

abbrev nonces : List (PublicNonce ⦃c = five⦄)
nonces = public_nonces ⦃c = five⦄ parties

two_ids-Distinct : Distinct ⦃c = five⦄ (0 ∷ 1 ∷ [])
unfolding id
two_ids-Distinct = ((apart f1 f2 refl, tt), (tt, tt))

parties-AreHonest : AreHonest ⦃c = five⦄ group f2 parties
unfolding evaluate id
parties-AreHonest = (refl, refl, (refl, refl, tt))

combine-evaluate_example :
    combine ⦃c = five⦄ (0 ∷ 1 ∷ []) (0 ∷ 1 ∷ []) (λ i. evaluate ⦃c = five⦄ (id ⦃c = five⦄ i) group)
    ≡ evaluate ⦃c = five⦄ f0 group
combine-evaluate_example =
    combine-evaluate ⦃c = five⦄ (0 ∷ 1 ∷ []) group (omega arith) two_ids-Distinct

abbrev root : Option (List ℕ)
root = some (1 ∷ [])

abbrev tap : F5
tap = tweak ⦃c = five⦄ f2 root

abbrev tap_key : F5
tap_key = tweaked_public_key ⦃c = five⦄ f2 root

abbrev sum : F5
sum = (intermediate ⦃c = five⦄ message (0 ∷ 1 ∷ []) nonces).1

abbrev signed : List (SignatureShare ⦃c = five⦄)
signed = map (λ p. Party.sign ⦃c = five⦄ p message (0 ∷ 1 ∷ []) nonces) parties

abbrev signed_taproot : List (SignatureShare ⦃c = five⦄)
signed_taproot = answers ⦃c = five⦄ message (0 ∷ 1 ∷ []) nonces sum tap parties

-- The second share is wrong.
abbrev forged : List (SignatureShare ⦃c = five⦄)
forged =
    record { id = 0; z_i = f3; key_ids = 0 ∷ [] }
    ∷ record { id = 1; z_i = f0; key_ids = 1 ∷ [] }
    ∷ []

abbrev forged_taproot : List (SignatureShare ⦃c = five⦄)
forged_taproot =
    record { id = 0; z_i = f2; key_ids = 0 ∷ [] }
    ∷ record { id = 1; z_i = f0; key_ids = 1 ∷ [] }
    ∷ []

sign-failures_example :
    sign ⦃c = five⦄ self message nonces forged (0 ∷ 1 ∷ []) ≡ err (bad_party_sigs (1 ∷ []))
unfolding intermediate sign sign_taproot Taproot.new total failing evaluate from binding
    hash_to_scalar id Party.sign sign_precomputed sign_precomputed_with_tweak commitment_response
    challenge tagged_hash lambda tweak tweaked_public_key
sign-failures_example =
    sign-failures ⦃c = five⦄ five-MultimultSucceeds self message nonces forged (0 ∷ 1 ∷ []) f2
      (f1 ∷ []) refl refl two_ids-Distinct (omega arith)

sign-honest_example :
    sign ⦃c = five⦄ self message nonces signed (0 ∷ 1 ∷ []) ≡ ok (record { R = f3; z = f4 })
unfolding intermediate sign sign_taproot Taproot.new total failing evaluate from binding
    hash_to_scalar id Party.sign sign_precomputed sign_precomputed_with_tweak commitment_response
    challenge tagged_hash lambda tweak tweaked_public_key
sign-honest_example =
    sign-honest ⦃c = five⦄ five-MultimultSucceeds self message parties (0 ∷ 1 ∷ []) f2 (f1 ∷ [])
      refl parties-AreHonest two_ids-Distinct (omega arith)

sign_taproot-failures_example :
    sign_taproot ⦃c = five⦄ self message nonces forged_taproot (0 ∷ 1 ∷ []) root
    ≡ err (bad_party_sigs (1 ∷ []))
unfolding intermediate sign sign_taproot Taproot.new total failing evaluate from binding
    hash_to_scalar id Party.sign sign_precomputed sign_precomputed_with_tweak commitment_response
    challenge tagged_hash lambda tweak tweaked_public_key
sign_taproot-failures_example =
    sign_taproot-failures ⦃c = five⦄ five-MultimultSucceeds self message nonces forged_taproot
      (0 ∷ 1 ∷ []) root f2 (f1 ∷ []) refl refl two_ids-Distinct (omega arith) (apart f4 f0 refl)
      (apart f1 f0 refl) (apart f3 f0 refl)

sign_taproot-honest_example :
    sign_taproot ⦃c = five⦄ self message nonces signed_taproot (0 ∷ 1 ∷ []) root
    ≡ ok (record { r = f2; s = f4 })
unfolding intermediate sign sign_taproot Taproot.new total failing evaluate from binding
    hash_to_scalar id Party.sign sign_precomputed sign_precomputed_with_tweak commitment_response
    challenge tagged_hash lambda tweak tweaked_public_key
sign_taproot-honest_example =
    sign_taproot-honest ⦃c = five⦄ five-MultimultSucceeds self message parties (0 ∷ 1 ∷ []) f2
      (f1 ∷ []) refl parties-AreHonest two_ids-Distinct (omega arith) root (apart f4 f0 refl)
      (apart f1 f0 refl) (apart f3 f0 refl)
