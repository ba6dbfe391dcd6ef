-- ===== src/Tests/Main.antt =====
-- The runs of src/main.rs with four keys, two signers and a threshold of two.
use wsts.Prelude.{
  ◌-◌, ℕ, ◌≡◌, refl, Option, none, some, List, [], ◌∷◌, map, suc, length, range, arith,
}
use wsts.Prelude.Outcome.{ok}
use wsts.Curve.Five.{F5, f1, f2, f3, f4, five, five-MultimultSucceeds, apart}
use wsts.Common.{PolyCommitment, Signature}
use wsts.Compute.{id}
use wsts.Compute.Lagrange.{Distinct}
use wsts.Main.{main, new_signers, new_parties}
use wsts.Main.RunV2.{main-signs}
use wsts.TestHelpers.{gen_signer_ids}
use wsts.TestHelpers.KeyRound.{num_parties, dkg-AreHonest}
use wsts.TestHelpers.SharedKeyRound.{num_keys_of, dkg-AreKeyed}
use wsts.TestHelpers.SigningRound.{parties_of}
use wsts.TestHelpers.V1.{dkg}
use wsts.TestHelpers.V2
use wsts.V1.Aggregator.{Aggregator, init}
use wsts.V1.Honest.{AreHonest, ids}
use wsts.V1.Party
use wsts.V1.Signer
use wsts.V2.Aggregator as SharedAggregator
use wsts.V2.Party as SharedParty
use wsts.V2.Rounds.{AreKeyed, keys_of}
use wsts.Vss.{random_poly}

four_ids : Distinct ⦃c = five⦄ (range 4)
unfolding id
four_ids = (
  (apart f1 f2 refl, (apart f1 f3 refl, (apart f1 f4 refl, tt))),
  ((apart f2 f3 refl, (apart f2 f4 refl, tt)), ((apart f3 f4 refl, tt), (tt, tt))),
)

abbrev signers : List (Signer.Signer ⦃c = five⦄)
signers = (new_signers ⦃c = five⦄ 4 2 0 ((0 ∷ 1 ∷ []) ∷ (2 ∷ 3 ∷ []) ∷ []) 1).0

abbrev self : Aggregator ⦃c = five⦄
self = record { num_keys = 4; threshold = 2; poly = [] }

dkg-AreHonest_example :
    (comms : List (PolyCommitment ⦃c = five⦄)) × (key : F5) × (rest : List F5) × ((dkg ⦃c = five⦄
        signers 5).1
      ≡ ok comms)
    × (init ⦃c = five⦄ comms self ≡ (record self { poly = key ∷ rest }, ok tt))
    × (suc (length rest) ≡ 2)
    × AreHonest ⦃c = five⦄ (key ∷ rest) key (parties_of ⦃c = five⦄ (dkg ⦃c = five⦄ signers 5).0.0)
    × (ids ⦃c = five⦄ (parties_of ⦃c = five⦄ (dkg ⦃c = five⦄ signers 5).0.0) ≡ range 4)
    × (map (num_parties ⦃c = five⦄) (dkg ⦃c = five⦄ signers 5).0.0
        ≡ map (num_parties ⦃c = five⦄) signers)
unfolding new_signers Signer.new Party.new random_poly
dkg-AreHonest_example =
    dkg-AreHonest ⦃c = five⦄ five-MultimultSucceeds self signers 5 (omega arith) (omega arith)
      (omega arith) refl (refl, refl, (refl, refl, (refl, refl, (refl, refl, tt))))

abbrev key_ids : List (List ℕ)
key_ids = (0 ∷ 1 ∷ []) ∷ (2 ∷ 3 ∷ []) ∷ []

-- Arguments of one digit.
abbrev parse : List ℕ → Option ℕ
parse [] = none
parse (digit ∷ digits) = some (digit - b'0')

main-signs_example :
    (signatures : Signature ⦃c = five⦄ × Signature ⦃c = five⦄) × (main ⦃c = five⦄ parse
        ([] ∷ (b'4' ∷ []) ∷ (b'2' ∷ []) ∷ (b'2' ∷ []) ∷ [])
        1
      ≡ some signatures)
unfolding gen_signer_ids new_signers new_parties Signer.new Party.new SharedParty.new random_poly
main-signs_example =
    main-signs ⦃c = five⦄ five-MultimultSucceeds parse
      ([] ∷ (b'4' ∷ []) ∷ (b'2' ∷ []) ∷ (b'2' ∷ []) ∷ []) 4 2 2 key_ids 1 refl refl refl
      (omega arith) (omega arith) (omega arith) refl (omega arith) (omega arith) four_ids
      (omega arith) refl (refl, (refl, (refl, (refl, tt)))) (λ sig rng h. (refl, (refl, tt)))

abbrev shared_self : SharedAggregator.Aggregator ⦃c = five⦄
shared_self = record { num_keys = 4; threshold = 2; poly = [] }

abbrev parties : List (SharedParty.Party ⦃c = five⦄)
parties = (new_parties ⦃c = five⦄ 4 2 2 0 key_ids 1).0

dkg-AreKeyed_example :
    (comms : List (PolyCommitment ⦃c = five⦄)) × (key : F5) × (rest : List F5) × ((V2.dkg ⦃c = five⦄
        parties 5).1
      ≡ ok comms)
    × (SharedAggregator.init ⦃c = five⦄ comms shared_self
        ≡ (record shared_self { poly = key ∷ rest }, ok tt))
    × (suc (length rest) ≡ 2)
    × AreKeyed ⦃c = five⦄ (key ∷ rest) key (V2.dkg ⦃c = five⦄ parties 5).0.0
    × (keys_of ⦃c = five⦄ (V2.dkg ⦃c = five⦄ parties 5).0.0 ≡ range 4)
    × (map (num_keys_of ⦃c = five⦄) (V2.dkg ⦃c = five⦄ parties 5).0.0
        ≡ map (num_keys_of ⦃c = five⦄) parties)
unfolding new_parties SharedParty.new random_poly
dkg-AreKeyed_example =
    dkg-AreKeyed ⦃c = five⦄ five-MultimultSucceeds shared_self parties 5 2 (omega arith) refl refl
      (refl, refl, refl, refl, (refl, refl, refl, refl, tt))
