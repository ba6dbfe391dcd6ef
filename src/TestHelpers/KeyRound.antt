-- ===== src/TestHelpers/KeyRound.antt =====
-- src/v1.rs: the round of key generation of `test_helpers` and the aggregator's `init` after it.
use wsts.Prelude.{
  ℕ, suc, ◌+◌, ◌*◌, ◌^◌, ◌<◌, ◌≡◌, refl, sym, ap, ◌∙◌, List, [], ◌∷◌, map, range, length,
  length-map, length-range_from, arith,
}
use mathlib.Core.Path.{ap₂, subst}
use wsts.Prelude.Maps.{Map}
use wsts.Prelude.Outcome.{ok}
use wsts.Curve.{Curve, Scalar, Point, Rng, MultimultSucceeds}
use wsts.Common.{PolyCommitment}
use wsts.TestHelpers.KeyGeneration.{keyed_signer, parties_of-keyed, dkg-keyed}
use wsts.TestHelpers.SigningRound.{parties_of}
use wsts.TestHelpers.V1.{dkg}
use wsts.V1.Aggregator.{Aggregator, init}
use wsts.V1.Dealers.{Dealers, Made-length}
use wsts.V1.DealersKeys.{member, Dealers-Inside, Inside-AllSent}
use wsts.V1.GroupKey.{group_poly-columns}
use wsts.V1.Honest.{AreHonest, ids}
use wsts.V1.HonestRound.{init-AllLength, AllSent, AllSent-Succeed, AllSent-AllLength}
use wsts.V1.KeyGeneration.{keyed, keyed-AreHonest, poly-head}
use wsts.V1.Keys.{constants}
use wsts.V1.Lifecycle.{length-columns, ids-keyed, init-made}
use wsts.V1.Party.{Party}
use wsts.V1.Signer.{Signer}

module _ ⦃c : Curve⦄ where
  -- How many parties a signer bundles.
  abbrev pub num_parties : Signer → ℕ
  num_parties s = length s.parties

  num_parties-keyed :
      (ps : List Party) (comms : List PolyCommitment) (signers : List Signer)
      → map num_parties (map (keyed_signer ps comms) signers) ≡ map num_parties signers
  num_parties-keyed ps comms [] = refl
  num_parties-keyed ps comms (s ∷ signers) =
      ap₂ (λ n ns. n ∷ ns)
        (length-map (map (member ps) s.parties) _ ∙ length-map s.parties (member ps))
        (num_parties-keyed ps comms signers)

  -- Signers (v1) whose parties have the ids below the number `n` of keys, in order, and polynomials
  -- of as many coefficients as the aggregator's threshold, at least one, and few enough for 32 bits: their
  -- round of key generation ends without an error, the aggregator's `init` takes its commitments, and
  -- the parties, as many and with the ids that they had, hold keys of the group that it makes.
  pub dkg-AreHonest :
      MultimultSucceeds
      → (self : Aggregator) (signers : List Signer) (rng : Rng) → 0 < self.threshold
      → 0 < self.num_keys
      → (self.threshold + 1) * self.num_keys < 2 ^ 32
      → ids (parties_of signers) ≡ range self.num_keys
      → Dealers self.num_keys self.threshold (parties_of signers)
      → (comms : List PolyCommitment) × (key : Point) × (rest : List Point) × ((dkg signers rng).1
          ≡ ok comms)
        × (init comms self ≡ (record self { poly = key ∷ rest }, ok tt))
        × (suc (length rest) ≡ self.threshold)
        × AreHonest (key ∷ rest) key (parties_of (dkg signers rng).0.0)
        × (ids (parties_of (dkg signers rng).0.0) ≡ range self.num_keys)
        × (map num_parties (dkg signers rng).0.0 ≡ map num_parties signers)
  dkg-AreHonest works self signers rng positive some_key small all dealers =
      let ps : List Party = parties_of signers in
      let (made, m, e) =
        dkg-keyed works self.num_keys self.threshold positive small signers rng all dealers in
      let counted : length made.0 ≡ self.num_keys =
        Made-length ps made.0 m
        ∙ sym (length-map ps (λ p. p.id))
        ∙ ap length all
        ∙ length-range_from 0 self.num_keys in
      let some_comm : 0 < length made.0 = omega (arith, counted, some_key) in
      let fits : (self.threshold + 1) * length made.0 < 2 ^ 32 =
        subst (λ n. (self.threshold + 1) * n < 2 ^ 32) (sym counted) small in
      let members : List (Party × Map Scalar) = map (member ps) ps in
      let sent : AllSent self.threshold ps made.0 members =
        Inside-AllSent works self.num_keys self.threshold ps made.0 positive small dealers all m ps
          (Dealers-Inside self.num_keys self.threshold 0 self.num_keys ps dealers all
            (omega arith)) in
      let (full, good) =
        AllSent-AllLength works self.threshold ps made.0 positive some_comm fits members sent
          (omega (arith, length-map ps (member ps), Made-length ps made.0 m, some_comm)) in
      let inited : (init made.0 self).1 ≡ ok tt = init-AllLength self made.0 counted good full in
      let (poly, grouped, after) = init-made self made.0 inited in
      let (rest, group) = poly-head works self made.0 poly full grouped positive in
      let honest : AreHonest poly (constants made.0) (keyed made.0 members) =
        keyed-AreHonest works self made.0 poly full grouped members
          (AllSent-Succeed works self.threshold ps made.0 positive some_comm fits members sent) in
      let left : parties_of (dkg signers rng).0.0 ≡ keyed made.0 members =
        ap (λ r. parties_of r.0.0) e ∙ parties_of-keyed ps made.0 signers in
      (
        made.0,
        constants made.0,
        rest,
        ap (λ r. r.1) e,
        ground (arith, after, inited, group),
        ap length (sym group)
            ∙ length-columns 0 self.threshold made.0 poly
                (group_poly-columns self made.0 poly grouped),
        subst (AreHonest (constants made.0 ∷ rest) (constants made.0)) (sym left)
            (subst (λ g. AreHonest g (constants made.0) (keyed made.0 members)) group honest),
        ap ids left ∙ ids-keyed made.0 members ∙ ids-members ps ps ∙ all,
        ap (λ r. map num_parties r.0.0) e ∙ num_parties-keyed ps made.0 signers,
      )
    where
      ids-members : (ps qs : List Party) → ids (map (λ m. m.0) (map (member ps) qs)) ≡ ids qs
      ids-members ps [] = refl
      ids-members ps (q ∷ qs) = ap (λ is. q.id ∷ is) (ids-members ps qs)
