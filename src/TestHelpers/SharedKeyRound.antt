-- ===== src/TestHelpers/SharedKeyRound.antt =====
-- src/v2.rs: the round of key generation of `test_helpers` and the aggregator's `init` after it.
use wsts.Prelude.{
  ℕ, zero, suc, ◌+◌, ◌≤◌, ◌<◌, ◌≡◌, refl, sym, ap, ◌∙◌, some, List, [], ◌∷◌, ◌++◌, map, range,
  range_from, resize, length, length-map, length-range_from, length-append, arith,
}
use mathlib.Core.Path.{ap₂, subst}
use wsts.Prelude.Maps.{Map, keys}
use wsts.Prelude.Ordered.{extend, extend-append, range_left, range_right}
use wsts.Prelude.Outcome.{ok}
use wsts.Curve.{Curve, Scalar, Point, Rng, MultimultSucceeds}
use wsts.Common.{PolyCommitment}
use wsts.Compute.{id}
use wsts.TestHelpers.V2.{dkg, broadcast, compute_each}
use wsts.V1.Batch.{AllLength}
use wsts.V1.HonestRound.{Dealt-good, columns-AllLength}
use wsts.V1.KeyRound.{columns-head}
use wsts.V1.Keys.{constants}
use wsts.V1.Lifecycle.{length-columns}
use wsts.V2.Accepts.{shares_by_key, compute_secret-accepts, shares_by_key-InOrder}
use wsts.V2.Aggregator.{Aggregator, group_poly, init}
use wsts.V2.Dealers.{
  Dealers, Committed, Committed-Dealt, Committed-AllLength, all_commitments-Committed, shares_for,
  key_shares-all,
}
use wsts.V2.KeyGeneration.{compute_secret-key_ids}
use wsts.V2.Lifecycle.{Succeed, keyed, keyed-AreKeyed, keys_of-keyed, init-made}
use wsts.V2.Party.{Party}
use wsts.V2.Rounds.{AreKeyed, party_ids_of, keys_of}
use wsts.V2.Signer.{collect_shares}

module _ ⦃c : Curve⦄ where
  -- Parties whose key ids are ranges below `n`.
  abbrev Blocks : ℕ → ℕ → List Party → Type 0
  Blocks n k [] = Unit {0}
  Blocks n k (p ∷ ps) =
      ((a : ℕ) × (p.key_ids ≡ range_from a (length p.key_ids)) × (a + length p.key_ids ≤ n))
      × (p.num_parties ≡ k)
      × Blocks n k ps

  Dealers-Blocks :
      (n k t a : ℕ) (ps : List Party)
      → Dealers n k t ps
      → keys_of ps ≡ range_from a (length (keys_of ps))
      → a + length (keys_of ps) ≤ n
      → Blocks n k ps
  Dealers-Blocks n k t a [] d h l = tt
  Dealers-Blocks n k t a (p ∷ ps) (e, e', size, o, d) h l =
      let more : length (p.key_ids ++ keys_of ps) ≡ length p.key_ids + length (keys_of ps) =
        length-append p.key_ids (keys_of ps) in
      (
        (a, range_left a p.key_ids (keys_of ps) h, omega (arith, l, more)),
        e',
        Dealers-Blocks n k t (a + length p.key_ids) ps d (range_right a p.key_ids (keys_of ps) h)
            (omega (arith, l, more)),
      )

  keys-shares_by_key : (is : List ℕ) (ps : List Party) → keys (shares_by_key is ps) ≡ is
  keys-shares_by_key [] ps = refl
  keys-shares_by_key (i ∷ is) ps = ap (λ ks. i ∷ ks) (keys-shares_by_key is ps)

  -- A party with the shares that all parties make for its keys.
  abbrev pub member : List Party → Party → Party × Map (Map Scalar)
  member ps p = (p, shares_by_key p.key_ids ps)

  module _ (works : MultimultSucceeds) (n k t : ℕ) (ps : List Party) (comms : List PolyCommitment)
      (positive : 0 < t) (dealers : Dealers n k t ps) (named : party_ids_of ps ≡ range k)
      (made : Committed ps comms) where
    collect_shares-extend :
        (a l : ℕ) (m : Map (Map Scalar))
        → a + l ≤ n
        → collect_shares (range_from a l) (broadcast ps) m
          ≡ some (extend (shares_by_key (range_from a l) ps) m)
    unfolding collect_shares
    collect_shares-extend a zero m h = refl
    collect_shares-extend a (suc l) m h =
        rw (key_shares-all n k t a ps (omega (arith, h)) dealers named)
          (collect_shares-extend (suc a) l _ (omega (arith, h)))

    collect_shares-all :
        (a : ℕ) (is : List ℕ)
        → is ≡ range_from a (length is)
        → a + length is ≤ n
        → collect_shares is (broadcast ps) [] ≡ some (shares_by_key is ps)
    collect_shares-all a is h l =
        ap (λ js. collect_shares js (broadcast ps) []) h
        ∙ collect_shares-extend a (length is) [] l
        ∙ ap (λ js. some (extend (shares_by_key js ps) [])) (sym h)
        ∙ ap some (
            extend-append a (shares_by_key is ps) [] refl (
              keys-shares_by_key is ps
              ∙ h
              ∙ resize a (a + 0) (length is) (length (shares_by_key is ps)) (omega arith)
                  (sym (length-map is _))))

    compute_each-accepts :
        (qs : List Party)
        → Blocks n k qs
        → compute_each (broadcast ps) comms qs [] ≡ (keyed comms (map (member ps) qs), some [])
    unfolding compute_each
    compute_each-accepts [] h = refl
    compute_each-accepts (q ∷ qs) ((a, run, l), e, h) = ground (
      arith,
      collect_shares-all a q.key_ids run l,
      compute_secret-accepts works n k t ps comms positive dealers named made q e,
      compute_each-accepts qs h,
    )

    members-Succeed : (qs : List Party) → Dealers n k t qs → Succeed comms (map (member ps) qs)
    members-Succeed [] d = tt
    members-Succeed (q ∷ qs) (e, e', size, o, d) = (
      o,
      shares_by_key-InOrder works n k t ps comms positive dealers named made q.key_ids,
      compute_secret-accepts works n k t ps comms positive dealers named made q e',
      members-Succeed qs d,
    )

  init-accepts :
      (self : Aggregator) (ps : List Party) (comms : List PolyCommitment)
      → Committed ps comms
      → AllLength self.threshold comms
      → (init comms self).1 ≡ ok tt
  unfolding init group_poly
  init-accepts self ps comms made all =
      let (poly, e) = columns-AllLength 0 self.threshold self.threshold comms (omega arith) all in
      ground (arith, Dealt-good (id 0) (shares_for 0 ps) comms (Committed-Dealt 0 ps comms made), e)

  -- How many keys a party has.
  abbrev pub num_keys_of : Party → ℕ
  num_keys_of p = length p.key_ids

  keys_of-members :
      (ps qs : List Party) → keys_of (map (λ m. m.0) (map (member ps) qs)) ≡ keys_of qs
  keys_of-members ps [] = refl
  keys_of-members ps (q ∷ qs) = ap (λ is. q.key_ids ++ is) (keys_of-members ps qs)

  num_keys_of-keyed :
      (ps : List Party) (comms : List PolyCommitment) (qs : List Party)
      → map num_keys_of (keyed comms (map (member ps) qs)) ≡ map num_keys_of qs
  num_keys_of-keyed ps comms [] = refl
  num_keys_of-keyed ps comms (q ∷ qs) =
      ap₂ (λ m ms. m ∷ ms) (ap length (compute_secret-key_ids (shares_by_key q.key_ids ps) comms q))
        (num_keys_of-keyed ps comms qs)

  -- Parties (v2) with the ids below their number, and the key ids below the number of the
  -- aggregator's keys, both in order, cleared group keys, and polynomials of as many coefficients as
  -- the aggregator's threshold, at least one: their round of key generation ends without an error,
  -- the aggregator's `init` takes its commitments, and the parties, with the key ids that they had,
  -- hold keys of the group that it makes.
  pub dkg-AreKeyed :
      MultimultSucceeds
      → (self : Aggregator) (ps : List Party) (rng : Rng) (k : ℕ) → 0 < self.threshold
      → party_ids_of ps ≡ range k
      → keys_of ps ≡ range self.num_keys
      → Dealers self.num_keys k self.threshold ps
      → (comms : List PolyCommitment) × (key : Point) × (rest : List Point) × ((dkg ps rng).1
          ≡ ok comms)
        × (init comms self ≡ (record self { poly = key ∷ rest }, ok tt))
        × (suc (length rest) ≡ self.threshold)
        × AreKeyed (key ∷ rest) key (dkg ps rng).0.0
        × (keys_of (dkg ps rng).0.0 ≡ range self.num_keys)
        × (map num_keys_of (dkg ps rng).0.0 ≡ map num_keys_of ps)
  unfolding dkg
  dkg-AreKeyed works self ps rng k positive named all dealers =
      let n : ℕ = self.num_keys in
      let t : ℕ = self.threshold in
      let (made, e, h) = all_commitments-Committed n k t ps rng positive dealers in
      let comms : List PolyCommitment = made.0 in
      let (full, same) = Committed-AllLength n k t ps comms dealers h in
      let size : length (keys_of ps) ≡ n = ap length all ∙ length-range_from 0 n in
      let blocks : Blocks n k ps =
        Dealers-Blocks n k t 0 ps dealers (all ∙ ap range (sym size)) (omega (arith, size)) in
      let ran : dkg ps rng ≡ ((keyed comms (map (member ps) ps), made.1), ok comms) =
        rw (e, compute_each-accepts works n k t ps comms positive dealers named h ps blocks) refl in
      let left : (dkg ps rng).0.0 ≡ keyed comms (map (member ps) ps) = ap (λ r. r.0.0) ran in
      let inited : (init comms self).1 ≡ ok tt = init-accepts self ps comms h full in
      let (poly, columned, after) = init-made self comms inited in
      let (rest, group) = columns-head t comms poly columned positive in
      let honest : AreKeyed poly (constants comms) (keyed comms (map (member ps) ps)) =
        keyed-AreKeyed works t comms poly full columned (map (member ps) ps)
          (members-Succeed works n k t ps comms positive dealers named h ps dealers) in
      (
        comms,
        constants comms,
        rest,
        ap (λ r. r.1) ran,
        ground (arith, after, inited, group),
        ap length (sym group) ∙ length-columns 0 t comms poly columned,
        subst (AreKeyed (constants comms ∷ rest) (constants comms)) (sym left) (
            subst (λ g. AreKeyed g (constants comms) (keyed comms (map (member ps) ps))) group
              honest),
        ap keys_of left ∙ keys_of-keyed comms (map (member ps) ps) ∙ keys_of-members ps ps ∙ all,
        ap (map num_keys_of) left ∙ num_keys_of-keyed ps comms ps,
      )
