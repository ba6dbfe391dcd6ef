-- ===== src/TestHelpers/KeyGeneration.antt =====
-- src/v1.rs: the round of key generation of `test_helpers`.
use wsts.Prelude.{
  ℕ, suc, ◌+◌, ◌*◌, ◌^◌, ◌<◌, ◌≡◌, refl, sym, ap, ◌∙◌, some, List, [], ◌∷◌, ◌++◌, map, range,
  range_from, range_from-add, resize, length, length-map, length-append, length-range_from, arith,
}
use mathlib.Core.List.{append_assoc, append-nil}
use mathlib.Core.Path.{ap₂}
use wsts.Prelude.Maps.{Map, keys}
use wsts.Prelude.Ordered.{extend, extend-append, keys-append}
use wsts.Prelude.Outcome.{ok}
use wsts.Curve.{Curve, Scalar, Rng, MultimultSucceeds}
use wsts.Common.{PolyCommitment}
use wsts.TestHelpers.SigningRound.{parties_of}
use wsts.TestHelpers.Taproot
use wsts.TestHelpers.Taproot.{all_commitments, all_shares, compute_each}
use wsts.TestHelpers.V1.{dkg}
use wsts.V1.Dealers.{
  Dealers, Made, Made-append, commitments_of-Made, sent_by, keys-sent_by, shares_of-extend,
}
use wsts.V1.DealersKeys.{
  Inside, Inside-left, Inside-right, Dealers-Inside, member, compute_secrets-accepts,
}
use wsts.V1.Honest.{ids}
use wsts.V1.KeyGeneration.{keyed}
use wsts.V1.Party.{Party}
use wsts.V1.Signer
use wsts.V1.Signer.{Signer}
use wsts.V1.Signers.{map-append}
use wsts.V1.Trait.{signer_trait}

module _ ⦃c : Curve⦄ where
  Dealers-left : (n t : ℕ) (xs ys : List Party) → Dealers n t (xs ++ ys) → Dealers n t xs
  Dealers-left n t [] ys h = tt
  Dealers-left n t (x ∷ xs) ys (a, b, h) = (a, b, Dealers-left n t xs ys h)

  Dealers-right : (n t : ℕ) (xs ys : List Party) → Dealers n t (xs ++ ys) → Dealers n t ys
  Dealers-right n t [] ys h = h
  Dealers-right n t (x ∷ xs) ys (a, b, h) = Dealers-right n t xs ys h

  ids-left :
      (a : ℕ) (xs ys : List Party)
      → ids (xs ++ ys) ≡ range_from a (length (xs ++ ys))
      → ids xs ≡ range_from a (length xs)
  ids-left a [] ys h = refl
  ids-left a (x ∷ xs) ys h = ground (arith, h, ids-left (suc a) xs ys (ground (arith, h)))

  ids-right :
      (a : ℕ) (xs ys : List Party)
      → ids (xs ++ ys) ≡ range_from a (length (xs ++ ys))
      → ids ys ≡ range_from (a + length xs) (length ys)
  ids-right a [] ys h = h ∙ resize a (a + 0) (length ys) (length ys) (omega arith) refl
  ids-right a (x ∷ xs) ys h =
      ids-right (suc a) xs ys (ground (arith, h))
      ∙ resize (suc a + length xs) (a + suc (length xs)) (length ys) (length ys) (omega arith) refl

  all_commitments-Made :
      (n t : ℕ) (signers : List Signer) (rng : Rng)
      → 0 < t
      → Dealers n t (parties_of signers)
      → (made : List PolyCommitment × Rng) × (all_commitments ⦃sgn = signer_trait⦄ signers rng
          ≡ some made)
        × Made (parties_of signers) made.0
  unfolding all_commitments Signer.get_poly_commitments
  all_commitments-Made n t [] rng l h = (([], rng), refl, tt)
  all_commitments-Made n t (s ∷ signers) rng l h =
      let (mine, e, m) =
        commitments_of-Made n t s.parties rng l
          (Dealers-left n t s.parties (parties_of signers) h) in
      let (others, e', m') =
        all_commitments-Made n t signers mine.1 l
          (Dealers-right n t s.parties (parties_of signers) h) in
      (
        (mine.0 ++ others.0, others.1),
        rw (e, e') refl,
        Made-append s.parties (parties_of signers) mine.0 others.0 m m',
      )

  keys-length : (ps : List Party) → length (sent_by ps) ≡ length ps
  keys-length ps = length-map ps _

  get_shares-sent_by :
      (a : ℕ) (s : Signer)
      → ids s.parties ≡ range_from a (length s.parties)
      → Signer.get_shares s ≡ sent_by s.parties
  unfolding Signer.get_shares
  get_shares-sent_by a s h =
      shares_of-extend s.parties []
      ∙ extend-append a (sent_by s.parties) [] refl (
          keys-sent_by s.parties
          ∙ h
          ∙ resize a (a + 0) (length s.parties) (length (sent_by s.parties)) (omega arith)
              (sym (keys-length s.parties)))

  all_shares-sent_by :
      (signers : List Signer) (m : Map (Map Scalar))
      → keys m ≡ range (length m)
      → ids (parties_of signers) ≡ range_from (length m) (length (parties_of signers))
      → all_shares ⦃sgn = signer_trait⦄ signers m ≡ m ++ sent_by (parties_of signers)
  unfolding all_shares
  all_shares-sent_by [] m k h = sym (append-nil m)
  all_shares-sent_by (s ∷ signers) m k h =
      ap (all_shares ⦃sgn = signer_trait⦄ signers) (
        ap (λ es. extend es m) (get_shares-sent_by (length m) s mine)
        ∙ extend-append 0 (sent_by s.parties) m k (
            keys-sent_by s.parties
            ∙ mine
            ∙ resize (length m) (0 + length m) (length s.parties) (length (sent_by s.parties))
                (omega arith) (sym (keys-length s.parties))))
      ∙ all_shares-sent_by signers (m ++ sent_by s.parties) both (
          ids-right (length m) s.parties (parties_of signers) h
          ∙ resize (length m + length s.parties) (length (m ++ sent_by s.parties))
              (length (parties_of signers)) (length (parties_of signers)) (sym longer) refl)
      ∙ append_assoc m (sent_by s.parties) (sent_by (parties_of signers))
      ∙ ap (λ es. m ++ es) (sym (map-append _ s.parties (parties_of signers)))
    where
      mine : ids s.parties ≡ range_from (length m) (length s.parties)
      mine = ids-left (length m) s.parties (parties_of signers) h

      longer : length (m ++ sent_by s.parties) ≡ length m + length s.parties
      longer = length-append m (sent_by s.parties) ∙ ap (λ k. length m + k) (keys-length s.parties)

      both : keys (m ++ sent_by s.parties) ≡ range (length (m ++ sent_by s.parties))
      both =
          keys-append m (sent_by s.parties)
          ∙ ap₂ (λ xs ys. xs ++ ys) k
              (keys-sent_by s.parties
                ∙ mine
                ∙ resize (length m) (0 + length m) (length s.parties) (length s.parties)
                    (omega arith) refl)
          ∙ sym (range_from-add 0 (length m) (length s.parties))
          ∙ resize 0 0 (length m + length s.parties) (length (m ++ sent_by s.parties)) refl
              (sym longer)

  -- A signer with the keys of a round of key generation among some parties.
  abbrev pub keyed_signer : List Party → List PolyCommitment → Signer → Signer
  keyed_signer ps comms s = record s { parties = keyed comms (map (member ps) s.parties) }

  pub parties_of-keyed :
      (ps : List Party) (comms : List PolyCommitment) (signers : List Signer)
      → parties_of (map (keyed_signer ps comms) signers)
        ≡ keyed comms (map (member ps) (parties_of signers))
  parties_of-keyed ps comms [] = refl
  parties_of-keyed ps comms (s ∷ signers) =
      ap (λ qs. keyed comms (map (member ps) s.parties) ++ qs) (parties_of-keyed ps comms signers)
      ∙ sym (
          ap (keyed comms) (map-append (member ps) s.parties (parties_of signers))
          ∙ map-append _ (map (member ps) s.parties) (map (member ps) (parties_of signers)))

  module _ (works : MultimultSucceeds) (n t : ℕ) (positive : 0 < t)
      (small : (t + 1) * n < 2 ^ 32) where
    module _ (ps : List Party) (comms : List PolyCommitment) (dealers : Dealers n t ps)
        (all : ids ps ≡ range n) (made : Made ps comms) where
      compute_each-accepts :
          (signers : List Signer)
          → Inside n (parties_of signers)
          → compute_each ⦃sgn = signer_trait⦄ (sent_by ps) comms signers []
            ≡ (map (keyed_signer ps comms) signers, some [])
      unfolding compute_each
      compute_each-accepts [] h = refl
      compute_each-accepts (s ∷ signers) h = ground (
        arith,
        compute_secrets-accepts works n t ps comms positive small dealers all made s
            (Inside-left n s.parties (parties_of signers) h),
        compute_each-accepts signers (Inside-right n s.parties (parties_of signers) h),
      )

    -- Signers whose parties have the ids below `n` in order, and polynomials of `t` coefficients:
    -- their round of key generation ends without an error, with the commitments that the parties
    -- make, and each party has run `compute_secret` on the shares that all parties make for it.
    pub dkg-keyed :
        (signers : List Signer) (rng : Rng)
        → ids (parties_of signers) ≡ range n
        → Dealers n t (parties_of signers)
        → (made : List PolyCommitment × Rng) × Made (parties_of signers) made.0
          × (dkg signers rng
              ≡ ((map (keyed_signer (parties_of signers) made.0) signers, made.1), ok made.0))
    unfolding dkg Taproot.dkg
    dkg-keyed signers rng all dealers =
        let (made, e, m) = all_commitments-Made n t signers rng positive dealers in
        (
          made,
          m,
          rw
              (
                e,
                all_shares-sent_by signers [] refl (
                    all
                    ∙ resize 0 0 n (length (parties_of signers)) refl (sym (counted signers all))),
                compute_each-accepts (parties_of signers) made.0 dealers all m signers
                    (Dealers-Inside n t 0 n (parties_of signers) dealers all (omega arith)),
              )
              refl,
        )
      where
        counted :
            (signers : List Signer)
            → ids (parties_of signers) ≡ range n
            → length (parties_of signers) ≡ n
        counted signers h =
            sym (length-map (parties_of signers) (λ p. p.id)) ∙ ap length h ∙ length-range_from 0 n
