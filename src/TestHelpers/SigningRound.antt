-- ===== src/TestHelpers/SigningRound.antt =====
-- src/v1.rs: a signing round of `test_helpers`, for signers that hold the keys of one group.
use wsts.Prelude.{
  ℕ, ◌≤◌, ◌≡◌, refl, sym, ap, ◌∙◌, some, List, [], ◌∷◌, ◌++◌, map, flat_map, length, length-map,
  arith,
}
use mathlib.Core.Path.{ap₂, subst}
use wsts.Prelude.Outcome.{ok}
use wsts.Curve.{Curve, Point, Rng, Bytes, MultimultSucceeds}
use wsts.Common.{PublicNonce, SignatureShare}
use wsts.Compute.{intermediate}
use wsts.Compute.Lagrange.{Distinct}
use wsts.TestHelpers.Taproot.{gen_each, all_key_ids, sign_each}
use wsts.TestHelpers.V1
use wsts.V1.Aggregator
use wsts.V1.Aggregator.{Aggregator}
use wsts.V1.Party
use wsts.V1.Party.{Party}
use wsts.V1.Signer
use wsts.V1.Signer.{Signer, gen_all}
use wsts.V1.Signers.{map-append, gen_all-nonces, gen_all-ids, gen_all-AreHonest, sign-parties}
use wsts.V1.Trait.{signer_trait}
use wsts.V1.Honest.{AreHonest, ids, public_nonces}
use wsts.V1.Tally.{total}
use wsts.V1.Rounds.{sign-honest}

module _ ⦃c : Curve⦄ where
  -- All the parties that some signers bundle.
  abbrev pub parties_of : List Signer → List Party
  parties_of = flat_map λ s. s.parties

  abbrev ready : List Signer → Rng → List Signer
  ready signers rng = (gen_each ⦃sgn = signer_trait⦄ signers rng).0

  all_key_ids-ids :
      (signers : List Signer) → all_key_ids ⦃sgn = signer_trait⦄ signers ≡ ids (parties_of signers)
  unfolding Signer.get_key_ids
  all_key_ids-ids [] = refl
  all_key_ids-ids (s ∷ signers) =
      ap (λ is. ids s.parties ++ is) (all_key_ids-ids signers)
      ∙ sym (map-append (λ p. p.id) s.parties (parties_of signers))

  gen_each-nonces :
      (signers : List Signer) (rng : Rng)
      → (gen_each ⦃sgn = signer_trait⦄ signers rng).1
        ≡ public_nonces (parties_of (ready signers rng))
  unfolding gen_each Signer.gen_nonces
  gen_each-nonces [] rng = refl
  gen_each-nonces (s ∷ signers) rng =
      ap₂ (λ xs ys. xs ++ ys) (gen_all-nonces s.parties rng)
        (gen_each-nonces signers (gen_all s.parties rng).2)
      ∙ sym (
          map-append _ (gen_all s.parties rng).0
            (parties_of (ready signers (gen_all s.parties rng).2)))

  gen_each-ids :
      (signers : List Signer) (rng : Rng)
      → ids (parties_of (ready signers rng)) ≡ ids (parties_of signers)
  unfolding gen_each Signer.gen_nonces
  gen_each-ids [] rng = refl
  gen_each-ids (s ∷ signers) rng =
      map-append (λ p. p.id) (gen_all s.parties rng).0
        (parties_of (ready signers (gen_all s.parties rng).2))
      ∙ ap₂ (λ xs ys. xs ++ ys) (gen_all-ids s.parties rng)
          (gen_each-ids signers (gen_all s.parties rng).2)
      ∙ sym (map-append (λ p. p.id) s.parties (parties_of signers))

  AreHonest-append :
      (group : List Point) (key : Point) (xs ys : List Party)
      → AreHonest group key xs
      → AreHonest group key ys
      → AreHonest group key (xs ++ ys)
  AreHonest-append group key [] ys h k = k
  AreHonest-append group key (x ∷ xs) ys (a, b, h) k = (a, b, AreHonest-append group key xs ys h k)

  pub AreHonest-left :
      (group : List Point) (key : Point) (xs ys : List Party)
      → AreHonest group key (xs ++ ys)
      → AreHonest group key xs
  AreHonest-left group key [] ys h = tt
  AreHonest-left group key (x ∷ xs) ys (a, b, h) = (a, b, AreHonest-left group key xs ys h)

  AreHonest-right :
      (group : List Point) (key : Point) (xs ys : List Party)
      → AreHonest group key (xs ++ ys)
      → AreHonest group key ys
  AreHonest-right group key [] ys h = h
  AreHonest-right group key (x ∷ xs) ys (a, b, h) = AreHonest-right group key xs ys h

  gen_each-AreHonest :
      (group : List Point) (key : Point) (signers : List Signer) (rng : Rng)
      → AreHonest group key (parties_of signers)
      → AreHonest group key (parties_of (ready signers rng))
  unfolding gen_each Signer.gen_nonces
  gen_each-AreHonest group key [] rng h = tt
  gen_each-AreHonest group key (s ∷ signers) rng h =
      AreHonest-append group key (gen_all s.parties rng).0
        (parties_of (ready signers (gen_all s.parties rng).2))
        (gen_all-AreHonest group key s.parties rng
          (AreHonest-left group key s.parties (parties_of signers) h))
        (gen_each-AreHonest group key signers (gen_all s.parties rng).2
          (AreHonest-right group key s.parties (parties_of signers) h))

  sign_each-parties :
      MultimultSucceeds
      → (signers : List Signer) (msg : Bytes) (signer_ids key_ids : List ℕ)
        (nonces : List PublicNonce)
      → length nonces ≡ length key_ids
      → sign_each ⦃sgn = signer_trait⦄ (λ s. Signer.sign s msg signer_ids key_ids nonces) signers
        ≡ some (map (λ p. Party.sign p msg key_ids nonces) (parties_of signers))
  unfolding sign_each
  sign_each-parties works [] msg signer_ids key_ids nonces h = refl
  sign_each-parties works (s ∷ signers) msg signer_ids key_ids nonces h =
      rw
        (
          sign-parties works s msg signer_ids key_ids nonces h,
          sign_each-parties works signers msg signer_ids key_ids nonces h,
          map-append (λ p. Party.sign p msg key_ids nonces) s.parties (parties_of signers),
        )
        refl

  same_length : (xs ys : List Party) → ids xs ≡ ids ys → length xs ≡ length ys
  same_length xs ys h = sym (length-map xs (λ p. p.id)) ∙ ap length h ∙ length-map ys (λ p. p.id)

  -- Signers whose parties have distinct ids and hold the keys of the aggregator's group, no fewer
  -- than its polynomial has coefficients: the signing round of `test_helpers` does not panic, and
  -- from the nonces and the shares that it returns the aggregator makes a signature.
  pub sign-signers :
      MultimultSucceeds
      → (self : Aggregator) (msg : Bytes) (signers : List Signer) (rng : Rng) (first : Point)
        (rest : List Point)
      → self.poly ≡ first ∷ rest
      → AreHonest self.poly first (parties_of signers)
      → Distinct (ids (parties_of signers))
      → length self.poly ≤ length (parties_of signers)
      → (nonces : List PublicNonce) × (shares : List SignatureShare) × ((V1.sign msg signers rng).1
          ≡ some (nonces, shares))
        × (Aggregator.sign self msg nonces shares []
            ≡ ok (record {
              R = (intermediate msg (ids (parties_of signers)) nonces).1;
              z = total shares;
            }))
  unfolding V1.sign
  sign-signers works self msg signers rng first rest group honest distinct enough = (
    nonces,
    map (λ p. Party.sign p msg (ids parties) nonces) parties,
    rw
        (
          gen_each-nonces signers rng,
          all_key_ids-ids signers ∙ sym same,
          sign_each-parties works (ready signers rng) msg (ids parties) (ids parties) nonces
              counted,
        )
        refl,
    sign-honest works self msg parties [] first rest group
          (gen_each-AreHonest self.poly first signers rng honest)
          (subst Distinct (sym same) distinct)
          (omega (arith, enough, same_length parties (parties_of signers) same))
        ∙ ap
            (λ is. ok (record {
              R = (intermediate msg is nonces).1;
              z = total (map (λ p. Party.sign p msg (ids parties) nonces) parties);
            }))
            same,
  )
    where
      parties : List Party
      parties = parties_of (ready signers rng)

      nonces : List PublicNonce
      nonces = public_nonces parties

      same : ids parties ≡ ids (parties_of signers)
      same = gen_each-ids signers rng

      counted : length nonces ≡ length (ids parties)
      counted = length-map parties _ ∙ sym (length-map parties _)
