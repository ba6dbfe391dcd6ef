-- ===== src/Main/RunV1.antt =====
-- src/main.rs: the run with the parties of src/v1.rs, from the numbers of the command line to the
-- signature.
use wsts.Prelude.{
  ℕ, zero, suc, ◌+◌, ◌*◌, ◌/◌, ◌^◌, ◌≤◌, ◌<◌, ◌≡◌, refl, sym, ap, ◌∙◌, some, List, [], ◌∷◌, ◌++◌,
  map, flat_map, range, length, length-map, length-append, take, drop, replicate, some-inj, arith,
}
use mathlib.Core.List.{append_assoc}
use mathlib.Core.Path.{ap₂, subst}
use wsts.Prelude.Maps.{Map}
use wsts.Prelude.Outcome.{Outcome, ok}
use wsts.Curve.{Curve, Rng, MultimultSucceeds}
use wsts.Common.{PolyCommitment, PublicNonce, Signature, SignatureShare}
use wsts.Compute.Lagrange.{Distinct}
use wsts.Errors.{DkgError}
use wsts.Main.{run_v1, new_signers, num_signing, slice, divides, msg}
use wsts.Main.Quarters.{Distinct-left, num_signing-le, slice-take, divides-pos, length-replicate}
use wsts.TestHelpers.{gen_signer_ids}
use wsts.TestHelpers.Ids.{gen_signer_ids-range, gen_signer_ids-sizes}
use wsts.TestHelpers.KeyRound.{num_parties, dkg-AreHonest}
use wsts.TestHelpers.SigningRound.{parties_of, AreHonest-left, sign-signers}
use wsts.TestHelpers.V1
use wsts.V1.Aggregator
use wsts.V1.Aggregator.{Aggregator}
use wsts.V1.Dealers.{Dealers}
use wsts.V1.Honest.{AreHonest, ids}
use wsts.V1.Party
use wsts.V1.Party.{Party}
use wsts.V1.Signer
use wsts.V1.Signer.{Signer, new_parties}
use wsts.V1.Signers.{map-append}

module _ ⦃c : Curve⦄ where
  -- The parties of the first signers come first.
  take-drop-parties :
      (j : ℕ) (signers : List Signer)
      → parties_of (take j signers) ++ parties_of (drop j signers) ≡ parties_of signers
  take-drop-parties zero signers = refl
  take-drop-parties (suc j) [] = refl
  take-drop-parties (suc j) (s ∷ signers) =
      append_assoc s.parties (parties_of (take j signers)) (parties_of (drop j signers))
      ∙ ap (λ ps. s.parties ++ ps) (take-drop-parties j signers)

  length-take_parties :
      (j k m : ℕ) (signers : List Signer)
      → map num_parties signers ≡ replicate k m
      → j ≤ k
      → length (parties_of (take j signers)) ≡ j * m
  length-take_parties zero k m signers h l = omega arith
  length-take_parties (suc j) zero m signers h l = absurd (omega (arith, l))
  length-take_parties (suc j) (suc k) m [] h l = absurd (cc h)
  length-take_parties (suc j) (suc k) m (s ∷ signers) h l =
      length-append s.parties (parties_of (take j signers))
      ∙ ap₂ (λ a b. a + b) mine (length-take_parties j k m signers others (omega (arith, l)))
      ∙ more j m
    where
      mine : length s.parties ≡ m
      mine = ground (arith, h)

      others : map num_parties signers ≡ replicate k m
      others = ground (arith, h)

      more : (j m : ℕ) → m + j * m ≡ suc j * m
      more j m = omega arith

  new_parties-ids : (is : List ℕ) (n t : ℕ) (rng : Rng) → ids (new_parties is n t rng).0 ≡ is
  unfolding new_parties Party.new
  new_parties-ids [] n t rng = refl
  new_parties-ids (i ∷ is) n t rng =
      ap (λ js. i ∷ js) (new_parties-ids is n t (Party.new i n t rng).1)

  new_signers-ids :
      (n t id : ℕ) (lists : List (List ℕ)) (rng : Rng)
      → ids (parties_of (new_signers n t id lists rng).0) ≡ flat_map (λ is. is) lists
  unfolding new_signers Signer.new
  new_signers-ids n t id [] rng = refl
  new_signers-ids n t id (is ∷ lists) rng =
      map-append _ (new_parties is n t rng).0 _
      ∙ ap₂ (λ xs ys. xs ++ ys) (new_parties-ids is n t rng)
          (new_signers-ids n t (suc id) lists (new_parties is n t rng).1)

  new_signers-sizes :
      (n t id : ℕ) (lists : List (List ℕ)) (rng : Rng)
      → map num_parties (new_signers n t id lists rng).0 ≡ map (λ is. length is) lists
  unfolding new_signers Signer.new
  new_signers-sizes n t id [] rng = refl
  new_signers-sizes n t id (is ∷ lists) rng =
      ap₂ (λ m ms. m ∷ ms)
        (sym (length-map (new_parties is n t rng).0 _) ∙ ap length (new_parties-ids is n t rng))
        (new_signers-sizes n t (suc id) lists (new_parties is n t rng).1)

  -- What the key generation of the run leaves.
  abbrev generated :
      List (List ℕ)
      → ℕ
      → ℕ
      → Rng
      → (List Signer × Rng) × Outcome (Map DkgError) (List PolyCommitment)
  generated lists n t rng = V1.dkg (new_signers n t 0 lists rng).0 (new_signers n t 0 lists rng).1

  -- The polynomials have `t` coefficients, as they do unless the highest of the random scalars are 0.
  abbrev pub Drawn : ℕ → List Party → Type 0
  Drawn t [] = Unit {0}
  Drawn t (p ∷ ps) = (length (c.coefficients p.f) ≡ t) × Drawn t ps

  Drawn-left : (t : ℕ) (xs ys : List Party) → Drawn t (xs ++ ys) → Drawn t xs
  Drawn-left t [] ys h = tt
  Drawn-left t (x ∷ xs) ys (a, h) = (a, Drawn-left t xs ys h)

  Drawn-right : (t : ℕ) (xs ys : List Party) → Drawn t (xs ++ ys) → Drawn t ys
  Drawn-right t [] ys h = h
  Drawn-right t (x ∷ xs) ys (a, h) = Drawn-right t xs ys h

  Dealers-append :
      (n t : ℕ) (xs ys : List Party) → Dealers n t xs → Dealers n t ys → Dealers n t (xs ++ ys)
  Dealers-append n t [] ys h k = k
  Dealers-append n t (x ∷ xs) ys (a, b, h) k = (a, b, Dealers-append n t xs ys h k)

  new_parties-Dealers :
      (is : List ℕ) (n t : ℕ) (rng : Rng)
      → Drawn t (new_parties is n t rng).0
      → Dealers n t (new_parties is n t rng).0
  unfolding new_parties Party.new
  new_parties-Dealers [] n t rng h = tt
  new_parties-Dealers (i ∷ is) n t rng (size, h) =
      (refl, size, new_parties-Dealers is n t (Party.new i n t rng).1 h)

  new_signers-Dealers :
      (n t id : ℕ) (lists : List (List ℕ)) (rng : Rng)
      → Drawn t (parties_of (new_signers n t id lists rng).0)
      → Dealers n t (parties_of (new_signers n t id lists rng).0)
  unfolding new_signers Signer.new
  new_signers-Dealers n t id [] rng h = tt
  new_signers-Dealers n t id (is ∷ lists) rng h =
      let (ps, rng') = new_parties is n t rng in
      let qs : List Party = parties_of (new_signers n t (suc id) lists rng').0 in
      Dealers-append n t ps qs (new_parties-Dealers is n t rng (Drawn-left t ps qs h))
        (new_signers-Dealers n t (suc id) lists rng' (Drawn-right t ps qs h))

  length-sizes : (signers : List Signer) → length (map num_parties signers) ≡ length signers
  length-sizes signers = length-map signers num_parties

  -- The signers of the run, for the ids that `gen_signer_ids` gives them.
  abbrev pub signers_for : ℕ → ℕ → List (List ℕ) → Rng → List Signer
  signers_for n t lists rng = (new_signers n t 0 lists rng).0

  -- The run, where each of its steps succeeds.
  run_v1-steps :
      (n t k : ℕ) (lists : List (List ℕ)) (rng : Rng) (comms : List PolyCommitment)
      (self : Aggregator) (signing : List Signer) (nonces : List PublicNonce)
      (shares : List SignatureShare) (sig : Signature)
      → gen_signer_ids n k ≡ some lists
      → (generated lists n t rng).1 ≡ ok comms
      → slice (num_signing k) (generated lists n t rng).0.0 ≡ some signing
      → Aggregator.init comms (Aggregator.new n t) ≡ (self, ok tt)
      → (V1.sign msg signing (generated lists n t rng).0.1).1 ≡ some (nonces, shares)
      → Aggregator.sign self msg nonces shares [] ≡ ok sig
      → divides n ≡ some tt
      → (result : Signature × Rng) × (run_v1 n t k rng ≡ some result)
  unfolding run_v1
  run_v1-steps n t k lists rng comms self signing nonces shares sig a b d e f g h = (
    (sig, (V1.sign msg signing (generated lists n t rng).0.1).0.1),
    rw (a, b, d, e, f, g, h) refl,
  )

  -- The run with the parties of v1 ends in a signature and no panic, for `n` keys, a threshold of
  -- `t` and `k` signers, all positive: where the signers divide the keys evenly, the numbers fit 32 bits, the ids
  -- of the keys are distinct scalars, the three quarters of the signers that sign have no fewer keys
  -- than the threshold, and the polynomials drawn have `t` coefficients.
  pub run_v1-signs :
      MultimultSucceeds
      → (n t k : ℕ) (lists : List (List ℕ)) (rng : Rng) → 0 < n
      → 0 < t
      → 0 < k
      → k * (n / k) ≡ n
      → k * 3 < 2 ^ 32
      → (t + 1) * n < 2 ^ 32
      → Distinct (range n)
      → t ≤ num_signing k * (n / k)
      → gen_signer_ids n k ≡ some lists
      → Drawn t (parties_of (signers_for n t lists rng))
      → (result : Signature × Rng) × (run_v1 n t k rng ≡ some result)
  unfolding run_v1 Aggregator.new
  run_v1-signs works n t k lists rng some_key positive some_signer even fits small distinct enough e
        drawn =
      let self : Aggregator = Aggregator.new n t in
      let signers : List Signer = signers_for n t lists rng in
      let rng' : Rng = (new_signers n t 0 lists rng).1 in
      let j : ℕ = num_signing k in
      let (lists', e', counted, flat, bound) = gen_signer_ids-range n k some_signer in
      let all : ids (parties_of signers) ≡ range n =
        new_signers-ids n t 0 lists rng
        ∙ ap (flat_map (λ is. is)) (some-inj (sym e ∙ e'))
        ∙ flat
        ∙ ap range even in
      let (comms, key, rest, accepted, inited, size, honest, same, sizes) =
        dkg-AreHonest works self signers rng' positive some_key small all
          (new_signers-Dealers n t 0 lists rng drawn) in
      let after : List Signer = (V1.dkg signers rng').0.0 in
      let sizes' : map num_parties after ≡ replicate k (n / k) =
        sizes ∙ new_signers-sizes n t 0 lists rng ∙ gen_signer_ids-sizes n k lists e in
      let many : length after ≡ k =
        sym (length-map after num_parties) ∙ ap length sizes' ∙ length-replicate k (n / k) in
      let quarters : j ≤ k = num_signing-le k fits in
      let signing : List Signer = take j after in
      let others : List Party = parties_of (drop j after) in
      let split : parties_of signing ++ others ≡ parties_of after = take-drop-parties j after in
      let (nonces, shares, signed, made) =
        sign-signers works (record self { poly = key ∷ rest }) msg signing (V1.dkg signers rng').0.1
          key rest refl
          (AreHonest-left (key ∷ rest) key (parties_of signing) others
            (subst (AreHonest (key ∷ rest) key) (sym split) honest))
          (Distinct-left (ids (parties_of signing)) (ids others) (
            subst Distinct
              (sym (sym (map-append (λ p. p.id) (parties_of signing) others) ∙ ap ids split ∙ same))
              distinct))
          (omega (arith, size, enough, length-take_parties j k (n / k) after sizes' quarters)) in
      run_v1-steps n t k lists rng comms (record self { poly = key ∷ rest }) signing nonces shares _
        e accepted (slice-take j after (omega (arith, many, quarters))) inited signed made
        (divides-pos n some_key)
