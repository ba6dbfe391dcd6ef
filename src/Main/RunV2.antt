-- ===== src/Main/RunV2.antt =====
-- src/main.rs: the run with the parties of src/v2.rs, and the whole program.
use wsts.Prelude.{
  ℕ, zero, suc, ◌+◌, ◌*◌, ◌/◌, ◌%◌, ◌^◌, ◌≤◌, ◌<◌, ◌≡◌, refl, sym, ap, ◌∙◌, some, List, [], ◌∷◌,
  ◌++◌, Option, map, flat_map, range, range_from, length, length-map, length-append, take, drop,
  replicate, some-inj, arith,
}
use mathlib.Core.List.{append_assoc}
use mathlib.Core.Path.{ap₂, subst}
use wsts.Prelude.Maps.{Map}
use wsts.Prelude.Outcome.{Outcome, ok}
use wsts.Curve.{Curve, Point, Rng, Bytes, MultimultSucceeds}
use wsts.Common.{PolyCommitment, PublicNonce, Signature, SignatureShare}
use wsts.Compute.Lagrange.{Distinct}
use wsts.Errors.{DkgError}
use wsts.Main.{argument, run_v1, run_v2, main, new_parties, num_signing, slice, divides, msg}
use wsts.Main.RunV1
use wsts.Main.RunV1.{signers_for, run_v1-signs}
use wsts.Main.Quarters.{Distinct-left, num_signing-le, slice-take, divides-pos, length-replicate}
use wsts.TestHelpers.{gen_signer_ids}
use wsts.TestHelpers.Ids.{gen_signer_ids-range, gen_signer_ids-sizes}
use wsts.TestHelpers.SharedKeyRound.{num_keys_of, dkg-AreKeyed}
use wsts.TestHelpers.SharedSigningRound.{sign-keyed_parties}
use wsts.TestHelpers.SigningRound.{parties_of}
use wsts.TestHelpers.V2
use wsts.V2.Aggregator
use wsts.V2.Aggregator.{Aggregator}
use wsts.V2.Dealers.{Dealers}
use wsts.V2.Party
use wsts.V2.Party.{Party}
use wsts.V2.Rounds.{AreKeyed, party_ids_of, keys_of}

module _ ⦃c : Curve⦄ where
  take-drop-keys :
      (j : ℕ) (ps : List Party) → keys_of (take j ps) ++ keys_of (drop j ps) ≡ keys_of ps
  take-drop-keys zero ps = refl
  take-drop-keys (suc j) [] = refl
  take-drop-keys (suc j) (p ∷ ps) =
      append_assoc p.key_ids (keys_of (take j ps)) (keys_of (drop j ps))
      ∙ ap (λ ks. p.key_ids ++ ks) (take-drop-keys j ps)

  take-AreKeyed :
      (group : List Point) (key : Point) (j : ℕ) (ps : List Party)
      → AreKeyed group key ps
      → AreKeyed group key (take j ps)
  take-AreKeyed group key zero ps h = tt
  take-AreKeyed group key (suc j) [] h = tt
  take-AreKeyed group key (suc j) (p ∷ ps) (a, b, h) = (a, b, take-AreKeyed group key j ps h)

  length-take_keys :
      (j k m : ℕ) (ps : List Party)
      → map num_keys_of ps ≡ replicate k m
      → j ≤ k
      → length (keys_of (take j ps)) ≡ j * m
  length-take_keys zero k m ps h l = omega arith
  length-take_keys (suc j) zero m ps h l = absurd (omega (arith, l))
  length-take_keys (suc j) (suc k) m [] h l = absurd (cc h)
  length-take_keys (suc j) (suc k) m (p ∷ ps) h l =
      length-append p.key_ids (keys_of (take j ps))
      ∙ ap₂ (λ a b. a + b) mine (length-take_keys j k m ps others (omega (arith, l)))
      ∙ more j m
    where
      mine : length p.key_ids ≡ m
      mine = ground (arith, h)

      others : map num_keys_of ps ≡ replicate k m
      others = ground (arith, h)

      more : (j m : ℕ) → m + j * m ≡ suc j * m
      more j m = omega arith

  module _ (n t k : ℕ) where
    new_parties-party_ids :
        (id : ℕ) (lists : List (List ℕ)) (rng : Rng)
        → party_ids_of (new_parties n t k id lists rng).0 ≡ range_from id (length lists)
    unfolding new_parties Party.new
    new_parties-party_ids id [] rng = refl
    new_parties-party_ids id (is ∷ lists) rng =
        ap (λ js. id ∷ js) (new_parties-party_ids (suc id) lists (Party.new id is k n t rng).1)

    new_parties-keys :
        (id : ℕ) (lists : List (List ℕ)) (rng : Rng)
        → keys_of (new_parties n t k id lists rng).0 ≡ flat_map (λ is. is) lists
    unfolding new_parties Party.new
    new_parties-keys id [] rng = refl
    new_parties-keys id (is ∷ lists) rng =
        ap (λ js. is ++ js) (new_parties-keys (suc id) lists (Party.new id is k n t rng).1)

    new_parties-sizes :
        (id : ℕ) (lists : List (List ℕ)) (rng : Rng)
        → map num_keys_of (new_parties n t k id lists rng).0 ≡ map (λ is. length is) lists
    unfolding new_parties Party.new
    new_parties-sizes id [] rng = refl
    new_parties-sizes id (is ∷ lists) rng =
        ap (λ ms. length is ∷ ms) (new_parties-sizes (suc id) lists (Party.new id is k n t rng).1)

  -- The polynomials have `t` coefficients, as they do unless the highest of the random scalars are 0.
  abbrev pub Drawn : ℕ → List Party → Type 0
  Drawn t [] = Unit {0}
  Drawn t (p ∷ ps) = (length (c.coefficients p.f) ≡ t) × Drawn t ps

  new_parties-Dealers :
      (n t k id : ℕ) (lists : List (List ℕ)) (rng : Rng)
      → Drawn t (new_parties n t k id lists rng).0
      → Dealers n k t (new_parties n t k id lists rng).0
  unfolding new_parties Party.new
  new_parties-Dealers n t k id [] rng h = tt
  new_parties-Dealers n t k id (is ∷ lists) rng (size, h) = (
    refl,
    refl,
    size,
    refl,
    new_parties-Dealers n t k (suc id) lists (Party.new id is k n t rng).1 h,
  )

  -- What the key generation of the run leaves.
  abbrev generated :
      List (List ℕ)
      → ℕ
      → ℕ
      → ℕ
      → Rng
      → (List Party × Rng) × Outcome (Map DkgError) (List PolyCommitment)
  generated lists n t k rng =
      V2.dkg (new_parties n t k 0 lists rng).0 (new_parties n t k 0 lists rng).1

  -- The run, where each of its steps succeeds.
  run_v2-steps :
      (n t k : ℕ) (lists : List (List ℕ)) (rng : Rng) (comms : List PolyCommitment)
      (self : Aggregator) (signing : List Party) (nonces : List PublicNonce)
      (shares : List SignatureShare) (key_ids : List ℕ) (sig : Signature)
      → gen_signer_ids n k ≡ some lists
      → (generated lists n t k rng).1 ≡ ok comms
      → slice (num_signing k) (generated lists n t k rng).0.0 ≡ some signing
      → Aggregator.init comms (Aggregator.new n t) ≡ (self, ok tt)
      → (V2.sign msg signing (generated lists n t k rng).0.1).1 ≡ some (nonces, shares, key_ids)
      → Aggregator.sign self msg nonces shares key_ids ≡ ok sig
      → divides k ≡ some tt
      → (result : Signature × Rng) × (run_v2 n t k rng ≡ some result)
  unfolding run_v2
  run_v2-steps n t k lists rng comms self signing nonces shares key_ids sig a b d e f g h = (
    (sig, (V2.sign msg signing (generated lists n t k rng).0.1).0.1),
    rw (a, b, d, e, f, g, h) refl,
  )

  -- The run with the parties of v2 ends in a signature and no panic, for `n` keys, a threshold of
  -- `t` and `k` signers, these two positive: where the signers divide the keys evenly, three times
  -- their number fits 32 bits, the ids of the keys are distinct scalars, the three quarters of the
  -- signers that sign have no fewer keys than the threshold, and the polynomials drawn have `t`
  -- coefficients.
  pub run_v2-signs :
      MultimultSucceeds
      → (n t k : ℕ) (lists : List (List ℕ)) (rng : Rng) → 0 < t
      → 0 < k
      → k * (n / k) ≡ n
      → k * 3 < 2 ^ 32
      → Distinct (range n)
      → t ≤ num_signing k * (n / k)
      → gen_signer_ids n k ≡ some lists
      → Drawn t (new_parties n t k 0 lists rng).0
      → (result : Signature × Rng) × (run_v2 n t k rng ≡ some result)
  unfolding Aggregator.new
  run_v2-signs works n t k lists rng positive some_signer even fits distinct enough e drawn =
      let self : Aggregator = Aggregator.new n t in
      let ps : List Party = (new_parties n t k 0 lists rng).0 in
      let rng' : Rng = (new_parties n t k 0 lists rng).1 in
      let j : ℕ = num_signing k in
      let (lists', e', counted, flat, bound) = gen_signer_ids-range n k some_signer in
      let same_lists : lists ≡ lists' = some-inj (sym e ∙ e') in
      let named : party_ids_of ps ≡ range k =
        new_parties-party_ids n t k 0 lists rng ∙ ap range (ap length same_lists ∙ counted) in
      let all : keys_of ps ≡ range n =
        new_parties-keys n t k 0 lists rng
        ∙ ap (flat_map (λ is. is)) same_lists
        ∙ flat
        ∙ ap range even in
      let (comms, key, rest, accepted, inited, size, keyed, same, sizes) =
        dkg-AreKeyed works self ps rng' k positive named all
          (new_parties-Dealers n t k 0 lists rng drawn) in
      let after : List Party = (V2.dkg ps rng').0.0 in
      let sizes' : map num_keys_of after ≡ replicate k (n / k) =
        sizes ∙ new_parties-sizes n t k 0 lists rng ∙ gen_signer_ids-sizes n k lists e in
      let many : length after ≡ k =
        sym (length-map after num_keys_of) ∙ ap length sizes' ∙ length-replicate k (n / k) in
      let quarters : j ≤ k = num_signing-le k fits in
      let signing : List Party = take j after in
      let (nonces, shares, signed, made) =
        sign-keyed_parties works (record self { poly = key ∷ rest }) msg signing
          (V2.dkg ps rng').0.1 key rest refl (take-AreKeyed (key ∷ rest) key j after keyed)
          (Distinct-left (keys_of signing) (keys_of (drop j after))
            (subst Distinct (sym (take-drop-keys j after ∙ same)) distinct))
          (omega (arith, size, enough, length-take_keys j k (n / k) after sizes' quarters)) in
      run_v2-steps n t k lists rng comms (record self { poly = key ∷ rest }) signing nonces shares
        (keys_of signing) _ e accepted (slice-take j after (omega (arith, many, quarters))) inited
        signed made (divides-pos k some_signer)

  -- The program ends with a signature of each version, for arguments that stand for `n` keys, a
  -- threshold of `t` and `k` signers, all positive: where the signers divide the keys evenly, the numbers
  -- fit 32 bits, the ids of the keys are distinct scalars, the three quarters of the signers that sign
  -- have no fewer keys than the threshold, and the polynomials drawn in each run have `t`
  -- coefficients.
  pub main-signs :
      MultimultSucceeds
      → (parse : Bytes → Option ℕ) (args : List Bytes) (n t k : ℕ) (lists : List (List ℕ))
        (rng : Rng)
      → argument parse args 1 20 ≡ some n
      → argument parse args 2 (n * 2 % 2 ^ 32 / 3) ≡ some t
      → argument parse args 3 4 ≡ some k
      → 0 < n
      → 0 < t
      → 0 < k
      → k * (n / k) ≡ n
      → k * 3 < 2 ^ 32
      → (t + 1) * n < 2 ^ 32
      → Distinct (range n)
      → t ≤ num_signing k * (n / k)
      → gen_signer_ids n k ≡ some lists
      → RunV1.Drawn t (parties_of (signers_for n t lists rng))
      → ((sig : Signature) (rng' : Rng)
          → run_v1 n t k rng ≡ some (sig, rng')
          → Drawn t (new_parties n t k 0 lists rng').0)
      → (signatures : Signature × Signature) × (main parse args rng ≡ some signatures)
  unfolding main
  main-signs works parse args n t k lists rng a b d some_key positive some_signer even fits small
        distinct enough e drawn drawn' =
      let ((sig, rng'), first) =
        run_v1-signs works n t k lists rng some_key positive some_signer even fits small distinct
          enough e drawn in
      let (second, last) =
        run_v2-signs works n t k lists rng' positive some_signer even fits distinct enough e
          (drawn' sig rng' first) in
      ((sig, second.0), rw (a, b, d, first, last) refl)
