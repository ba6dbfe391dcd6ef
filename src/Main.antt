-- ===== src/Main.antt =====
-- src/main.rs: the program that runs one round of key generation and signing with each version.
-- Printing and the clock are left out, but for the division of the time by a count.
pub mod Quarters
pub mod RunV1
pub mod RunV2
use wsts.Prelude.{
  ℕ, zero, suc, ◌+◌, ◌*◌, ◌/◌, ◌%◌, ◌^◌, Option, none, some, List, [], ◌∷◌, get_elem?, length, take,
  leb, if◌then◌else◌, ◌>>=◌,
}
use wsts.Prelude.Outcome.{Outcome, ok, err, panic}
use wsts.Curve.{Curve, Rng, Bytes}
use wsts.Common.{Signature}
use wsts.TestHelpers.{gen_signer_ids}
use wsts.TestHelpers.V1
use wsts.TestHelpers.V2
use wsts.Util.{as_bytes}
use wsts.V1.Aggregator
use wsts.V1.Signer
use wsts.V1.Signer.{Signer}
use wsts.V2.Aggregator as V2Aggregator
use wsts.V2.Party
use wsts.V2.Party.{Party}

-- `expect` of a result.
abbrev pub expect : {E A : Type 0} → Outcome E A → Option A
expect (ok a) = some a
expect (err e) = none
expect panic = none

-- `xs[..n]`
abbrev pub slice : {A : Type 0} → ℕ → List A → Option (List A)
slice n xs = if leb n (length xs) then some (take n xs) else none

-- A division by a count panics where it is 0.
abbrev pub divides : ℕ → Option (Unit {0})
divides zero = none
divides (suc n) = some tt

-- `K * 3 / 4` of the `K` signers take part in signing.
abbrev pub num_signing : ℕ → ℕ
num_signing k = k * 3 % 2 ^ 32 / 4

abbrev pub msg : List ℕ
msg = as_bytes "It was many and many a year ago"

module _ ⦃c : Curve⦄ where
  unfoldable pub new_signers : ℕ → ℕ → ℕ → List (List ℕ) → Rng → List Signer × Rng
  new_signers n t id [] rng = ([], rng)
  new_signers n t id (ids ∷ signer_ids) rng =
      let (signer, rng') = Signer.new id ids n t rng in
      let (signers, rng'') = new_signers n t (suc id) signer_ids rng' in (signer ∷ signers, rng'')

  unfoldable pub run_v1 : ℕ → ℕ → ℕ → Rng → Option (Signature × Rng)
  run_v1 n t k rng = do
    signer_ids ← gen_signer_ids n k
    let made = new_signers n t 0 signer_ids rng
    let generated = V1.dkg made.0 made.1
    comms ← expect generated.1
    signers ← slice (num_signing k) generated.0.0
    let aggregator = Aggregator.init comms (Aggregator.new n t)
    inited ← expect aggregator.1
    let signed = V1.sign msg signers generated.0.1
    shares ← signed.1
    sig ← expect (Aggregator.sign aggregator.0 msg shares.0 shares.1 [])
    divided ← divides n
    some (sig, signed.0.1)

  unfoldable pub new_parties : ℕ → ℕ → ℕ → ℕ → List (List ℕ) → Rng → List Party × Rng
  new_parties n t k id [] rng = ([], rng)
  new_parties n t k id (ids ∷ signer_ids) rng =
      let (party, rng') = Party.new id ids k n t rng in
      let (parties, rng'') = new_parties n t k (suc id) signer_ids rng' in (party ∷ parties, rng'')

  unfoldable pub run_v2 : ℕ → ℕ → ℕ → Rng → Option (Signature × Rng)
  run_v2 n t k rng = do
    signer_ids ← gen_signer_ids n k
    let made = new_parties n t k 0 signer_ids rng
    let generated = V2.dkg made.0 made.1
    comms ← expect generated.1
    signers ← slice (num_signing k) generated.0.0
    let aggregator = V2Aggregator.init comms (V2Aggregator.new n t)
    inited ← expect aggregator.1
    let signed = V2.sign msg signers generated.0.1
    shares ← signed.1
    sig ← expect (V2Aggregator.sign aggregator.0 msg shares.0 shares.1 shares.2)
    divided ← divides k
    some (sig, signed.0.1)

  -- An argument by its number, or what stands for it if there are too few.
  abbrev pub argument : (Bytes → Option ℕ) → List Bytes → ℕ → ℕ → Option ℕ
  argument parse args i default = elim (get_elem? args i) [ none ↦ some default | some a ↦ parse a ]

  -- The signatures of both runs. `parse` is that of the standard library, for a `u32`.
  unfoldable pub main : (Bytes → Option ℕ) → List Bytes → Rng → Option (Signature × Signature)
  main parse args rng = do
    n ← argument parse args 1 20
    t ← argument parse args 2 (n * 2 % 2 ^ 32 / 3)
    k ← argument parse args 3 4
    v1 ← run_v1 n t k rng
    v2 ← run_v2 n t k v1.1
    some (v1.0, v2.0)
