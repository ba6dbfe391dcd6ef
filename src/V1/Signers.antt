-- ===== src/V1/Signers.antt =====
-- src/v1.rs: signers, as the parties that they bundle.
use wsts.Prelude.{ℕ, ◌≡◌, refl, sym, ap, some, List, [], ◌∷◌, ◌++◌, map, length}
use mathlib.Core.Path.{ap₂}
use wsts.Curve.{Curve, Point, Rng, Bytes, MultimultSucceeds}
use wsts.Common.{PublicNonce}
use wsts.Compute.{intermediate}
use wsts.Compute.AggregateNonce.{aggregate_nonce-intermediate}
use wsts.V1.Party
use wsts.V1.Party.{Party, gen_nonce, sign_precomputed}
use wsts.V1.Signer.{Signer, gen_all, sign}
use wsts.V1.Honest.{AreHonest, ids, public_nonces, sign-precomputed}

pub map-append :
    {A B : Type 0} (f : A → B) (xs ys : List A) → map f (xs ++ ys) ≡ map f xs ++ map f ys
map-append f [] ys = refl
map-append f (x ∷ xs) ys = ap (λ zs. f x ∷ zs) (map-append f xs ys)

module _ ⦃c : Curve⦄ where
  -- The nonces that a signer gives out are those that its parties then hold.
  pub gen_all-nonces :
      (parties : List Party) (rng : Rng)
      → (gen_all parties rng).1 ≡ public_nonces (gen_all parties rng).0
  unfolding gen_all gen_nonce
  gen_all-nonces [] rng = refl
  gen_all-nonces (p ∷ parties) rng =
      ap (λ ns. (gen_nonce p rng).1 ∷ ns) (gen_all-nonces parties (gen_nonce p rng).2)

  pub gen_all-ids : (parties : List Party) (rng : Rng) → ids (gen_all parties rng).0 ≡ ids parties
  unfolding gen_all gen_nonce
  gen_all-ids [] rng = refl
  gen_all-ids (p ∷ parties) rng = ap (λ is. p.id ∷ is) (gen_all-ids parties (gen_nonce p rng).2)

  pub gen_all-AreHonest :
      (group : List Point) (key : Point) (parties : List Party) (rng : Rng)
      → AreHonest group key parties
      → AreHonest group key (gen_all parties rng).0
  unfolding gen_all gen_nonce
  gen_all-AreHonest group key [] rng h = tt
  gen_all-AreHonest group key (p ∷ parties) rng (a, b, h) =
      (a, b, gen_all-AreHonest group key parties (gen_nonce p rng).2 h)

  map-precomputed :
      (msg : Bytes) (signers : List ℕ) (nonces : List PublicNonce) (parties : List Party)
      → map (λ p. sign_precomputed p msg signers nonces (intermediate msg signers nonces).1) parties
        ≡ map (λ p. Party.sign p msg signers nonces) parties
  map-precomputed msg signers nonces [] = refl
  map-precomputed msg signers nonces (p ∷ parties) =
      ap₂ (λ x xs. x ∷ xs) (sym (sign-precomputed p msg signers nonces))
        (map-precomputed msg signers nonces parties)

  -- Where the multiplication of many points does not fail and there is a nonce for each key id: a
  -- signer does not panic, and its shares are those that its parties sign one by one.
  pub sign-parties :
      MultimultSucceeds
      → (self : Signer) (msg : Bytes) (signer_ids key_ids : List ℕ) (nonces : List PublicNonce)
      → length nonces ≡ length key_ids
      → sign self msg signer_ids key_ids nonces
        ≡ some (map (λ p. Party.sign p msg key_ids nonces) self.parties)
  unfolding sign
  sign-parties works self msg signer_ids key_ids nonces h =
      rw (aggregate_nonce-intermediate works msg key_ids nonces h)
        (ap some (map-precomputed msg key_ids nonces self.parties))
