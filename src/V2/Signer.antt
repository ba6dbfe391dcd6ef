-- ===== src/V2/Signer.antt =====
-- src/v2.rs: the party as a signer of src/traits.rs.
use wsts.Prelude.{ℕ, Option, none, some, List, [], ◌∷◌, ◌>>=◌}
use wsts.Prelude.Maps.{Map, insert}
use wsts.Prelude.Outcome.{Outcome, ok, err, panic}
use wsts.Prelude.Run.{Run}
use wsts.Curve.{Curve, Scalar, Point, Rng, Bytes}
use wsts.Common.{PolyCommitment, PublicNonce, SignatureShare}
use wsts.Compute.{intermediate}
use wsts.Errors.{DkgError}
use wsts.V1.Signer.{key_shares}
use wsts.V2.Party
use wsts.V2.Party.{Party}
use wsts.V2.Secret.{compute_secret}

module _ ⦃c : Curve⦄ where
  unfoldable pub get_poly_commitments : Party → Rng → Option (List PolyCommitment × Rng)
  get_poly_commitments self rng = do
    made ← Party.get_poly_commitment self rng
    some (made.0 ∷ [], made.1)

  unfoldable pub get_shares : Party → Map (Map Scalar)
  get_shares self = (self.party_id, Party.get_shares self) ∷ []

  -- The shares for each of some keys, by their senders.
  unfoldable pub collect_shares :
      List ℕ → Map (Map Scalar) → Map (Map Scalar) → Option (Map (Map Scalar))
  collect_shares [] private_shares shares = some shares
  collect_shares (key_id ∷ key_ids) private_shares shares = do
    mine ← key_shares key_id private_shares []
    collect_shares key_ids private_shares (insert key_id mine shares)

  abbrev pub by_party : ℕ → Outcome DkgError (Unit {0}) → Outcome (Map DkgError) (Unit {0})
  by_party party_id (ok u) = ok u
  by_party party_id (err e) = err ((party_id, e) ∷ [])
  by_party party_id panic = panic

  abbrev with_keys :
      Party
      → List PolyCommitment
      → Option (Map (Map Scalar))
      → Party × Outcome (Map DkgError) (Unit {0})
  with_keys self polys none = (self, panic)
  with_keys self polys (some shares) =
      let r = compute_secret shares polys self in (r.0, by_party self.party_id r.1)

  unfoldable pub compute_secrets :
      Map (Map Scalar) → List PolyCommitment → Run Party (Map DkgError) (Unit {0})
  compute_secrets private_shares polys self =
      with_keys self polys (collect_shares self.key_ids private_shares [])

  unfoldable pub gen_nonces : Party → Rng → Party × List PublicNonce × Rng
  gen_nonces self rng =
      let (self', nonce, rng') = Party.gen_nonce self rng in (self', nonce ∷ [], rng')

  unfoldable pub compute_intermediate :
      Bytes → List ℕ → List ℕ → List PublicNonce → List Point × Point
  compute_intermediate msg signer_ids key_ids nonces = intermediate msg signer_ids nonces

  unfoldable pub sign :
      Party → Bytes → List ℕ → List ℕ → List PublicNonce → Option (List SignatureShare)
  sign self msg signer_ids key_ids nonces = do
    share ← Party.sign self msg signer_ids key_ids nonces
    some (share ∷ [])

  unfoldable pub sign_taproot :
      Party
      → Bytes
      → List ℕ
      → List ℕ
      → List PublicNonce
      → Option Bytes
      → Option (List SignatureShare)
  sign_taproot self msg signer_ids key_ids nonces merkle_root = do
    share ← Party.sign_taproot self msg signer_ids key_ids nonces merkle_root
    some (share ∷ [])
