-- ===== src/Compute.antt =====
-- src/compute.rs: the values that signers and aggregators compute alike.
pub mod Lagrange
pub mod Interpolation
pub mod Poly
pub mod AggregateNonce
use mathlib.Core.List.{foldl}
use wsts.Prelude.{
  ℕ, zero, suc, ◌+◌, ◌%◌, ◌^◌, ◌==◌, if◌then◌else◌, Option, none, some, List, [], ◌∷◌, ◌++◌, map,
  zip, flat_map, length,
}
use wsts.Curve.{Curve, Scalar, Point, Bytes, G, ◌⊖◌, ◌⊗◌, ◌⊘◌, ◌⊞◌, ◌⊙◌}
use wsts.Common.{PublicNonce}
use wsts.Util.{as_bytes, hash_to_scalar}

module _ ⦃c : Curve⦄ where
  abbrev pub compress_nonce : PublicNonce → Bytes × Bytes
  compress_nonce n = (c.compress n.D, c.compress n.E)

  unfoldable pub binding_compressed : Scalar → List (Bytes × Bytes) → Bytes → Scalar
  binding_compressed id bs msg =
      hash_to_scalar
        (as_bytes "WSTS/binding" ++ c.to_bytes id ++ flat_map (λ b. b.0 ++ b.1) bs ++ msg)

  unfoldable pub binding : Scalar → List PublicNonce → Bytes → Scalar
  binding id bs msg = hash_to_scalar (
      as_bytes "WSTS/binding"
      ++ c.to_bytes id
      ++ flat_map (λ b. c.compress b.D ++ c.compress b.E) bs
      ++ msg)

  -- BIP340: the tag's digest twice.
  unfoldable pub tagged_hash : Bytes → Bytes
  tagged_hash tag = c.sha256 tag ++ c.sha256 tag

  unfoldable pub challenge : Point → Point → Bytes → Scalar
  challenge public_key r msg = hash_to_scalar (
      tagged_hash (as_bytes "BIP0340/challenge")
      ++ c.element_bytes (c.x r)
      ++ c.element_bytes (c.x public_key)
      ++ msg)

  -- `i + 1` wraps at the end of the range of `u32`.
  unfoldable pub id : ℕ → Scalar
  id i = c.of_u32 ((i + 1) % 2 ^ 32)

  lambda_loop : ℕ → Scalar → List ℕ → Scalar
  lambda_loop i acc [] = acc
  lambda_loop i acc (j ∷ js) =
      lambda_loop i (if i == j then acc else acc ⊗ (id j ⊘ (id j ⊖ id i))) js

  unfoldable pub lambda : ℕ → List ℕ → Scalar
  unfolding lambda_loop
  lambda i key_ids = lambda_loop i c.one key_ids

  -- The binding value of a party, applied to its public nonce.
  abbrev pub bound : PublicNonce × Scalar → Point
  bound (nonce, rho) = nonce.D ⊞ rho ⊙ nonce.E

  unfoldable pub intermediate : Bytes → List ℕ → List PublicNonce → List Point × Point
  intermediate msg party_ids nonces =
      let rhos = map (λ i. binding (id i) nonces msg) party_ids in
      let r_vec = map bound (zip nonces rhos) in (r_vec, foldl (λ r r_i. r ⊞ r_i) c.origin r_vec)

  unfoldable pub aggregate_nonce : Bytes → List ℕ → List PublicNonce → Option Point
  aggregate_nonce msg party_ids nonces =
      let compressed = map compress_nonce nonces in
      c.multimult
        (flat_map (λ i. c.of_u32 1 ∷ binding_compressed (id i) compressed msg ∷ []) party_ids)
        (flat_map (λ n. n.D ∷ n.E ∷ []) nonces)

  powers_loop : ℕ → Scalar → Scalar → List Scalar
  powers_loop zero x pow = []
  powers_loop (suc n) x pow = pow ∷ powers_loop n x (pow ⊗ x)

  -- `1, x, x ^ 2, …`, in all `n` of them.
  unfoldable pub powers : ℕ → Scalar → List Scalar
  unfolding powers_loop
  powers n x = powers_loop n x c.one

  unfoldable pub poly : Scalar → List Point → Option Point
  poly x f = c.multimult (powers (length f) x) f

  unfoldable pub tweak : Point → Option Bytes → Scalar
  tweak public_key merkle_root = hash_to_scalar (
      tagged_hash (as_bytes "TapTweak")
      ++ c.element_bytes (c.x public_key)
      ++ elim merkle_root [ none ↦ [] | some root ↦ root ])

  unfoldable pub tweaked_public_key : Point → Option Bytes → Point
  tweaked_public_key public_key merkle_root = public_key ⊞ tweak public_key merkle_root ⊙ G

  unfoldable pub merkle_root : Bytes → Bytes
  merkle_root leaf = c.sha256 (tagged_hash (as_bytes "TapLeaf") ++ leaf)
