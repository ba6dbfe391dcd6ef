-- ===== src/Common.antt =====
-- src/common.rs: the data of the protocol.
pub mod Verify
pub mod Equation
pub mod CheckPrivateShares
use wsts.Prelude.{ℕ, Bool, true, false, ite, List, Option, get_elem?, ◌>>=◌, some}
use wsts.Curve.{Curve, Scalar, Point, Rng, G, ◌⊕◌, ◌⊙◌}
use wsts.Schnorr.{SchnorrId}
use wsts.Schnorr

module _ ⦃c : Curve⦄ where
  pub record PolyCommitment : Type 0 where
    pub id : SchnorrId
    pub poly : List Point

  -- `None` where `poly[0]` is out of range.
  unfoldable pub verify : PolyCommitment → Option Bool
  verify comm = do first ← get_elem? comm.poly 0; some (Schnorr.verify comm.id first)

  pub record Nonce : Type 0 where
    pub d : Scalar
    pub e : Scalar

  unfoldable pub random : Rng → Nonce × Rng
  random rng =
      let (d, rng') = c.random rng in
      let (e, rng'') = c.random rng' in (record { d = d; e = e }, rng'')

  abbrev pub zero : Nonce
  zero = record { d = c.zero; e = c.zero }

  unfoldable pub is_zero : Nonce → Bool
  is_zero n =
      ite (c.scalar_discrete n.d c.zero) (ite (c.scalar_discrete n.e c.zero) true false) false

  unfoldable pub add : Nonce → Nonce → Nonce
  add n other = record { d = n.d ⊕ other.d; e = n.e ⊕ other.e }

  pub record PublicNonce : Type 0 where
    pub D : Point
    pub E : Point

  unfoldable pub from : Nonce → PublicNonce
  from n = record { D = n.d ⊙ G; E = n.e ⊙ G }

  pub record SignatureShare : Type 0 where
    pub id : ℕ
    pub z_i : Scalar
    pub key_ids : List ℕ

  pub record Signature : Type 0 where
    pub R : Point
    pub z : Scalar
