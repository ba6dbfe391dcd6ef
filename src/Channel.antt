-- ===== src/Channel.antt =====
-- What the signers take from aes-gcm, from the ecdsa of p256k1, and from the conversions of its
-- scalars, with the documented laws: `decrypt` undoes `encrypt`, a buffer keeps its length when it is
-- filled, a scalar is read back from its bytes, and a signature verifies under the public key.
use wsts.Prelude.{ℕ, Bool, true, ◌≡◌, Option, some, length}
use wsts.Curve.{Curve, Scalar, Point, Rng, Bytes}

module _ ⦃c : Curve⦄ where
  pub record Channel : Type 1 where
    -- p256k1::ecdsa::PublicKey, and the point that its bytes compress.
    pub PublicKey : Type 0
    pub to_point : PublicKey → Option Point
    pub public_key : Scalar → Option PublicKey
    -- p256k1::ecdsa::Signature, and its test of a digest.
    pub EcdsaSignature : Type 0
    pub ecdsa_signature : Bytes → Option EcdsaSignature
    pub ecdsa_verify : EcdsaSignature → Bytes → PublicKey → Bool
    -- p256k1::scalar::Scalar.
    pub get_u32 : Scalar → ℕ
    pub scalar_of_slice : Bytes → Option Scalar
    -- rand_core::RngCore.
    pub fill_bytes : ℕ → Rng → Bytes × Rng
    -- aes_gcm::Aes256Gcm: the key, the nonce and the data.
    pub aes_encrypt : Bytes → Bytes → Bytes → Option Bytes
    pub aes_decrypt : Bytes → Bytes → Bytes → Option Bytes
    pub scalar_of_slice-to_bytes : (s : Scalar) → scalar_of_slice (c.to_bytes s) ≡ some s
    pub ecdsa_verify-ecdsa_sign :
        (digest : Bytes) (key : Scalar) (pub_key : PublicKey) {bytes : Bytes}
        → c.ecdsa_sign digest key ≡ some bytes
        → public_key key ≡ some pub_key
        → (sig : EcdsaSignature) × (ecdsa_signature bytes ≡ some sig)
          × (ecdsa_verify sig digest pub_key ≡ true)
    pub length-fill_bytes : (n : ℕ) (rng : Rng) → length (fill_bytes n rng).0 ≡ n
    pub aes_decrypt-aes_encrypt :
        (key nonce plain : Bytes) {cipher : Bytes}
        → aes_encrypt key nonce plain ≡ some cipher
        → aes_decrypt key nonce cipher ≡ some plain
