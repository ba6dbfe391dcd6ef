-- ===== src/Util.antt =====
-- src/util.rs: the digest as a scalar. A `Sha256` hasher is the list of the bytes fed to it so far:
-- `update` appends to it, and `finalize` is the digest of the whole.
pub mod Encryption
use Prim.Native.Char.{code}
use Prim.Native.String.{String}
use wsts.Prelude.{ℕ, ◌/◌, ◌%◌, ◌^◌, List, [], ◌∷◌, ◌++◌}
use wsts.Curve.{Curve, Scalar, Bytes}

-- `as_bytes` of a text in ASCII.
abbrev pub as_bytes : String → List ℕ
as_bytes String.[] = []
as_bytes (String.◌∷◌ c s) = code c ∷ as_bytes s

-- `u32::to_be_bytes` and `u64::to_be_bytes`.
abbrev pub be_bytes_32 : ℕ → List ℕ
be_bytes_32 n = (n / 2 ^ 24 % 256) ∷ (n / 2 ^ 16 % 256) ∷ (n / 2 ^ 8 % 256) ∷ (n % 256) ∷ []

abbrev pub be_bytes_64 : ℕ → List ℕ
be_bytes_64 n = be_bytes_32 (n / 2 ^ 32) ++ be_bytes_32 (n % 2 ^ 32)

module _ ⦃c : Curve⦄ where
  unfoldable pub hash_to_scalar : Bytes → Scalar
  hash_to_scalar hasher = c.of_bytes (c.sha256 hasher)
