-- ===== src/TestHelpers.antt =====
-- The helper functions that src/common.rs, src/taproot.rs, src/v1.rs and src/v2.rs publish as
-- `test_helpers`: whole rounds of key generation and of signing, without a coordinator.
pub mod Taproot
pub mod Ids
pub mod SigningRound
pub mod KeyGeneration
pub mod KeyRound
pub mod SharedKeyRound
pub mod SharedSigningRound
pub mod V1
pub mod V2
use wsts.Prelude.{ℕ, zero, suc, ◌+◌, ◌*◌, ◌/◌, Option, none, some, List, map, range}

-- `gen_signer_ids`; `None` where it divides by zero.
unfoldable pub gen_signer_ids : ℕ → ℕ → Option (List (List ℕ))
gen_signer_ids n zero = none
gen_signer_ids n (suc k) =
    let m = n / suc k in some (map (λ i. map (λ j. i * m + j) (range m)) (range (suc k)))
