-- ===== src/V2.antt =====
-- src/v2.rs: parties with one polynomial and one nonce, and a private key for each of their key ids.
pub mod Dkg
pub mod Party
pub mod Secret
pub mod Keys
pub mod Aggregator
pub mod Trait
pub mod Tally
pub mod Signing
pub mod Honest
pub mod Rounds
pub mod KeyRound
pub mod KeyGeneration
pub mod Lifecycle
pub mod Signer
pub mod Dealers
pub mod Accepts
