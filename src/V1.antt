-- ===== src/V1.antt =====
-- src/v1.rs: FROST parties with one key each, and the signers that hold several of them.
pub mod Dkg
pub mod Party
pub mod Aggregator
pub mod Tally
pub mod Response
pub mod Signing
pub mod Keys
pub mod Honest
pub mod Rounds
pub mod Trait
pub mod Signer
pub mod Signers
pub mod Batch
pub mod BatchSum
pub mod GroupKey
pub mod KeyRound
pub mod KeyGeneration
pub mod Lifecycle
pub mod SavedSigner
pub mod Completeness
pub mod Dealt
pub mod HonestRound
pub mod Dealers
pub mod DealersKeys
