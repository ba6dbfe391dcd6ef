-- ===== src/Tests.antt =====
-- The theorems at concrete inputs, over the integers modulo 5.
pub mod Signing
pub mod Keys
pub mod SharedKeys
pub mod SharedSigning
pub mod Coordination
pub mod Channel
pub mod Main
pub mod Exchange
pub mod Conversation
pub mod Arrivals
pub mod Failures
pub mod Signers
pub mod KeyGeneration
pub mod SharedKeyGeneration
pub mod Signatures
