-- ===== src/Lib.antt =====
-- Weighted threshold Schnorr signatures. Parties generate a group key together, each with a random
-- polynomial: they publish commitments to it, send its values to each other, and sum what they
-- receive (v1: one key for each party, v2: several keys for each party). To sign, they publish
-- nonces, each party computes a share from its keys and all the nonces, and an aggregator checks the
-- shares and sums them to a Schnorr signature, or, with a tweaked key, to a BIP-340 proof. The
-- coordinator drives these rounds by messages.
--
-- Which file models which part:
-- Curve: what the code takes from p256k1, polynomial, sha2 and rand_core, as an interface with the
--   documented laws: the scalars are a field and the points a module over them. Curve/Algebra has
--   the consequences. Curve/Five is a concrete instance on which everything runs.
-- Prelude: results that may be errors or panics (Outcome), methods that change a state (Run), maps
--   and lists.
-- Common, Schnorr, Taproot, Compute, Vss, Util, Errors, Traits: the files of the same name in
--   src/. Common/CheckPrivateShares is the batch of src/common.rs. Compute/Lagrange and
--   Compute/Interpolation are about the weights of `compute::lambda`, Compute/Poly about
--   `compute::poly` and `compute::intermediate`, Compute/AggregateNonce about
--   `compute::aggregate_nonce`.
-- V1: src/v1.rs. V1/Party has the state and the methods of `Party`, V1/Dkg the loops of
--   `compute_secret`, V1/Aggregator the `Aggregator`; V1/Tally, V1/Response and V1/Signing its
--   proofs, V1/Honest and V1/Rounds the proofs on parties and whole rounds, V1/Keys those on keys.
--   V1/Signer is `Signer`, V1/Signers what it has to do with its parties. V1/Batch and V1/BatchSum
--   are about the batch check of the shares, V1/GroupKey about `init`; V1/Dealt, V1/Completeness,
--   V1/HonestRound, V1/Dealers and V1/DealersKeys about key generation where all follow the protocol, V1/KeyRound, V1/KeyGeneration
--   and V1/Lifecycle about key generation and what is signed with its keys, whoever made the shares;
--   V1/SavedSigner about what `Signer::save` keeps.
-- V2: src/v2.rs, in the same way. V2/Secret is `compute_secret`, V2/Signer the trait `Signer`;
--   V2/Rounds, V2/KeyRound, V2/KeyGeneration and V2/Lifecycle are about signing and key generation,
--   V2/Dealers and V2/Accepts about key generation where all follow the protocol.
-- Channel: what the code takes from aes-gcm and from the ecdsa and the conversions of p256k1, as an
--   interface like Curve. Util/Encryption is the rest of src/util.rs, over it.
-- TestHelpers: the modules `test_helpers` of src/common.rs, src/taproot.rs, src/v1.rs and src/v2.rs.
--   TestHelpers/Ids, TestHelpers/KeyGeneration, TestHelpers/KeyRound, TestHelpers/SigningRound and, for
--   v2, TestHelpers/SharedKeyRound and TestHelpers/SharedSigningRound are about what they do.
-- Main: src/main.rs, a run with each version. Main/RunV1 and Main/RunV2 are about the two runs,
--   Main/Quarters about the signers that sign.
-- Net: the messages of src/net.rs and the bytes that their signatures cover; Net/Signatures is about
--   what a signature verifies for.
-- StateMachine/Coordinator: src/state_machine/coordinator/. Frost has the state, Frost/Dkg,
--   Frost/Signing and Frost/Process the handlers and the loops of frost.rs under their names.
-- StateMachine/Signer: src/state_machine/signer/. Signer/Dkg, Signer/Signing and Signer/Process have
--   the handlers under their names, Signer/Cycle the step relation of the states,
--   Signer/Moves and Signer/Traces what follows it, Signer/Sharing the
--   way of a private share, Signer/Failures messages that it does not survive or refuses halfway.
--   StateMachine/Feedback is `feedback_messages` of the tests in src/state_machine/mod.rs, its child
--   modules the rounds of a signing that it carries; Frost/Batch, Frost/BatchNonces,
--   Frost/BatchRequest, Frost/BatchShares and Frost/BatchResult are the coordinator's side of them,
--   Frost/NonceArrivals and Frost/NonceEnd where nonces arrive in whatever order.
-- Tests: the theorems at concrete inputs.
--
-- Conventions. An index out of range, a missing key and a failed `unwrap` or `expect` are `panic`
-- (or `none`, where nothing else can fail). A method that takes `&mut self` is a function from a
-- state to a state and an outcome, so that what an error leaves behind is visible. `u32` and `u64`
-- are natural numbers, and sums that may leave their range are reduced where they are computed. A
-- hash map is a list of entries in the order in which it is iterated. A hasher is the list of the
-- bytes that it was fed. That `multimult` succeeds on lists of one length is a named hypothesis.
--
-- Bounds. The loop of `process_message` runs on two turns, which Frost/Progress is about. The other
-- loops are recursion on their list or counter. The capacity of the vector that
-- `Aggregator::init` fills is taken to be the threshold that it is asked for.
--
-- Randomness. A function that draws random numbers takes the source and returns it; where a signer's
-- state machine calls the system's source, it is a field of its state, as no caller passes it.
--
-- Not modelled: log output and `Display`, the text of a failed key generation, the unit tests but for
-- their helpers, the benchmarks, and the clock and the printing of main.rs.
pub mod Prelude
pub mod Curve
pub mod Util
pub mod Schnorr
pub mod Common
pub mod Compute
pub mod Vss
pub mod Taproot
pub mod TestHelpers
pub mod Main
pub mod Errors
pub mod Channel
pub mod V1
pub mod Net
pub mod Traits
pub mod StateMachine
pub mod V2
pub mod Tests
