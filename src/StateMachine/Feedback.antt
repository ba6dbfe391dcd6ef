-- ===== src/StateMachine/Feedback.antt =====
-- src/state_machine/mod.rs: how its tests carry the messages between the signers and the
-- coordinator. The state that a panic leaves behind is dropped, since it ends the test.
pub mod Ignored
pub mod NonceRound
pub mod ShareRound
pub mod NonceReply
pub mod NonceExchange
pub mod ShareReply
pub mod Conversation
use wsts.Prelude.{Option, none, some, List, [], ◌∷◌, ◌++◌, ◌>>=◌}
use wsts.Prelude.Outcome.{Outcome, ok, err, panic}
use wsts.Curve.{Curve}
use wsts.Channel.{Channel}
use wsts.Net.{Packet}
use wsts.Traits.{AggregatorTrait, SignerTrait}
use wsts.StateMachine.{OperationResult}
use wsts.StateMachine.Signer.{SigningRound}
use wsts.StateMachine.Signer.Process
use wsts.StateMachine.Coordinator.Frost.{Coordinator}
use wsts.StateMachine.Coordinator.Frost.Process as Frost

-- `unwrap` of a result.
abbrev pub unwrap : {E A : Type 0} → Outcome E A → Option A
unwrap (ok a) = some a
unwrap (err e) = none
unwrap panic = none

module _ ⦃c : Curve⦄ ⦃ch : Channel⦄ ⦃sgn : SignerTrait⦄ where
  -- Every signer processes the messages; their packets in the order of the signers.
  unfoldable pub process_each :
      List Packet → List SigningRound → Option (List SigningRound × List Packet)
  process_each messages [] = some ([], [])
  process_each messages (signing_round ∷ signing_rounds) = do
    let done = Process.process_inbound_messages messages signing_round
    outbound ← unwrap done.1
    others ← process_each messages signing_rounds
    some (done.0 ∷ others.0, outbound ++ others.1)

module _ ⦃c : Curve⦄ ⦃ch : Channel⦄ ⦃sgn : SignerTrait⦄ ⦃agg : AggregatorTrait⦄ where
  unfoldable pub feedback_messages :
      Coordinator
      → List SigningRound
      → List Packet
      → Option ((Coordinator × List SigningRound) × List Packet × List OperationResult)
  unfolding process_each
  feedback_messages coordinator signing_rounds messages = do
    answered ← process_each messages signing_rounds
    fed ← process_each answered.1 answered.0
    let done = Frost.process_inbound_messages (answered.1 ++ fed.1) coordinator
    reply ← unwrap done.1
    some ((done.0, fed.0), reply.0, reply.1)
