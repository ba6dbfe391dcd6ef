-- ===== src/StateMachine/Signer/Process.antt =====
-- src/state_machine/signer/mod.rs: one message, and a list of packets.
use wsts.Prelude.{List, [], ◌∷◌, ◌++◌, if◌then◌else◌}
use wsts.Prelude.Outcome.{value}
use wsts.Prelude.Run.{Run, ◌>>=◌, ◌>>◌, get, lift, pure}
use wsts.Curve.{Curve, Scalar}
use wsts.Channel.{Channel}
use wsts.Net
use wsts.Net.{Message, Packet}
use wsts.Traits.{SignerTrait}
use wsts.StateMachine.Signer.{idle, dkg_private_distribute, Error, SigningRound, move_to}
use wsts.StateMachine.Signer.Dkg.{
  dkg_begin, dkg_private_begin, dkg_public_share, dkg_private_shares, dkg_ended, public_shares_done,
  can_dkg_end,
}
use wsts.StateMachine.Signer.Signing.{nonce_request, sign_share_request}

module _ ⦃c : Curve⦄ ⦃ch : Channel⦄ ⦃sgn : SignerTrait⦄ where
  -- The handler of a message.
  unfoldable pub handle : Message → Run SigningRound Error (List Message)
  handle (Net.dkg_begin m) = dkg_begin m
  handle (Net.dkg_private_begin m) = dkg_private_begin
  handle (Net.dkg_public_shares m) = dkg_public_share m
  handle (Net.dkg_private_shares m) = dkg_private_shares m
  handle (Net.signature_share_request m) = sign_share_request m
  handle (Net.nonce_request m) = nonce_request m
  handle (Net.dkg_end m) = pure []
  handle (Net.nonce_response m) = pure []
  handle (Net.signature_share_response m) = pure []

  -- What follows a handler that succeeds.
  unfoldable pub advance : List Message → Run SigningRound Error (List Message)
  unfolding move_to
  advance out = do
    self ← get
    if public_shares_done self
        then (do move_to dkg_private_distribute; pure out)
        else if can_dkg_end self
        then (do ended ← dkg_ended; move_to idle; pure (out ++ ended ∷ []))
        else pure out

  unfoldable pub process : Message → Run SigningRound Error (List Message)
  process message = do out ← handle message; advance out

  -- The outgoing messages, each with its signature.
  unfoldable pub sign_all :
      Scalar → List Message → List Packet → Run SigningRound Error (List Packet)
  sign_all key [] responses = pure responses
  sign_all key (out ∷ outbounds) responses = do
    packet ← lift (value (Net.signed key out))
    sign_all key outbounds (responses ++ packet ∷ [])

  unfoldable pub inbound_loop : List Packet → List Packet → Run SigningRound Error (List Packet)
  inbound_loop [] responses = pure responses
  inbound_loop (packet ∷ packets) responses = do
    outbounds ← process packet.msg
    self ← get
    sent ← sign_all self.network_private_key outbounds responses
    inbound_loop packets sent

  unfoldable pub process_inbound_messages : List Packet → Run SigningRound Error (List Packet)
  unfolding inbound_loop
  process_inbound_messages messages = inbound_loop messages []
