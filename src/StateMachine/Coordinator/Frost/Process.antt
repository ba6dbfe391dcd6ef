-- ===== src/StateMachine/Coordinator/Frost/Process.antt =====
-- src/state_machine/coordinator/frost.rs: the loop over a packet, and the trait `Coordinatable`.
use wsts.Prelude.{
  ℕ, zero, suc, Bool, true, false, Option, none, some, List, [], ◌∷◌, ◌++◌, if◌then◌else◌,
}
use wsts.Prelude.Outcome.{Outcome, ok, err}
use wsts.Prelude.Run.{Run, ◌>>=◌, ◌>>◌, get, modify, lift, pure}
use wsts.Curve.{Curve, Bytes}
use wsts.Net.{Packet}
use wsts.Traits.{AggregatorTrait}
use wsts.StateMachine.{OperationResult, dkg, sign, sign_taproot}
use wsts.StateMachine.Coordinator.{
  State, idle, dkg_public_distribute, dkg_public_gather, dkg_private_distribute, dkg_end_gather,
  nonce_request, nonce_gather, sig_share_request, sig_share_gather, Error,
  missing_aggregate_public_key, missing_schnorr_proof, missing_signature,
}
use wsts.StateMachine.Coordinator.Frost.{Coordinator, is}
use wsts.StateMachine.Coordinator.Frost.Dkg.{
  start_public_shares, start_private_shares, start_dkg_round, gather_public_shares, gather_dkg_end,
}
use wsts.StateMachine.Coordinator.Frost.Signing.{
  request_nonces, request_sig_shares, start_signing_round, gather_nonces, gather_sig_shares,
}

module _ ⦃c : Curve⦄ ⦃agg : AggregatorTrait⦄ where
  abbrev pub Reply : Type 0
  Reply = Option Packet × Option OperationResult

  -- `ok_or`.
  abbrev ok_or : {A : Type 0} → Option A → Error → Outcome Error A
  ok_or none e = err e
  ok_or (some a) e = ok a

  -- A branch that returns a packet.
  abbrev replies : Run Coordinator Error Packet → Run Coordinator Error (Option Reply)
  replies m = do packet ← m; pure (some (some packet, none))

  -- A branch that gathers: it returns while the state stays, or goes round the loop.
  abbrev gathers : Run Coordinator Error (Unit {0}) → State → Run Coordinator Error (Option Reply)
  gathers m state = do m; self ← get; pure (if is self.state state then some (none, none) else none)

  abbrev key_result : Run Coordinator Error (Option Reply)
  key_result = do
    self ← get
    key ← lift (ok_or self.aggregate_public_key missing_aggregate_public_key)
    pure (some (none, some (dkg key)))

  abbrev sign_result : Bool → Run Coordinator Error (Option Reply)
  sign_result true = do
    self ← get
    proof ← lift (ok_or self.schnorr_proof missing_schnorr_proof)
    pure (some (none, some (sign_taproot proof)))
  sign_result false = do
    self ← get
    sig ← lift (ok_or self.signature missing_signature)
    pure (some (none, some (sign sig)))

  -- A branch that ends an operation if it leaves the coordinator idle.
  abbrev ends :
      Run Coordinator Error (Unit {0})
      → State
      → Run Coordinator Error (Option Reply)
      → Run Coordinator Error (Option Reply)
  ends m state result = do
    m
    self ← get
    if is self.state state
        then pure (some (none, none))
        else if is self.state idle
        then result
        else pure none

  -- One turn of the loop: `none` goes round again.
  unfoldable pub turn : State → Packet → Run Coordinator Error (Option Reply)
  turn idle packet = pure (some (none, none))
  turn dkg_public_distribute packet = replies start_public_shares
  turn dkg_public_gather packet = gathers (gather_public_shares packet) dkg_public_gather
  turn dkg_private_distribute packet = replies start_private_shares
  turn dkg_end_gather packet = ends (gather_dkg_end packet) dkg_end_gather key_result
  turn (nonce_request t r) packet = replies (request_nonces t r)
  turn (nonce_gather t r) packet = gathers (gather_nonces packet t r) (nonce_gather t r)
  turn (sig_share_request t r) packet = replies (request_sig_shares t r)
  turn (sig_share_gather t r) packet =
      ends (gather_sig_shares packet t r) (sig_share_gather t r) (sign_result t)

  -- `none` where the turns ran out.
  unfoldable pub turns : ℕ → Packet → Run Coordinator Error (Option Reply)
  turns zero packet = pure none
  turns (suc n) packet = do
    self ← get
    reply ← turn self.state packet
    elim reply [ none ↦ turns n packet | some r ↦ pure (some r) ]

  -- The loop has two turns.
  unfoldable pub process_message : Packet → Run Coordinator Error (Option Reply)
  process_message packet = turns 2 packet

  abbrev pub collect : {A : Type 0} → Option A → List A → List A
  collect none items = items
  collect (some a) items = items ++ a ∷ []

  unfoldable pub inbound_loop :
      List Packet
      → List Packet
      → List OperationResult
      → Run Coordinator Error (List Packet × List OperationResult)
  inbound_loop [] outbound results = pure (outbound, results)
  inbound_loop (packet ∷ packets) outbound results = do
    reply ← process_message packet
    elim reply [
      | none ↦ inbound_loop packets outbound results
      | some (out, result) ↦ inbound_loop packets (collect out outbound) (collect result results)
    ]

  unfoldable pub process_inbound_messages :
      List Packet → Run Coordinator Error (List Packet × List OperationResult)
  unfolding inbound_loop
  process_inbound_messages packets = inbound_loop packets [] []

  unfoldable pub start_distributed_key_generation : Run Coordinator Error Packet
  start_distributed_key_generation = start_dkg_round

  unfoldable pub start_signing_message : Bytes → Bool → Option Bytes → Run Coordinator Error Packet
  start_signing_message message is_taproot merkle_root = do
    modify (λ s. record s { message = message })
    start_signing_round is_taproot merkle_root
