-- ===== src/StateMachine/Coordinator/Frost/Rounds.antt =====
-- src/state_machine/coordinator/frost.rs: refused messages, and what a new round forgets.
use wsts.Prelude.{◌+◌, ◌%◌, ◌^◌, ◌≡◌, Bool, Option, [], arith}
use wsts.Prelude.Outcome.{ok, err}
use wsts.Curve.{Curve, Bytes}
use wsts.Net.{Packet}
use wsts.Traits.{AggregatorTrait}
use wsts.StateMachine.Coordinator.{dkg_public_gather, dkg_end_gather, nonce_gather, Error}
use wsts.StateMachine.Coordinator.Frost.{Coordinator}
use wsts.StateMachine.Coordinator.Frost.Dkg.{start_dkg_round, gather_public_shares, gather_dkg_end}
use wsts.StateMachine.Coordinator.Frost.Signing.{gather_nonces}

module _ ⦃c : Curve⦄ ⦃agg : AggregatorTrait⦄ where
  -- While it gathers nonces, a coordinator that refuses a packet is left as it was.
  pub gather_nonces-err_unchanged :
      (packet : Packet) (t : Bool) (r : Option Bytes) (s : Coordinator) {e : Error}
      → s.state ≡ nonce_gather t r
      → (gather_nonces packet t r s).1 ≡ err e
      → (gather_nonces packet t r s).0 ≡ s
  unfolding gather_nonces
  gather_nonces-err_unchanged packet t r s at h = ground arith

  -- While it gathers public shares, a coordinator that refuses a packet is left as it was.
  pub gather_public_shares-err_unchanged :
      (packet : Packet) (s : Coordinator) {e : Error}
      → s.state ≡ dkg_public_gather
      → (gather_public_shares packet s).1 ≡ err e
      → (gather_public_shares packet s).0 ≡ s
  unfolding gather_public_shares
  gather_public_shares-err_unchanged packet s at h = ground arith

  -- While it awaits the end of key generation, a coordinator that refuses a packet is left as it
  -- was.
  gather_dkg_end-err_unchanged :
      (packet : Packet) (s : Coordinator) {e : Error}
      → s.state ≡ dkg_end_gather
      → (gather_dkg_end packet s).1 ≡ err e
      → (gather_dkg_end packet s).0 ≡ s
  unfolding gather_dkg_end
  gather_dkg_end-err_unchanged packet s at h = ground arith

  -- A round of key generation that starts anew forgets the polynomials but not who answered.
  pub start_dkg_round-awaits :
      (s : Coordinator) {packet : Packet}
      → (start_dkg_round s).1 ≡ ok packet
      → ((start_dkg_round s).0.ids_to_await ≡ s.ids_to_await)
        × ((start_dkg_round s).0.party_polynomials ≡ [])
        × ((start_dkg_round s).0.state ≡ dkg_public_gather)
        × ((start_dkg_round s).0.current_dkg_id ≡ (s.current_dkg_id + 1) % 2 ^ 64)
  unfolding start_dkg_round
  start_dkg_round-awaits s h = ground arith
