-- ===== src/StateMachine/Coordinator/Frost/Progress.antt =====
-- src/state_machine/coordinator/frost.rs: what each gathering handler does to the state, and the
-- turns of the loop of `process_message`.
use wsts.Prelude.{
  ℕ, suc, ◌≡◌, ◌≢◌, refl, sym, ◌⊎◌, inl, inr, Bool, Option, none, List, true, false, arith,
}
use mathlib.Core.Path.{subst}
use wsts.Prelude.Outcome.{ok}
use wsts.Curve.{Curve, Bytes}
use wsts.Common.{SignatureShare}
use wsts.Net.{Packet, NonceResponse}
use wsts.Traits.{AggregatorTrait}
use wsts.StateMachine.Coordinator.{
  State, idle, dkg_public_distribute, dkg_public_gather, dkg_private_distribute, dkg_end_gather,
  nonce_request, nonce_gather, sig_share_request, sig_share_gather,
}
use wsts.StateMachine.Coordinator.Frost.{Coordinator}
use wsts.StateMachine.Coordinator.Frost.Dkg.{gather_public_shares, gather_dkg_end}
use wsts.StateMachine.Coordinator.Frost.Signing.{
  gather_nonces, gather_sig_shares, finish_sig_shares, sign_group, accept_sig_shares,
}
use wsts.StateMachine.Coordinator.Frost.Process.{turn, turns, process_message}

module _ ⦃c : Curve⦄ ⦃agg : AggregatorTrait⦄ where
  -- Gathering public shares stays or goes on to the private shares.
  pub gather_public_shares-state :
      (packet : Packet) (s : Coordinator)
      → ((gather_public_shares packet s).0.state ≡ s.state)
        ⊎ ((gather_public_shares packet s).0.state ≡ dkg_private_distribute)
  unfolding gather_public_shares
  gather_public_shares-state packet s = ground arith

  pub gather_dkg_end-state :
      (packet : Packet) (s : Coordinator)
      → ((gather_dkg_end packet s).0.state ≡ s.state) ⊎ ((gather_dkg_end packet s).0.state ≡ idle)
  unfolding gather_dkg_end
  gather_dkg_end-state packet s = ground arith

  pub gather_nonces-state :
      (packet : Packet) (t : Bool) (r : Option Bytes) (s : Coordinator)
      → ((gather_nonces packet t r s).0.state ≡ s.state)
        ⊎ ((gather_nonces packet t r s).0.state ≡ sig_share_request t r)
  unfolding gather_nonces
  gather_nonces-state packet t r s = ground arith

  sign_group-state :
      (responses : List NonceResponse) (shares : List SignatureShare) (t : Bool) (r : Option Bytes)
      (s : Coordinator)
      → (sign_group responses shares t r s).0.state ≡ s.state
  unfolding sign_group
  sign_group-state responses shares true r s = ground arith
  sign_group-state responses shares false r s = ground arith

  finish_sig_shares-state :
      (t : Bool) (r : Option Bytes) (s : Coordinator)
      → ((finish_sig_shares t r s).0.state ≡ s.state) ⊎ ((finish_sig_shares t r s).0.state ≡ idle)
  unfolding finish_sig_shares
  finish_sig_shares-state t r s = grind (arith, sign_group-state)

  pub gather_sig_shares-state :
      (packet : Packet) (t : Bool) (r : Option Bytes) (s : Coordinator)
      → ((gather_sig_shares packet t r s).0.state ≡ s.state)
        ⊎ ((gather_sig_shares packet t r s).0.state ≡ idle)
  unfolding gather_sig_shares
  gather_sig_shares-state packet t r s =
      ground (arith, finish_sig_shares-state t r (accept_sig_shares packet.msg s).0)

  private_turn :
      (packet : Packet) (s : Coordinator) → (turn dkg_private_distribute packet s).1 ≢ ok none
  unfolding turn
  private_turn packet s = ground arith

  request_turn :
      (t : Bool) (r : Option Bytes) (packet : Packet) (s : Coordinator)
      → (turn (sig_share_request t r) packet s).1 ≢ ok none
  unfolding turn
  request_turn t r packet s = ground arith

  abbrev GoesOn : State → Type 0
  GoesOn next =
      (next ≡ dkg_private_distribute)
      ⊎ ((t : Bool) × (r : Option Bytes) × (next ≡ sig_share_request t r))

  -- A turn that goes round again has gathered the last public shares or the last nonces.
  turn-none :
      (st : State) (packet : Packet) (s : Coordinator)
      → s.state ≡ st
      → (turn st packet s).1 ≡ ok none
      → GoesOn (turn st packet s).0.state
  unfolding turn
  turn-none idle packet s at e = cc
  turn-none dkg_public_distribute packet s at e = absurd (ground arith)
  turn-none dkg_public_gather packet s at e =
      inl (ground (arith, gather_public_shares-state packet s))
  turn-none dkg_private_distribute packet s at e = absurd (ground arith)
  turn-none dkg_end_gather packet s at e = absurd (ground (arith, gather_dkg_end-state packet s))
  turn-none (nonce_request t r) packet s at e = absurd (ground arith)
  turn-none (nonce_gather t r) packet s at e =
      inr (t, r, ground (arith, gather_nonces-state packet t r s))
  turn-none (sig_share_request t r) packet s at e = absurd (ground arith)
  turn-none (sig_share_gather t r) packet s at e =
      absurd (ground (arith, gather_sig_shares-state packet t r s))

  turns_step :
      (n : ℕ) (packet : Packet) (s : Coordinator)
      → (turns (suc n) packet s).1 ≡ ok none
      → ((turn s.state packet s).1 ≡ ok none)
        × ((turns n packet (turn s.state packet s).0).1 ≡ ok none)
  unfolding turns
  turns_step n packet s e = ground arith

  second_turn :
      (packet : Packet) (s : Coordinator) → GoesOn s.state → (turn s.state packet s).1 ≢ ok none
  second_turn packet s (inl private) =
      subst (λ st. (turn st packet s).1 ≢ ok none) (sym private) (private_turn packet s)
  second_turn packet s (inr (t, r, request)) =
      subst (λ st. (turn st packet s).1 ≢ ok none) (sym request) (request_turn t r packet s)

  -- `process_message` never runs out of turns: in whatever state and for whatever packet, two turns
  -- of its loop end in a reply, an error or a panic.
  pub process_message-ne_none :
      (packet : Packet) (s : Coordinator) → (process_message packet s).1 ≢ ok none
  unfolding process_message
  process_message-ne_none packet s e =
      let first = turns_step 1 packet s e in
      let second = turns_step 0 packet (turn s.state packet s).0 first.1 in
      second_turn packet (turn s.state packet s).0 (turn-none s.state packet s refl first.0)
        second.0
