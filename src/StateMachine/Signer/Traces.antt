-- ===== src/StateMachine/Signer/Traces.antt =====
-- src/state_machine/signer/mod.rs: what a list of packets does to the state of a signer.
use wsts.Prelude.{◌≡◌, refl, inl, inr, Option-cases, List, [], ◌∷◌, ◌++◌}
use wsts.Prelude.Run.{Run, after}
use mathlib.Core.Path.{subst}
use wsts.Prelude.Outcome.{Outcome, ok, err, panic}
use wsts.Curve.{Curve, Scalar}
use wsts.Channel.{Channel}
use wsts.Net
use wsts.Net.{Message, Packet, DkgBegin}
use wsts.Traits.{SignerTrait}
use wsts.StateMachine.Signer.{State, Error, SigningRound}
use wsts.StateMachine.Signer.Process.{process, sign_all, inbound_loop, process_inbound_messages}
use wsts.StateMachine.Signer.Cycle.{
  Processed, Failed, unfinished, Trace, done, stops, goes_on, is_ok, Ends,
}
use wsts.StateMachine.Signer.Moves.{process-Ends}

module _ ⦃c : Curve⦄ ⦃ch : Channel⦄ ⦃sgn : SignerTrait⦄ where
  sign_all-state :
      (key : Scalar) (out : List Message) (sent : List Packet) (s : SigningRound)
      → (sign_all key out sent s).0.state ≡ s.state
  unfolding sign_all
  sign_all-state key [] sent s = refl
  sign_all-state key (m ∷ out) sent s = elim (Option-cases (Net.signed key m)) [
    | inl e ↦ rw e refl
    | inr (packet, e) ↦ rw e (sign_all-state key out (sent ++ packet ∷ []) s)
  ]

  -- What `inbound_loop` does after a packet has been processed, and after its answers are signed.
  abbrev Rest : Type 0
  Rest = List Packet → Run SigningRound Error (List Packet)

  after_sign_all-Trace :
      (packet : Packet) (packets : List Packet) (rest : Rest) (s t : State)
      (signed : SigningRound × Outcome Error (List Packet))
      → Processed packet.msg s t
      → signed.0.state ≡ t
      → ((sent : List Packet) (u : SigningRound)
          → Trace packets u.state (rest sent u).0.state (is_ok (rest sent u).1))
      → Trace
          (packet ∷ packets)
          s
          (after rest signed.0 signed.1).0.state
          (is_ok (after rest signed.0 signed.1).1)
  after_sign_all-Trace packet packets rest s t (u, ok sent) h e later =
      goes_on packet packets h (
        subst (λ x. Trace packets x (rest sent u).0.state (is_ok (rest sent u).1)) e (later sent u))
  after_sign_all-Trace packet packets rest s t (u, err x) h e later =
      rw e (stops packet packets (unfinished packet.msg h))
  after_sign_all-Trace packet packets rest s t (u, panic) h e later =
      rw e (stops packet packets (unfinished packet.msg h))

  after_process-Trace :
      (packet : Packet) (packets sent : List Packet) (rest : Rest) (s : State)
      (processed : SigningRound × Outcome Error (List Message))
      → Ends (Processed packet.msg s) (Failed packet.msg s) (is_ok processed.1) processed.0.state
      → ((sent : List Packet) (u : SigningRound)
          → Trace packets u.state (rest sent u).0.state (is_ok (rest sent u).1))
      → let r =
          after
            (λ out t.
              after rest
                (sign_all t.network_private_key out sent t).0
                (sign_all t.network_private_key out sent t).1)
            processed.0
            processed.1 in
        Trace (packet ∷ packets) s r.0.state (is_ok r.1)
  after_process-Trace packet packets sent rest s (t, ok out) h later =
      after_sign_all-Trace packet packets rest s t.state (sign_all t.network_private_key out sent t)
        h (sign_all-state t.network_private_key out sent t) later
  after_process-Trace packet packets sent rest s (t, err x) h later = stops packet packets h
  after_process-Trace packet packets sent rest s (t, panic) h later = stops packet packets h

  inbound_loop-Trace :
      (packets sent : List Packet) (s : SigningRound)
      → Trace packets s.state
          (inbound_loop packets sent s).0.state
          (is_ok (inbound_loop packets sent s).1)
  unfolding inbound_loop
  inbound_loop-Trace [] sent s = done s.state
  inbound_loop-Trace (packet ∷ packets) sent s =
      after_process-Trace packet packets sent (inbound_loop packets) s.state (process packet.msg s)
        (process-Ends packet.msg s) (inbound_loop-Trace packets)

  -- Whatever packets a signer processes, in whatever number and order: its state goes from packet to
  -- packet, up to the first that fails, and all succeed if there is none. A packet that succeeds
  -- begins a round of key generation, from rest or from where public shares are gathered or are all
  -- there, and only if it says so; or it sends private shares, if it says so and the public shares
  -- are all there; or it leaves the state. After that, and then only, the public shares may be all
  -- there, or the private shares, which ends the round. A packet that fails leaves the state, or
  -- begins a round halfway from where one that succeeds begins it, or does what one that succeeds
  -- does.
  pub process_inbound_messages-Trace :
      (packets : List Packet) (s : SigningRound)
      → Trace packets s.state
          (process_inbound_messages packets s).0.state
          (is_ok (process_inbound_messages packets s).1)
  unfolding process_inbound_messages
  process_inbound_messages-Trace packets s = inbound_loop-Trace packets [] s
