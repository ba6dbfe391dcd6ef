-- ===== src/StateMachine/Signer/Moves.antt =====
-- src/state_machine/signer/mod.rs: what one message does to the state of a signer.
use wsts.Prelude.{ℕ, ◌≡◌, refl, ◌⊎◌, inl, inr, true, false, List, arith}
use wsts.Prelude.Run.{after}
use wsts.Prelude.Outcome.{Outcome, ok, err, panic}
use wsts.Curve.{Curve}
use wsts.Channel.{Channel}
use wsts.Net
use wsts.Net.{Message, Packet, DkgBegin}
use wsts.Traits.{SignerTrait}
use wsts.StateMachine.Signer.{
  State, idle, dkg_public_distribute, dkg_public_gather, dkg_private_distribute, dkg_private_gather,
  Error, SigningRound, is, accepted, reset,
}
use wsts.StateMachine.Signer.Dkg.{
  dkg_begin, dkg_private_begin, dkg_public_share, dkg_private_shares, dkg_ended, dkg_public_begin,
  public_shares_done, can_dkg_end,
}
use wsts.StateMachine.Signer.Signing.{nonce_request, sign_share_request}
use wsts.StateMachine.Signer.Process.{handle, advance, process}
use wsts.StateMachine.Signer.Cycle.{
  CanBegin, IsOther, Handled, begins, sends_private, other, Advanced, waits, has_public, ends,
  Processed, Failed, refused, half_begun, unfinished, is_ok, Ends,
}

is_eq : (s t : State) → is s t ≡ true → s ≡ t
is_eq s t h = ground (arith, h)

module _ ⦃c : Curve⦄ ⦃ch : Channel⦄ ⦃sgn : SignerTrait⦄ where
  reset-state : (dkg_id : ℕ) (s : SigningRound) → (reset dkg_id s).0.state ≡ s.state
  unfolding reset
  reset-state dkg_id s = ground arith

  dkg_public_begin-moves :
      (s : SigningRound)
      → s.state ≡ dkg_public_distribute
      → ((is_ok (dkg_public_begin s).1 ≡ true) × ((dkg_public_begin s).0.state ≡ dkg_public_gather))
        ⊎ ((is_ok (dkg_public_begin s).1 ≡ false)
            × ((dkg_public_begin s).0.state ≡ dkg_public_distribute))
  unfolding dkg_public_begin accepted
  dkg_public_begin-moves s h = ground (arith, h)

  dkg_begin-moves :
      (m : DkgBegin) (s : SigningRound)
      → ((is_ok (dkg_begin m s).1 ≡ false) × ((dkg_begin m s).0.state ≡ s.state))
        ⊎ (CanBegin s.state
            × (((is_ok (dkg_begin m s).1 ≡ false)
                  × ((dkg_begin m s).0.state ≡ dkg_public_distribute))
                ⊎ ((is_ok (dkg_begin m s).1 ≡ true)
                    × ((dkg_begin m s).0.state ≡ dkg_public_gather))))
  unfolding dkg_begin accepted
  dkg_begin-moves m s = ground (
    arith,
    reset-state m.dkg_id s,
    dkg_public_begin-moves (record (reset m.dkg_id s).0 { state = dkg_public_distribute }) refl,
  )

  dkg_private_begin-moves :
      (s : SigningRound)
      → ((is_ok (dkg_private_begin s).1 ≡ false) × ((dkg_private_begin s).0.state ≡ s.state))
        ⊎ ((is_ok (dkg_private_begin s).1 ≡ true)
            × (s.state ≡ dkg_private_distribute)
            × ((dkg_private_begin s).0.state ≡ dkg_private_gather))
  unfolding dkg_private_begin accepted
  dkg_private_begin-moves s = ground arith

  dkg_begin-Ends :
      (m : DkgBegin) (s : SigningRound)
      → Ends
          (Handled (Net.dkg_begin m) s.state)
          (Failed (Net.dkg_begin m) s.state)
          (is_ok (dkg_begin m s).1)
          (dkg_begin m s).0.state
  dkg_begin-Ends m s = elim (dkg_begin-moves m s) [
    | inl (failed, same) ↦ rw (failed, same) (refused (Net.dkg_begin m) s.state)
    | inr (can, inl (failed, at)) ↦ rw (failed, at) (half_begun m can)
    | inr (can, inr (succeeded, at)) ↦ rw (succeeded, at) (begins m can)
  ]

  dkg_private_begin-Ends :
      (m : DkgBegin) (s : SigningRound)
      → Ends
          (Handled (Net.dkg_private_begin m) s.state)
          (Failed (Net.dkg_private_begin m) s.state)
          (is_ok (dkg_private_begin s).1)
          (dkg_private_begin s).0.state
  dkg_private_begin-Ends m s = elim (dkg_private_begin-moves s) [
    | inl (failed, same) ↦ rw (failed, same) (refused (Net.dkg_private_begin m) s.state)
    | inr (succeeded, before, at) ↦ rw (succeeded, at, before) (sends_private m)
  ]

  -- The handlers that keep the state.
  keeps-Ends :
      (m : Message) (s : State) {A : Type 0} (o : Outcome Error A) (t : State)
      → IsOther m
      → t ≡ s
      → Ends (Handled m s) (Failed m s) (is_ok o) t
  keeps-Ends m s (ok a) t h e = rw e (other m s h)
  keeps-Ends m s (err x) t h e = rw e (refused m s)
  keeps-Ends m s panic t h e = rw e (refused m s)

  handle-Ends :
      (m : Message) (s : SigningRound)
      → Ends (Handled m s.state) (Failed m s.state) (is_ok (handle m s).1) (handle m s).0.state
  unfolding handle dkg_public_share dkg_private_shares sign_share_request nonce_request
  handle-Ends (Net.dkg_begin m) s = dkg_begin-Ends m s
  handle-Ends (Net.dkg_private_begin m) s = dkg_private_begin-Ends m s
  handle-Ends (Net.dkg_private_shares m) s =
      keeps-Ends (Net.dkg_private_shares m) s.state (dkg_private_shares m s).1 _ tt (ground arith)
  handle-Ends (Net.dkg_public_shares m) s = other (Net.dkg_public_shares m) s.state tt
  handle-Ends (Net.signature_share_request m) s =
      keeps-Ends (Net.signature_share_request m) s.state (sign_share_request m s).1 s.state tt refl
  handle-Ends (Net.nonce_request m) s = other (Net.nonce_request m) s.state tt
  handle-Ends (Net.dkg_end m) s = other (Net.dkg_end m) s.state tt
  handle-Ends (Net.nonce_response m) s = other (Net.nonce_response m) s.state tt
  handle-Ends (Net.signature_share_response m) s = other (Net.signature_share_response m) s.state tt

  dkg_ended-state : (s : SigningRound) → (dkg_ended s).0.state ≡ s.state
  unfolding dkg_ended
  dkg_ended-state s = ground arith

  advance-moves :
      (out : List Message) (s : SigningRound)
      → ((advance out s).0.state ≡ s.state)
        ⊎ (((s.state ≡ dkg_public_gather) × ((advance out s).0.state ≡ dkg_private_distribute))
            ⊎ ((s.state ≡ dkg_private_gather) × ((advance out s).0.state ≡ idle)))
  unfolding advance public_shares_done can_dkg_end accepted
  advance-moves out s = ground (arith, dkg_ended-state s)

  advance-Advanced :
      (out : List Message) (s : SigningRound) → Advanced s.state (advance out s).0.state
  advance-Advanced out s = by_step (advance out s).0.state (advance-moves out s)
    where
      by_step :
          (t : State)
          → (t ≡ s.state)
            ⊎ (((s.state ≡ dkg_public_gather) × (t ≡ dkg_private_distribute))
                ⊎ ((s.state ≡ dkg_private_gather) × (t ≡ idle)))
          → Advanced s.state t
      by_step t (inl h) = rw h (waits s.state)
      by_step t (inr (inl (h, e))) = rw (h, e) has_public
      by_step t (inr (inr (h, e))) = rw (h, e) ends

  pub process-Ends :
      (m : Message) (s : SigningRound)
      → Ends (Processed m s.state) (Failed m s.state) (is_ok (process m s).1) (process m s).0.state
  unfolding process
  process-Ends m s = after_handler (handle m s).0 (handle m s).1 (handle-Ends m s)
    where
      after_advance :
          (u : SigningRound) (r : SigningRound × Outcome Error (List Message))
          → Handled m s.state u.state
          → Advanced u.state r.0.state
          → Ends (Processed m s.state) (Failed m s.state) (is_ok r.1) r.0.state
      after_advance u (v, ok out) h a = (u.state, h, a)
      after_advance u (v, err e) h a = unfinished m (u.state, h, a)
      after_advance u (v, panic) h a = unfinished m (u.state, h, a)

      after_handler :
          (u : SigningRound) (o : Outcome Error (List Message))
          → Ends (Handled m s.state) (Failed m s.state) (is_ok o) u.state
          → Ends
              (Processed m s.state)
              (Failed m s.state)
              (is_ok (after advance u o).1)
              (after advance u o).0.state
      after_handler u (ok out) h = after_advance u (advance out u) h (advance-Advanced out u)
      after_handler u (err e) h = h
      after_handler u panic h = h
