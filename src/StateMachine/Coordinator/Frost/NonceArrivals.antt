-- ===== src/StateMachine/Coordinator/Frost/NonceArrivals.antt =====
-- src/state_machine/coordinator/frost.rs: `process_inbound_messages` while nonces are gathered, in
-- whatever order they arrive.
use wsts.Prelude.{
  ℕ, zero, suc, ◌<◌, ◌≡◌, refl, ◌⊎◌, inl, inr, Bool, true, false, Option, some, none, List, [], ◌∷◌,
  arith, contains, contains-remove, range, is_empty, ==_iff, ◌==◌, Bool-cases, if◌then◌else◌,
}
use wsts.Prelude.Outcome.{ok}
use wsts.Curve.{Curve, Bytes}
use wsts.Net
use wsts.Net.{Message, Packet, NonceResponse}
use wsts.Traits.{AggregatorTrait}
use wsts.StateMachine.Coordinator.{nonce_gather, sig_share_gather}
use wsts.StateMachine.Coordinator.Frost.{Coordinator}
use wsts.StateMachine.Coordinator.Frost.Signing.{
  accept_nonces, accept_sig_shares, gather_nonces, gather_sig_shares,
}
use wsts.StateMachine.Coordinator.Frost.Nonces.{IsCovered, record_response}
use wsts.StateMachine.Coordinator.Frost.BatchNonces.{IsCurrent, with_nonces}
use wsts.StateMachine.Coordinator.Frost.Process.{turn, turns, process_message, inbound_loop}

pub range-is_empty : (n : ℕ) → 0 < n → is_empty (range n) ≡ false
range-is_empty zero h = absurd (omega (arith, h))
range-is_empty (suc n) h = refl

module _ ⦃c : Curve⦄ where
  -- A message with neither nonces nor signature shares.
  abbrev pub IsUnrelated : Message → Type 0
  IsUnrelated (Net.nonce_response m) = ⊥
  IsUnrelated (Net.signature_share_response m) = ⊥
  IsUnrelated m = Unit {0}

  -- Among some packets there are the nonces of a signer.
  abbrev pub IsAnswered : ℕ → List Packet → Type 0
  IsAnswered i [] = ⊥
  IsAnswered i (packet ∷ packets) =
      ((response : NonceResponse) × (packet.msg ≡ Net.nonce_response response)
        × (response.signer_id ≡ i))
      ⊎ IsAnswered i packets

module _ ⦃c : Curve⦄ ⦃agg : AggregatorTrait⦄ where
  -- A packet has nonces for the rounds that a coordinator is in, or is unrelated.
  abbrev pub Fits : Coordinator → Packet → Type 0
  Fits s packet =
      ((response : NonceResponse) × (packet.msg ≡ Net.nonce_response response)
        × IsCurrent s response)
      ⊎ IsUnrelated packet.msg

  abbrev pub AllFit : Coordinator → List Packet → Type 0
  AllFit s [] = Unit {0}
  AllFit s (packet ∷ packets) = Fits s packet × AllFit s packets

  pub AllFit-with_nonces :
      (response : NonceResponse) (packets : List Packet) (s : Coordinator)
      → AllFit s packets
      → AllFit (with_nonces response s) packets
  AllFit-with_nonces response [] s h = tt
  AllFit-with_nonces response (packet ∷ packets) s (h, hs) =
      (h, AllFit-with_nonces response packets s hs)

  pub IsCovered-with_nonces :
      (response : NonceResponse) (s : Coordinator)
      → IsCovered s
      → IsCovered (with_nonces response s)
  IsCovered-with_nonces response s h i l =
      record_response response s.public_nonces s.ids_to_await i (h i l)

  -- Every awaited signer's nonces are among some packets.
  abbrev pub AllAnswered : Coordinator → List Packet → Type 0
  AllAnswered s packets = (i : ℕ) → contains s.ids_to_await i ≡ true → IsAnswered i packets

  pub AllAnswered-with_nonces :
      (packet : Packet) (response : NonceResponse) (packets : List Packet) (s : Coordinator)
      → packet.msg ≡ Net.nonce_response response
      → AllAnswered s (packet ∷ packets)
      → AllAnswered (with_nonces response s) packets
  AllAnswered-with_nonces packet response packets s e h i waiting =
      elim (Bool-cases (response.signer_id == i)) [
        | inl same ↦
            absurd
              (cc (waiting, contains-remove response.signer_id i s.ids_to_await, ite-true same))
        | inr other ↦ elim (h i (still other)) [
          | inl (answer, e', id) ↦ absurd (gone other answer e' id)
          | inr later ↦ later
        ]
      ]
    where
      ite-true :
          response.signer_id == i ≡ true
          → (if response.signer_id == i then false else contains s.ids_to_await i) ≡ false
      ite-true same = rw same refl

      still : response.signer_id == i ≡ false → contains s.ids_to_await i ≡ true
      still other =
          ground (arith, other, waiting, contains-remove response.signer_id i s.ids_to_await)

      gone :
          response.signer_id == i ≡ false
          → (answer : NonceResponse) → packet.msg ≡ Net.nonce_response answer
          → answer.signer_id ≡ i
          → ⊥
      gone other answer e' id = ground (arith, other, e, e', id, ==_iff response.signer_id i)

  module _ (t : Bool) (r : Option Bytes) where
    accept_nonces-unrelated :
        (m : Message) (s : Coordinator) → IsUnrelated m → accept_nonces m s ≡ (s, ok tt)
    accept_nonces-unrelated (Net.dkg_begin m) s h = refl
    accept_nonces-unrelated (Net.dkg_public_shares m) s h = refl
    accept_nonces-unrelated (Net.dkg_private_begin m) s h = refl
    accept_nonces-unrelated (Net.dkg_private_shares m) s h = refl
    accept_nonces-unrelated (Net.dkg_end m) s h = refl
    accept_nonces-unrelated (Net.nonce_request m) s h = refl
    accept_nonces-unrelated (Net.signature_share_request m) s h = refl
    accept_nonces-unrelated (Net.nonce_response m) s h = absurd h
    accept_nonces-unrelated (Net.signature_share_response m) s h = absurd h

    accept_sig_shares-unrelated :
        (m : Message) (s : Coordinator) → IsUnrelated m → accept_sig_shares m s ≡ (s, ok tt)
    accept_sig_shares-unrelated (Net.dkg_begin m) s h = refl
    accept_sig_shares-unrelated (Net.dkg_public_shares m) s h = refl
    accept_sig_shares-unrelated (Net.dkg_private_begin m) s h = refl
    accept_sig_shares-unrelated (Net.dkg_private_shares m) s h = refl
    accept_sig_shares-unrelated (Net.dkg_end m) s h = refl
    accept_sig_shares-unrelated (Net.nonce_request m) s h = refl
    accept_sig_shares-unrelated (Net.signature_share_request m) s h = refl
    accept_sig_shares-unrelated (Net.nonce_response m) s h = absurd h
    accept_sig_shares-unrelated (Net.signature_share_response m) s h = absurd h

    pub process_message-unrelated :
        (packet : Packet) (s : Coordinator)
        → s.state ≡ nonce_gather t r
        → is_empty s.ids_to_await ≡ false
        → IsUnrelated packet.msg
        → process_message packet s ≡ (s, ok (some (none, none)))
    unfolding process_message turns turn gather_nonces
    process_message-unrelated packet s at awaits h =
        ground (arith, at, awaits, accept_nonces-unrelated packet.msg s h)

    -- Nonces that arrive too late, and unrelated messages.
    process_message-late :
        (packet : Packet) (s u : Coordinator)
        → u.state ≡ sig_share_gather t r
        → is_empty u.ids_to_await ≡ false
        → Fits s packet
        → process_message packet u ≡ (u, ok (some (none, none)))
    unfolding process_message turns turn gather_sig_shares
    process_message-late packet s u at awaits (inl (response, e, current)) =
        ground (arith, at, awaits, e)
    process_message-late packet s u at awaits (inr h) =
        ground (arith, at, awaits, accept_sig_shares-unrelated packet.msg u h)

    pub inbound_loop-late :
        (packets out : List Packet) (s u : Coordinator)
        → u.state ≡ sig_share_gather t r
        → is_empty u.ids_to_await ≡ false
        → AllFit s packets
        → inbound_loop packets out [] u ≡ (u, ok (out, []))
    unfolding inbound_loop
    inbound_loop-late [] out s u at awaits h = refl
    inbound_loop-late (packet ∷ packets) out s u at awaits (h, hs) =
        rw (process_message-late packet s u at awaits h)
          (inbound_loop-late packets out s u at awaits hs)
