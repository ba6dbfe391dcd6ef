-- ===== src/StateMachine/Coordinator/Frost/Dkg.antt =====
-- src/state_machine/coordinator/frost.rs: a round of key generation.
use wsts.Prelude.{
  ℕ, ◌+◌, ◌%◌, ◌^◌, ◌==◌, Option, none, some, List, [], ◌∷◌, range, remove, get_elem?, is_empty,
  if◌then◌else◌,
}
use wsts.Prelude.Maps.{Map, insert_sorted}
use wsts.Prelude.Outcome.{require, value}
use wsts.Prelude.Run.{Run, ◌>>=◌, ◌>>◌, get, modify, lift, pure}
use wsts.Curve.{Curve, Point, ◌⊞◌}
use wsts.Common.{PolyCommitment}
use wsts.Net
use wsts.Net.{DkgPublicShares, DkgEnd, Message, Packet, signed}
use wsts.Traits.{AggregatorTrait}
use wsts.StateMachine.Coordinator.{
  dkg_public_distribute, dkg_public_gather, dkg_private_distribute, dkg_end_gather, idle, Error,
  bad_dkg_id,
}
use wsts.StateMachine.Coordinator.Frost.{Coordinator, move_to}

module _ ⦃c : Curve⦄ ⦃agg : AggregatorTrait⦄ where
  unfoldable pub start_public_shares : Run Coordinator Error Packet
  unfolding move_to
  start_public_shares = do
    modify (λ s. record s { dkg_public_shares = []; party_polynomials = [] })
    self ← get
    packet ← lift (
        value (
          signed self.message_private_key
            (Net.dkg_begin (record { dkg_id = self.current_dkg_id }))))
    move_to dkg_public_gather
    pure packet

  unfoldable pub start_private_shares : Run Coordinator Error Packet
  unfolding move_to
  start_private_shares = do
    self ← get
    packet ← lift (
        value (
          signed self.message_private_key
            (Net.dkg_private_begin (record { dkg_id = self.current_dkg_id }))))
    move_to dkg_end_gather
    pure packet

  unfoldable pub start_dkg_round : Run Coordinator Error Packet
  unfolding start_public_shares
  start_dkg_round = do
    modify (λ s. record s { current_dkg_id = (s.current_dkg_id + 1) % 2 ^ 64 })
    move_to dkg_public_distribute
    start_public_shares

  abbrev pub add_polynomials : List (ℕ × PolyCommitment) → Map PolyCommitment → Map PolyCommitment
  add_polynomials [] polys = polys
  add_polynomials ((party_id, comm) ∷ comms) polys =
      add_polynomials comms (insert_sorted party_id comm polys)

  abbrev receive_public_shares : DkgPublicShares → Run Coordinator Error (Unit {0})
  receive_public_shares shares = do
    self ← get
    lift (
        require (shares.dkg_id == self.current_dkg_id)
          (bad_dkg_id shares.dkg_id self.current_dkg_id))
    modify (λ s. record s {
      ids_to_await = remove shares.signer_id s.ids_to_await;
      dkg_public_shares = insert_sorted shares.signer_id shares s.dkg_public_shares;
      party_polynomials = add_polynomials shares.comms s.party_polynomials;
    })

  abbrev accept_public_shares : Message → Run Coordinator Error (Unit {0})
  accept_public_shares (Net.dkg_public_shares shares) = receive_public_shares shares
  accept_public_shares other = pure tt

  -- The sum of the constant terms; `None` where a commitment has none.
  abbrev pub sum_keys : Map PolyCommitment → Point → Option Point
  sum_keys [] acc = some acc
  sum_keys ((i, comm) ∷ polys) acc = elim (get_elem? comm.poly 0) [
    | none ↦ none
    | some p ↦ sum_keys polys (acc ⊞ p)
  ]

  -- What `gather_public_shares` does once no signer is awaited.
  abbrev finish_public_shares : Run Coordinator Error (Unit {0})
  finish_public_shares = do
    self ← get
    key ← lift (value (sum_keys self.party_polynomials c.default_point))
    modify (λ s. record s { aggregate_public_key = some key })
    move_to dkg_private_distribute
    modify (λ s. record s { ids_to_await = range s.total_signers })

  unfoldable pub gather_public_shares : Packet → Run Coordinator Error (Unit {0})
  unfolding move_to
  gather_public_shares packet = do
    accept_public_shares packet.msg
    self ← get
    if is_empty self.ids_to_await then finish_public_shares else pure tt

  abbrev receive_dkg_end : DkgEnd → Run Coordinator Error (Unit {0})
  receive_dkg_end ended = do
    self ← get
    lift (
        require (ended.dkg_id == self.current_dkg_id) (bad_dkg_id ended.dkg_id self.current_dkg_id))
    modify (λ s. record s { ids_to_await = remove ended.signer_id s.ids_to_await })

  abbrev accept_dkg_end : Message → Run Coordinator Error (Unit {0})
  accept_dkg_end (Net.dkg_end ended) = receive_dkg_end ended
  accept_dkg_end other = pure tt

  abbrev finish_dkg_end : Run Coordinator Error (Unit {0})
  finish_dkg_end = do modify (λ s. record s { ids_to_await = range s.total_signers }); move_to idle

  unfoldable pub gather_dkg_end : Packet → Run Coordinator Error (Unit {0})
  unfolding move_to
  gather_dkg_end packet = do
    accept_dkg_end packet.msg
    self ← get
    if is_empty self.ids_to_await then finish_dkg_end else pure tt
