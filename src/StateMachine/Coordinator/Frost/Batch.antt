-- ===== src/StateMachine/Coordinator/Frost/Batch.antt =====
-- src/state_machine/coordinator/frost.rs: `process_inbound_messages` of one packet from each awaited
-- signer, up to the last of them.
use wsts.Prelude.{
  ℕ, suc, ◌≡◌, refl, ap, ◌∙◌, some, none, List, [], ◌∷◌, map, arith, remove, range_from, length,
}
use wsts.Prelude.Ordered.{remove-range_from}
use wsts.Prelude.Outcome.{ok}
use wsts.Curve.{Curve}
use wsts.Net.{Message, Packet}
use wsts.Traits.{AggregatorTrait}
use wsts.StateMachine.{OperationResult}
use wsts.StateMachine.Coordinator.Frost.{Coordinator}
use wsts.StateMachine.Coordinator.Frost.Process.{process_message, inbound_loop}

module _ ⦃c : Curve⦄ ⦃agg : AggregatorTrait⦄ where
  pub inbound_loop-more :
      (packet : Packet) (packets : List Packet) (s s' : Coordinator) (outbound : List Packet)
      (results : List OperationResult)
      → process_message packet s ≡ (s', ok (some (none, none)))
      → inbound_loop (packet ∷ packets) outbound results s
        ≡ inbound_loop packets outbound results s'
  unfolding inbound_loop
  inbound_loop-more packet packets s s' outbound results h = rw h refl

  -- Answers of one kind: their messages, their signers, what the coordinator does with one of them,
  -- and what it expects of one in a state.
  module _ {R : Type 0} (message : R → Message) (signer_id : R → ℕ)
      (taken : R → Coordinator → Coordinator) (Expects : Coordinator → R → Type 0) where
    -- The coordinator with several answers, in the order they came.
    abbrev pub taken_all : List R → Coordinator → Coordinator
    taken_all [] s = s
    taken_all (x ∷ xs) s = taken_all xs (taken x s)

    abbrev pub ExpectsAll : Coordinator → List R → Type 0
    ExpectsAll s [] = Unit {0}
    ExpectsAll s (x ∷ xs) = Expects s x × ExpectsAll s xs

    -- While others are awaited, the coordinator takes an answer and says nothing.
    abbrev pub TakesMore : Type 0
    TakesMore =
        (packet : Packet) (x : R) (s : Coordinator) (i : ℕ) (is : List ℕ)
        → Expects s x
        → packet.msg ≡ message x
        → remove (signer_id x) s.ids_to_await ≡ i ∷ is
        → process_message packet s ≡ (taken x s, ok (some (none, none)))

    module _ (more : TakesMore)
        (keeps : (x y : R) (s : Coordinator) → Expects s y → Expects (taken x s) y)
        (crosses_off : (x : R) (s : Coordinator)
          → (taken x s).ids_to_await ≡ remove (signer_id x) s.ids_to_await) where
      ExpectsAll-taken :
          (x : R) (xs : List R) (s : Coordinator) → ExpectsAll s xs → ExpectsAll (taken x s) xs
      ExpectsAll-taken x [] s h = tt
      ExpectsAll-taken x (y ∷ xs) s (h, hs) = (keeps x y s h, ExpectsAll-taken x xs s hs)

      -- Everything up to the last packet, which is left.
      pub inbound_loop-batch :
          (x : R) (xs : List R) (packets : List Packet) (s : Coordinator) (a : ℕ)
          (outbound : List Packet) (results : List OperationResult)
          → map (λ packet. packet.msg) packets ≡ map message (x ∷ xs)
          → ExpectsAll s (x ∷ xs)
          → map signer_id (x ∷ xs) ≡ range_from a (suc (length xs))
          → s.ids_to_await ≡ range_from a (suc (length xs))
          → (s' : Coordinator) × (last : Packet) × (y : R) × Expects s' y
            × (last.msg ≡ message y)
            × (remove (signer_id y) s'.ids_to_await ≡ [])
            × (taken y s' ≡ taken_all (x ∷ xs) s)
            × (inbound_loop packets outbound results s
                ≡ inbound_loop (last ∷ []) outbound results s')
      inbound_loop-batch x xs [] s a outbound results e expects ids awaits = absurd (cc e)
      inbound_loop-batch x [] (packet ∷ []) s a outbound results e (expects, rest) ids awaits = (
        s,
        packet,
        x,
        expects,
        ground (arith, e),
        rw awaits
            (ap (λ i. remove i (range_from a 1)) (ground (arith, ids)) ∙ remove-range_from a 0),
        refl,
        refl,
      )
      inbound_loop-batch x [] (packet ∷ next ∷ packets) s a outbound results e expects ids awaits =
          absurd (cc e)
      inbound_loop-batch x (y ∷ xs) (packet ∷ packets) s a outbound results e (expects, rest) ids
            awaits =
          let left : remove (signer_id x) s.ids_to_await ≡ range_from (suc a) (suc (length xs)) =
            rw awaits (
              ap (λ i. remove i (range_from a (suc (suc (length xs))))) (ground (arith, ids))
              ∙ remove-range_from a (suc (length xs))) in
          let (s', last, z, fits, same, alone, all, later) =
            inbound_loop-batch y xs packets (taken x s) (suc a) outbound results (ground (arith, e))
              (ExpectsAll-taken x (y ∷ xs) s rest) (ground (arith, ids)) (crosses_off x s ∙ left) in
          (
            s',
            last,
            z,
            fits,
            same,
            alone,
            all,
            inbound_loop-more packet packets s (taken x s) outbound results (
                  more packet x s (suc a) (range_from (suc (suc a)) (length xs)) expects
                    (ground (arith, e)) left)
                ∙ later,
          )
