-- ===== src/StateMachine/Signer/Cycle.antt =====
-- src/state_machine/signer/mod.rs: the states that a signer goes through, as a step relation
-- over the packets it processes.
use wsts.Prelude.{◌≡◌, ◌⊎◌, Bool, true, false, List, [], ◌∷◌}
use wsts.Prelude.Outcome.{Outcome, ok, err, panic}
use wsts.Curve.{Curve}
use wsts.Net
use wsts.Net.{Message, Packet, DkgBegin}
use wsts.StateMachine.Signer.{
  State, idle, dkg_public_distribute, dkg_public_gather, dkg_private_distribute, dkg_private_gather,
}

-- The states in which a round of key generation can begin.
abbrev pub CanBegin : State → Type 0
CanBegin s = (s ≡ idle) ⊎ ((s ≡ dkg_public_gather) ⊎ (s ≡ dkg_private_distribute))

module _ ⦃c : Curve⦄ where
  -- The messages that do not begin anything.
  abbrev pub IsOther : Message → Type 0
  IsOther (Net.dkg_begin m) = ⊥
  IsOther (Net.dkg_private_begin m) = ⊥
  IsOther m = Unit {0}

  -- A handler that succeeds.
  pub data Handled : Message → State → State → Type 0 where
    begins : (m : DkgBegin) {s : State} → CanBegin s → Handled (Net.dkg_begin m) s dkg_public_gather
    sends_private :
        (m : DkgBegin) → Handled (Net.dkg_private_begin m) dkg_private_distribute dkg_private_gather
    other : (m : Message) (s : State) → IsOther m → Handled m s s

-- What may follow a handler that succeeds.
pub data Advanced : State → State → Type 0 where
  waits : (s : State) → Advanced s s
  has_public : Advanced dkg_public_gather dkg_private_distribute
  ends : Advanced dkg_private_gather idle

module _ ⦃c : Curve⦄ where
  abbrev pub Processed : Message → State → State → Type 0
  Processed m s t = (u : State) × Handled m s u × Advanced u t

  -- A message that fails: its handler changes nothing or begins a round halfway, or what follows the
  -- handler fails.
  pub data Failed : Message → State → State → Type 0 where
    refused : (m : Message) (s : State) → Failed m s s
    half_begun :
        (m : DkgBegin) {s : State} → CanBegin s → Failed (Net.dkg_begin m) s dkg_public_distribute
    unfinished : (m : Message) {s t : State} → Processed m s t → Failed m s t

  -- The states at the ends of a list of packets, and whether all of them succeed: each is processed
  -- in the state that those before it left, up to the first that fails.
  pub data Trace : List Packet → State → State → Bool → Type 0 where
    done : (s : State) → Trace [] s s true
    stops :
        (packet : Packet) (packets : List Packet) {s t : State}
        → Failed packet.msg s t
        → Trace (packet ∷ packets) s t false
    goes_on :
        (packet : Packet) (packets : List Packet) {s t u : State} {b : Bool}
        → Processed packet.msg s t
        → Trace packets t u b
        → Trace (packet ∷ packets) s u b

abbrev pub is_ok : {E A : Type 0} → Outcome E A → Bool
is_ok (ok a) = true
is_ok (err e) = false
is_ok panic = false

-- One predicate on the state after a success, another after a failure.
abbrev pub Ends : (State → Type 0) → (State → Type 0) → Bool → State → Type 0
Ends succeeds fails true t = succeeds t
Ends succeeds fails false t = fails t
