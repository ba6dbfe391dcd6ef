-- ===== src/StateMachine/Coordinator/Frost/Nonces.antt =====
-- src/state_machine/coordinator/frost.rs: whose nonces are awaited and whose are recorded.
use wsts.Prelude.{
  ℕ, ◌<◌, ◌≡◌, ◌≢◌, refl, ap, ◌∙◌, ◌==◌, Bool-cases, ◌⊎◌, inl, inr, Bool, true, Option, none, some,
  List, [], ◌∷◌, arith, range, ==_iff, contains, remove, contains-remove, contains-range_from,
  traverse, traverse-range_from, Option-cases,
}
use wsts.Prelude.Maps.{Map, lookup, insert_sorted, lookup-insert_sorted, keys}
use wsts.Prelude.Outcome.{ok, panic}
use wsts.Curve.{Curve, Bytes}
use wsts.Net.{Packet, NonceResponse}
use wsts.Net
use wsts.Traits.{AggregatorTrait}
use wsts.StateMachine.Coordinator.Frost.{Coordinator}
use wsts.StateMachine.Coordinator.Frost.Signing.{
  request_nonces, gather_nonces, all_nonce_responses, finish_sig_shares,
}

module _ ⦃c : Curve⦄ ⦃agg : AggregatorTrait⦄ where
  abbrev pub Answered : Coordinator → ℕ → Type 0
  Answered s i = (response : NonceResponse) × (lookup i s.public_nonces ≡ some response)

  -- Every signer is awaited or has sent its nonces.
  abbrev pub IsCovered : Coordinator → Type 0
  IsCovered s = (i : ℕ) → i < s.total_signers → (contains s.ids_to_await i ≡ true) ⊎ Answered s i

  request_nonces-awaits :
      (t : Bool) (r : Option Bytes) (s : Coordinator) {packet : Packet}
      → (request_nonces t r s).1 ≡ ok packet
      → ((request_nonces t r s).0.ids_to_await ≡ range s.total_signers)
        × ((request_nonces t r s).0.total_signers ≡ s.total_signers)
  unfolding request_nonces
  request_nonces-awaits t r s h = ground arith

  -- A request for nonces awaits every signer.
  pub request_nonces-IsCovered :
      (t : Bool) (r : Option Bytes) (s : Coordinator) {packet : Packet}
      → (request_nonces t r s).1 ≡ ok packet
      → IsCovered (request_nonces t r s).0
  request_nonces-IsCovered t r s h i l =
      let (awaits, same) = request_nonces-awaits t r s h in
      inl (
        ap (λ ids. contains ids i) awaits
        ∙ contains-range_from 0 s.total_signers i (omega arith) (omega arith))

  pub record_response :
      (response : NonceResponse) (nonces : Map NonceResponse) (await : List ℕ) (i : ℕ)
      → (contains await i ≡ true) ⊎ ((old : NonceResponse) × (lookup i nonces ≡ some old))
      → (contains (remove response.signer_id await) i ≡ true)
        ⊎ ((new : NonceResponse) × (lookup i (insert_sorted response.signer_id response nonces)
              ≡ some new))
  record_response response nonces await i h = elim (Bool-cases (response.signer_id == i)) [
    | inl same ↦
        inr (response, lookup-insert_sorted response.signer_id i response nonces ∙ rw same refl)
    | inr other ↦ elim h [
      | inl waiting ↦ inl (contains-remove response.signer_id i await ∙ rw (other, waiting) refl)
      | inr (old, found) ↦
          inr (
            old,
            lookup-insert_sorted response.signer_id i response nonces ∙ rw (other, found) refl,
          )
    ]
  ]

  -- What a packet may change while nonces are gathered.
  abbrev pub Records : Coordinator → Coordinator → Type 0
  Records s s' =
      ((s'.ids_to_await ≡ s.ids_to_await) × (s'.public_nonces ≡ s.public_nonces))
      ⊎ ((response : NonceResponse) × (s'.ids_to_await ≡ remove response.signer_id s.ids_to_await)
          × (s'.public_nonces ≡ insert_sorted response.signer_id response s.public_nonces))

  gather_nonces-total :
      (packet : Packet) (t : Bool) (r : Option Bytes) (s : Coordinator)
      → (gather_nonces packet t r s).0.total_signers ≡ s.total_signers
  unfolding gather_nonces
  gather_nonces-total packet t r s = ground arith

  gather_nonces-other :
      (packet : Packet) (t : Bool) (r : Option Bytes) (s : Coordinator)
      → ((response : NonceResponse) → packet.msg ≢ Net.nonce_response response)
      → ((gather_nonces packet t r s).0.ids_to_await ≡ s.ids_to_await)
        × ((gather_nonces packet t r s).0.public_nonces ≡ s.public_nonces)
  unfolding gather_nonces
  gather_nonces-other packet t r s h = grind arith

  gather_nonces-response :
      (packet : Packet) (t : Bool) (r : Option Bytes) (s : Coordinator) (response : NonceResponse)
      → packet.msg ≡ Net.nonce_response response
      → (((gather_nonces packet t r s).0.ids_to_await ≡ s.ids_to_await)
          × ((gather_nonces packet t r s).0.public_nonces ≡ s.public_nonces))
        ⊎ (((gather_nonces packet t r s).0.ids_to_await ≡ remove response.signer_id s.ids_to_await)
            × ((gather_nonces packet t r s).0.public_nonces
                ≡ insert_sorted response.signer_id response s.public_nonces))
  unfolding gather_nonces
  gather_nonces-response packet t r s response e = ground arith

  pub gather_nonces-Records :
      (packet : Packet) (t : Bool) (r : Option Bytes) (s : Coordinator)
      → Records s (gather_nonces packet t r s).0
  gather_nonces-Records packet t r s = by_message packet.msg refl
    where
      by_message : (m : Net.Message) → packet.msg ≡ m → Records s (gather_nonces packet t r s).0
      by_message (Net.nonce_response response) e =
          elim (gather_nonces-response packet t r s response e) [
            | inl unchanged ↦ inl unchanged
            | inr recorded ↦ inr (response, recorded.0, recorded.1)
          ]
      by_message other e = inl (gather_nonces-other packet t r s (λ response e'. cc))

  -- Every packet keeps it.
  pub gather_nonces-IsCovered :
      (packet : Packet) (t : Bool) (r : Option Bytes) (s : Coordinator)
      → IsCovered s
      → IsCovered (gather_nonces packet t r s).0
  gather_nonces-IsCovered packet t r s h i l = covered (gather_nonces-Records packet t r s)
    where
      before : (contains s.ids_to_await i ≡ true) ⊎ Answered s i
      before = h i (omega (arith, gather_nonces-total packet t r s))

      covered :
          Records s (gather_nonces packet t r s).0
          → (contains (gather_nonces packet t r s).0.ids_to_await i ≡ true)
            ⊎ Answered (gather_nonces packet t r s).0 i
      covered (inl (ids, nonces)) = rw (ids, nonces) before
      covered (inr (response, ids, nonces)) =
          rw (ids, nonces) (record_response response s.public_nonces s.ids_to_await i before)

  -- Once nobody is awaited, the request for signature shares finds the nonces of every signer.
  pub all_nonce_responses_of_IsCovered :
      (s : Coordinator)
      → IsCovered s
      → s.ids_to_await ≡ []
      → (responses : List NonceResponse) × (all_nonce_responses s ≡ some responses)
  all_nonce_responses_of_IsCovered s h none_left =
      traverse-range_from (λ i. lookup i s.public_nonces) 0 s.total_signers
        λ i l u. answered i (h i (omega arith))
    where
      answered : (i : ℕ) → (contains s.ids_to_await i ≡ true) ⊎ Answered s i → Answered s i
      answered i (inl waiting) = cc (waiting, ap (λ ids. contains ids i) none_left)
      answered i (inr found) = found

  traverse-none :
      {A : Type 0} (f : ℕ → Option A) (xs : List ℕ) (i : ℕ)
      → contains xs i ≡ true
      → f i ≡ none
      → traverse f xs ≡ none
  traverse-none f [] i h e = cc
  traverse-none f (x ∷ xs) i h e = elim (Bool-cases (x == i)) [
    | inl same ↦ rw (ap f ((==_iff x i).0 same) ∙ e) refl
    | inr other ↦ elim (Option-cases (f x)) [
      | inl missing ↦ rw missing refl
      | inr (y, found) ↦ rw (found, traverse-none f xs i (rw other at h) e) refl
    ]
  ]

  -- A signer that nobody asked: once its nonces are recorded, and it has sent no signature shares,
  -- the end of the signing round panics, whatever the awaited signers sent.
  pub finish_sig_shares-panic :
      (t : Bool) (r : Option Bytes) (s : Coordinator) (i : ℕ)
      → contains (keys s.public_nonces) i ≡ true
      → lookup i s.signature_shares ≡ none
      → (finish_sig_shares t r s).1 ≡ panic
  unfolding finish_sig_shares
  finish_sig_shares-panic t r s i h e =
      ground (arith, traverse-none (λ j. lookup j s.signature_shares) (keys s.public_nonces) i h e)
