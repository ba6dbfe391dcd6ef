-- ===== src/V2/Dealers.antt =====
-- src/v2.rs: parties that make the commitments and the shares of a round of key generation.
use wsts.Prelude.{
  ℕ, suc, ◌<◌, ◌≡◌, refl, ap, ◌∙◌, some, List, [], ◌∷◌, map, range, length, length-map, get_elem?,
  true, arith,
}
use wsts.Prelude.Maps.{Map, keys, lookup}
use wsts.Prelude.Ordered.{extend, extend-nil, lookup-map-range_from}
use wsts.Curve.{Curve, Scalar, Rng, G, ◌⊙◌}
use wsts.Common.{PolyCommitment, verify}
use wsts.Compute
use wsts.Compute.{id}
use wsts.Schnorr
use wsts.TestHelpers.V2.{all_commitments, broadcast}
use wsts.V1.Batch.{AllLength}
use wsts.V1.Completeness.{head_of}
use wsts.V1.Dealt.{Dealt}
use wsts.V1.Keys.{schnorr-verify}
use wsts.V1.Signer.{key_shares}
use wsts.V2.Party.{Party, get_shares, get_poly_commitment, commitment}
use wsts.V2.Rounds.{party_ids_of}

module _ ⦃c : Curve⦄ where
  -- Parties among `k` parties and `n` keys, with `t` coefficients each and a cleared group key.
  abbrev pub Dealers : ℕ → ℕ → ℕ → List Party → Type 0
  Dealers n k t [] = Unit {0}
  Dealers n k t (p ∷ ps) =
      (p.num_keys ≡ n)
      × (p.num_parties ≡ k)
      × (length (c.coefficients p.f) ≡ t)
      × (p.group_key ≡ c.origin)
      × Dealers n k t ps

  -- The commitments are to the parties' polynomials and verify.
  abbrev pub Committed : List Party → List PolyCommitment → Type 0
  Committed [] [] = Unit {0}
  Committed [] (comm ∷ comms) = ⊥
  Committed (p ∷ ps) [] = ⊥
  Committed (p ∷ ps) (comm ∷ comms) =
      (comm.poly ≡ map (λ a. a ⊙ G) (c.coefficients p.f))
      × (verify comm ≡ some true)
      × Committed ps comms

  get_poly_commitment-verify :
      (p : Party) (rng : Rng)
      → 0 < length (c.coefficients p.f)
      → (made : PolyCommitment × Rng) × (get_poly_commitment p rng ≡ some made)
        × (made.0.poly ≡ map (λ a. a ⊙ G) (c.coefficients p.f))
        × (verify made.0 ≡ some true)
  unfolding get_poly_commitment verify
  get_poly_commitment-verify p rng l =
      let (a, rest, e) = head_of (c.coefficients p.f) l in
      let made = Schnorr.new (Compute.id p.party_id) a rng in
      (
        (record { id = made.0; poly = map (λ a. a ⊙ G) (c.coefficients p.f) }, made.1),
        ap (λ cs. commitment p rng (get_elem? cs 0)) e,
        refl,
        rw e (ap some (schnorr-verify (Compute.id p.party_id) a rng)),
      )

  pub all_commitments-Committed :
      (n k t : ℕ) (ps : List Party) (rng : Rng)
      → 0 < t
      → Dealers n k t ps
      → (made : List PolyCommitment × Rng) × (all_commitments ps rng ≡ some made)
        × Committed ps made.0
  unfolding all_commitments
  all_commitments-Committed n k t [] rng l h = (([], rng), refl, tt)
  all_commitments-Committed n k t (p ∷ ps) rng l (a, b, size, o, h) =
      let (made, e, poly, good) = get_poly_commitment-verify p rng (omega (arith, l, size)) in
      let (others, e', h') = all_commitments-Committed n k t ps made.1 l h in
      ((made.0 ∷ others.0, others.1), rw (e, e') refl, (poly, good, h'))

  -- What the parties send to the key `j`, by sender.
  abbrev pub shares_for : ℕ → List Party → Map Scalar
  shares_for j = map λ p. (p.party_id, c.eval p.f (id j))

  pub keys-shares_for : (j : ℕ) (ps : List Party) → keys (shares_for j ps) ≡ party_ids_of ps
  keys-shares_for j [] = refl
  keys-shares_for j (p ∷ ps) = ap (λ is. p.party_id ∷ is) (keys-shares_for j ps)

  pub Committed-Dealt :
      (j : ℕ) (ps : List Party) (comms : List PolyCommitment)
      → Committed ps comms
      → Dealt (id j) (shares_for j ps) comms
  Committed-Dealt j [] [] h = tt
  Committed-Dealt j [] (x ∷ xs) h = absurd h
  Committed-Dealt j (p ∷ ps) [] h = absurd h
  Committed-Dealt j (p ∷ ps) (x ∷ xs) (poly, good, h) =
      ((p.f, refl, poly), good, Committed-Dealt j ps xs h)

  pub Committed-AllLength :
      (n k t : ℕ) (ps : List Party) (comms : List PolyCommitment)
      → Dealers n k t ps
      → Committed ps comms
      → AllLength t comms × (length comms ≡ length ps)
  Committed-AllLength n k t [] [] d h = (tt, refl)
  Committed-AllLength n k t [] (x ∷ xs) d h = absurd h
  Committed-AllLength n k t (p ∷ ps) [] d h = absurd h
  Committed-AllLength n k t (p ∷ ps) (x ∷ xs) (a, b, size, o, d) (poly, good, h) =
      let (all, counted) = Committed-AllLength n k t ps xs d h in
      ((ap length poly ∙ length-map (c.coefficients p.f) _ ∙ size, all), ap suc counted)

  lookup-get_shares :
      (p : Party) (j : ℕ) → j < p.num_keys → lookup j (get_shares p) ≡ some (c.eval p.f (id j))
  unfolding get_shares
  lookup-get_shares p j h =
      lookup-map-range_from (λ i. c.eval p.f (id i)) 0 p.num_keys j (omega arith) (omega (arith, h))

  key_shares-broadcast :
      (n k t j : ℕ) (ps : List Party) (m : Map Scalar)
      → j < n
      → Dealers n k t ps
      → key_shares j (broadcast ps) m ≡ some (extend (shares_for j ps) m)
  unfolding key_shares
  key_shares-broadcast n k t j [] m l d = refl
  key_shares-broadcast n k t j (p ∷ ps) m l (e, e', size, o, d) =
      rw (lookup-get_shares p j (omega (arith, l, e))) (key_shares-broadcast n k t j ps _ l d)

  pub key_shares-all :
      (n k t j : ℕ) (ps : List Party)
      → j < n
      → Dealers n k t ps
      → party_ids_of ps ≡ range k
      → key_shares j (broadcast ps) [] ≡ some (shares_for j ps)
  key_shares-all n k t j ps l d h =
      key_shares-broadcast n k t j ps [] l d
      ∙ ap some (extend-nil (shares_for j ps) k (keys-shares_for j ps ∙ h))
