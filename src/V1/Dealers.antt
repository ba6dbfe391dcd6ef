-- ===== src/V1/Dealers.antt =====
-- src/v1.rs: parties that make the commitments and the shares of a round of key generation.
use wsts.Prelude.{
  ℕ, suc, ◌<◌, ◌≡◌, refl, ap, ◌∙◌, some, List, [], ◌∷◌, ◌++◌, map, range, length, arith,
}
use wsts.Prelude.Maps.{Map, keys, lookup}
use wsts.Prelude.Ordered.{extend, extend-nil, lookup-map-range_from}
use wsts.Curve.{Curve, Scalar, Rng}
use wsts.Common.{PolyCommitment}
use wsts.Compute.{id}
use wsts.V1.Completeness.{Sent, head_of}
use wsts.V1.Honest.{ids}
use wsts.V1.Keys.{get_poly_commitment-verify}
use wsts.V1.Party.{Party, get_shares, get_poly_commitment}
use wsts.V1.Signer.{commitments_of, key_shares, shares_of}

module _ ⦃c : Curve⦄ where
  -- Parties among `n` keys, with `t` coefficients each.
  abbrev pub Dealers : ℕ → ℕ → List Party → Type 0
  Dealers n t [] = Unit {0}
  Dealers n t (p ∷ ps) = (p.n ≡ n) × (length (c.coefficients p.f) ≡ t) × Dealers n t ps

  -- The commitments are those that the parties make, each with some randomness.
  abbrev pub Made : List Party → List PolyCommitment → Type 0
  Made [] [] = Unit {0}
  Made [] (comm ∷ comms) = ⊥
  Made (p ∷ ps) [] = ⊥
  Made (p ∷ ps) (comm ∷ comms) =
      ((r : Rng × Rng) × (get_poly_commitment p r.0 ≡ some (comm, r.1))) × Made ps comms

  -- What the parties send to the key `j`, by sender.
  abbrev pub shares_for : ℕ → List Party → Map Scalar
  shares_for j = map λ p. (p.id, c.eval p.f (id j))

  -- What each party sends, by sender.
  abbrev pub sent_by : List Party → Map (Map Scalar)
  sent_by = map λ p. (p.id, get_shares p)

  pub commitments_of-Made :
      (n t : ℕ) (ps : List Party) (rng : Rng)
      → 0 < t
      → Dealers n t ps
      → (made : List PolyCommitment × Rng) × (commitments_of ps rng ≡ some made) × Made ps made.0
  unfolding commitments_of
  commitments_of-Made n t [] rng l h = (([], rng), refl, tt)
  commitments_of-Made n t (p ∷ ps) rng l (m, size, h) =
      let (a, rest, e) = head_of (c.coefficients p.f) (omega (arith, l, size)) in
      let (made, eq, good) = get_poly_commitment-verify p rng a rest e in
      let (others, eq', h') = commitments_of-Made n t ps made.1 l h in
      ((made.0 ∷ others.0, others.1), rw (eq, eq') refl, (((rng, made.1), eq), h'))

  pub Made-append :
      (ps qs : List Party) (xs ys : List PolyCommitment)
      → Made ps xs
      → Made qs ys
      → Made (ps ++ qs) (xs ++ ys)
  Made-append [] qs [] ys h k = k
  Made-append [] qs (x ∷ xs) ys h k = absurd h
  Made-append (p ∷ ps) qs [] ys h k = absurd h
  Made-append (p ∷ ps) qs (x ∷ xs) ys (a, h) k = (a, Made-append ps qs xs ys h k)

  pub Made-length :
      (ps : List Party) (comms : List PolyCommitment) → Made ps comms → length comms ≡ length ps
  Made-length [] [] h = refl
  Made-length [] (x ∷ xs) h = absurd h
  Made-length (p ∷ ps) [] h = absurd h
  Made-length (p ∷ ps) (x ∷ xs) (a, h) = ap suc (Made-length ps xs h)

  pub lookup-get_shares :
      (p : Party) (j : ℕ) → j < p.n → lookup j (get_shares p) ≡ some (c.eval p.f (id j))
  unfolding get_shares
  lookup-get_shares p j h =
      lookup-map-range_from (λ i. c.eval p.f (id i)) 0 p.n j (omega arith) (omega (arith, h))

  -- The dealers' commitments and shares for a key of the group are as `compute_secret` wants them.
  pub Made-Sent :
      (n t j : ℕ) (ps : List Party) (comms : List PolyCommitment)
      → j < n
      → Dealers n t ps
      → Made ps comms
      → Sent j t ps (shares_for j ps) comms
  Made-Sent n t j [] [] l d h = tt
  Made-Sent n t j [] (x ∷ xs) l d h = absurd h
  Made-Sent n t j (p ∷ ps) [] l d h = absurd h
  Made-Sent n t j (p ∷ ps) (x ∷ xs) l (m, size, d) (made, h) =
      (refl, lookup-get_shares p j (omega (arith, l, m)), made, size, Made-Sent n t j ps xs l d h)

  -- A key's shares are gathered sender by sender.
  key_shares-sent_by :
      (n t j : ℕ) (ps : List Party) (m : Map Scalar)
      → j < n
      → Dealers n t ps
      → key_shares j (sent_by ps) m ≡ some (extend (shares_for j ps) m)
  unfolding key_shares
  key_shares-sent_by n t j [] m l d = refl
  key_shares-sent_by n t j (p ∷ ps) m l (e, size, d) =
      rw (lookup-get_shares p j (omega (arith, l, e))) (key_shares-sent_by n t j ps _ l d)

  pub shares_of-extend :
      (ps : List Party) (m : Map (Map Scalar)) → shares_of ps m ≡ extend (sent_by ps) m
  unfolding shares_of
  shares_of-extend [] m = refl
  shares_of-extend (p ∷ ps) m = shares_of-extend ps _

  pub keys-shares_for : (j : ℕ) (ps : List Party) → keys (shares_for j ps) ≡ ids ps
  keys-shares_for j [] = refl
  keys-shares_for j (p ∷ ps) = ap (λ is. p.id ∷ is) (keys-shares_for j ps)

  pub key_shares-all :
      (n t j : ℕ) (ps : List Party)
      → j < n
      → Dealers n t ps
      → ids ps ≡ range n
      → key_shares j (sent_by ps) [] ≡ some (shares_for j ps)
  key_shares-all n t j ps l d h =
      key_shares-sent_by n t j ps [] l d
      ∙ ap some (extend-nil (shares_for j ps) n (keys-shares_for j ps ∙ h))

  pub keys-sent_by : (ps : List Party) → keys (sent_by ps) ≡ ids ps
  keys-sent_by [] = refl
  keys-sent_by (p ∷ ps) = ap (λ is. p.id ∷ is) (keys-sent_by ps)
