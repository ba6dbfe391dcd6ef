-- ===== src/V1/Completeness.antt =====
-- src/v1.rs: a round of key generation, from the shares and the commitments that dealers make to the
-- `compute_secret` of a party.
use wsts.Prelude.{
  ℕ, suc, ◌+◌, ◌*◌, ◌^◌, ◌<◌, ◌≡◌, refl, sym, ap, ◌∙◌, true, Option, some, none, List, [], ◌∷◌, map,
  range, length, length-map, get_elem?, arith,
}
use wsts.Prelude.Maps.{Map, keys, lookup}
use wsts.Prelude.Ordered.{From-self, length-keys}
use wsts.Prelude.Outcome.{ok}
use wsts.Curve.{Curve, Rng, Scalar, Polynomial, MultimultSucceeds, G, ◌⊙◌}
use wsts.Common.{PolyCommitment, verify}
use wsts.Compute.{id}
use wsts.V1.Batch.{AllLength}
use wsts.V1.Dealt.{Dealt, missing-none, bad_ids-none, add_shares-range, batch-Dealt}
use wsts.V1.Keys.{get_poly_commitment-verify}
use wsts.V1.Party.{Party, get_shares, get_poly_commitment, commitment, compute_secret}

module _ ⦃c : Curve⦄ where
  -- The shares and the commitments are those that the dealers send to the party `j`: each share is
  -- the entry for `j` of a dealer's `get_shares`, under the dealer's id, and each commitment is what
  -- the dealer's `get_poly_commitment` makes, with `t` coefficients.
  abbrev pub Sent : ℕ → ℕ → List Party → Map Scalar → List PolyCommitment → Type 0
  Sent j t [] [] [] = Unit {0}
  Sent j t [] [] (comm ∷ comms) = ⊥
  Sent j t [] (e ∷ shares) comms = ⊥
  Sent j t (dealer ∷ dealers) [] comms = ⊥
  Sent j t (dealer ∷ dealers) (e ∷ shares) [] = ⊥
  Sent j t (dealer ∷ dealers) (e ∷ shares) (comm ∷ comms) =
      (e.0 ≡ dealer.id)
      × (lookup j (get_shares dealer) ≡ some e.1)
      × ((r : Rng × Rng) × (get_poly_commitment dealer r.0 ≡ some (comm, r.1)))
      × (length (c.coefficients dealer.f) ≡ t)
      × Sent j t dealers shares comms

  lookup-dealt :
      (f : Polynomial) (j : ℕ) (is : List ℕ) (s : Scalar)
      → lookup j (map (λ i. (i, c.eval f (id i))) is) ≡ some s
      → s ≡ c.eval f (id j)
  lookup-dealt f j [] s h = absurd (cc h)
  lookup-dealt f j (i ∷ is) s h =
      let later : lookup j (map (λ i. (i, c.eval f (id i))) is) ≡ some s → s ≡ c.eval f (id j) =
        lookup-dealt f j is s in
      ground (arith, h, later)

  pub head_of :
      (cs : List Scalar) → 0 < length cs → (a : Scalar) × (rest : List Scalar) × (cs ≡ a ∷ rest)
  head_of [] l = absurd (omega (arith, l))
  head_of (a ∷ cs) l = (a, cs, refl)

  commitment-made :
      (dealer : Party) (comm : PolyCommitment) (r r' : Rng)
      → get_poly_commitment dealer r ≡ some (comm, r')
      → 0 < length (c.coefficients dealer.f)
      → (comm.poly ≡ map (λ a. a ⊙ G) (c.coefficients dealer.f)) × (verify comm ≡ some true)
  unfolding get_poly_commitment
  commitment-made dealer comm r r' h l =
      let (a, rest, e) = head_of (c.coefficients dealer.f) l in
      let (made, eq, good) = get_poly_commitment-verify dealer r a rest e in
      (
        by_head (get_elem? (c.coefficients dealer.f) 0) h,
        ap (λ m. verify m) (ground (arith, h, eq)) ∙ good,
      )
    where
      by_head :
          (o : Option Scalar)
          → commitment dealer r o ≡ some (comm, r')
          → comm.poly ≡ map (λ a. a ⊙ G) (c.coefficients dealer.f)
      by_head none h = absurd (ground (arith, h))
      by_head (some a) h = ground (arith, h)

  pub Sent-Dealt :
      (j t : ℕ) (dealers : List Party) (shares : Map Scalar) (comms : List PolyCommitment)
      → 0 < t
      → Sent j t dealers shares comms
      → Dealt (id j) shares comms × AllLength t comms × (length comms ≡ length shares)
  unfolding get_shares
  Sent-Dealt j t [] [] [] l h = (tt, tt, refl)
  Sent-Dealt j t [] [] (comm ∷ comms) l h = absurd h
  Sent-Dealt j t [] (e ∷ shares) comms l h = absurd h
  Sent-Dealt j t (dealer ∷ dealers) [] comms l h = absurd h
  Sent-Dealt j t (dealer ∷ dealers) (e ∷ shares) [] l h = absurd h
  Sent-Dealt j t (dealer ∷ dealers) (e ∷ shares) (comm ∷ comms) l (k, s, (r, m), size, h) =
      let (poly, good) = commitment-made dealer comm r.0 r.1 m (omega (arith, l, size)) in
      let (dealt, all, counted) = Sent-Dealt j t dealers shares comms l h in
      (
        ((dealer.f, lookup-dealt dealer.f j (range dealer.n) e.1 s, poly), good, dealt),
        (ap length poly ∙ length-map (c.coefficients dealer.f) _ ∙ size, all),
        ap suc counted,
      )

  -- A party of `n` dealers, at least one, that has the share and the commitment that each of them
  -- made for it, in the order of their ids from 0 on, accepts them: `compute_secret` returns no error. All
  -- polynomials have `t` coefficients, at least one, and the batch of the shares fits 32 bits.
  pub compute_secret-Sent :
      MultimultSucceeds
      → (self : Party) (dealers : List Party) (shares : Map Scalar) (comms : List PolyCommitment)
        (t : ℕ)
      → keys shares ≡ range self.n
      → 0 < self.n
      → 0 < t
      → (t + 1) * self.n < 2 ^ 32
      → Sent self.id t dealers shares comms
      → (compute_secret shares comms self).1 ≡ ok tt
  unfolding compute_secret
  compute_secret-Sent works self dealers shares comms t named some_share positive small sent =
      let (h, all, l) = Sent-Dealt self.id t dealers shares comms positive sent in
      let (sums, made) =
        add_shares-range shares comms comms 0 t c.zero c.origin ordered l all positive
          (From-self comms) in
      elim (c.point_discrete c.origin c.origin) [
        | yes same ↦ ground (
          arith,
          same,
          missing-none self.n shares named,
          bad_ids-none (id self.id) shares comms comms 0 ordered h (From-self comms),
          batch-Dealt works (id self.id) shares comms t
              (l, ordered, omega (arith, small, ap (λ n. (t + 1) * n) counted)) all
              (omega (arith, some_share, counted)) h,
          made,
        )
        | no other ↦ absurd (other refl)
      ]
    where
      counted : length shares ≡ self.n
      counted = length-keys shares self.n named

      ordered : keys shares ≡ range (length shares)
      ordered = named ∙ ap range (sym counted)
