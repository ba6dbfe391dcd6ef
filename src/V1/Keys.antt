-- ===== src/V1/Keys.antt =====
-- src/v1.rs: the commitment and the keys of a party, and its saved state.
use wsts.Prelude.{
  ◌≡◌, refl, ap, ◌∙◌, true, false, if_pos, Option, none, some, List, [], ◌∷◌, map, get_elem?, arith,
  Option-cases, inl, inr,
}
use wsts.Prelude.Maps.{Map}
use wsts.Prelude.Outcome.{Outcome, ok, err, panic}
use wsts.Curve.{Curve, Scalar, Point, Rng, G, ◌⊕◌, ◌⊗◌, ◌⊞◌, ◌⊙◌}
use wsts.Curve.Algebra.{
  add-smul, mul-smul, add_assoc, plus_assoc, add-zero, plus-origin, zero-add, origin-plus,
}
use wsts.Common.{PolyCommitment, verify}
use wsts.Compute
use wsts.Schnorr
use wsts.Errors.{DkgError}
use wsts.V1.Dkg.{add_shares}
use wsts.V1.Party.{Party, get_poly_commitment, commitment, compute_secret}

module _ ⦃c : Curve⦄ where
  pub schnorr-verify :
      (id a : Scalar) (rng : Rng) → Schnorr.verify (Schnorr.new id a rng).0 (a ⊙ G) ≡ true
  unfolding Schnorr.verify Schnorr.new
  schnorr-verify id a rng =
      let k = (c.random rng).0 in
      let h = Schnorr.challenge id (k ⊙ G) (a ⊙ G) in
      if_pos (c.point_discrete ((k ⊕ h ⊗ a) ⊙ G) (k ⊙ G ⊞ h ⊙ a ⊙ G))
        (add-smul k (h ⊗ a) G ∙ ap (λ p. k ⊙ G ⊞ p) (mul-smul h a G)) true false

  -- A party whose polynomial has a coefficient gets a commitment from `get_poly_commitment`,
  -- whatever the randomness, and the commitment passes `verify`.
  pub get_poly_commitment-verify :
      (self : Party) (rng : Rng) (a : Scalar) (rest : List Scalar)
      → c.coefficients self.f ≡ a ∷ rest
      → (made : PolyCommitment × Rng) × (get_poly_commitment self rng ≡ some made)
        × (verify made.0 ≡ some true)
  unfolding get_poly_commitment verify
  get_poly_commitment-verify self rng a rest e =
      let made = Schnorr.new (Compute.id self.id) a rng in
      (
        (record { id = made.0; poly = map (λ a. a ⊙ G) (c.coefficients self.f) }, made.1),
        ap (λ cs. commitment self rng (get_elem? cs 0)) e,
        rw e (ap some (schnorr-verify (Compute.id self.id) a rng)),
      )

  -- The sum of the shares.
  unfoldable pub share_sum : Map Scalar → Scalar
  share_sum [] = c.zero
  share_sum ((i, s) ∷ shares) = s ⊕ share_sum shares

  abbrev pub point_or : Option Point → Point
  point_or none = c.origin
  point_or (some p) = p

  abbrev pub first_of : Option PolyCommitment → Point
  first_of none = c.origin
  first_of (some comm) = point_or (get_elem? comm.poly 0)

  -- The sum of the constant terms of the commitments that the shares name.
  unfoldable pub constant_sum : Map Scalar → List PolyCommitment → Point
  constant_sum [] comms = c.origin
  constant_sum ((i, s) ∷ shares) comms = first_of (get_elem? comms i) ⊞ constant_sum shares comms

  -- The sum of the constant terms of all the commitments.
  unfoldable pub constants : List PolyCommitment → Point
  constants [] = c.origin
  constants (comm ∷ comms) = first_of (some comm) ⊞ constants comms

  add_shares-sum :
      (shares : Map Scalar) (comms : List PolyCommitment) (k : Scalar) (g : Point) (k' : Scalar)
      (g' : Point)
      → add_shares shares comms k g ≡ ok (k', g')
      → (k' ≡ k ⊕ share_sum shares) × (g' ≡ g ⊞ constant_sum shares comms)
  unfolding add_shares share_sum constant_sum
  add_shares-sum [] comms k g k' g' h = (cc (h, add-zero k), cc (h, plus-origin g))
  add_shares-sum ((i, s) ∷ shares) comms k g k' g' h = elim (Option-cases (get_elem? comms i)) [
    | inl e ↦ absurd (ground (arith, h, e))
    | inr (comm, e) ↦ elim (Option-cases (get_elem? comm.poly 0)) [
      | inl e' ↦ absurd (ground (arith, h, e, e'))
      | inr (p, e') ↦
          let ih = add_shares-sum shares comms (k ⊕ s) (g ⊞ p) k' g' (rw (e, e') at h) in
          (
            ih.0 ∙ add_assoc k s (share_sum shares),
            rw (ap first_of e ∙ ap point_or e') (ih.1 ∙ plus_assoc g p (constant_sum shares comms)),
          )
    ]
  ]

  -- A party whose `compute_secret` succeeds, whatever keys it had: its private key is the sum of
  -- its shares, its public key belongs to it, and its group key is the sum of the constant terms
  -- that the parties committed to.
  pub compute_secret-sums :
      (shares : Map Scalar) (comms : List PolyCommitment) (self : Party)
      → (compute_secret shares comms self).1 ≡ ok tt
      → ((compute_secret shares comms self).0.private_key ≡ share_sum shares)
        × ((compute_secret shares comms self).0.public_key ≡ share_sum shares ⊙ G)
        × ((compute_secret shares comms self).0.group_key ≡ constant_sum shares comms)
  unfolding compute_secret
  compute_secret-sums shares comms self h = by_keys (add_shares shares comms c.zero c.origin) refl
    where
      after : Party
      after = (compute_secret shares comms self).0

      by_keys :
          (keys : Outcome DkgError (Scalar × Point))
          → add_shares shares comms c.zero c.origin ≡ keys
          → (after.private_key ≡ share_sum shares)
            × (after.public_key ≡ share_sum shares ⊙ G)
            × (after.group_key ≡ constant_sum shares comms)
      by_keys (ok (k, g)) e =
          let sums = add_shares-sum shares comms c.zero c.origin k g e in
          ground (
            arith,
            h,
            e,
            sums.0 ∙ zero-add (share_sum shares),
            sums.1 ∙ origin-plus (constant_sum shares comms),
          )
      by_keys (err x) e = absurd (ground (arith, h, e))
      by_keys panic e = absurd (ground (arith, h, e))
