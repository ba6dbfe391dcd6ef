-- ===== src/V1/Honest.antt =====
-- src/v1.rs: the shares of parties that follow the protocol, before the aggregator's tests.
use wsts.Prelude.{
  ℕ, ◌≡◌, refl, sym, ap, ◌∙◌, if_pos, if_neg, List, [], ◌∷◌, map, zip, Bool-cases, inl, inr,
  if◌then◌else◌,
}
use mathlib.Core.Path.{ap₂}
use wsts.Curve.{Curve, Scalar, Point, Bytes, G, ◌⊕◌, ◌⊗◌, ◌⊞◌, ◌⊙◌}
use wsts.Curve.Algebra.{module_laws, one-mul, neg-mul, zero-smul, plus-origin}
use wsts.Common.{PublicNonce, SignatureShare, from}
use wsts.Compute.{id, lambda, binding, bound, challenge, intermediate}
use wsts.Compute.Interpolation.{evaluate}
use wsts.V1.Party.{
  Party, sign, sign_precomputed, sign_precomputed_with_tweak, turned, commitment_response,
}
use wsts.V1.Aggregator.{round_of, sign_of, ids_of}
use wsts.V1.Tally.{due, failing}

module _ ⦃c : Curve⦄ where
  pub turned-sign : (t : Scalar) (p : Point) (x : Scalar) → turned t p x ≡ sign_of t p ⊗ x
  turned-sign t p x = elim (c.scalar_discrete t c.zero) [
    | yes zero ↦ rw (if_pos _ zero, if_pos _ zero) (sym (one-mul x))
    | no other ↦
        rw (if_neg _ other, if_neg _ other)
          (elim (Bool-cases (c.has_even_y p)) [
            | inl even ↦ rw even (sym (one-mul x))
            | inr odd ↦ rw odd (sym (neg-mul c.one x ∙ ap c.neg (one-mul x)))
          ])
  ]

  -- The nonce that a party is bound to.
  abbrev pub bound_nonce : Bytes → List PublicNonce → Party → Point
  bound_nonce msg nonces p = bound (from p.nonce, binding (id p.id) nonces msg)

  share-eq :
      (r k d e b h x l : Scalar)
      → (r ⊗ (d ⊕ e ⊗ b) ⊕ k ⊗ (h ⊗ x ⊗ l)) ⊙ G ≡ r ⊙ (d ⊙ G ⊞ b ⊙ e ⊙ G) ⊞ k ⊙ (l ⊗ h) ⊙ x ⊙ G
  share-eq r k d e b h x l = simp module_laws

  -- The share of a party whose private key belongs to the group polynomial answers for the party.
  pub share-due :
      (self : Party) (msg : Bytes) (signers : List ℕ) (nonces : List PublicNonce) (r : Point)
      (t : Scalar) (group : List Point)
      → self.private_key ⊙ G ≡ evaluate (id self.id) group
      → (sign_precomputed_with_tweak self msg signers nonces r t).z_i ⊙ G
        ≡ due
            (round_of group signers (self.group_key ⊞ t ⊙ G) r msg t)
            (sign_precomputed_with_tweak self msg signers nonces r t)
            (bound_nonce msg nonces self)
  unfolding sign_precomputed_with_tweak commitment_response from
  share-due self msg signers nonces r t group h =
      ap₂ (λ a b. (a ⊕ b) ⊙ G) (turned-sign t r (commitment_response self msg nonces))
        (turned-sign t (self.group_key ⊞ t ⊙ G)
          (challenge (self.group_key ⊞ t ⊙ G) r msg ⊗ self.private_key ⊗ lambda self.id signers))
      ∙ share-eq (sign_of t r) (sign_of t (self.group_key ⊞ t ⊙ G)) self.nonce.d self.nonce.e
          (binding (id self.id) nonces msg) (challenge (self.group_key ⊞ t ⊙ G) r msg)
          self.private_key (lambda self.id signers)
      ∙ ap
          (λ p.
            sign_of t r ⊙ bound_nonce msg nonces self
            ⊞ sign_of t (self.group_key ⊞ t ⊙ G)
              ⊙ (lambda self.id signers ⊗ challenge (self.group_key ⊞ t ⊙ G) r msg)
              ⊙ p)
          h

  -- The parties hold keys of one group: their private keys belong to its polynomial, and they know
  -- its key.
  abbrev pub AreHonest : List Point → Point → List Party → Type 0
  AreHonest group key [] = Unit {0}
  AreHonest group key (p ∷ parties) =
      (p.private_key ⊙ G ≡ evaluate (id p.id) group)
      × (p.group_key ≡ key)
      × AreHonest group key parties

  abbrev pub ids : List Party → List ℕ
  ids = map λ p. p.id

  abbrev pub public_nonces : List Party → List PublicNonce
  public_nonces = map λ p. from p.nonce

  -- The shares that the parties sign.
  abbrev pub answers :
      Bytes → List ℕ → List PublicNonce → Point → Scalar → List Party → List SignatureShare
  answers msg signers nonces r t = map λ p. sign_precomputed_with_tweak p msg signers nonces r t

  pub ids_of-answers :
      (msg : Bytes) (signers : List ℕ) (nonces : List PublicNonce) (r : Point) (t : Scalar)
      (parties : List Party)
      → ids_of (answers msg signers nonces r t parties) ≡ ids parties
  unfolding sign_precomputed_with_tweak
  ids_of-answers msg signers nonces r t [] = refl
  ids_of-answers msg signers nonces r t (p ∷ parties) =
      ap (λ is. p.id ∷ is) (ids_of-answers msg signers nonces r t parties)

  -- None of their shares fails.
  pub failing-answers :
      (group : List Point) (key : Point) (msg : Bytes) (signers : List ℕ)
      (nonces : List PublicNonce) (r : Point) (t : Scalar) (parties : List Party)
      → AreHonest group key parties
      → failing
          (round_of group signers (key ⊞ t ⊙ G) r msg t)
          (answers msg signers nonces r t parties)
          (map bound
            (zip (public_nonces parties) (map (λ i. binding (id i) nonces msg) (ids parties))))
        ≡ []
  unfolding failing
  failing-answers group key msg signers nonces r t [] honest = refl
  failing-answers group key msg signers nonces r t (p ∷ parties) (holds, knows, honest) =
      rw (if_pos _ answers_for) (failing-answers group key msg signers nonces r t parties honest)
    where
      answers_for :
          (sign_precomputed_with_tweak p msg signers nonces r t).z_i ⊙ G
          ≡ due
              (round_of group signers (key ⊞ t ⊙ G) r msg t)
              (sign_precomputed_with_tweak p msg signers nonces r t)
              (bound_nonce msg nonces p)
      answers_for =
          share-due p msg signers nonces r t group holds
          ∙ ap
              (λ k.
                due (round_of group signers (k ⊞ t ⊙ G) r msg t)
                  (sign_precomputed_with_tweak p msg signers nonces r t) (bound_nonce msg nonces p))
              knows

  -- `sign` is `sign_precomputed` with the nonce that it computes itself.
  pub sign-precomputed :
      (self : Party) (msg : Bytes) (signers : List ℕ) (nonces : List PublicNonce)
      → sign self msg signers nonces
        ≡ sign_precomputed self msg signers nonces (intermediate msg signers nonces).1
  unfolding sign sign_precomputed sign_precomputed_with_tweak commitment_response
  sign-precomputed self msg signers nonces =
      ap₂ (λ a b. record { id = self.id; z_i = a ⊕ b; key_ids = self.id ∷ [] })
        (sym (turned-zero r (commitment_response self msg nonces)))
        (ap (λ key. challenge key r msg ⊗ self.private_key ⊗ lambda self.id signers) untweaked
          ∙ sym (
              turned-zero (self.group_key ⊞ c.zero ⊙ G) (
                challenge (self.group_key ⊞ c.zero ⊙ G) r msg
                ⊗ self.private_key
                ⊗ lambda self.id signers)))
      ∙ ap (sign_precomputed_with_tweak self msg signers nonces r) (sym c.of_u32_zero)
    where
      r : Point
      r = (intermediate msg signers nonces).1

      turned-zero : (p : Point) (x : Scalar) → turned c.zero p x ≡ x
      turned-zero p x =
          if_pos (c.scalar_discrete c.zero c.zero) refl x (if c.has_even_y p then x else c.neg x)

      untweaked : self.group_key ≡ self.group_key ⊞ c.zero ⊙ G
      untweaked = sym (ap (λ p. self.group_key ⊞ p) (zero-smul G) ∙ plus-origin self.group_key)

  -- The shares of `sign` are those for no tweak.
  pub map-sign :
      (msg : Bytes) (signers : List ℕ) (nonces : List PublicNonce) (parties : List Party)
      → map (λ p. sign p msg signers nonces) parties
        ≡ answers msg signers nonces (intermediate msg signers nonces).1 c.zero parties
  unfolding sign_precomputed
  map-sign msg signers nonces [] = refl
  map-sign msg signers nonces (p ∷ parties) =
      ap₂ (λ share shares. share ∷ shares)
        (sign-precomputed p msg signers nonces
          ∙ ap
              (sign_precomputed_with_tweak p msg signers nonces (intermediate msg signers nonces).1)
              c.of_u32_zero)
        (map-sign msg signers nonces parties)
