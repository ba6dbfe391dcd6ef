-- ===== src/V1/Party.antt =====
-- src/v1.rs: a party, its polynomial, nonce and key.
use wsts.Prelude.{
  ℕ, suc, ◌+◌, ◌-◌, ◌%◌, ◌^◌, ite, Option, none, some, List, [], ◌∷◌, map, range, length, get_elem?,
  is_empty, if◌then◌else◌,
}
use wsts.Prelude.Maps.{Map}
use wsts.Prelude.Outcome.{err, require}
use wsts.Prelude.Run.{Run, ◌>>=◌, ◌>>◌, get, modify, lift}
use wsts.Curve.{Curve, Scalar, Point, Polynomial, Rng, Bytes, G, ◌⊕◌, ◌⊗◌, ◌⊞◌, ◌⊙◌}
use wsts.Schnorr
use wsts.Common
use wsts.Common.{PolyCommitment, Nonce, PublicNonce, SignatureShare}
use wsts.Compute
use wsts.Vss.{random_poly}
use wsts.Errors.{DkgError, missing_shares, bad_ids, bad_shares}
use wsts.V1.Dkg.{missing, bad_ids_of, batch, bad_shares_of, add_shares}

module _ ⦃c : Curve⦄ where
  pub record PartyState : Type 0 where
    pub private_key : Scalar
    pub polynomial : Polynomial

  pub record Party : Type 0 where
    pub id : ℕ
    pub public_key : Point
    pub f : Polynomial
    pub n : ℕ
    pub private_key : Scalar
    pub group_key : Point
    pub nonce : Nonce

  -- `t - 1` wraps below 0.
  unfoldable pub new : ℕ → ℕ → ℕ → Rng → Party × Rng
  new id n t rng =
      let (f, rng') = random_poly ((t + 2 ^ 32 - 1) % 2 ^ 32) rng in
      (
        record {
          id = id;
          n = n;
          f = f;
          private_key = c.zero;
          public_key = c.origin;
          group_key = c.origin;
          nonce = Common.zero;
        },
        rng',
      )

  unfoldable pub load : ℕ → ℕ → Point → PartyState → Party
  load id n group_key state = record {
    id = id;
    n = n;
    f = state.polynomial;
    private_key = state.private_key;
    public_key = state.private_key ⊙ G;
    group_key = group_key;
    nonce = Common.zero;
  }

  unfoldable pub save : Party → PartyState
  save self = record { private_key = self.private_key; polynomial = self.f }

  unfoldable pub gen_nonce : Party → Rng → Party × PublicNonce × Rng
  gen_nonce self rng =
      let (nonce, rng') = Common.random rng in
      (record self { nonce = nonce }, Common.from nonce, rng')

  abbrev pub commitment : Party → Rng → Option Scalar → Option (PolyCommitment × Rng)
  commitment self rng none = none
  commitment self rng (some constant) =
      let (id, rng') = Schnorr.new (Compute.id self.id) constant rng in
      some (record { id = id; poly = map (λ a. a ⊙ G) (c.coefficients self.f) }, rng')

  -- `None` where the polynomial has no coefficient, so that `data()[0]` is out of range.
  unfoldable pub get_poly_commitment : Party → Rng → Option (PolyCommitment × Rng)
  get_poly_commitment self rng = commitment self rng (get_elem? (c.coefficients self.f) 0)

  abbrev with_poly : Party → Polynomial × Rng → Party × Rng
  with_poly self r = (record self { f = r.0 }, r.1)

  -- `None` where the length is 0, so that `len() - 1` fits no `u32`.
  unfoldable pub reset_poly : Party → Rng → Option (Party × Rng)
  reset_poly self rng = elim (length (c.coefficients self.f)) [
    | ℕ.zero ↦ none
    | suc t ↦ some (with_poly self (random_poly t rng))
  ]

  unfoldable pub get_shares : Party → Map Scalar
  get_shares self = map (λ i. (i, c.eval self.f (Compute.id i))) (range self.n)

  unfoldable pub compute_secret : Map Scalar → List PolyCommitment → Run Party DkgError (Unit {0})
  compute_secret shares comms = do
    self ← get
    lift (require (is_empty (missing self.n shares)) (missing_shares (missing self.n shares)))
    modify (λ p. record p { private_key = c.zero; group_key = c.origin })
    bad ← lift (bad_ids_of shares comms)
    lift (require (is_empty bad) (bad_ids bad))
    sum ← lift (batch (Compute.id self.id) shares comms)
    ite (c.point_discrete sum c.origin)
        (do
          keys ← lift (add_shares shares comms c.zero c.origin)
          modify
              (λ p. record p { private_key = keys.0; group_key = keys.1; public_key = keys.0 ⊙ G }))
        (do
          wrong ← lift (bad_shares_of (Compute.id self.id) shares comms)
          lift (err (bad_shares wrong)))

  -- `nonce.d + nonce.e * binding`
  unfoldable pub commitment_response : Party → Bytes → List PublicNonce → Scalar
  commitment_response self msg nonces =
      self.nonce.d ⊕ self.nonce.e ⊗ Compute.binding (Compute.id self.id) nonces msg

  abbrev share : Party → Scalar → SignatureShare
  share self z = record { id = self.id; z_i = z; key_ids = self.id ∷ [] }

  unfoldable pub sign : Party → Bytes → List ℕ → List PublicNonce → SignatureShare
  unfolding commitment_response
  sign self msg signers nonces =
      let r = (Compute.intermediate msg signers nonces).1 in
      share self (
        commitment_response self msg nonces
        ⊕ Compute.challenge self.group_key r msg
          ⊗ self.private_key
          ⊗ Compute.lambda self.id signers)

  -- `x` with its sign turned where the tweak is not zero and the point is odd.
  abbrev pub turned : Scalar → Point → Scalar → Scalar
  turned tweak p x = ite (c.scalar_discrete tweak c.zero) x (if c.has_even_y p then x else c.neg x)

  unfoldable pub sign_precomputed_with_tweak :
      Party → Bytes → List ℕ → List PublicNonce → Point → Scalar → SignatureShare
  unfolding commitment_response
  sign_precomputed_with_tweak self msg signers nonces aggregate_nonce tweak =
      let r = turned tweak aggregate_nonce (commitment_response self msg nonces) in
      let key = self.group_key ⊞ tweak ⊙ G in
      let cx = turned tweak key (
        Compute.challenge key aggregate_nonce msg
        ⊗ self.private_key
        ⊗ Compute.lambda self.id signers) in
      share self (r ⊕ cx)

  unfoldable pub sign_precomputed :
      Party → Bytes → List ℕ → List PublicNonce → Point → SignatureShare
  unfolding sign_precomputed_with_tweak
  sign_precomputed self msg signers nonces aggregate_nonce =
      sign_precomputed_with_tweak self msg signers nonces aggregate_nonce (c.of_u32 0)
