-- ===== src/V2/Party.antt =====
-- src/v2.rs: a party with several keys.
use wsts.Prelude.{
  ℕ, ◌+◌, ◌-◌, ◌%◌, ◌^◌, Option, none, some, List, [], ◌∷◌, map, range, get_elem?, ◌>>=◌,
}
use wsts.Prelude.Maps.{Map, lookup}
use wsts.Curve.{Curve, Scalar, Point, Polynomial, Rng, Bytes, G, ◌⊕◌, ◌⊗◌, ◌⊞◌, ◌⊙◌}
use wsts.Schnorr
use wsts.Common
use wsts.Common.{PolyCommitment, Nonce, PublicNonce, SignatureShare}
use wsts.Compute
use wsts.Vss.{random_poly}
use wsts.V1.Party.{turned}

module _ ⦃c : Curve⦄ where
  pub record PartyState : Type 0 where
    pub party_id : ℕ
    pub key_ids : List ℕ
    pub num_keys : ℕ
    pub num_parties : ℕ
    pub threshold : ℕ
    pub polynomial : Polynomial
    pub private_keys : Map Scalar
    pub group_key : Point

  pub record Party : Type 0 where
    pub party_id : ℕ
    pub key_ids : List ℕ
    pub num_keys : ℕ
    pub num_parties : ℕ
    pub threshold : ℕ
    pub f : Polynomial
    pub private_keys : Map Scalar
    pub group_key : Point
    pub nonce : Nonce

  -- `threshold - 1` wraps below 0.
  unfoldable pub new : ℕ → List ℕ → ℕ → ℕ → ℕ → Rng → Party × Rng
  new party_id key_ids num_parties num_keys threshold rng =
      let (f, rng') = random_poly ((threshold + 2 ^ 32 - 1) % 2 ^ 32) rng in
      (
        record {
          party_id = party_id;
          key_ids = key_ids;
          num_keys = num_keys;
          num_parties = num_parties;
          threshold = threshold;
          f = f;
          private_keys = [];
          group_key = c.origin;
          nonce = Common.zero;
        },
        rng',
      )

  unfoldable pub load : PartyState → Party
  load state = record {
    party_id = state.party_id;
    key_ids = state.key_ids;
    num_keys = state.num_keys;
    num_parties = state.num_parties;
    threshold = state.threshold;
    f = state.polynomial;
    private_keys = state.private_keys;
    group_key = state.group_key;
    nonce = Common.zero;
  }

  unfoldable pub save : Party → PartyState
  save self = record {
    party_id = self.party_id;
    key_ids = self.key_ids;
    num_keys = self.num_keys;
    num_parties = self.num_parties;
    threshold = self.threshold;
    polynomial = self.f;
    private_keys = self.private_keys;
    group_key = self.group_key;
  }

  unfoldable pub gen_nonce : Party → Rng → Party × PublicNonce × Rng
  gen_nonce self rng =
      let (nonce, rng') = Common.random rng in
      (record self { nonce = nonce }, Common.from nonce, rng')

  abbrev pub commitment : Party → Rng → Option Scalar → Option (PolyCommitment × Rng)
  commitment self rng none = none
  commitment self rng (some constant) =
      let (id, rng') = Schnorr.new (Compute.id self.party_id) constant rng in
      some (record { id = id; poly = map (λ a. a ⊙ G) (c.coefficients self.f) }, rng')

  -- `None` where the polynomial has no coefficient.
  unfoldable pub get_poly_commitment : Party → Rng → Option (PolyCommitment × Rng)
  get_poly_commitment self rng = commitment self rng (get_elem? (c.coefficients self.f) 0)

  unfoldable pub get_shares : Party → Map Scalar
  get_shares self = map (λ i. (i, c.eval self.f (Compute.id i))) (range self.num_keys)

  unfoldable pub reset_polys : Party → Rng → Party × Rng
  reset_polys self rng =
      let (f, rng') = random_poly ((self.threshold + 2 ^ 32 - 1) % 2 ^ 32) rng in
      (record self { f = f }, rng')

  -- The sum over this party's keys; `None` where one has no private key.
  unfoldable pub key_sum : Party → Scalar → List ℕ → List ℕ → Scalar → Option Scalar
  key_sum self h key_ids [] cx = some cx
  key_sum self h key_ids (key_id ∷ mine) cx = elim (lookup key_id self.private_keys) [
    | none ↦ none
    | some key ↦ key_sum self h key_ids mine (cx ⊕ h ⊗ key ⊗ Compute.lambda key_id key_ids)
  ]

  unfoldable pub sign_with_tweak :
      Party → Bytes → List ℕ → List ℕ → List PublicNonce → Scalar → Option SignatureShare
  unfolding key_sum
  sign_with_tweak self msg party_ids key_ids nonces tweak = do
    let key = self.group_key ⊞ tweak ⊙ G
    let sum = (Compute.intermediate msg party_ids nonces).1
    let h = Compute.challenge key sum msg
    let r =
        turned tweak sum
          (self.nonce.d ⊕ self.nonce.e ⊗ Compute.binding (Compute.id self.party_id) nonces msg)
    cx ← key_sum self h key_ids self.key_ids c.zero
    some (record { id = self.party_id; z_i = r ⊕ turned tweak key cx; key_ids = self.key_ids })

  unfoldable pub sign : Party → Bytes → List ℕ → List ℕ → List PublicNonce → Option SignatureShare
  unfolding sign_with_tweak
  sign self msg party_ids key_ids nonces =
      sign_with_tweak self msg party_ids key_ids nonces (c.of_u32 0)

  unfoldable pub sign_taproot :
      Party → Bytes → List ℕ → List ℕ → List PublicNonce → Option Bytes → Option SignatureShare
  unfolding sign_with_tweak
  sign_taproot self msg signer_ids key_ids nonces merkle_root =
      sign_with_tweak self msg signer_ids key_ids nonces (Compute.tweak self.group_key merkle_root)
