-- ===== src/V1/Signer.antt =====
-- src/v1.rs: a signer, which bundles the parties of its key ids.
use wsts.Prelude.{
  ℕ, Option, none, some, List, [], ◌∷◌, map, get_elem?, is_empty, ◌>>=◌, if◌then◌else◌,
}
use wsts.Prelude.Maps.{Map, lookup, insert}
use wsts.Prelude.Outcome.{Outcome, ok, err, panic}
use wsts.Prelude.Run.{Run}
use wsts.Curve.{Curve, Scalar, Point, Rng, Bytes}
use wsts.Common.{PolyCommitment, PublicNonce, SignatureShare}
use wsts.Compute.{aggregate_nonce, intermediate, tweak}
use wsts.Errors.{DkgError}
use wsts.V1.Party
use wsts.V1.Party.{Party, PartyState, sign_precomputed, sign_precomputed_with_tweak, compute_secret}

module _ ⦃c : Curve⦄ where
  pub record SignerState : Type 0 where
    pub id : ℕ
    pub num_keys : ℕ
    pub group_key : Point
    pub parties : Map PartyState

  pub record Signer : Type 0 where
    pub id : ℕ
    pub num_keys : ℕ
    pub group_key : Point
    pub parties : List Party

  unfoldable pub new_parties : List ℕ → ℕ → ℕ → Rng → List Party × Rng
  new_parties [] num_keys threshold rng = ([], rng)
  new_parties (key_id ∷ key_ids) num_keys threshold rng =
      let (party, rng') = Party.new key_id num_keys threshold rng in
      let (parties, rng'') = new_parties key_ids num_keys threshold rng' in (party ∷ parties, rng'')

  unfoldable pub new : ℕ → List ℕ → ℕ → ℕ → Rng → Signer × Rng
  unfolding new_parties
  new id key_ids num_keys threshold rng =
      let (parties, rng') = new_parties key_ids num_keys threshold rng in
      (record { id = id; num_keys = num_keys; group_key = c.origin; parties = parties }, rng')

  unfoldable pub load : SignerState → Signer
  load state = record {
    id = state.id;
    num_keys = state.num_keys;
    group_key = state.group_key;
    parties = map (λ e. Party.load e.0 state.num_keys state.group_key e.1) state.parties;
  }

  -- The map of the parties' states, `insert`ed one by one.
  unfoldable pub save_parties : List Party → Map PartyState → Map PartyState
  save_parties [] states = states
  save_parties (party ∷ parties) states =
      save_parties parties (insert party.id (Party.save party) states)

  unfoldable pub save : Signer → SignerState
  save self = record {
    id = self.id;
    num_keys = self.num_keys;
    group_key = self.group_key;
    parties = save_parties self.parties [];
  }

  unfoldable pub get_key_ids : Signer → List ℕ
  get_key_ids self = map (λ p. p.id) self.parties

  unfoldable pub commitments_of : List Party → Rng → Option (List PolyCommitment × Rng)
  commitments_of [] rng = some ([], rng)
  commitments_of (party ∷ parties) rng = do
    made ← Party.get_poly_commitment party rng
    rest ← commitments_of parties made.1
    some (made.0 ∷ rest.0, rest.1)

  unfoldable pub get_poly_commitments : Signer → Rng → Option (List PolyCommitment × Rng)
  unfolding commitments_of
  get_poly_commitments self rng = commitments_of self.parties rng

  unfoldable pub reset_parties : List Party → Rng → Option (List Party × Rng)
  reset_parties [] rng = some ([], rng)
  reset_parties (party ∷ parties) rng = do
    made ← Party.reset_poly party rng
    rest ← reset_parties parties made.1
    some (made.0 ∷ rest.0, rest.1)

  unfoldable pub reset_polys : Signer → Rng → Option (Signer × Rng)
  unfolding reset_parties
  reset_polys self rng = do
    made ← reset_parties self.parties rng
    some (record self { parties = made.0 }, made.1)

  unfoldable pub shares_of : List Party → Map (Map Scalar) → Map (Map Scalar)
  shares_of [] shares = shares
  shares_of (party ∷ parties) shares =
      shares_of parties (insert party.id (Party.get_shares party) shares)

  unfoldable pub get_shares : Signer → Map (Map Scalar)
  unfolding shares_of
  get_shares self = shares_of self.parties []

  -- The shares for one key, by their sender; `None` where a sender has none for it.
  unfoldable pub key_shares : ℕ → Map (Map Scalar) → Map Scalar → Option (Map Scalar)
  key_shares key_id [] shares = some shares
  key_shares key_id ((sender, sent) ∷ private_shares) shares = do
    s ← lookup key_id sent
    key_shares key_id private_shares (insert sender s shares)

  -- The errors so far, with a party's error if it has one.
  abbrev pub note : ℕ → Outcome DkgError (Unit {0}) → Map DkgError → Option (Map DkgError)
  note key_id (ok u) errors = some errors
  note key_id (err e) errors = some (insert key_id e errors)
  note key_id panic errors = none

  abbrev with_key :
      Party → List PolyCommitment → Option (Map Scalar) → Party × Outcome DkgError (Unit {0})
  with_key party polys none = (party, panic)
  with_key party polys (some shares) = compute_secret shares polys party

  -- One party's turn: what it leaves of it, and its result.
  unfoldable pub compute_one :
      Map (Map Scalar) → List PolyCommitment → Party → Party × Outcome DkgError (Unit {0})
  compute_one private_shares polys party =
      with_key party polys (key_shares party.id private_shares [])

  -- The parties after their turns, and their errors; no errors at all after a panic.
  unfoldable pub compute_all :
      Map (Map Scalar)
      → List PolyCommitment
      → List Party
      → Map DkgError
      → List Party × Option (Map DkgError)
  compute_all private_shares polys [] errors = ([], some errors)
  compute_all private_shares polys (party ∷ parties) errors =
      let r = compute_one private_shares polys party in
      elim (note party.id r.1 errors) [
        | none ↦ (r.0 ∷ parties, none)
        | some errors' ↦
            let rest = compute_all private_shares polys parties errors' in (r.0 ∷ rest.0, rest.1)
      ]

  abbrev pub errors_result : Option (Map DkgError) → Outcome (Map DkgError) (Unit {0})
  errors_result none = panic
  errors_result (some errors) = if is_empty errors then ok tt else err errors

  unfoldable pub compute_secrets :
      Map (Map Scalar) → List PolyCommitment → Run Signer (Map DkgError) (Unit {0})
  compute_secrets private_shares polys self =
      let r = compute_all private_shares polys self.parties [] in
      (record self { parties = r.0 }, errors_result r.1)

  unfoldable pub gen_all : List Party → Rng → List Party × List PublicNonce × Rng
  gen_all [] rng = ([], [], rng)
  gen_all (party ∷ parties) rng =
      let (party', nonce, rng') = Party.gen_nonce party rng in
      let (parties', nonces, rng'') = gen_all parties rng' in
      (party' ∷ parties', nonce ∷ nonces, rng'')

  unfoldable pub gen_nonces : Signer → Rng → Signer × List PublicNonce × Rng
  unfolding gen_all
  gen_nonces self rng =
      let (parties, nonces, rng') = gen_all self.parties rng in
      (record self { parties = parties }, nonces, rng')

  unfoldable pub compute_intermediate :
      Bytes → List ℕ → List ℕ → List PublicNonce → List Point × Point
  compute_intermediate msg signer_ids key_ids nonces = intermediate msg key_ids nonces

  unfoldable pub sign :
      Signer → Bytes → List ℕ → List ℕ → List PublicNonce → Option (List SignatureShare)
  sign self msg signer_ids key_ids nonces = do
    r ← aggregate_nonce msg key_ids nonces
    some (map (λ p. sign_precomputed p msg key_ids nonces r) self.parties)

  unfoldable pub sign_taproot :
      Signer
      → Bytes
      → List ℕ
      → List ℕ
      → List PublicNonce
      → Option Bytes
      → Option (List SignatureShare)
  sign_taproot self msg signer_ids key_ids nonces merkle_root = do
    r ← aggregate_nonce msg key_ids nonces
    first ← get_elem? self.parties 0
    let t = tweak first.group_key merkle_root
    some (map (λ p. sign_precomputed_with_tweak p msg key_ids nonces r t) self.parties)
