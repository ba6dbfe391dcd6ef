-- ===== src/V1/Aggregator.antt =====
-- src/v1.rs: the aggregator, which checks each share against the public key of its party.
use wsts.Prelude.{
  ℕ, zero, suc, Bool, true, false, ◌==◌, ite, Option, none, some, List, [], ◌∷◌, ◌++◌, map, length,
  get_elem?, is_empty, if◌then◌else◌,
}
use wsts.Prelude.Outcome.{Outcome, ok, err, panic, ◌>>=◌, ◌>>◌, value, require, try_filter}
use wsts.Prelude.Run.{Run}
use wsts.Curve.{Curve, Scalar, Point, Bytes, G, ◌⊕◌, ◌⊗◌, ◌⊞◌, ◌⊙◌}
use wsts.Common
use wsts.Common.{PolyCommitment, PublicNonce, SignatureShare, Signature}
use wsts.Common.Verify.{verify}
use wsts.Compute.{id, poly, lambda, challenge, intermediate, tweak}
use wsts.Errors.{
  AggregatorError, bad_poly_commitment_len, bad_poly_commitments, bad_nonce_len, bad_party_keys,
  bad_party_sigs, bad_group_sig,
}
use wsts.Taproot
use wsts.Taproot.{SchnorrProof}

module _ ⦃c : Curve⦄ where
  pub record Aggregator : Type 0 where
    pub num_keys : ℕ
    pub threshold : ℕ
    pub poly : List Point

  unfoldable pub new : ℕ → ℕ → Aggregator
  new num_keys threshold = record { num_keys = num_keys; threshold = threshold; poly = [] }

  -- The sum of the points at one index of all the polynomials.
  unfoldable pub column : ℕ → List PolyCommitment → Point → Option Point
  column i [] acc = some acc
  column i (comm ∷ comms) acc = elim (get_elem? comm.poly i) [
    | none ↦ none
    | some p ↦ column i comms (acc ⊞ p)
  ]

  -- `for i in 0..poly.capacity()`, the capacity being the threshold.
  unfoldable pub columns : ℕ → ℕ → List PolyCommitment → Outcome AggregatorError (List Point)
  unfolding column
  columns i zero comms = ok []
  columns i (suc n) comms = do
    p ← value (column i comms c.origin)
    ps ← columns (suc i) n comms
    ok (p ∷ ps)

  abbrev pub bad_commitment : PolyCommitment → Outcome AggregatorError Bool
  bad_commitment comm = do good ← value (Common.verify comm); ok (if good then false else true)

  unfoldable pub bad_commitments : List PolyCommitment → Outcome AggregatorError (List Scalar)
  bad_commitments comms = do
    bad ← try_filter bad_commitment comms
    ok (map (λ comm. comm.id.id) bad)

  -- The polynomial that a successful `init` stores.
  unfoldable pub group_poly :
      Aggregator → List PolyCommitment → Outcome AggregatorError (List Point)
  unfolding bad_commitments columns
  group_poly self comms = do
    require (length comms == self.num_keys) (bad_poly_commitment_len self.num_keys (length comms))
    bad ← bad_commitments comms
    require (is_empty bad) (bad_poly_commitments bad)
    columns 0 self.threshold comms

  abbrev pub store : Aggregator → Outcome AggregatorError (List Point) → Aggregator
  store self (ok poly) = record self { poly = poly }
  store self other = self

  unfoldable pub init : List PolyCommitment → Run Aggregator AggregatorError (Unit {0})
  unfolding group_poly
  init comms self = let r = group_poly self comms in (store self r, r >>= λ _. ok tt)

  -- The sign that a tweak puts on a point's logarithm.
  abbrev pub sign_of : Scalar → Point → Scalar
  sign_of tweak p =
      ite (c.scalar_discrete tweak c.zero) c.one (if c.has_even_y p then c.one else c.neg c.one)

  -- The values that the loop over the shares reads.
  pub record Round : Type 0 where
    pub group : List Point
    pub signers : List ℕ
    pub c_value : Scalar
    pub r_sign : Scalar
    pub cx_sign : Scalar

  -- The values that the loop changes.
  pub record Tally : Type 0 where
    pub z : Scalar
    pub bad_keys : List ℕ
    pub bad_sigs : List ℕ

  abbrev pub public_key : Option Point → Point
  public_key none = c.origin
  public_key (some p) = p

  abbrev pub flag : Option Point → ℕ → List ℕ
  flag none id = id ∷ []
  flag (some a) id = []

  -- What `z_i * G` has to be.
  unfoldable pub expected : Round → SignatureShare → Point → Point
  expected round share r_i =
      round.r_sign ⊙ r_i
      ⊞ round.cx_sign
        ⊙ (lambda share.id round.signers ⊗ round.c_value)
        ⊙ public_key (poly (id share.id) round.group)

  unfoldable pub check_share : Round → Tally → SignatureShare → Point → Tally
  unfolding expected
  check_share round tally share r_i = record {
    z = tally.z ⊕ share.z_i;
    bad_keys = tally.bad_keys ++ flag (poly (id share.id) round.group) share.id;
    bad_sigs =
        ite (c.point_discrete (share.z_i ⊙ G) (expected round share r_i)) tally.bad_sigs
          (tally.bad_sigs ++ share.id ∷ []);
  }

  -- Panics where `Rs[i]` is out of range.
  unfoldable pub check_shares :
      Round → Tally → List SignatureShare → List Point → Outcome AggregatorError Tally
  check_shares round tally [] rs = ok tally
  check_shares round tally (share ∷ shares) [] = panic
  check_shares round tally (share ∷ shares) (r ∷ rs) =
      check_shares round (check_share round tally share r) shares rs

  unfoldable pub verdict :
      Tally → Point → Point → Scalar → Outcome AggregatorError (Point × Signature)
  verdict tally key r z =
      if is_empty tally.bad_sigs
      then ok (key, record { R = r; z = z })
      else if is_empty tally.bad_keys
      then err (bad_party_sigs tally.bad_sigs)
      else err (bad_party_keys tally.bad_keys)

  abbrev pub round_of : List Point → List ℕ → Point → Point → Bytes → Scalar → Round
  round_of group signers key r msg tweak = record {
    group = group;
    signers = signers;
    c_value = challenge key r msg;
    r_sign = sign_of tweak r;
    cx_sign = sign_of tweak key;
  }

  abbrev pub no_tally : Tally
  no_tally = record { z = c.zero; bad_keys = []; bad_sigs = [] }

  abbrev pub ids_of : List SignatureShare → List ℕ
  ids_of = map λ s. s.id

  unfoldable pub sign_with_tweak :
      Aggregator
      → Bytes
      → List PublicNonce
      → List SignatureShare
      → Scalar
      → Outcome AggregatorError (Point × Signature)
  unfolding check_shares check_share verdict
  sign_with_tweak self msg nonces sig_shares tweak = do
    require (length nonces == length sig_shares) (bad_nonce_len (length nonces) (length sig_shares))
    let signers = ids_of sig_shares
    let rs = intermediate msg signers nonces
    aggregate_public_key ← value (get_elem? self.poly 0)
    let key = aggregate_public_key ⊞ tweak ⊙ G
    let round = round_of self.poly signers key rs.1 msg tweak
    tally ← check_shares round no_tally sig_shares rs.0
    verdict tally key rs.1 (
        ite (c.scalar_discrete tweak c.zero) tally.z
          (tally.z ⊕ round.cx_sign ⊗ round.c_value ⊗ tweak))

  unfoldable pub sign :
      Aggregator
      → Bytes
      → List PublicNonce
      → List SignatureShare
      → List ℕ
      → Outcome AggregatorError Signature
  sign self msg nonces sig_shares key_ids = do
    signed ← sign_with_tweak self msg nonces sig_shares c.zero
    require (verify signed.1 signed.0 msg) bad_group_sig
    ok signed.1

  unfoldable pub sign_taproot :
      Aggregator
      → Bytes
      → List PublicNonce
      → List SignatureShare
      → List ℕ
      → Option Bytes
      → Outcome AggregatorError SchnorrProof
  sign_taproot self msg nonces sig_shares key_ids merkle_root = do
    first ← value (get_elem? self.poly 0)
    signed ← sign_with_tweak self msg nonces sig_shares (tweak first merkle_root)
    let proof = Taproot.new signed.1
    require (Taproot.verify proof (c.x signed.0) msg) bad_group_sig
    ok proof
