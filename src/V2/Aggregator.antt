-- ===== src/V2/Aggregator.antt =====
-- src/v2.rs: the aggregator, which checks each share against all the keys of its party.
use wsts.Prelude.{ℕ, ◌==◌, ite, Option, List, [], ◌∷◌, ◌++◌, length, get_elem?, is_empty}
use wsts.Prelude.Outcome.{Outcome, ok, panic, ◌>>=◌, ◌>>◌, value, require}
use wsts.Prelude.Run.{Run}
use wsts.Curve.{Curve, Scalar, Point, Bytes, G, ◌⊕◌, ◌⊗◌, ◌⊞◌, ◌⊙◌}
use wsts.Common.{PolyCommitment, PublicNonce, SignatureShare, Signature}
use wsts.Common.Verify.{verify}
use wsts.Compute.{id, poly, lambda, challenge, intermediate, tweak}
use wsts.Errors.{AggregatorError, bad_poly_commitments, bad_nonce_len, bad_group_sig}
use wsts.Taproot
use wsts.Taproot.{SchnorrProof}
use wsts.V1.Aggregator.{
  Tally, no_tally, public_key, flag, verdict, sign_of, ids_of, columns, bad_commitments,
}

module _ ⦃c : Curve⦄ where
  pub record Aggregator : Type 0 where
    pub num_keys : ℕ
    pub threshold : ℕ
    pub poly : List Point

  unfoldable pub new : ℕ → ℕ → Aggregator
  new num_keys threshold = record { num_keys = num_keys; threshold = threshold; poly = [] }

  -- The polynomial that a successful `init` stores.
  unfoldable pub group_poly :
      Aggregator → List PolyCommitment → Outcome AggregatorError (List Point)
  unfolding bad_commitments columns
  group_poly self comms = do
    bad ← bad_commitments comms
    require (is_empty bad) (bad_poly_commitments bad)
    columns 0 self.threshold comms

  abbrev pub store : Aggregator → Outcome AggregatorError (List Point) → Aggregator
  store self (ok poly) = record self { poly = poly }
  store self other = self

  unfoldable pub init : List PolyCommitment → Run Aggregator AggregatorError (Unit {0})
  unfolding group_poly
  init comms self = let r = group_poly self comms in (store self r, r >>= λ _. ok tt)

  -- The values that the loop over the shares reads.
  pub record Round : Type 0 where
    pub group : List Point
    pub key_ids : List ℕ
    pub c_value : Scalar
    pub r_sign : Scalar
    pub cx_sign : Scalar

  -- The loop over the keys of one share.
  unfoldable pub key_points : Round → List ℕ → Point → Point
  key_points round [] cx = cx
  key_points round (key_id ∷ key_ids) cx = key_points round key_ids (
      cx
      ⊞ (lambda key_id round.key_ids ⊗ round.c_value) ⊙ public_key (poly (id key_id) round.group))

  unfoldable pub flags : Round → ℕ → List ℕ → List ℕ
  flags round party [] = []
  flags round party (key_id ∷ key_ids) =
      flag (poly (id key_id) round.group) party ++ flags round party key_ids

  unfoldable pub check_share : Round → Tally → SignatureShare → Point → Tally
  check_share round tally share r_i = record {
    z = tally.z ⊕ share.z_i;
    bad_keys = tally.bad_keys ++ flags round share.id share.key_ids;
    bad_sigs =
        ite
          (c.point_discrete (share.z_i ⊙ G)
            (round.r_sign ⊙ r_i ⊞ round.cx_sign ⊙ key_points round share.key_ids c.origin))
          tally.bad_sigs (tally.bad_sigs ++ share.id ∷ []);
  }

  -- Panics where `Rs[i]` is out of range.
  unfoldable pub check_shares :
      Round → Tally → List SignatureShare → List Point → Outcome AggregatorError Tally
  check_shares round tally [] rs = ok tally
  check_shares round tally (share ∷ shares) [] = panic
  check_shares round tally (share ∷ shares) (r ∷ rs) =
      check_shares round (check_share round tally share r) shares rs

  abbrev pub round_of : List Point → List ℕ → Point → Point → Bytes → Scalar → Round
  round_of group key_ids key r msg tweak = record {
    group = group;
    key_ids = key_ids;
    c_value = challenge key r msg;
    r_sign = sign_of tweak r;
    cx_sign = sign_of tweak key;
  }

  unfoldable pub sign_with_tweak :
      Aggregator
      → Bytes
      → List PublicNonce
      → List SignatureShare
      → List ℕ
      → Scalar
      → Outcome AggregatorError (Point × Signature)
  unfolding check_shares check_share
  sign_with_tweak self msg nonces sig_shares key_ids tweak = do
    require (length nonces == length sig_shares) (bad_nonce_len (length nonces) (length sig_shares))
    let rs = intermediate msg (ids_of sig_shares) nonces
    aggregate_public_key ← value (get_elem? self.poly 0)
    let key = aggregate_public_key ⊞ tweak ⊙ G
    let round = round_of self.poly key_ids key rs.1 msg tweak
    tally ← check_shares round no_tally sig_shares rs.0
    verdict tally key rs.1 (tally.z ⊕ round.cx_sign ⊗ round.c_value ⊗ tweak)

  unfoldable pub sign :
      Aggregator
      → Bytes
      → List PublicNonce
      → List SignatureShare
      → List ℕ
      → Outcome AggregatorError Signature
  sign self msg nonces sig_shares key_ids = do
    signed ← sign_with_tweak self msg nonces sig_shares key_ids c.zero
    require (verify signed.1 signed.0 msg) bad_group_sig
    ok signed.1

  unfoldable pub sign_taproot :
      Aggregator
      → Bytes
      → List PublicNonce
      → List SignatureShare
      → List ℕ
      → Option Bytes
      → Outcome AggregatorError SchnorrProof
  sign_taproot self msg nonces sig_shares key_ids merkle_root = do
    first ← value (get_elem? self.poly 0)
    signed ← sign_with_tweak self msg nonces sig_shares key_ids (tweak first merkle_root)
    let proof = Taproot.new signed.1
    require (Taproot.verify proof (c.x signed.0) msg) bad_group_sig
    ok proof
