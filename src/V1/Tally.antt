-- ===== src/V1/Tally.antt =====
-- src/v1.rs: the loop of `Aggregator::sign_with_tweak` over the shares, and the sum of the shares.
use wsts.Prelude.{ℕ, ◌≡◌, sym, ◌∙◌, ite, List, [], ◌∷◌, ◌++◌, length, arith, if_pos, if_neg}
use mathlib.Core.Path.{ap₂}
use mathlib.Core.List.{append-nil, append_assoc}
use wsts.Prelude.Outcome.{ok}
use wsts.Curve.{Curve, Scalar, Point, MultimultSucceeds, G, ◌⊕◌, ◌⊗◌, ◌⊞◌, ◌⊙◌}
use wsts.Curve.Algebra.{
  module_laws, add_assoc, add-zero, zero-smul, add-smul, smul-origin, origin-plus,
}
use wsts.Common.{SignatureShare}
use wsts.Compute.{id, lambda}
use wsts.Compute.Lagrange.{combine}
use wsts.Compute.Interpolation.{evaluate}
use wsts.Compute.Poly.{poly-total, sum_points}
use wsts.V1.Aggregator.{Round, Tally, check_share, check_shares, ids_of}

module _ ⦃c : Curve⦄ where
  -- The sum of the responses.
  unfoldable pub total : List SignatureShare → Scalar
  total [] = c.zero
  total (share ∷ shares) = share.z_i ⊕ total shares

  -- A share answers for its party: its response has the logarithm of the bound nonce and of the
  -- party's public key, which is the value of the group polynomial at the party's id.
  abbrev pub due : Round → SignatureShare → Point → Point
  due round share r_i =
      round.r_sign ⊙ r_i
      ⊞ round.cx_sign
        ⊙ (lambda share.id round.signers ⊗ round.c_value)
        ⊙ evaluate (id share.id) round.group

  -- The ids of the shares that do not.
  unfoldable pub failing : Round → List SignatureShare → List Point → List ℕ
  failing round [] rs = []
  failing round (share ∷ shares) [] = []
  failing round (share ∷ shares) (r ∷ rs) =
      ite (c.point_discrete (share.z_i ⊙ G) (due round share r)) (failing round shares rs)
        (share.id ∷ failing round shares rs)

  module _ (works : MultimultSucceeds) where
    tally_step :
        (round : Round) (tally : Tally) (share : SignatureShare) (r : Point)
        → check_share round tally share r ≡ record {
          z = tally.z ⊕ share.z_i;
          bad_keys = tally.bad_keys;
          bad_sigs =
              ite
                (c.point_discrete (share.z_i ⊙ G) (due round share r))
                tally.bad_sigs
                (tally.bad_sigs ++ share.id ∷ []);
        }
    unfolding check_share
    tally_step round tally share r =
        rw (poly-total works (id share.id) round.group, append-nil tally.bad_keys)

    -- The loop does not panic, sums the responses and lists the failing shares.
    pub check_shares-failing :
        (round : Round) (tally : Tally) (shares : List SignatureShare) (rs : List Point)
        → length rs ≡ length shares
        → check_shares round tally shares rs
          ≡ ok (record {
            z = tally.z ⊕ total shares;
            bad_keys = tally.bad_keys;
            bad_sigs = tally.bad_sigs ++ failing round shares rs;
          })
    unfolding check_shares total failing
    check_shares-failing round tally [] rs h = rw (add-zero tally.z, append-nil tally.bad_sigs)
    check_shares-failing round tally (share ∷ shares) [] h = absurd (omega arith)
    check_shares-failing round tally (share ∷ shares) (r ∷ rs) h =
        rw (tally_step round tally share r)
          (elim (c.point_discrete (share.z_i ⊙ G) (due round share r)) [
            | yes good ↦
                let next : Tally = record {
                  z = tally.z ⊕ share.z_i;
                  bad_keys = tally.bad_keys;
                  bad_sigs = tally.bad_sigs;
                } in
                rw (
                  if_pos _ good,
                  if_pos _ good,
                  check_shares-failing round next shares rs (omega arith),
                  add_assoc tally.z share.z_i (total shares),
                )
            | no bad ↦
                let next : Tally = record {
                  z = tally.z ⊕ share.z_i;
                  bad_keys = tally.bad_keys;
                  bad_sigs = tally.bad_sigs ++ share.id ∷ [];
                } in
                rw (
                  if_neg _ bad,
                  if_neg _ bad,
                  check_shares-failing round next shares rs (omega arith),
                  add_assoc tally.z share.z_i (total shares),
                  append_assoc tally.bad_sigs (share.id ∷ []) (failing round shares rs),
                )
          ])

  due-plus :
      (round : Round) (share : SignatureShare) (r rest sum : Point)
      → due round share r ⊞ (round.r_sign ⊙ rest ⊞ round.cx_sign ⊙ round.c_value ⊙ sum)
        ≡ round.r_sign ⊙ (r ⊞ rest)
          ⊞ round.cx_sign
            ⊙ round.c_value
            ⊙ (lambda share.id round.signers ⊙ evaluate (id share.id) round.group ⊞ sum)
  due-plus round share r rest sum = simp module_laws

  -- If no share fails, the sum of the responses has the logarithm that the group answers for.
  pub total-due :
      (round : Round) (shares : List SignatureShare) (rs : List Point)
      → length rs ≡ length shares
      → failing round shares rs ≡ []
      → total shares ⊙ G
        ≡ round.r_sign ⊙ sum_points rs
          ⊞ round.cx_sign
            ⊙ round.c_value
            ⊙ combine round.signers (ids_of shares) (λ i. evaluate (id i) round.group)
  unfolding total failing combine sum_points
  total-due round [] [] l h =
      rw
        (
          zero-smul G,
          smul-origin round.r_sign,
          smul-origin round.c_value,
          smul-origin round.cx_sign,
        )
        (sym (origin-plus c.origin))
  total-due round [] (r ∷ rs) l h = absurd (omega arith)
  total-due round (share ∷ shares) [] l h = absurd (omega arith)
  total-due round (share ∷ shares) (r ∷ rs) l h =
      elim (c.point_discrete (share.z_i ⊙ G) (due round share r)) [
        | yes good ↦
            add-smul share.z_i (total shares) G
            ∙ ap₂ (λ s t. s ⊞ t) good
                (total-due round shares rs (omega arith) (rw (if_pos _ good) at h))
            ∙ due-plus round share r (sum_points rs) _
        | no bad ↦ cc (rw (if_neg _ bad) at h)
      ]
