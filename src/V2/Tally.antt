-- ===== src/V2/Tally.antt =====
-- src/v2.rs: the loop of `Aggregator::sign_with_tweak` over the shares, and the sum of the shares.
use wsts.Prelude.{
  ℕ, ◌≡◌, refl, sym, ap, ◌∙◌, ite, if_pos, if_neg, List, [], ◌∷◌, ◌++◌, length, arith, flat_map,
}
use mathlib.Core.Path.{ap₂}
use mathlib.Core.List.{append-nil, append_assoc}
use wsts.Prelude.Outcome.{ok}
use wsts.Curve.{Curve, Scalar, Point, MultimultSucceeds, G, ◌⊕◌, ◌⊗◌, ◌⊞◌, ◌⊙◌}
use wsts.Curve.Algebra.{
  module_laws, add_assoc, add-zero, zero-smul, add-smul, smul-origin, origin-plus, plus-origin,
  plus_assoc,
}
use wsts.Common.{SignatureShare}
use wsts.Compute.{id, lambda}
use wsts.Compute.Lagrange.{combine}
use wsts.Compute.Interpolation.{evaluate}
use wsts.Compute.Poly.{poly-total, sum_points}
use wsts.V1.Aggregator.{Tally}
use wsts.V1.Tally.{total}
use wsts.V2.Aggregator.{Round, key_points, flags, check_share, check_shares}

module _ ⦃c : Curve⦄ where
  -- The sum of the public keys of some key ids, weighted for the set of all the ids.
  abbrev pub keys_due : Round → List ℕ → Point
  keys_due round ids = combine round.key_ids ids (λ k. evaluate (id k) round.group)

  -- A share answers for its party: its response has the logarithm of the bound nonce and of the
  -- weighted public keys of the party, which are values of the group polynomial.
  abbrev pub due : Round → SignatureShare → Point → Point
  due round share r_i =
      round.r_sign ⊙ r_i ⊞ round.cx_sign ⊙ round.c_value ⊙ keys_due round share.key_ids

  -- The ids of the shares that do not.
  unfoldable pub failing : Round → List SignatureShare → List Point → List ℕ
  failing round [] rs = []
  failing round (share ∷ shares) [] = []
  failing round (share ∷ shares) (r ∷ rs) =
      ite (c.point_discrete (share.z_i ⊙ G) (due round share r)) (failing round shares rs)
        (share.id ∷ failing round shares rs)

  -- The key ids of all the shares, in their order.
  abbrev pub key_ids_of : List SignatureShare → List ℕ
  key_ids_of = flat_map λ s. s.key_ids

  combine-append :
      (ks is js : List ℕ) (q : ℕ → Point)
      → combine ks (is ++ js) q ≡ combine ks is q ⊞ combine ks js q
  unfolding combine
  combine-append ks [] js q = sym (origin-plus (combine ks js q))
  combine-append ks (i ∷ is) js q =
      ap (λ p. lambda i ks ⊙ q i ⊞ p) (combine-append ks is js q)
      ∙ sym (plus_assoc (lambda i ks ⊙ q i) (combine ks is q) (combine ks js q))

  key_step :
      (cx p rest : Point) (l h : Scalar) → (cx ⊞ (l ⊗ h) ⊙ p) ⊞ h ⊙ rest ≡ cx ⊞ h ⊙ (l ⊙ p ⊞ rest)
  key_step cx p rest l h = simp module_laws

  module _ (works : MultimultSucceeds) where
    key_points-due :
        (round : Round) (ids : List ℕ) (cx : Point)
        → key_points round ids cx ≡ cx ⊞ round.c_value ⊙ keys_due round ids
    unfolding key_points combine
    key_points-due round [] cx = rw (smul-origin round.c_value) (sym (plus-origin cx))
    key_points-due round (k ∷ ids) cx = rw (poly-total works (id k) round.group) (
        key_points-due round ids
          (cx ⊞ (lambda k round.key_ids ⊗ round.c_value) ⊙ evaluate (id k) round.group)
        ∙ key_step cx (evaluate (id k) round.group) (keys_due round ids) (lambda k round.key_ids)
            round.c_value)

    flags-nil : (round : Round) (party : ℕ) (ids : List ℕ) → flags round party ids ≡ []
    unfolding flags
    flags-nil round party [] = refl
    flags-nil round party (k ∷ ids) =
        rw (poly-total works (id k) round.group) (flags-nil round party ids)

    tally_step :
        (round : Round) (tally : Tally) (share : SignatureShare) (r : Point)
        → check_share round tally share r ≡ record {
          z = tally.z ⊕ share.z_i;
          bad_keys = tally.bad_keys;
          bad_sigs =
              ite
                (c.point_discrete (share.z_i ⊙ G) (due round share r))
                tally.bad_sigs
                (tally.bad_sigs ++ share.id ∷ []);
        }
    unfolding check_share
    tally_step round tally share r =
        rw
          (
            flags-nil round share.id share.key_ids,
            append-nil tally.bad_keys,
            key_points-due round share.key_ids c.origin,
            origin-plus (round.c_value ⊙ keys_due round share.key_ids),
          )
          refl

    -- The loop does not panic, sums the responses and lists the failing shares.
    pub check_shares-failing :
        (round : Round) (tally : Tally) (shares : List SignatureShare) (rs : List Point)
        → length rs ≡ length shares
        → check_shares round tally shares rs
          ≡ ok (record {
            z = tally.z ⊕ total shares;
            bad_keys = tally.bad_keys;
            bad_sigs = tally.bad_sigs ++ failing round shares rs;
          })
    unfolding check_shares total failing
    check_shares-failing round tally [] rs h = rw (add-zero tally.z, append-nil tally.bad_sigs)
    check_shares-failing round tally (share ∷ shares) [] h = absurd (omega arith)
    check_shares-failing round tally (share ∷ shares) (r ∷ rs) h =
        rw (tally_step round tally share r)
          (elim (c.point_discrete (share.z_i ⊙ G) (due round share r)) [
            | yes good ↦ rw (
              if_pos _ good,
              if_pos _ good,
              check_shares-failing round (after_share tally.bad_sigs) shares rs (omega arith),
              add_assoc tally.z share.z_i (total shares),
            )
            | no bad ↦ rw (
              if_neg _ bad,
              if_neg _ bad,
              check_shares-failing round (after_share (tally.bad_sigs ++ share.id ∷ [])) shares rs
                  (omega arith),
              add_assoc tally.z share.z_i (total shares),
              append_assoc tally.bad_sigs (share.id ∷ []) (failing round shares rs),
            )
          ])
      where
        after_share : List ℕ → Tally
        after_share bad = record {
          z = tally.z ⊕ share.z_i;
          bad_keys = tally.bad_keys;
          bad_sigs = bad;
        }

  due-plus :
      (round : Round) (share : SignatureShare) (r rest own sum : Point)
      → (round.r_sign ⊙ r ⊞ round.cx_sign ⊙ round.c_value ⊙ own)
          ⊞ (round.r_sign ⊙ rest ⊞ round.cx_sign ⊙ round.c_value ⊙ sum)
        ≡ round.r_sign ⊙ (r ⊞ rest) ⊞ round.cx_sign ⊙ round.c_value ⊙ (own ⊞ sum)
  due-plus round share r rest own sum = simp module_laws

  -- If no share fails, the sum of the responses has the logarithm that the keys of all answer for.
  pub total-due :
      (round : Round) (shares : List SignatureShare) (rs : List Point)
      → length rs ≡ length shares
      → failing round shares rs ≡ []
      → total shares ⊙ G
        ≡ round.r_sign ⊙ sum_points rs
          ⊞ round.cx_sign ⊙ round.c_value ⊙ keys_due round (key_ids_of shares)
  unfolding total failing combine sum_points
  total-due round [] [] l h =
      rw
        (
          zero-smul G,
          smul-origin round.r_sign,
          smul-origin round.c_value,
          smul-origin round.cx_sign,
        )
        (sym (origin-plus c.origin))
  total-due round [] (r ∷ rs) l h = absurd (omega arith)
  total-due round (share ∷ shares) [] l h = absurd (omega arith)
  total-due round (share ∷ shares) (r ∷ rs) l h =
      elim (c.point_discrete (share.z_i ⊙ G) (due round share r)) [
        | yes good ↦
            add-smul share.z_i (total shares) G
            ∙ ap₂ (λ s t. s ⊞ t) good
                (total-due round shares rs (omega arith) (rw (if_pos _ good) at h))
            ∙ due-plus round share r (sum_points rs) (keys_due round share.key_ids)
                (keys_due round (key_ids_of shares))
            ∙ ap (λ p. round.r_sign ⊙ (r ⊞ sum_points rs) ⊞ round.cx_sign ⊙ round.c_value ⊙ p)
                (sym (
                  combine-append round.key_ids share.key_ids (key_ids_of shares)
                    (λ k. evaluate (id k) round.group)))
        | no bad ↦ cc (rw (if_neg _ bad) at h)
      ]
