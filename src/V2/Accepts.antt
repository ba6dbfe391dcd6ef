-- ===== src/V2/Accepts.antt =====
-- src/v2.rs: what `Party::compute_secret` does with the shares and the commitments that all parties make.
use wsts.Prelude.{
  ℕ, suc, ◌<◌, ◌≡◌, refl, sym, ap, ◌∙◌, true, some, List, [], ◌∷◌, map, range, range_from, length,
  length-map, length-range_from, get_elem?, contains, ==_iff, arith,
}
use wsts.Prelude.Maps.{Map, keys, insert, lookup}
use wsts.Prelude.Ordered.{
  From, From-self, From-first, From-rest, lookup-map-contains, lookup-map_value,
}
use wsts.Prelude.Outcome.{ok, try_filter}
use wsts.Curve.{Curve, Scalar, Point, MultimultSucceeds, G, ◌⊙◌, ◌⊞◌}
use wsts.Common.{PolyCommitment}
use wsts.Compute.{id}
use wsts.Compute.Interpolation.{evaluate}
use wsts.Compute.Poly.{poly-total}
use wsts.V1.Batch.{AllLength}
use wsts.V1.Dealt.{Dealt, dealt-value}
use wsts.V1.HonestRound.{get-below}
use wsts.V2.Dealers.{
  Dealers, Committed, Committed-Dealt, Committed-AllLength, shares_for, keys-shares_for,
}
use wsts.V2.Dkg.{
  missing, check_comms, too_few, bad_share, bad_shares_of, sum_shares, add_keys, check_keys,
}
use wsts.V2.KeyGeneration.{InOrder}
use wsts.V2.Party.{Party}
use wsts.V2.Rounds.{party_ids_of}
use wsts.V2.Secret.{compute_secret}

module _ ⦃c : Curve⦄ where
  bad_share-Dealt :
      MultimultSucceeds
      → (j : ℕ) (mine : Map Scalar) (all comms : List PolyCommitment) (b : ℕ)
      → keys mine ≡ range_from b (length mine)
      → Dealt (id j) mine comms
      → From b comms all
      → try_filter (bad_share all j) mine ≡ ok []
  unfolding bad_share
  bad_share-Dealt works j [] all comms b o h from = refl
  bad_share-Dealt works j (e ∷ mine) all [] b o h from = absurd h
  bad_share-Dealt works j ((i, s) ∷ mine) all (comm ∷ comms) b o ((f, value, made), good, h) from =
      elim (c.point_discrete (s ⊙ G) (evaluate (id j) comm.poly)) [
        | yes same ↦ ground (
          arith,
          same,
          named,
          poly-total works (id j) comm.poly,
          bad_share-Dealt works j mine all comms (suc b) (ground (arith, o)) h
              (From-rest b comm comms all from),
        )
        | no other ↦ absurd (other (dealt-value (id j) f s comm value made))
      ]
    where
      first_key : i ≡ b
      first_key = ground (arith, o)

      named : get_elem? all i ≡ some comm
      named = ap (get_elem? all) first_key ∙ From-first b comm comms all from

  check_comms-Committed :
      (t i : ℕ) (ps : List Party) (comms : List PolyCommitment) (g : Point)
      → 0 < t
      → AllLength t comms
      → Committed ps comms
      → (g' : Point) × (check_comms i comms [] g ≡ ok ([], g'))
  unfolding check_comms
  check_comms-Committed t i ps [] g l all h = (g, refl)
  check_comms-Committed t i [] (comm ∷ comms) g l all h = absurd h
  check_comms-Committed t i (p ∷ ps) (comm ∷ comms) g l (size, all) (made, good, h) =
      let (first, e) = get-below comm.poly 0 (omega (arith, l, size)) in
      let (g', e') = check_comms-Committed t (suc i) ps comms (g ⊞ first) l all h in
      (g', rw (good, e) e')

  -- The shares that all parties make for some keys, by key.
  abbrev pub shares_by_key : List ℕ → List Party → Map (Map Scalar)
  shares_by_key is ps = map (λ i. (i, shares_for i ps)) is

  -- Every key of a list has the shares that all parties make for it.
  abbrev HasShares : List ℕ → List Party → Map (Map Scalar) → Type 0
  HasShares is ps shares = (i : ℕ) → contains is i ≡ true → lookup i shares ≡ some (shares_for i ps)

  HasShares-head :
      (i : ℕ) (is : List ℕ) (ps : List Party) (shares : Map (Map Scalar))
      → HasShares (i ∷ is) ps shares
      → lookup i shares ≡ some (shares_for i ps)
  HasShares-head i is ps shares h = h i (rw ((==_iff i i).1 refl) refl)

  HasShares-tail :
      (i : ℕ) (is : List ℕ) (ps : List Party) (shares : Map (Map Scalar))
      → HasShares (i ∷ is) ps shares
      → HasShares is ps shares
  HasShares-tail i is ps shares h j e = h j (ground (arith, e))

  missing-none :
      (is : List ℕ) (ps : List Party) (shares : Map (Map Scalar))
      → HasShares is ps shares
      → missing is shares ≡ []
  unfolding missing
  missing-none [] ps shares h = refl
  missing-none (i ∷ is) ps shares h = ground (
    arith,
    HasShares-head i is ps shares h,
    missing-none is ps shares (HasShares-tail i is ps shares h),
  )

  shares_for-length : (j : ℕ) (ps : List Party) → length (shares_for j ps) ≡ length ps
  shares_for-length j [] = refl
  shares_for-length j (p ∷ ps) = ap suc (shares_for-length j ps)

  too_few-none :
      (k : ℕ) (is : List ℕ) (ps : List Party) (shares : Map (Map Scalar))
      → length ps ≡ k
      → HasShares is ps shares
      → try_filter (too_few k shares) is ≡ ok []
  unfolding too_few
  too_few-none k [] ps shares l h = refl
  too_few-none k (i ∷ is) ps shares l h = ground (
    arith,
    HasShares-head i is ps shares h,
    shares_for-length i ps ∙ l,
    too_few-none k is ps shares l (HasShares-tail i is ps shares h),
  )

  add_keys-succeeds :
      (is : List ℕ) (ps : List Party) (shares : Map (Map Scalar)) (private_keys : Map Scalar)
      → HasShares is ps shares
      → (made : Map Scalar) × (add_keys is shares private_keys ≡ ok made)
  unfolding add_keys
  add_keys-succeeds [] ps shares private_keys h = (private_keys, refl)
  add_keys-succeeds (i ∷ is) ps shares private_keys h =
      let (made, e) =
        add_keys-succeeds is ps shares (insert i (sum_shares (shares_for i ps) c.zero) private_keys)
          (HasShares-tail i is ps shares h) in
      (made, rw (HasShares-head i is ps shares h) e)

  module _ (works : MultimultSucceeds) (n k t : ℕ) (ps : List Party) (comms : List PolyCommitment)
      (positive : 0 < t) (dealers : Dealers n k t ps) (named : party_ids_of ps ≡ range k)
      (made : Committed ps comms) where
    counted : length ps ≡ k
    counted = sym (length-map ps _) ∙ ap length named ∙ length-range_from 0 k

    in_order : (j : ℕ) → keys (shares_for j ps) ≡ range (length (shares_for j ps))
    in_order j = keys-shares_for j ps ∙ named ∙ ap range (sym (shares_for-length j ps ∙ counted))

    bad_shares_of-none :
        (is : List ℕ) (shares : Map (Map Scalar))
        → HasShares is ps shares
        → bad_shares_of is shares comms ≡ ok []
    unfolding bad_shares_of
    bad_shares_of-none [] shares h = refl
    bad_shares_of-none (i ∷ is) shares h = ground (
      arith,
      HasShares-head i is ps shares h,
      bad_share-Dealt works i (shares_for i ps) comms comms 0 (in_order i)
          (Committed-Dealt i ps comms made) (From-self comms),
      bad_shares_of-none is shares (HasShares-tail i is ps shares h),
    )

    check_keys-accepts :
        (is : List ℕ) (shares : Map (Map Scalar))
        → HasShares is ps shares
        → check_keys is k shares comms ≡ ok tt
    unfolding check_keys
    check_keys-accepts is shares h =
        ground (arith, too_few-none k is ps shares counted h, bad_shares_of-none is shares h)

    -- A party that has, for each of its keys, the shares that all parties make: it accepts them and
    -- their commitments, `compute_secret` returns no error.
    pub compute_secret-accepts :
        (self : Party)
        → self.num_parties ≡ k
        → (compute_secret (shares_by_key self.key_ids ps) comms self).1 ≡ ok tt
    unfolding compute_secret
    compute_secret-accepts self e =
        let shares : Map (Map Scalar) = shares_by_key self.key_ids ps in
        let has : HasShares self.key_ids ps shares =
          (λ i h. lookup-map-contains (λ j. shares_for j ps) self.key_ids i h) in
        let (all, same) = Committed-AllLength n k t ps comms dealers made in
        let (g, checked) = check_comms-Committed t 0 ps comms self.group_key positive all made in
        let (keys, added) = add_keys-succeeds self.key_ids ps shares self.private_keys has in
        ground (
          arith,
          missing-none self.key_ids ps shares has,
          checked,
          ap (λ m. check_keys self.key_ids m shares comms) e
              ∙ check_keys-accepts self.key_ids shares has,
          added,
        )

    -- The shares for each key come in the order of the senders, one for each commitment.
    pub shares_by_key-InOrder : (is : List ℕ) → InOrder (shares_by_key is ps) comms
    shares_by_key-InOrder is key mine h =
        let e : mine ≡ shares_for key ps = lookup-map_value (λ j. shares_for j ps) is key mine h in
        let (all, same) = Committed-AllLength n k t ps comms dealers made in
        rw e (in_order key, same ∙ sym (shares_for-length key ps))
