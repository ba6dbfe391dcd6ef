-- ===== src/V2/Rounds.antt =====
-- src/v2.rs: a signing round of parties that hold the keys of one group.
use wsts.Prelude.{
  ℕ, ◌≤◌, ◌≡◌, refl, sym, ap, ◌∙◌, if_pos, some, List, [], ◌∷◌, ◌++◌, map, flat_map, zip, traverse,
  length, length-map, is_empty, arith, if◌then◌else◌,
}
use mathlib.Core.Path.{ap₂}
use wsts.Prelude.Outcome.{ok, err}
use wsts.Curve.{Curve, Scalar, Point, Bytes, MultimultSucceeds, G, ◌⊞◌, ◌⊙◌}
use wsts.Curve.Algebra.{zero-smul, plus-origin}
use wsts.Common.{PublicNonce, SignatureShare, from}
use wsts.Compute.{id, binding, bound, intermediate}
use wsts.Compute.Lagrange.{Distinct}
use wsts.Errors.{bad_party_sigs}
use wsts.V1.Aggregator.{ids_of}
use wsts.V1.Response.{aggregate}
use wsts.V1.Tally.{total}
use wsts.V2.Aggregator.{Aggregator, Round, round_of, sign}
use wsts.V2.Honest.{HoldsKeys, sign_with_tweak-due}
use wsts.V2.Party
use wsts.V2.Party.{Party, key_sum, sign_with_tweak}
use wsts.V2.Signing.{failures, sign-failing}
use wsts.V2.Tally.{due, failing, key_ids_of}

module _ ⦃c : Curve⦄ where
  -- The parties hold keys of one group for all their key ids, and they know its key.
  abbrev pub AreKeyed : List Point → Point → List Party → Type 0
  AreKeyed group key [] = Unit {0}
  AreKeyed group key (p ∷ parties) =
      HoldsKeys p group p.key_ids × (p.group_key ≡ key) × AreKeyed group key parties

  abbrev pub party_ids_of : List Party → List ℕ
  party_ids_of = map λ p. p.party_id

  abbrev pub keys_of : List Party → List ℕ
  keys_of = flat_map λ p. p.key_ids

  abbrev pub nonces_of : List Party → List PublicNonce
  nonces_of = map λ p. from p.nonce

  failing-nil : (round : Round) (rs : List Point) → failing round [] rs ≡ []
  unfolding failing
  failing-nil round rs = refl

  failing-answers_for :
      (round : Round) (share : SignatureShare) (shares : List SignatureShare) (r : Point)
      (rs : List Point)
      → share.z_i ⊙ G ≡ due round share r
      → failing round (share ∷ shares) (r ∷ rs) ≡ failing round shares rs
  unfolding failing
  failing-answers_for round share shares r rs h =
      if_pos (c.point_discrete (share.z_i ⊙ G) (due round share r)) h (failing round shares rs)
        (share.id ∷ failing round shares rs)

  sign_with_tweak-id :
      (self : Party) (msg : Bytes) (party_ids key_ids : List ℕ) (nonces : List PublicNonce)
      (t : Scalar) (share : SignatureShare)
      → sign_with_tweak self msg party_ids key_ids nonces t ≡ some share
      → share.id ≡ self.party_id
  unfolding sign_with_tweak
  sign_with_tweak-id self msg party_ids key_ids nonces t share h = ground (arith, h)

  module _ (group : List Point) (key : Point) (msg : Bytes) (party_ids key_ids : List ℕ)
      (nonces : List PublicNonce) (t : Scalar) where
    abbrev bounds : List Party → List Point
    bounds parties =
        map bound
          (zip (nonces_of parties) (map (λ i. binding (id i) nonces msg) (party_ids_of parties)))

    -- What the parties sign: no share fails.
    abbrev Answers : List Party → List SignatureShare → Type 0
    Answers parties shares =
        (ids_of shares ≡ party_ids_of parties)
        × (key_ids_of shares ≡ keys_of parties)
        × (failing
              (round_of group key_ids (key ⊞ t ⊙ G) (intermediate msg party_ids nonces).1 msg t)
              shares (bounds parties)
            ≡ [])

    traverse-Answers :
        (parties : List Party)
        → AreKeyed group key parties
        → (shares : List SignatureShare) × (traverse
              (λ p. sign_with_tweak p msg party_ids key_ids nonces t)
              parties
            ≡ some shares)
          × Answers parties shares
    traverse-Answers [] h = ([], refl, (refl, refl, failing-nil _ _))
    traverse-Answers (p ∷ parties) (holds, knows, h) =
        let (shares, e, (ids, keys, clean)) = traverse-Answers parties h in
        let (share, f, mine, answers) =
          sign_with_tweak-due p msg party_ids key_ids nonces t group holds in
        (
          share ∷ shares,
          rw (f, e) refl,
          (
            ap₂ (λ i is. i ∷ is) (sign_with_tweak-id p msg party_ids key_ids nonces t share f) ids,
            ap₂ (λ ks rest. ks ++ rest) mine keys,
            failing-answers_for
                  (round_of group key_ids (key ⊞ t ⊙ G) (intermediate msg party_ids nonces).1 msg t)
                  share shares (bound (from p.nonce, binding (id p.party_id) nonces msg))
                  (bounds parties)
                  (answers
                    ∙ ap
                        (λ k.
                          due
                            (round_of group key_ids (k ⊞ t ⊙ G)
                              (intermediate msg party_ids nonces).1 msg t)
                            share (bound (from p.nonce, binding (id p.party_id) nonces msg)))
                        knows)
                ∙ clean,
          ),
        )

  map-traverse :
      (msg : Bytes) (party_ids key_ids : List ℕ) (nonces : List PublicNonce) (parties : List Party)
      → traverse (λ p. Party.sign p msg party_ids key_ids nonces) parties
        ≡ traverse (λ p. sign_with_tweak p msg party_ids key_ids nonces c.zero) parties
  unfolding Party.sign
  map-traverse msg party_ids key_ids nonces parties =
      ap (λ t. traverse (λ p. sign_with_tweak p msg party_ids key_ids nonces t) parties)
        c.of_u32_zero

  -- Parties (v2) with distinct key ids in all that hold the keys of the aggregator's group, no fewer
  -- keys than its polynomial has coefficients: none of them panics, and from the shares that their
  -- `sign` returns the aggregator's `sign` makes a signature, the sum of the bound nonces and of the
  -- responses.
  pub sign-key_holders :
      MultimultSucceeds
      → (self : Aggregator) (msg : Bytes) (parties : List Party) (first : Point) (rest : List Point)
      → self.poly ≡ first ∷ rest
      → AreKeyed self.poly first parties
      → Distinct (keys_of parties)
      → length self.poly ≤ length (keys_of parties)
      → (shares : List SignatureShare) × (traverse
            (λ p. Party.sign p msg (party_ids_of parties) (keys_of parties) (nonces_of parties))
            parties
          ≡ some shares)
        × (sign self msg (nonces_of parties) shares (keys_of parties)
            ≡ ok (record {
              R = (intermediate msg (party_ids_of parties) (nonces_of parties)).1;
              z = total shares;
            }))
  unfolding intermediate
  sign-key_holders works self msg parties first rest group keyed distinct enough =
      let (shares, e, (ids, keys, clean)) =
        traverse-Answers self.poly first msg (party_ids_of parties) (keys_of parties)
          (nonces_of parties) c.zero parties keyed in
      (
        shares,
        map-traverse msg (party_ids_of parties) (keys_of parties) (nonces_of parties) parties ∙ e,
        sign-failing works self msg (nonces_of parties) shares (keys_of parties) first rest group
              (length-map parties _ ∙ sym (counted shares ids)) keys distinct enough
            ∙ ap
                (λ bad.
                  if is_empty bad
                  then ok
                      (record { R = aggregate msg (nonces_of parties) shares; z = total shares })
                  else err (bad_party_sigs bad))
                (settled shares ids clean)
            ∙ ap
                (λ is.
                  ok (record { R = (intermediate msg is (nonces_of parties)).1; z = total shares }))
                ids,
      )
    where
      counted :
          (shares : List SignatureShare)
          → ids_of shares ≡ party_ids_of parties
          → length shares ≡ length parties
      counted shares ids = sym (length-map shares _) ∙ ap length ids ∙ length-map parties _

      settled :
          (shares : List SignatureShare)
          → ids_of shares ≡ party_ids_of parties
          → failing
              (round_of self.poly
                (keys_of parties)
                (first ⊞ c.zero ⊙ G)
                (intermediate msg (party_ids_of parties) (nonces_of parties)).1
                msg
                c.zero)
              shares
              (intermediate msg (party_ids_of parties) (nonces_of parties)).0
            ≡ []
          → failures self msg (nonces_of parties) shares (keys_of parties) first c.zero ≡ []
      settled shares ids clean =
          ap
            (λ is.
              failing
                (round_of self.poly (keys_of parties) first
                  (intermediate msg is (nonces_of parties)).1 msg c.zero)
                shares (intermediate msg is (nonces_of parties)).0)
            ids
          ∙ ap
              (λ k.
                failing
                  (round_of self.poly (keys_of parties) k
                    (intermediate msg (party_ids_of parties) (nonces_of parties)).1 msg c.zero)
                  shares (intermediate msg (party_ids_of parties) (nonces_of parties)).0)
              (sym (ap (λ p. first ⊞ p) (zero-smul G) ∙ plus-origin first))
          ∙ clean
