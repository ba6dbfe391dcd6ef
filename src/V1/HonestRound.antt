-- ===== src/V1/HonestRound.antt =====
-- src/v1.rs: key generation among parties that follow the protocol, and what they sign.
use wsts.Prelude.{
  ℕ, zero, suc, ◌+◌, ◌*◌, ◌^◌, ◌<◌, ◌≤◌, ◌≡◌, refl, sym, ap, ◌∙◌, some, List, [], ◌∷◌, map, range,
  length, get_elem?, arith,
}
use mathlib.Core.Path.{subst}
use wsts.Prelude.Maps.{Map, keys}
use wsts.Prelude.Ordered.{length-keys}
use wsts.Prelude.Outcome.{ok}
use wsts.Curve.{Curve, Scalar, Point, Bytes, MultimultSucceeds, ◌⊞◌}
use wsts.Common.{PolyCommitment}
use wsts.Compute.{id, intermediate}
use wsts.Compute.Lagrange.{Distinct}
use wsts.V1.Aggregator.{Aggregator, bad_commitments, column, columns, group_poly, init, sign}
use wsts.V1.Batch.{AllLength}
use wsts.V1.Completeness.{Sent, Sent-Dealt, compute_secret-Sent}
use wsts.V1.Dealt.{Dealt}
use wsts.V1.Honest.{ids, public_nonces}
use wsts.V1.KeyGeneration.{Succeed, keyed}
use wsts.V1.Lifecycle.{key_generation-sign}
use wsts.V1.Party
use wsts.V1.Party.{Party, compute_secret}
use wsts.V1.Tally.{total}

module _ ⦃c : Curve⦄ where
  pub Dealt-good :
      (x : Scalar) (shares : Map Scalar) (comms : List PolyCommitment)
      → Dealt x shares comms
      → bad_commitments comms ≡ ok []
  unfolding bad_commitments
  Dealt-good x [] [] h = refl
  Dealt-good x [] (comm ∷ comms) h = absurd h
  Dealt-good x (e ∷ shares) [] h = absurd h
  Dealt-good x (e ∷ shares) (comm ∷ comms) (made, good, h) =
      ground (arith, good, Dealt-good x shares comms h)

  pub get-below :
      (ps : List Point) (i : ℕ) → i < length ps → (p : Point) × (get_elem? ps i ≡ some p)
  get-below [] i l = absurd (omega (arith, l))
  get-below (p ∷ ps) zero l = (p, refl)
  get-below (p ∷ ps) (suc i) l = get-below ps i (omega (arith, l))

  column-AllLength :
      (i t : ℕ) (comms : List PolyCommitment) (acc : Point)
      → i < t
      → AllLength t comms
      → (p : Point) × (column i comms acc ≡ some p)
  unfolding column
  column-AllLength i t [] acc l all = (acc, refl)
  column-AllLength i t (comm ∷ comms) acc l (size, all) =
      let (a, e) = get-below comm.poly i (omega (arith, l, size)) in
      let (p, f) = column-AllLength i t comms (acc ⊞ a) l all in (p, rw (column, e) f)

  pub columns-AllLength :
      (i n t : ℕ) (comms : List PolyCommitment)
      → i + n ≤ t
      → AllLength t comms
      → (poly : List Point) × (columns i n comms ≡ ok poly)
  unfolding columns
  columns-AllLength i zero t comms l all = ([], refl)
  columns-AllLength i (suc n) t comms l all =
      let (p, e) = column-AllLength i t comms c.origin (omega (arith, l)) all in
      let (ps, f) = columns-AllLength (suc i) n t comms (omega (arith, l)) all in
      (p ∷ ps, rw (e, f) refl)

  -- An aggregator takes commitments that verify, as many as it has keys and as long as its
  -- threshold.
  pub init-AllLength :
      (self : Aggregator) (comms : List PolyCommitment)
      → length comms ≡ self.num_keys
      → bad_commitments comms ≡ ok []
      → AllLength self.threshold comms
      → (init comms self).1 ≡ ok tt
  unfolding init group_poly
  init-AllLength self comms counted good all =
      let (poly, e) = columns-AllLength 0 self.threshold self.threshold comms (omega arith) all in
      ground (arith, counted, good, e)

  -- Each party has the shares that all the dealers made for it.
  abbrev pub AllSent : ℕ → List Party → List PolyCommitment → List (Party × Map Scalar) → Type 0
  AllSent t dealers comms [] = Unit {0}
  AllSent t dealers comms ((party, shares) ∷ members) =
      (keys shares ≡ range party.n)
      × Sent party.id t dealers shares comms
      × AllSent t dealers comms members

  module _ (works : MultimultSucceeds) (t : ℕ) (dealers : List Party) (comms : List PolyCommitment)
      (positive : 0 < t) (some_dealer : 0 < length comms)
      (small : (t + 1) * length comms < 2 ^ 32) where
    pub AllSent-Succeed :
        (members : List (Party × Map Scalar))
        → AllSent t dealers comms members
        → Succeed comms t members
    AllSent-Succeed [] h = tt
    AllSent-Succeed ((party, shares) ∷ members) (named, sent, h) =
        let (dealt, all, counted) = Sent-Dealt party.id t dealers shares comms positive sent in
        let size : length shares ≡ party.n = length-keys shares party.n named in
        (
          (counted, named ∙ ap range (sym size), subst (λ n. (t + 1) * n < 2 ^ 32) counted small),
          compute_secret-Sent works party dealers shares comms t named
              (omega (arith, some_dealer, counted, size)) positive
              (subst (λ n. (t + 1) * n < 2 ^ 32) (counted ∙ size) small) sent,
          AllSent-Succeed members h,
        )

    pub AllSent-AllLength :
        (members : List (Party × Map Scalar))
        → AllSent t dealers comms members
        → 0 < length members
        → AllLength t comms × (bad_commitments comms ≡ ok [])
    AllSent-AllLength [] h l = absurd (omega (arith, l))
    AllSent-AllLength ((party, shares) ∷ members) (named, sent, h) l =
        let (dealt, all, counted) = Sent-Dealt party.id t dealers shares comms positive sent in
        (all, Dealt-good (id party.id) shares comms dealt)

  module _ (works : MultimultSucceeds) (self : Aggregator) (dealers : List Party)
      (comms : List PolyCommitment) (members : List (Party × Map Scalar)) (msg : Bytes)
      (key_ids : List ℕ) where
    abbrev parties : List Party
    parties = keyed comms members

    -- Key generation and signing (v1) where all follow the protocol. The dealers' polynomials have as
    -- many coefficients as the aggregator's threshold, at least one, and there is a commitment for
    -- each of the aggregator's keys, at least one, and few enough for 32 bits. Parties with distinct
    -- ids, no fewer than the threshold, that each have the shares and the commitments that the
    -- dealers made for it, in the order of their ids from 0 on: once they ran `compute_secret` and
    -- the aggregator `init`, it makes a signature from the shares that the parties sign.
    pub honest_round-sign :
        0 < self.threshold
        → 0 < self.num_keys
        → length comms ≡ self.num_keys
        → (self.threshold + 1) * self.num_keys < 2 ^ 32
        → AllSent self.threshold dealers comms members
        → Distinct (ids (map (λ m. m.0) members))
        → self.threshold ≤ length members
        → sign
            (init comms self).0
            msg
            (public_nonces parties)
            (map (λ p. Party.sign p msg (ids parties) (public_nonces parties)) parties)
            key_ids
          ≡ ok (record {
            R = (intermediate msg (ids parties) (public_nonces parties)).1;
            z = total (map (λ p. Party.sign p msg (ids parties) (public_nonces parties)) parties);
          })
    honest_round-sign positive some_key counted small sent distinct enough =
        let some_dealer : 0 < length comms = omega (arith, counted, some_key) in
        let fits : (self.threshold + 1) * length comms < 2 ^ 32 =
          subst (λ n. (self.threshold + 1) * n < 2 ^ 32) (sym counted) small in
        let (all, good) =
          AllSent-AllLength works self.threshold dealers comms positive some_dealer fits members
            sent (omega (arith, positive, enough)) in
        key_generation-sign works self comms members msg key_ids positive all
          (init-AllLength self comms counted good all)
          (AllSent-Succeed works self.threshold dealers comms positive some_dealer fits members
            sent)
          distinct enough
