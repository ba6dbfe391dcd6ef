-- ===== src/V1/Dealt.antt =====
-- src/v1.rs: what the checks of `Party::compute_secret` find in shares on the polynomials of the
-- commitments.
use wsts.Prelude.{
  ℕ, suc, ◌+◌, ◌*◌, ◌^◌, ◌<◌, ◌≡◌, refl, sym, ap, ◌∙◌, true, not, some, none, List, [], ◌∷◌, map,
  range, range_from, length, get_elem?, contains, filter_by, Option-cases, inl, inr, ==_iff, arith,
}
use mathlib.Core.Path.{ap₂, subst}
use wsts.Prelude.Maps.{Map, keys}
use wsts.Prelude.Ordered.{From, From-first, From-rest}
use wsts.Prelude.Outcome.{ok}
use wsts.Curve.{Curve, Scalar, Point, Polynomial, MultimultSucceeds, G, ◌⊕◌, ◌⊗◌, ◌⊞◌, ◌⊙◌, horner}
use wsts.Curve.Algebra.{add-smul, mul-smul, zero-smul, neg-smul}
use wsts.Common.{PolyCommitment, verify}
use wsts.Compute.Interpolation.{evaluate}
use wsts.V1.Batch.{AllLength}
use wsts.V1.BatchSum.{values_sum, batch-sum}
use wsts.V1.Dkg.{missing, bad_id, bad_ids_of, batch, add_shares}
use wsts.V1.KeyGeneration.{Fits}
use wsts.V1.Keys.{share_sum}

filter_by-none :
    (xs all : List ℕ)
    → ((i : ℕ) → contains xs i ≡ true → contains all i ≡ true)
    → filter_by (λ i. not (contains all i)) xs ≡ []
filter_by-none [] all h = refl
filter_by-none (x ∷ xs) all h =
    rw (h x (rw ((==_iff x x).1 refl) refl))
      (filter_by-none xs all (λ i e. h i (ground (arith, e))))

module _ ⦃c : Curve⦄ where
  -- The shares are the values at `x` of the polynomials of which the commitments are, and the
  -- commitments verify.
  abbrev pub Dealt : Scalar → Map Scalar → List PolyCommitment → Type 0
  Dealt x [] [] = Unit {0}
  Dealt x [] (comm ∷ comms) = ⊥
  Dealt x (e ∷ shares) [] = ⊥
  Dealt x (e ∷ shares) (comm ∷ comms) =
      ((f : Polynomial) × (e.1 ≡ c.eval f x) × (comm.poly ≡ map (λ a. a ⊙ G) (c.coefficients f)))
      × (verify comm ≡ some true)
      × Dealt x shares comms

  horner-smul :
      (x : Scalar) (cs : List Scalar)
      → horner c.add c.mul c.zero x cs ⊙ G ≡ evaluate x (map (λ a. a ⊙ G) cs)
  unfolding evaluate
  horner-smul x [] = zero-smul G
  horner-smul x (a ∷ cs) =
      add-smul a (x ⊗ horner c.add c.mul c.zero x cs) G
      ∙ ap (λ p. a ⊙ G ⊞ p)
          (mul-smul x (horner c.add c.mul c.zero x cs) G ∙ ap (λ p. x ⊙ p) (horner-smul x cs))

  -- A value of a polynomial is the logarithm of the value of its commitment.
  pub dealt-value :
      (x : Scalar) (f : Polynomial) (s : Scalar) (comm : PolyCommitment)
      → s ≡ c.eval f x
      → comm.poly ≡ map (λ a. a ⊙ G) (c.coefficients f)
      → s ⊙ G ≡ evaluate x comm.poly
  dealt-value x f s comm value made =
      ap (λ a. a ⊙ G) (value ∙ c.eval-coefficients f x)
      ∙ horner-smul x (c.coefficients f)
      ∙ ap (evaluate x) (sym made)

  Dealt-sum :
      (x : Scalar) (shares : Map Scalar) (comms : List PolyCommitment)
      → Dealt x shares comms
      → share_sum shares ⊙ G ≡ values_sum x comms
  unfolding share_sum values_sum
  Dealt-sum x [] [] h = zero-smul G
  Dealt-sum x [] (comm ∷ comms) h = absurd h
  Dealt-sum x (e ∷ shares) [] h = absurd h
  Dealt-sum x ((i, s) ∷ shares) (comm ∷ comms) ((f, value, made), good, h) =
      add-smul s (share_sum shares) G
      ∙ ap₂ (λ p q. p ⊞ q) (dealt-value x f s comm value made) (Dealt-sum x shares comms h)

  pub missing-none : (n : ℕ) (shares : Map Scalar) → keys shares ≡ range n → missing n shares ≡ []
  unfolding missing
  missing-none n shares h =
      filter_by-none (range n) (keys shares) (λ i e. ap (λ ks. contains ks i) h ∙ e)

  -- Every commitment that the keys from place `b` on name is good.
  pub bad_ids-none :
      (x : Scalar) (shares : Map Scalar) (all comms : List PolyCommitment) (b : ℕ)
      → keys shares ≡ range_from b (length shares)
      → Dealt x shares comms
      → From b comms all
      → bad_ids_of shares all ≡ ok []
  unfolding bad_ids_of bad_id
  bad_ids-none x [] all comms b o h from = refl
  bad_ids-none x (e ∷ shares) all [] b o h from = absurd h
  bad_ids-none x ((i, s) ∷ shares) all (comm ∷ comms) b o (made, good, h) from =
      rw
        (
          ap (get_elem? all) first_key ∙ From-first b comm comms all from,
          good,
          bad_ids-none x shares all comms (suc b) (ground (arith, o)) h
              (From-rest b comm comms all from),
        )
        refl
    where
      first_key : i ≡ b
      first_key = ground (arith, o)

  -- Every commitment that the keys from place `b` on name has a first coefficient.
  pub add_shares-range :
      (shares : Map Scalar) (all comms : List PolyCommitment) (b t : ℕ) (k : Scalar) (g : Point)
      → keys shares ≡ range_from b (length shares)
      → length comms ≡ length shares
      → AllLength t comms
      → 0 < t
      → From b comms all
      → (sums : Scalar × Point) × (add_shares shares all k g ≡ ok sums)
  unfolding add_shares
  add_shares-range [] all comms b t k g o l full h from = ((k, g), refl)
  add_shares-range (e ∷ shares) all [] b t k g o l full h from = absurd (omega (arith, l))
  add_shares-range ((i, s) ∷ shares) all (comm ∷ comms) b t k g o l (size, full) h from =
      elim (Option-cases (get_elem? comm.poly 0)) [
        | inl e ↦ absurd (ground (arith, size, h, get-none comm.poly e))
        | inr (p, e) ↦
            let (sums, made) =
              add_shares-range shares all comms (suc b) t (k ⊕ s) (g ⊞ p) (ground (arith, o))
                (omega (arith, l)) full h (From-rest b comm comms all from) in
            (sums, rw (named, e) made)
      ]
    where
      first_key : i ≡ b
      first_key = ground (arith, o)

      named : get_elem? all i ≡ some comm
      named = ap (get_elem? all) first_key ∙ From-first b comm comms all from

      get-none : (ps : List Point) → get_elem? ps 0 ≡ none → length ps ≡ 0
      get-none [] e = refl
      get-none (p ∷ ps) e = absurd (cc e)

  pub batch-Dealt :
      MultimultSucceeds
      → (x : Scalar) (shares : Map Scalar) (comms : List PolyCommitment) (t : ℕ)
      → Fits shares comms t
      → AllLength t comms
      → 0 < length shares
      → Dealt x shares comms
      → batch x shares comms ≡ ok c.origin
  batch-Dealt works x shares [] t (l, o, s) all some_share h = absurd (omega (arith, l, some_share))
  batch-Dealt works x shares (comm ∷ comms) t (l, o, s) (full, all) some_share h =
      batch-sum x shares (comm ∷ comms) comm refl
        (subst (λ m. AllLength m (comm ∷ comms)) (sym full) (full, all)) l o
        (subst (λ m. (m + 1) * length shares < 2 ^ 32) (sym full) s) works
      ∙ ap ok (
          ap₂ (λ p q. p ⊞ q) (sym (Dealt-sum x shares (comm ∷ comms) h))
            (neg-smul (share_sum shares) G)
          ∙ c.plus-opposite (share_sum shares ⊙ G))
