-- ===== src/V1/BatchSum.antt =====
-- src/common.rs, src/v1.rs: what the batch of private shares amounts to.
use wsts.Prelude.{
  ℕ, zero, suc, ◌+◌, ◌*◌, ◌^◌, ◌<◌, ◌≡◌, refl, sym, ap, ◌∙◌, some, none, List, [], ◌∷◌, ◌++◌, map,
  flat_map, zip, range, range_from, traverse, length, length-map, get_elem?, Option-cases, inl, inr,
  arith, resize, range_from-add, traverse-append, traverse-pointwise,
}
use mathlib.Core.Path.{ap₂}
use native.Mathlib.Nat.{mod-eq_of_lt, mul_comm}
use wsts.Prelude.Maps.{Map, lookup, keys}
use wsts.Prelude.Outcome.{ok}
use wsts.Curve.{Curve, Scalar, Point, MultimultSucceeds, combination, G, ◌⊞◌, ◌⊙◌, ◌⊗◌}
use wsts.Curve.Algebra.{
  module_laws, origin-plus, plus_assoc, one-smul, smul-origin, mul-smul, smul-plus, neg-zero,
  zero-smul,
}
use wsts.Common.{PolyCommitment}
use wsts.Common.CheckPrivateShares.{
  CheckPrivateShares, powers_loop, get_size, term, new, multimult_trait,
}
use wsts.Compute.Interpolation.{evaluate}
use wsts.V1.Batch.{AllLength, share_term, blocks}
use wsts.V1.Dkg.{batch}
use wsts.V1.Keys.{share_sum}

-- The keys are those of a range, in order.
lookup-range :
    {V : Type 0} (m : Map V) (start i k : ℕ) (v : V)
    → keys m ≡ range_from start (length m)
    → get_elem? m i ≡ some (k, v)
    → lookup (start + i) m ≡ some v
lookup-range [] start i k v h e = cc e
lookup-range ((j, w) ∷ m) start zero k v h e = ground (arith, h, e)
lookup-range ((j, w) ∷ m) start (suc i) k v h e =
    ground (arith, h, e, lookup-range m (suc start) i k v (ground (arith, h)) e)

keys-map : {V W : Type 0} (m : Map V) (f : V → W) → keys (map (λ e. (e.0, f e.1)) m) ≡ keys m
keys-map [] f = refl
keys-map ((k, v) ∷ m) f = ap (λ ks. k ∷ ks) (keys-map m f)

get-map-some :
    {A B : Type 0} (f : A → B) (xs : List A) (i : ℕ) (a : A)
    → get_elem? xs i ≡ some a
    → get_elem? (map f xs) i ≡ some (f a)
get-map-some f [] i a h = cc h
get-map-some f (x ∷ xs) zero a h = ground (arith, h)
get-map-some f (x ∷ xs) (suc i) a h = get-map-some f xs i a h

get-map-none :
    {A B : Type 0} (f : A → B) (xs : List A) (i : ℕ)
    → get_elem? xs i ≡ none
    → get_elem? (map f xs) i ≡ none
get-map-none f [] i h = refl
get-map-none f (x ∷ xs) zero h = cc h
get-map-none f (x ∷ xs) (suc i) h = get-map-none f xs i h

module _ ⦃c : Curve⦄ where
  -- The sum of the products of some terms.
  abbrev pub sum_terms : List (Scalar × Point) → Point
  sum_terms [] = c.origin
  sum_terms ((s, p) ∷ ts) = s ⊙ p ⊞ sum_terms ts

  sum_terms-combination :
      (ts : List (Scalar × Point))
      → combination c.plus c.smul c.origin (map (λ e. e.0) ts) (map (λ e. e.1) ts) ≡ sum_terms ts
  sum_terms-combination [] = refl
  sum_terms-combination ((s, p) ∷ ts) = ap (λ q. s ⊙ p ⊞ q) (sum_terms-combination ts)

  sum_terms-append :
      (xs ys : List (Scalar × Point)) → sum_terms (xs ++ ys) ≡ sum_terms xs ⊞ sum_terms ys
  sum_terms-append [] ys = sym (origin-plus (sum_terms ys))
  sum_terms-append ((s, p) ∷ xs) ys =
      ap (λ q. s ⊙ p ⊞ q) (sum_terms-append xs ys)
      ∙ sym (plus_assoc (s ⊙ p) (sum_terms xs) (sum_terms ys))

  sum_terms-powers :
      (x pow : Scalar) (f : List Point)
      → sum_terms (zip (powers_loop (length f) x pow) f) ≡ pow ⊙ evaluate x f
  unfolding powers_loop evaluate
  sum_terms-powers x pow [] = sym (smul-origin pow)
  sum_terms-powers x pow (p ∷ ps) =
      rw (sum_terms-powers x (pow ⊗ x) ps, mul-smul pow x (evaluate x ps))
        (sym (smul-plus pow p (x ⊙ evaluate x ps)))

  length-powers : (n : ℕ) (x pow : Scalar) → length (powers_loop n x pow) ≡ n
  unfolding powers_loop
  length-powers zero x pow = refl
  length-powers (suc n) x pow = ap suc (length-powers n x (pow ⊗ x))

  -- The sum of the values of the polynomials at `x`.
  unfoldable pub values_sum : Scalar → List PolyCommitment → Point
  values_sum x [] = c.origin
  values_sum x (comm ∷ comms) = evaluate x comm.poly ⊞ values_sum x comms

  sum_terms-blocks :
      (x : Scalar) (t : ℕ) (comms : List PolyCommitment)
      → AllLength t comms
      → sum_terms (flat_map (λ comm. zip (powers_loop t x c.one) comm.poly) comms)
        ≡ values_sum x comms
  unfolding values_sum
  sum_terms-blocks x t [] all = refl
  sum_terms-blocks x t (comm ∷ comms) (l, all) =
      sum_terms-append (zip (powers_loop t x c.one) comm.poly) _
      ∙ ap₂ (λ p q. p ⊞ q)
          (ap (λ n. sum_terms (zip (powers_loop n x c.one) comm.poly)) (sym l)
            ∙ sum_terms-powers x c.one comm.poly
            ∙ one-smul (evaluate x comm.poly))
          (sum_terms-blocks x t comms all)

  negated : (s r : Scalar) → c.neg s ⊙ G ⊞ c.neg r ⊙ G ≡ c.neg (c.add s r) ⊙ G
  negated s r = simp module_laws

  -- The term of a share.
  abbrev paired : ℕ × Scalar → Scalar × Point
  paired e = (c.neg e.1, G)

  sum_terms-shares :
      (shares : Map Scalar) → sum_terms (map paired shares) ≡ c.neg (share_sum shares) ⊙ G
  unfolding share_sum
  sum_terms-shares [] = sym (ap (λ s. s ⊙ G) neg-zero ∙ zero-smul G)
  sum_terms-shares ((i, s) ∷ shares) =
      ap (λ q. c.neg s ⊙ G ⊞ q) (sum_terms-shares shares) ∙ negated s (share_sum shares)

  module _ (x : Scalar) (shares : Map Scalar) (comms : List PolyCommitment) (first : PolyCommitment)
      (head : get_elem? comms 0 ≡ some first) (all : AllLength (length first.poly) comms)
      (counted : length comms ≡ length shares) (ordered : keys shares ≡ range (length shares))
      (small : (length first.poly + 1) * length shares < 2 ^ 32) where
    abbrev t : ℕ
    t = length first.poly

    abbrev n : ℕ
    n = length shares

    abbrev self : CheckPrivateShares
    self = record {
      n = n;
      t = t;
      powers = powers_loop t x c.one;
      neg_shares = map (λ e. (e.0, c.neg e.1)) shares;
      polys = comms;
    }

    small_product : n * t < 2 ^ 32
    small_product = omega (arith, small, mul_comm n t)

    abbrev terms : List (Scalar × Point)
    terms = flat_map (λ comm. zip (powers_loop t x c.one) comm.poly) comms ++ map paired shares

    zero_plus : (j : ℕ) → 0 + j ≡ j
    zero_plus j = omega arith

    in_order : keys self.neg_shares ≡ range_from 0 (length self.neg_shares)
    in_order =
        keys-map shares c.neg
        ∙ ordered
        ∙ resize 0 0 n (length self.neg_shares) refl (sym (length-map shares _))

    negated_lookup :
        (i : ℕ) (e : Scalar × Point)
        → get_elem? (map paired shares) i ≡ some e
        → term self (0 + n * t + i) ≡ some e
    negated_lookup i e h = elim (Option-cases (get_elem? shares i)) [
      | inl g ↦ absurd (ground (arith, h, get-map-none paired shares i g))
      | inr ((k, s), g) ↦
          ap (λ m. term self (m + i)) (zero_plus (n * t))
          ∙ share_term self small_product i (c.neg s) (
              ap (λ j. lookup j self.neg_shares) (sym (zero_plus i))
              ∙ lookup-range self.neg_shares 0 i k (c.neg s) in_order
                  (get-map-some (λ e. (e.0, c.neg e.1)) shares i (k, s) g))
          ∙ sym (get-map-some paired shares i (k, s) g)
          ∙ h
    ]

    size-terms : traverse (term self) (range (get_size self)) ≡ some terms
    unfolding get_size
    size-terms =
        ap (traverse (term self)) (
          ap (range_from 0) (mod-eq_of_lt small)
          ∙ resize 0 0 ((t + 1) * n) (n * t + n) refl (omega (arith, mul_comm n t))
          ∙ range_from-add 0 (n * t) n)
        ∙ traverse-append (term self) (range_from 0 (n * t)) (range_from (0 + n * t) n)
            (flat_map (λ comm. zip (powers_loop t x c.one) comm.poly) comms) (map paired shares)
            (ap (traverse (term self)) (
                resize 0 (0 * t) (n * t) (length comms * t) (omega arith)
                  (ap (λ k. k * t) (sym counted)))
              ∙ blocks self small_product (length-powers t x c.one) 0 comms
                  (λ j comm e. ap (get_elem? comms) (zero_plus j) ∙ e) all (omega (arith, counted)))
            (ap (traverse (term self)) (
                resize (0 + n * t) (0 + n * t) n (length (map paired shares)) refl
                  (sym (length-map shares _)))
              ∙ traverse-pointwise (term self) (0 + n * t) (map paired shares) negated_lookup)

    -- The batch of the shares for one key, where the shares come in the order of their senders,
    -- there is a commitment for each, all as long as the first, and their number fits 32 bits: the
    -- sum of the values of the polynomials, less the sum of the shares times the generator.
    pub batch-sum :
        MultimultSucceeds
        → batch x shares comms ≡ ok (values_sum x comms ⊞ c.neg (share_sum shares) ⊙ G)
    unfolding batch new multimult_trait
    batch-sum works =
        let (p, e) = works (map (λ e. e.0) terms) (map (λ e. e.1) terms) lengths in
        rw (head, size-terms, e)
          (ap ok (
            c.multimult-combination (map (λ e. e.0) terms) (map (λ e. e.1) terms) lengths e
            ∙ sum_terms-combination terms
            ∙ sum_terms-append (flat_map (λ comm. zip (powers_loop t x c.one) comm.poly) comms)
                (map paired shares)
            ∙ ap₂ (λ p q. p ⊞ q) (sum_terms-blocks x t comms all) (sum_terms-shares shares)))
      where
        lengths : length (map (λ e. e.0) terms) ≡ length (map (λ e. e.1) terms)
        lengths = length-map terms _ ∙ sym (length-map terms _)
