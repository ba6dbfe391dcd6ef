-- ===== src/Compute/Interpolation.antt =====
-- src/compute.rs: interpolation at zero with the weights of `lambda` recovers the constant term of
-- a polynomial over points from its values at enough ids.
use wsts.Prelude.{
  ℕ, suc, ◌≤◌, ◌≡◌, ◌≢◌, refl, sym, ap, ◌∙◌, ◌≡⟨◌⟩◌, ◌∎, List, [], ◌∷◌, length, arith, ==_iff,
}
use mathlib.Core.Path.{fun_ext, ap₂}
use wsts.Curve.{Curve, Scalar, Point, ◌⊕◌, ◌⊖◌, ◌⊗◌, ◌⊞◌, ◌⊙◌}
use wsts.Curve.Algebra.{
  add_assoc, add_comm, add_left_comm, neg-add, neg-neg, mul-neg, neg-mul, add-mul, mul-smul,
  smul-plus, add-smul, one-smul, sub-ne_zero, smul-origin, plus-origin, plus_assoc, smul_comm,
}
use wsts.Compute.{id, lambda}
use wsts.Compute.Lagrange.{
  combine, Distinct, Apart-symm, combine-drop_head, combine-swap, combine-plus,
}

module _ ⦃c : Curve⦄ where
  -- The value at `x` of the polynomial with these coefficients.
  unfoldable pub evaluate : Scalar → List Point → Point
  evaluate x [] = c.origin
  evaluate x (p ∷ ps) = p ⊞ x ⊙ evaluate x ps

  -- One as a sum of two differences.
  split_point :
      (x y i : ℕ) (p : Point)
      → id x ≢ id y
      → p
        ≡ (id i ⊖ id y) ⊙ c.invert (id x ⊖ id y) ⊙ p
          ⊞ (id i ⊖ id x) ⊙ c.neg (c.invert (id x ⊖ id y)) ⊙ p
  split_point x y i p h = sym (
      (id i ⊖ id y) ⊙ inv ⊙ p ⊞ (id i ⊖ id x) ⊙ c.neg inv ⊙ p
      ≡⟨ (simp (← mul-smul (id i ⊖ id y) inv p, ← mul-smul (id i ⊖ id x) (c.neg inv) p)) ⟩
        ((id i ⊖ id y) ⊗ inv) ⊙ p ⊞ ((id i ⊖ id x) ⊗ c.neg inv) ⊙ p
      ≡⟨ sym (add-smul ((id i ⊖ id y) ⊗ inv) ((id i ⊖ id x) ⊗ c.neg inv) p) ⟩
        ((id i ⊖ id y) ⊗ inv ⊕ (id i ⊖ id x) ⊗ c.neg inv) ⊙ p
      ≡⟨ ap (λ t. t ⊙ p) scalars ⟩ c.one ⊙ p
      ≡⟨ one-smul p ⟩ p ∎)
    where
      inv : Scalar
      inv = c.invert (id x ⊖ id y)

      cancel : (a b d : Scalar) → (a ⊖ b) ⊕ c.neg (a ⊖ d) ≡ d ⊖ b
      cancel a b d =
          simp (neg-add, neg-neg)
            ((a ⊕ c.neg b) ⊕ (c.neg a ⊕ d)
              ≡⟨ (simp (add_assoc, add_comm, add_left_comm)) ⟩ (a ⊕ c.neg a) ⊕ (d ⊕ c.neg b)
              ≡⟨ rw (c.add-neg a) (c.zero-add (d ⊕ c.neg b)) ⟩ d ⊕ c.neg b ∎)

      scalars : (id i ⊖ id y) ⊗ inv ⊕ (id i ⊖ id x) ⊗ c.neg inv ≡ c.one
      scalars =
          (id i ⊖ id y) ⊗ inv ⊕ (id i ⊖ id x) ⊗ c.neg inv
          ≡⟨ rw (mul-neg (id i ⊖ id x) inv, ← neg-mul (id i ⊖ id x) inv)
              (sym (add-mul (id i ⊖ id y) (c.neg (id i ⊖ id x)) inv)) ⟩
            ((id i ⊖ id y) ⊕ c.neg (id i ⊖ id x)) ⊗ inv
          ≡⟨ ap (λ t. t ⊗ inv) (cancel (id i) (id y) (id x)) ⟩ (id x ⊖ id y) ⊗ inv
          ≡⟨ c.mul-invert (id x ⊖ id y) (sub-ne_zero (id x) (id y) h) ⟩ c.one ∎

  combine-one : (x : ℕ) (p : Point) → combine (x ∷ []) (x ∷ []) (λ _. p) ≡ p
  unfolding combine lambda
  combine-one x p = rw ((==_iff x x).1 refl, one-smul p) (plus-origin p)

  -- A set of two ids or more, from the sets without the one and without the other.
  combine-const_step :
      (x y : ℕ) (zs : List ℕ) (p : Point)
      → Distinct (x ∷ y ∷ zs)
      → ((q : Point) → combine (x ∷ zs) (x ∷ zs) (λ _. q) ≡ q)
      → ((q : Point) → combine (y ∷ zs) (y ∷ zs) (λ _. q) ≡ q)
      → combine (x ∷ y ∷ zs) (x ∷ y ∷ zs) (λ _. p) ≡ p
  combine-const_step x y zs p h with_x with_y =
      combine (x ∷ y ∷ zs) (x ∷ y ∷ zs) (λ _. p)
      ≡⟨ ap (combine (x ∷ y ∷ zs) (x ∷ y ∷ zs)) (fun_ext λ i. split_point x y i p apart) ⟩
        combine (x ∷ y ∷ zs) (x ∷ y ∷ zs)
          (λ i. (id i ⊖ id y) ⊙ inv ⊙ p ⊞ (id i ⊖ id x) ⊙ c.neg inv ⊙ p)
      ≡⟨ combine-plus (x ∷ y ∷ zs) (x ∷ y ∷ zs) (λ i. (id i ⊖ id y) ⊙ inv ⊙ p)
          (λ i. (id i ⊖ id x) ⊙ c.neg inv ⊙ p) ⟩
        combine (x ∷ y ∷ zs) (x ∷ y ∷ zs) (λ i. (id i ⊖ id y) ⊙ inv ⊙ p)
        ⊞ combine (x ∷ y ∷ zs) (x ∷ y ∷ zs) (λ i. (id i ⊖ id x) ⊙ c.neg inv ⊙ p)
      ≡⟨ rw (without_y, without_x) refl ⟩ c.neg (id y) ⊙ inv ⊙ p ⊞ c.neg (id x) ⊙ c.neg inv ⊙ p
      ≡⟨ rw (← mul-smul (c.neg (id y)) inv p, ← mul-smul (c.neg (id x)) (c.neg inv) p)
          (sym (add-smul (c.neg (id y) ⊗ inv) (c.neg (id x) ⊗ c.neg inv) p)) ⟩
        (c.neg (id y) ⊗ inv ⊕ c.neg (id x) ⊗ c.neg inv) ⊙ p
      ≡⟨ ap (λ t. t ⊙ p) scalars ⟩ c.one ⊙ p
      ≡⟨ one-smul p ⟩ p ∎
    where
      apart : id x ≢ id y
      apart = h.0.0

      inv : Scalar
      inv = c.invert (id x ⊖ id y)

      without_x :
          combine (x ∷ y ∷ zs) (x ∷ y ∷ zs) (λ i. (id i ⊖ id x) ⊙ c.neg inv ⊙ p)
          ≡ c.neg (id x) ⊙ c.neg inv ⊙ p
      without_x =
          combine-drop_head x (y ∷ zs) (λ _. c.neg inv ⊙ p) h.0
          ∙ ap (λ t. c.neg (id x) ⊙ t) (with_y (c.neg inv ⊙ p))

      without_y :
          combine (x ∷ y ∷ zs) (x ∷ y ∷ zs) (λ i. (id i ⊖ id y) ⊙ inv ⊙ p) ≡ c.neg (id y) ⊙ inv ⊙ p
      without_y =
          combine-swap x y zs (λ i. (id i ⊖ id y) ⊙ inv ⊙ p)
          ∙ combine-drop_head y (x ∷ zs) (λ _. inv ⊙ p) (Apart-symm x y apart, h.1.0)
          ∙ ap (λ t. c.neg (id y) ⊙ t) (with_x (inv ⊙ p))

      scalars : c.neg (id y) ⊗ inv ⊕ c.neg (id x) ⊗ c.neg inv ≡ c.one
      scalars =
          c.neg (id y) ⊗ inv ⊕ c.neg (id x) ⊗ c.neg inv
          ≡⟨ (simp (mul-neg, neg-mul, neg-neg, add-mul, add_comm)) ⟩ (id x ⊖ id y) ⊗ inv
          ≡⟨ c.mul-invert (id x ⊖ id y) (sub-ne_zero (id x) (id y) apart) ⟩ c.one ∎

  -- The weights of a set sum to one.
  combine-const :
      (x : ℕ) (zs : List ℕ) (p : Point) → Distinct (x ∷ zs) → combine (x ∷ zs) (x ∷ zs) (λ _. p) ≡ p
  combine-const x [] p h = combine-one x p
  combine-const x (y ∷ zs) p h =
      combine-const_step x y zs p h (λ q. combine-const x zs q (h.0.1, h.1.1))
        (λ q. combine-const y zs q h.1)

  -- The quotient of a polynomial by the difference from `x`.
  quotient : Scalar → List Point → List Point
  quotient x [] = []
  quotient x (p ∷ []) = []
  quotient x (p ∷ r ∷ rs) = evaluate x (r ∷ rs) ∷ quotient x (r ∷ rs)

  length-quotient :
      (x : Scalar) (p : Point) (ps : List Point) → length (quotient x (p ∷ ps)) ≡ length ps
  unfolding quotient
  length-quotient x p [] = refl
  length-quotient x p (r ∷ rs) = ap suc (length-quotient x r rs)

  -- `z a = x a + (z - x) a`
  shift : (x z : Scalar) (p : Point) → z ⊙ p ≡ x ⊙ p ⊞ (z ⊖ x) ⊙ p
  shift x z p = ap (λ t. t ⊙ p) (sym scalars) ∙ add-smul x (z ⊖ x) p
    where
      scalars : x ⊕ (z ⊖ x) ≡ z
      scalars = rw (add_left_comm x z (c.neg x), c.add-neg x) (add_comm z c.zero ∙ c.zero-add z)

  evaluate-quotient :
      (x z : Scalar) (p : Point) (ps : List Point)
      → evaluate z (p ∷ ps) ≡ evaluate x (p ∷ ps) ⊞ (z ⊖ x) ⊙ evaluate z (quotient x (p ∷ ps))
  unfolding evaluate quotient
  evaluate-quotient x z p [] =
      rw (smul-origin z, smul-origin x, smul-origin (z ⊖ x)) (sym (plus-origin (p ⊞ c.origin)))
  evaluate-quotient x z p (r ∷ rs) =
      p ⊞ z ⊙ evaluate z (r ∷ rs)
      ≡⟨ ap (λ t. p ⊞ z ⊙ t) (evaluate-quotient x z r rs) ⟩ p ⊞ z ⊙ (low ⊞ (z ⊖ x) ⊙ high)
      ≡⟨ ap (λ t. p ⊞ t) (smul-plus z low ((z ⊖ x) ⊙ high)) ⟩ p ⊞ (z ⊙ low ⊞ z ⊙ (z ⊖ x) ⊙ high)
      ≡⟨ ap₂ (λ s t. p ⊞ (s ⊞ t)) (shift x z low) (smul_comm z (z ⊖ x) high) ⟩
        p ⊞ ((x ⊙ low ⊞ (z ⊖ x) ⊙ low) ⊞ (z ⊖ x) ⊙ z ⊙ high)
      ≡⟨ ap (λ t. p ⊞ t) (plus_assoc (x ⊙ low) ((z ⊖ x) ⊙ low) ((z ⊖ x) ⊙ z ⊙ high)) ⟩
        p ⊞ (x ⊙ low ⊞ ((z ⊖ x) ⊙ low ⊞ (z ⊖ x) ⊙ z ⊙ high))
      ≡⟨ ap (λ t. p ⊞ (x ⊙ low ⊞ t)) (sym (smul-plus (z ⊖ x) low (z ⊙ high))) ⟩
        p ⊞ (x ⊙ low ⊞ (z ⊖ x) ⊙ (low ⊞ z ⊙ high))
      ≡⟨ sym (plus_assoc p (x ⊙ low) ((z ⊖ x) ⊙ (low ⊞ z ⊙ high))) ⟩
        p ⊞ x ⊙ low ⊞ (z ⊖ x) ⊙ (low ⊞ z ⊙ high) ∎
    where
      low : Point
      low = evaluate x (r ∷ rs)

      high : Point
      high = evaluate z (quotient x (r ∷ rs))

  -- Interpolation at zero: over distinct ids, at least as many as there are coefficients, the
  -- weights of `lambda` recover the constant term from the values of a polynomial over points.
  pub combine-evaluate :
      (ks : List ℕ) (f : List Point)
      → length f ≤ length ks
      → Distinct ks
      → combine ks ks (λ i. evaluate (id i) f) ≡ evaluate c.zero f
  combine-evaluate [] [] l h = unfold combine evaluate in refl
  combine-evaluate [] (p ∷ ps) l h = absurd (omega arith)
  combine-evaluate (x ∷ ys) [] l h = unfold evaluate in combine-const x ys c.origin h
  combine-evaluate (x ∷ ys) (p ∷ ps) l h =
      combine (x ∷ ys) (x ∷ ys) (λ i. evaluate (id i) (p ∷ ps))
      ≡⟨ ap (combine (x ∷ ys) (x ∷ ys)) (fun_ext λ i. evaluate-quotient (id x) (id i) p ps) ⟩
        combine (x ∷ ys) (x ∷ ys) (λ i. low ⊞ (id i ⊖ id x) ⊙ evaluate (id i) high)
      ≡⟨ combine-plus (x ∷ ys) (x ∷ ys) (λ _. low) (λ i. (id i ⊖ id x) ⊙ evaluate (id i) high) ⟩
        combine (x ∷ ys) (x ∷ ys) (λ _. low)
        ⊞ combine (x ∷ ys) (x ∷ ys) (λ i. (id i ⊖ id x) ⊙ evaluate (id i) high)
      ≡⟨ ap₂ (λ s t. s ⊞ t) (combine-const x ys low h)
          (combine-drop_head x ys (λ i. evaluate (id i) high) h.0) ⟩
        low ⊞ c.neg (id x) ⊙ combine ys ys (λ i. evaluate (id i) high)
      ≡⟨ ap (λ t. low ⊞ c.neg (id x) ⊙ t)
          (combine-evaluate ys high (omega (arith, length-quotient (id x) p ps)) h.1) ⟩
        low ⊞ c.neg (id x) ⊙ evaluate c.zero high
      ≡⟨ ap (λ t. low ⊞ t ⊙ evaluate c.zero high) (sym (c.zero-add (c.neg (id x)))) ⟩
        low ⊞ (c.zero ⊖ id x) ⊙ evaluate c.zero high
      ≡⟨ sym (evaluate-quotient (id x) c.zero p ps) ⟩ evaluate c.zero (p ∷ ps) ∎
    where
      low : Point
      low = evaluate (id x) (p ∷ ps)

      high : List Point
      high = quotient (id x) (p ∷ ps)
