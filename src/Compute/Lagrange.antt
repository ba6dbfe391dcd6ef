-- ===== src/Compute/Lagrange.antt =====
-- src/compute.rs: `lambda` holds the coefficients of Lagrange interpolation at zero, over points.
use wsts.Prelude.{
  ℕ, ◌≡◌, ◌≢◌, refl, sym, ap, ◌∙◌, ◌≡⟨◌⟩◌, ◌∎, ◌==◌, ==_iff, false, List, [], ◌∷◌, if◌then◌else◌,
  Bool-cases, inl, inr,
}
use wsts.Curve.{Curve, Scalar, Point, ◌⊖◌, ◌⊗◌, ◌⊘◌, ◌⊞◌, ◌⊙◌}
use wsts.Curve.Algebra.{
  mul_assoc, mul_left_comm, mul-one, plus_left_comm, plus_interchange, smul-origin, zero-smul,
  origin-plus, mul-neg, neg-neg, neg-add, add_comm, sub-ne_zero, mul-smul, smul-plus, smul_comm,
}
use wsts.Compute.{id, lambda, lambda_loop}

module _ ⦃c : Curve⦄ where
  ratio : ℕ → ℕ → Scalar
  ratio i j = if i == j then c.one else id j ⊘ (id j ⊖ id i)

  -- `lambda` as a product.
  pub weight : ℕ → List ℕ → Scalar
  weight i [] = c.one
  weight i (j ∷ js) = ratio i j ⊗ weight i js

  lambda_loop-weight :
      (i : ℕ) (acc : Scalar) (ks : List ℕ) → lambda_loop i acc ks ≡ acc ⊗ weight i ks
  unfolding lambda_loop weight ratio
  lambda_loop-weight i acc [] = sym (mul-one acc)
  lambda_loop-weight i acc (j ∷ ks) = elim (Bool-cases (i == j)) [
    | inl same ↦ rw (same, lambda_loop-weight i acc ks, c.one-mul (weight i ks))
    | inr other ↦
        rw (other, lambda_loop-weight i (acc ⊗ (id j ⊘ (id j ⊖ id i))) ks)
          (mul_assoc acc (id j ⊘ (id j ⊖ id i)) (weight i ks))
  ]

  pub lambda-weight : (i : ℕ) (ks : List ℕ) → lambda i ks ≡ weight i ks
  unfolding lambda
  lambda-weight i ks = lambda_loop-weight i c.one ks ∙ c.one-mul (weight i ks)

  -- The sum over `is` of the values, weighted for the set `ks`.
  unfoldable pub combine : List ℕ → List ℕ → (ℕ → Point) → Point
  combine ks [] g = c.origin
  combine ks (i ∷ is) g = lambda i ks ⊙ g i ⊞ combine ks is g

  abbrev pub Apart : ℕ → List ℕ → Type 0
  Apart i [] = Unit {0}
  Apart i (j ∷ js) = (id i ≢ id j) × Apart i js

  -- The scalars of the ids are pairwise distinct.
  abbrev pub Distinct : List ℕ → Type 0
  Distinct [] = Unit {0}
  Distinct (i ∷ is) = Apart i is × Distinct is

  ne→test : (i j : ℕ) → id i ≢ id j → (j == i) ≡ false
  ne→test i j h = elim (Bool-cases (j == i)) [
    | inl same ↦ absurd (h (ap id (sym ((==_iff j i).0 same))))
    | inr other ↦ other
  ]

  -- A factor of the weight against the difference that it divides by.
  ratio-sub : (x i : ℕ) → id x ≢ id i → ratio i x ⊗ (id i ⊖ id x) ≡ c.neg (id x)
  unfolding ratio
  ratio-sub x i h = rw (ne→test x i h) (
      id x ⊗ c.invert (id x ⊖ id i) ⊗ (id i ⊖ id x)
      ≡⟨ ap (λ t. id x ⊗ c.invert (id x ⊖ id i) ⊗ t) (simp (neg-add, neg-neg, add_comm)) ⟩
        id x ⊗ c.invert (id x ⊖ id i) ⊗ c.neg (id x ⊖ id i)
      ≡⟨ (simp (mul_assoc, mul-neg)) ⟩ c.neg (id x ⊗ (c.invert (id x ⊖ id i) ⊗ (id x ⊖ id i)))
      ≡⟨ ap (λ t. c.neg (id x ⊗ t))
          (c.mul_comm (c.invert (id x ⊖ id i)) (id x ⊖ id i)
            ∙ c.mul-invert (id x ⊖ id i) (sub-ne_zero (id x) (id i) h)) ⟩
        c.neg (id x ⊗ c.one)
      ≡⟨ ap c.neg (mul-one (id x)) ⟩ c.neg (id x) ∎)

  pub combine-weight :
      (ks : List ℕ) (i : ℕ) (is : List ℕ) (g : ℕ → Point)
      → combine ks (i ∷ is) g ≡ weight i ks ⊙ g i ⊞ combine ks is g
  unfolding combine
  combine-weight ks i is g = rw (lambda-weight i ks)

  -- A difference from `x` below the weights takes `x` out of the set.
  pub combine-drop :
      (x : ℕ) (ys zs : List ℕ) (q : ℕ → Point)
      → Apart x zs
      → combine (x ∷ ys) zs (λ i. (id i ⊖ id x) ⊙ q i) ≡ c.neg (id x) ⊙ combine ys zs q
  unfolding weight combine
  combine-drop x ys [] q h = sym (smul-origin (c.neg (id x)))
  combine-drop x ys (i ∷ zs) q h =
      combine (x ∷ ys) (i ∷ zs) (λ i. (id i ⊖ id x) ⊙ q i)
      ≡⟨ combine-weight (x ∷ ys) i zs (λ i. (id i ⊖ id x) ⊙ q i) ⟩
        (ratio i x ⊗ weight i ys) ⊙ (id i ⊖ id x) ⊙ q i
        ⊞ combine (x ∷ ys) zs (λ i. (id i ⊖ id x) ⊙ q i)
      ≡⟨ rw (combine-drop x ys zs q h.1) (ap (λ t. t ⊞ c.neg (id x) ⊙ combine ys zs q) head) ⟩
        c.neg (id x) ⊙ weight i ys ⊙ q i ⊞ c.neg (id x) ⊙ combine ys zs q
      ≡⟨ sym (smul-plus (c.neg (id x)) (weight i ys ⊙ q i) (combine ys zs q)) ⟩
        c.neg (id x) ⊙ (weight i ys ⊙ q i ⊞ combine ys zs q)
      ≡⟨ ap (λ t. c.neg (id x) ⊙ t) (sym (combine-weight ys i zs q)) ⟩
        c.neg (id x) ⊙ combine ys (i ∷ zs) q ∎
    where
      head : (ratio i x ⊗ weight i ys) ⊙ (id i ⊖ id x) ⊙ q i ≡ c.neg (id x) ⊙ weight i ys ⊙ q i
      head =
          (ratio i x ⊗ weight i ys) ⊙ (id i ⊖ id x) ⊙ q i
          ≡⟨ mul-smul (ratio i x) (weight i ys) ((id i ⊖ id x) ⊙ q i) ⟩
            ratio i x ⊙ weight i ys ⊙ (id i ⊖ id x) ⊙ q i
          ≡⟨ ap (λ t. ratio i x ⊙ t) (smul_comm (weight i ys) (id i ⊖ id x) (q i)) ⟩
            ratio i x ⊙ (id i ⊖ id x) ⊙ weight i ys ⊙ q i
          ≡⟨ sym (mul-smul (ratio i x) (id i ⊖ id x) (weight i ys ⊙ q i)) ⟩
            (ratio i x ⊗ (id i ⊖ id x)) ⊙ weight i ys ⊙ q i
          ≡⟨ ap (λ t. t ⊙ weight i ys ⊙ q i) (ratio-sub x i h.0) ⟩
            c.neg (id x) ⊙ weight i ys ⊙ q i ∎

  -- The same over the whole set: the term at `x` vanishes.
  pub combine-drop_head :
      (x : ℕ) (ys : List ℕ) (q : ℕ → Point)
      → Apart x ys
      → combine (x ∷ ys) (x ∷ ys) (λ i. (id i ⊖ id x) ⊙ q i) ≡ c.neg (id x) ⊙ combine ys ys q
  unfolding combine
  combine-drop_head x ys q h =
      rw (c.add-neg (id x), zero-smul (q x), smul-origin (lambda x (x ∷ ys)), origin-plus)
        (combine-drop x ys ys q h)

  weight-swap : (i x y : ℕ) (zs : List ℕ) → weight i (x ∷ y ∷ zs) ≡ weight i (y ∷ x ∷ zs)
  unfolding weight
  weight-swap i x y zs = mul_left_comm (ratio i x) (ratio i y) (weight i zs)

  combine-swap_set :
      (x y : ℕ) (zs is : List ℕ) (g : ℕ → Point)
      → combine (x ∷ y ∷ zs) is g ≡ combine (y ∷ x ∷ zs) is g
  unfolding combine
  combine-swap_set x y zs [] g = refl
  combine-swap_set x y zs (i ∷ is) g = rw (
    lambda-weight i (x ∷ y ∷ zs),
    lambda-weight i (y ∷ x ∷ zs),
    weight-swap i x y zs,
    combine-swap_set x y zs is g,
  )

  pub combine-swap :
      (x y : ℕ) (zs : List ℕ) (g : ℕ → Point)
      → combine (x ∷ y ∷ zs) (x ∷ y ∷ zs) g ≡ combine (y ∷ x ∷ zs) (y ∷ x ∷ zs) g
  combine-swap x y zs g = combine-swap_set x y zs (x ∷ y ∷ zs) g ∙ turn
    where
      turn : combine (y ∷ x ∷ zs) (x ∷ y ∷ zs) g ≡ combine (y ∷ x ∷ zs) (y ∷ x ∷ zs) g
      turn = unfold combine in plus_left_comm _ _ _

  pub combine-plus :
      (ks is : List ℕ) (g h : ℕ → Point)
      → combine ks is (λ i. g i ⊞ h i) ≡ combine ks is g ⊞ combine ks is h
  unfolding combine
  combine-plus ks [] g h = sym (origin-plus c.origin)
  combine-plus ks (i ∷ is) g h =
      rw (combine-plus ks is g h, smul-plus (lambda i ks) (g i) (h i))
        (plus_interchange (lambda i ks ⊙ g i) (lambda i ks ⊙ h i) (combine ks is g)
          (combine ks is h))

  pub Apart-symm : (x y : ℕ) → id x ≢ id y → id y ≢ id x
  Apart-symm x y h e = h (sym e)
