-- ===== src/Curve/Algebra.antt =====
-- Laws of the scalars and of the points that follow from those of the interface, and rule sets that
-- bring an expression to a normal form: products distributed, signs outermost, terms sorted.
use mathlib.Core.HLevel.{hedberg}
use wsts.Prelude.{◌≡◌, ◌≢◌, sym, ap, ◌∙◌, ◌≡⟨◌⟩◌, ◌∎}
use wsts.Curve.{Curve, Scalar, Point, ◌⊕◌, ◌⊖◌, ◌⊗◌, ◌⊞◌, ◌⊙◌}

module _ ⦃c : Curve⦄ where
  pub Scalar-set : IsSet Scalar
  Scalar-set = hedberg c.scalar_discrete

  pub Point-set : IsSet Point
  Point-set = hedberg c.point_discrete

  pub add_assoc : (a b d : Scalar) → (a ⊕ b) ⊕ d ≡ a ⊕ (b ⊕ d)
  add_assoc = c.add_assoc

  pub add_comm : (a b : Scalar) → a ⊕ b ≡ b ⊕ a
  add_comm = c.add_comm

  pub add_left_comm : (a b d : Scalar) → a ⊕ (b ⊕ d) ≡ b ⊕ (a ⊕ d)
  add_left_comm a b d =
      sym (c.add_assoc a b d) ∙ ap (λ t. t ⊕ d) (c.add_comm a b) ∙ c.add_assoc b a d

  pub zero-add : (a : Scalar) → c.zero ⊕ a ≡ a
  zero-add = c.zero-add

  pub add-zero : (a : Scalar) → a ⊕ c.zero ≡ a
  add-zero a = c.add_comm a c.zero ∙ c.zero-add a

  pub mul_assoc : (a b d : Scalar) → (a ⊗ b) ⊗ d ≡ a ⊗ (b ⊗ d)
  mul_assoc = c.mul_assoc

  pub mul_comm : (a b : Scalar) → a ⊗ b ≡ b ⊗ a
  mul_comm = c.mul_comm

  pub mul_left_comm : (a b d : Scalar) → a ⊗ (b ⊗ d) ≡ b ⊗ (a ⊗ d)
  mul_left_comm a b d =
      sym (c.mul_assoc a b d) ∙ ap (λ t. t ⊗ d) (c.mul_comm a b) ∙ c.mul_assoc b a d

  pub one-mul : (a : Scalar) → c.one ⊗ a ≡ a
  one-mul = c.one-mul

  pub mul-one : (a : Scalar) → a ⊗ c.one ≡ a
  mul-one a = c.mul_comm a c.one ∙ c.one-mul a

  pub mul-add : (a b d : Scalar) → a ⊗ (b ⊕ d) ≡ a ⊗ b ⊕ a ⊗ d
  mul-add = c.mul-add

  pub add-mul : (a b d : Scalar) → (a ⊕ b) ⊗ d ≡ a ⊗ d ⊕ b ⊗ d
  add-mul a b d = rw (c.mul_comm (a ⊕ b) d, c.mul_comm a d, c.mul_comm b d) (c.mul-add d a b)

  -- Cancelling what is added twice.
  pub add_cancel : (a b d : Scalar) → a ⊕ b ≡ a ⊕ d → b ≡ d
  add_cancel a b d h =
      b
      ≡⟨ sym (strip b) ⟩ c.neg a ⊕ (a ⊕ b)
      ≡⟨ ap (λ t. c.neg a ⊕ t) h ⟩ c.neg a ⊕ (a ⊕ d)
      ≡⟨ strip d ⟩ d ∎
    where
      strip : (t : Scalar) → c.neg a ⊕ (a ⊕ t) ≡ t
      strip t =
          simp (← c.add_assoc (c.neg a) a t, c.add_comm (c.neg a) a, c.add-neg a) (c.zero-add t)

  pub neg_unique : (a b : Scalar) → a ⊕ b ≡ c.zero → b ≡ c.neg a
  neg_unique a b h = add_cancel a b (c.neg a) (h ∙ sym (c.add-neg a))

  pub mul-zero : (a : Scalar) → a ⊗ c.zero ≡ c.zero
  mul-zero a = add_cancel (a ⊗ c.zero) (a ⊗ c.zero) c.zero (
      sym (c.mul-add a c.zero c.zero)
      ∙ ap (λ t. a ⊗ t) (c.zero-add c.zero)
      ∙ sym (add-zero (a ⊗ c.zero)))

  pub zero-mul : (a : Scalar) → c.zero ⊗ a ≡ c.zero
  zero-mul a = c.mul_comm c.zero a ∙ mul-zero a

  pub mul-neg : (a b : Scalar) → a ⊗ c.neg b ≡ c.neg (a ⊗ b)
  mul-neg a b =
      neg_unique (a ⊗ b) (a ⊗ c.neg b)
        (sym (c.mul-add a b (c.neg b)) ∙ ap (λ t. a ⊗ t) (c.add-neg b) ∙ mul-zero a)

  pub neg-mul : (a b : Scalar) → c.neg a ⊗ b ≡ c.neg (a ⊗ b)
  neg-mul a b = c.mul_comm (c.neg a) b ∙ mul-neg b a ∙ ap c.neg (c.mul_comm b a)

  pub neg-neg : (a : Scalar) → c.neg (c.neg a) ≡ a
  neg-neg a = sym (neg_unique (c.neg a) a (c.add_comm (c.neg a) a ∙ c.add-neg a))

  pub neg-zero : c.neg c.zero ≡ c.zero
  neg-zero = sym (neg_unique c.zero c.zero (c.zero-add c.zero))

  pub neg-add : (a b : Scalar) → c.neg (a ⊕ b) ≡ c.neg a ⊕ c.neg b
  neg-add a b = sym (
      neg_unique (a ⊕ b) (c.neg a ⊕ c.neg b)
        (simp (add_assoc, add_left_comm b (c.neg a) (c.neg b), c.add-neg, add-zero)))

  -- A difference vanishes only between equals.
  pub sub-ne_zero : (a b : Scalar) → a ≢ b → (a ⊖ b) ≢ c.zero
  sub-ne_zero a b apart h = apart (sym (neg-neg a) ∙ ap c.neg (sym rest) ∙ neg-neg b)
    where
      rest : c.neg b ≡ c.neg a
      rest = neg_unique a (c.neg b) h

  pub plus_assoc : (p q r : Point) → (p ⊞ q) ⊞ r ≡ p ⊞ (q ⊞ r)
  plus_assoc = c.plus_assoc

  pub plus_comm : (p q : Point) → p ⊞ q ≡ q ⊞ p
  plus_comm = c.plus_comm

  pub plus_left_comm : (p q r : Point) → p ⊞ (q ⊞ r) ≡ q ⊞ (p ⊞ r)
  plus_left_comm p q r =
      sym (c.plus_assoc p q r) ∙ ap (λ t. t ⊞ r) (c.plus_comm p q) ∙ c.plus_assoc q p r

  pub origin-plus : (p : Point) → c.origin ⊞ p ≡ p
  origin-plus = c.origin-plus

  pub plus-origin : (p : Point) → p ⊞ c.origin ≡ p
  plus-origin p = c.plus_comm p c.origin ∙ c.origin-plus p

  pub smul-plus : (a : Scalar) (p q : Point) → a ⊙ (p ⊞ q) ≡ a ⊙ p ⊞ a ⊙ q
  smul-plus = c.smul-plus

  pub add-smul : (a b : Scalar) (p : Point) → (a ⊕ b) ⊙ p ≡ a ⊙ p ⊞ b ⊙ p
  add-smul = c.add-smul

  pub mul-smul : (a b : Scalar) (p : Point) → (a ⊗ b) ⊙ p ≡ a ⊙ b ⊙ p
  mul-smul = c.mul-smul

  pub one-smul : (p : Point) → c.one ⊙ p ≡ p
  one-smul = c.one-smul

  pub smul_comm : (a b : Scalar) (p : Point) → a ⊙ b ⊙ p ≡ b ⊙ a ⊙ p
  smul_comm a b p = sym (c.mul-smul a b p) ∙ ap (λ t. t ⊙ p) (c.mul_comm a b) ∙ c.mul-smul b a p

  pub plus_cancel : (p q r : Point) → p ⊞ q ≡ p ⊞ r → q ≡ r
  plus_cancel p q r h =
      q
      ≡⟨ sym (strip q) ⟩ c.opposite p ⊞ (p ⊞ q)
      ≡⟨ ap (λ t. c.opposite p ⊞ t) h ⟩ c.opposite p ⊞ (p ⊞ r)
      ≡⟨ strip r ⟩ r ∎
    where
      strip : (t : Point) → c.opposite p ⊞ (p ⊞ t) ≡ t
      strip t =
          simp (← c.plus_assoc (c.opposite p) p t, c.plus_comm (c.opposite p) p, c.plus-opposite p)
            (c.origin-plus t)

  pub opposite_unique : (p q : Point) → p ⊞ q ≡ c.origin → q ≡ c.opposite p
  opposite_unique p q h = plus_cancel p q (c.opposite p) (h ∙ sym (c.plus-opposite p))

  pub smul-origin : (a : Scalar) → a ⊙ c.origin ≡ c.origin
  smul-origin a = plus_cancel (a ⊙ c.origin) (a ⊙ c.origin) c.origin (
      sym (c.smul-plus a c.origin c.origin)
      ∙ ap (λ t. a ⊙ t) (c.origin-plus c.origin)
      ∙ sym (plus-origin (a ⊙ c.origin)))

  pub zero-smul : (p : Point) → c.zero ⊙ p ≡ c.origin
  zero-smul p = plus_cancel (c.zero ⊙ p) (c.zero ⊙ p) c.origin (
      sym (c.add-smul c.zero c.zero p)
      ∙ ap (λ t. t ⊙ p) (c.zero-add c.zero)
      ∙ sym (plus-origin (c.zero ⊙ p)))

  pub neg-smul : (a : Scalar) (p : Point) → c.neg a ⊙ p ≡ c.opposite (a ⊙ p)
  neg-smul a p =
      opposite_unique (a ⊙ p) (c.neg a ⊙ p)
        (sym (c.add-smul a (c.neg a) p) ∙ ap (λ t. t ⊙ p) (c.add-neg a) ∙ zero-smul p)

  pub smul-opposite : (a : Scalar) (p : Point) → a ⊙ c.opposite p ≡ c.opposite (a ⊙ p)
  smul-opposite a p =
      opposite_unique (a ⊙ p) (a ⊙ c.opposite p)
        (sym (c.smul-plus a p (c.opposite p)) ∙ ap (λ t. a ⊙ t) (c.plus-opposite p) ∙ smul-origin a)

  pub opposite-opposite : (p : Point) → c.opposite (c.opposite p) ≡ p
  opposite-opposite p =
      sym (opposite_unique (c.opposite p) p (c.plus_comm (c.opposite p) p ∙ c.plus-opposite p))

  pub opposite-origin : c.opposite c.origin ≡ c.origin
  opposite-origin = sym (opposite_unique c.origin c.origin (c.origin-plus c.origin))

  pub opposite-plus : (p q : Point) → c.opposite (p ⊞ q) ≡ c.opposite p ⊞ c.opposite q
  opposite-plus p q = sym (
      opposite_unique (p ⊞ q) (c.opposite p ⊞ c.opposite q) (
        simp (
          plus_assoc,
          plus_left_comm q (c.opposite p) (c.opposite q),
          c.plus-opposite,
          plus-origin,
        )))

  pub plus_interchange : (p q r s : Point) → (p ⊞ q) ⊞ (r ⊞ s) ≡ (p ⊞ r) ⊞ (q ⊞ s)
  plus_interchange p q r s = simp (plus_assoc, plus_left_comm q r s)

-- Distributed sums of points, their terms sorted.
pub ruleset module_laws = (
  plus_assoc, plus_comm, plus_left_comm, origin-plus, plus-origin, smul-plus, add-smul, mul-smul,
  one-smul, smul_comm, smul-origin, zero-smul, neg-smul, smul-opposite, opposite-opposite,
  opposite-plus, opposite-origin,
)

pub ruleset field_laws = (
  add_assoc, add_comm, add_left_comm, zero-add, add-zero, mul_assoc, mul_comm, mul_left_comm,
  one-mul, mul-one, mul-add, add-mul, mul-zero, zero-mul, mul-neg, neg-mul, neg-neg, neg-zero,
  neg-add,
)
