-- ===== src/Curve.antt =====
-- What the source takes from its dependencies: the scalars and points of `p256k1`, the digest of
-- `sha2`, and the source of randomness. Nothing of these is defined in the repository, so they are
-- the fields of an interface that every module takes as an instance, with their documented laws.
pub mod Algebra
pub mod Five
use wsts.Prelude.{ℕ, ◌+◌, ◌≡◌, ◌≢◌, Bool, not, Option, some, List, [], ◌∷◌, length, if◌then◌else◌}

-- The value at `x` of the polynomial with these coefficients, lowest first.
abbrev pub horner : {A : Type 0} → (A → A → A) → (A → A → A) → A → A → List A → A
horner plus times null x [] = null
horner plus times null x (a ∷ cs) = plus a (times x (horner plus times null x cs))

-- The sum of the products of two lists.
abbrev pub combination : {A B : Type 0} → (B → B → B) → (A → B → B) → B → List A → List B → B
combination plus smul null [] ps = null
combination plus smul null (a ∷ cs) [] = null
combination plus smul null (a ∷ cs) (p ∷ ps) = plus (smul a p) (combination plus smul null cs ps)

pub record Curve : Type 1 where
  -- p256k1::scalar::Scalar, the integers modulo the order of the group.
  pub Scalar : Type 0
  pub zero : Scalar
  pub one : Scalar
  pub add : Scalar → Scalar → Scalar
  pub neg : Scalar → Scalar
  pub mul : Scalar → Scalar → Scalar
  pub invert : Scalar → Scalar
  pub of_u32 : ℕ → Scalar
  pub of_bytes : List ℕ → Scalar
  pub to_bytes : Scalar → List ℕ
  pub scalar_discrete : Discrete Scalar
  -- polynomial::Polynomial over the scalars.
  pub Polynomial : Type 0
  pub polynomial : List Scalar → Polynomial
  pub coefficients : Polynomial → List Scalar
  pub eval : Polynomial → Scalar → Scalar
  -- p256k1::point::Point.
  pub Point : Type 0
  pub origin : Point
  pub generator : Point
  pub plus : Point → Point → Point
  pub opposite : Point → Point
  pub smul : Scalar → Point → Point
  pub default_point : Point
  pub point_discrete : Discrete Point
  pub compress : Point → List ℕ
  pub multimult : List Scalar → List Point → Option Point
  -- p256k1::field::Element, the coordinates.
  pub Element : Type 0
  pub element_discrete : Discrete Element
  pub element_bytes : Element → List ℕ
  pub element_of_bytes : List ℕ → Element
  pub x : Point → Element
  pub has_even_y : Point → Bool
  pub lift_x : Element → Option Point
  -- sha2::Sha256 of all the bytes that were fed to the hasher.
  pub sha256 : List ℕ → List ℕ
  -- p256k1::ecdsa, which signs a digest by a private key.
  pub ecdsa_sign : List ℕ → Scalar → Option (List ℕ)
  -- rand_core::RngCore behind `Scalar::random`.
  pub Rng : Type 0
  pub random : Rng → Scalar × Rng
  -- The scalars are a field.
  pub add_assoc : (a b d : Scalar) → add (add a b) d ≡ add a (add b d)
  pub add_comm : (a b : Scalar) → add a b ≡ add b a
  pub zero-add : (a : Scalar) → add zero a ≡ a
  pub add-neg : (a : Scalar) → add a (neg a) ≡ zero
  pub mul_assoc : (a b d : Scalar) → mul (mul a b) d ≡ mul a (mul b d)
  pub mul_comm : (a b : Scalar) → mul a b ≡ mul b a
  pub one-mul : (a : Scalar) → mul one a ≡ a
  pub mul-add : (a b d : Scalar) → mul a (add b d) ≡ add (mul a b) (mul a d)
  pub mul-invert : (a : Scalar) → a ≢ zero → mul a (invert a) ≡ one
  pub of_u32_zero : of_u32 0 ≡ zero
  pub of_u32_one : of_u32 1 ≡ one
  pub eval-coefficients :
      (f : Polynomial) (x : Scalar) → eval f x ≡ horner add mul zero x (coefficients f)
  -- The points are a module over the scalars.
  pub plus_assoc : (p q r : Point) → plus (plus p q) r ≡ plus p (plus q r)
  pub plus_comm : (p q : Point) → plus p q ≡ plus q p
  pub origin-plus : (p : Point) → plus origin p ≡ p
  pub plus-opposite : (p : Point) → plus p (opposite p) ≡ origin
  pub one-smul : (p : Point) → smul one p ≡ p
  pub mul-smul : (a b : Scalar) (p : Point) → smul (mul a b) p ≡ smul a (smul b p)
  pub smul-plus : (a : Scalar) (p q : Point) → smul a (plus p q) ≡ plus (smul a p) (smul a q)
  pub add-smul : (a b : Scalar) (p : Point) → smul (add a b) p ≡ plus (smul a p) (smul b p)
  pub default_origin : default_point ≡ origin
  -- What `multimult` returns when it does not fail.
  pub multimult-combination :
      (ss : List Scalar) (ps : List Point) {p : Point}
      → length ss ≡ length ps
      → multimult ss ps ≡ some p
      → p ≡ combination plus smul origin ss ps
  -- The x coordinate names a point up to its sign, and `lift_x` picks the even one.
  pub x-opposite : (p : Point) → x (opposite p) ≡ x p
  pub even-opposite : (p : Point) → p ≢ origin → has_even_y (opposite p) ≡ not (has_even_y p)
  pub lift_x-x :
      (p : Point) → p ≢ origin → lift_x (x p) ≡ some (if has_even_y p then p else opposite p)

module _ ⦃c : Curve⦄ where
  abbrev pub Scalar : Type 0
  Scalar = c.Scalar

  abbrev pub Point : Type 0
  Point = c.Point

  abbrev pub Rng : Type 0
  Rng = c.Rng

  abbrev pub Polynomial : Type 0
  Polynomial = c.Polynomial

  abbrev pub Element : Type 0
  Element = c.Element

  abbrev pub G : Point
  G = c.generator

  abbrev pub Bytes : Type 0
  Bytes = List ℕ

  infixl 65 ◌⊕◌ ◌⊖◌ ◌⊞◌ ◌⊟◌
  infixl 70 ◌⊗◌ ◌⊘◌
  infixr 72 ◌⊙◌
  abbrev pub ◌⊕◌ : Scalar → Scalar → Scalar
  a ⊕ b = c.add a b

  abbrev pub ◌⊖◌ : Scalar → Scalar → Scalar
  a ⊖ b = c.add a (c.neg b)

  abbrev pub ◌⊗◌ : Scalar → Scalar → Scalar
  a ⊗ b = c.mul a b

  abbrev pub ◌⊘◌ : Scalar → Scalar → Scalar
  a ⊘ b = c.mul a (c.invert b)

  abbrev pub ◌⊞◌ : Point → Point → Point
  p ⊞ q = c.plus p q

  abbrev pub ◌⊟◌ : Point → Point → Point
  p ⊟ q = c.plus p (c.opposite q)

  abbrev pub ◌⊙◌ : Scalar → Point → Point
  a ⊙ p = c.smul a p

  -- `multimult` does not fail on lists of one length.
  abbrev pub MultimultSucceeds : Type 0
  MultimultSucceeds =
      (ss : List Scalar) (ps : List Point)
      → length ss ≡ length ps
      → (p : Point) × (c.multimult ss ps ≡ some p)
