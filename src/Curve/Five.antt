-- ===== src/Curve/Five.antt =====
-- A curve on which the models run: the integers modulo 5, as scalars, points and coordinates.
use wsts.Prelude.{
  ℕ, zero, suc, ◌+◌, ◌*◌, ◌%◌, ◌≡◌, ◌≢◌, refl, sym, ap, ◌∙◌, Bool, true, false, not, ◌&&◌, Option,
  none, some, List, [], ◌∷◌, ◌==◌, ==_iff, if◌then◌else◌, arith, length,
}
use wsts.Curve.{Curve, MultimultSucceeds, horner, combination}

pub data F5 : Type 0 where
  f0 f1 f2 f3 f4 : F5

abbrev pub to_ℕ : F5 → ℕ
to_ℕ f0 = 0
to_ℕ f1 = 1
to_ℕ f2 = 2
to_ℕ f3 = 3
to_ℕ f4 = 4

abbrev pub pick : ℕ → F5
pick zero = f0
pick (suc zero) = f1
pick (suc (suc zero)) = f2
pick (suc (suc (suc zero))) = f3
pick n = f4

abbrev of_ℕ : ℕ → F5
of_ℕ n = pick (n % 5)

abbrev plus : F5 → F5 → F5
plus a b = of_ℕ (to_ℕ a + to_ℕ b)

abbrev times : F5 → F5 → F5
times a b = of_ℕ (to_ℕ a * to_ℕ b)

abbrev minus : F5 → F5
minus a = of_ℕ (4 * to_ℕ a)

abbrev inverse : F5 → F5
inverse a = of_ℕ (to_ℕ a * to_ℕ a * to_ℕ a)

abbrev even : F5 → Bool
even f3 = false
even f4 = false
even a = true

abbrev coordinate : F5 → F5
coordinate f3 = f2
coordinate f4 = f1
coordinate a = a

abbrev lift : F5 → Option F5
lift f3 = none
lift f4 = none
lift a = some a

-- Equations between expressions over the five elements are checked at all of them.
abbrev same : F5 → F5 → Bool
same a b = to_ℕ a == to_ℕ b

abbrev every : (F5 → Bool) → Bool
every p = p f0 && p f1 && p f2 && p f3 && p f4

every_sound : (p : F5 → Bool) → every p ≡ true → (a : F5) → p a ≡ true
every_sound p h f0 = ground arith
every_sound p h f1 = ground arith
every_sound p h f2 = ground arith
every_sound p h f3 = ground arith
every_sound p h f4 = ground arith

pick-to_ℕ : (a : F5) → pick (to_ℕ a) ≡ a
pick-to_ℕ f0 = refl
pick-to_ℕ f1 = refl
pick-to_ℕ f2 = refl
pick-to_ℕ f3 = refl
pick-to_ℕ f4 = refl

same_sound : (a b : F5) → same a b ≡ true → a ≡ b
same_sound a b h = sym (pick-to_ℕ a) ∙ ap pick ((==_iff (to_ℕ a) (to_ℕ b)).0 h) ∙ pick-to_ℕ b

same_self : (a : F5) → same a a ≡ true
same_self a = (==_iff (to_ℕ a) (to_ℕ a)).1 refl

by_table₂ :
    (l r : F5 → F5 → F5)
    → every (λ a. every (λ b. same (l a b) (r a b))) ≡ true
    → (a b : F5) → l a b ≡ r a b
by_table₂ l r h a b = same_sound _ _ (
    every_sound (λ b. same (l a b) (r a b))
      (every_sound (λ a. every (λ b. same (l a b) (r a b))) h a) b)

by_table₃ :
    (l r : F5 → F5 → F5 → F5)
    → every (λ a. every (λ b. every (λ d. same (l a b d) (r a b d)))) ≡ true
    → (a b d : F5) → l a b d ≡ r a b d
by_table₃ l r h a b d =
    by_table₂ (l a) (r a)
      (every_sound (λ a. every (λ b. every (λ d. same (l a b d) (r a b d)))) h a) b d

pub plus_assoc : (a b d : F5) → plus (plus a b) d ≡ plus a (plus b d)
plus_assoc = by_table₃ (λ a b d. plus (plus a b) d) (λ a b d. plus a (plus b d)) refl

pub times_assoc : (a b d : F5) → times (times a b) d ≡ times a (times b d)
times_assoc = by_table₃ (λ a b d. times (times a b) d) (λ a b d. times a (times b d)) refl

pub times-plus : (a b d : F5) → times a (plus b d) ≡ plus (times a b) (times a d)
times-plus = by_table₃ (λ a b d. times a (plus b d)) (λ a b d. plus (times a b) (times a d)) refl

pub plus-times : (a b d : F5) → times (plus a b) d ≡ plus (times a d) (times b d)
plus-times = by_table₃ (λ a b d. times (plus a b) d) (λ a b d. plus (times a d) (times b d)) refl

pub plus_comm : (a b : F5) → plus a b ≡ plus b a
plus_comm = by_table₂ plus (λ a b. plus b a) refl

pub times_comm : (a b : F5) → times a b ≡ times b a
times_comm = by_table₂ times (λ a b. times b a) refl

pub zero-plus : (a : F5) → plus f0 a ≡ a
zero-plus a = by_table₂ (λ a b. plus f0 b) (λ a b. b) refl f0 a

pub one-times : (a : F5) → times f1 a ≡ a
one-times a = by_table₂ (λ a b. times f1 b) (λ a b. b) refl f0 a

pub plus-minus : (a : F5) → plus a (minus a) ≡ f0
plus-minus a = by_table₂ (λ a b. plus b (minus b)) (λ a b. f0) refl f0 a

pub times-inverse : (a : F5) → a ≢ f0 → times a (inverse a) ≡ f1
times-inverse f0 h = absurd (h refl)
times-inverse f1 h = refl
times-inverse f2 h = refl
times-inverse f3 h = refl
times-inverse f4 h = refl

pub coordinate-minus : (a : F5) → coordinate (minus a) ≡ coordinate a
coordinate-minus a = by_table₂ (λ a b. coordinate (minus b)) (λ a b. coordinate b) refl f0 a

pub even-minus : (a : F5) → a ≢ f0 → even (minus a) ≡ not (even a)
even-minus f0 h = absurd (h refl)
even-minus f1 h = refl
even-minus f2 h = refl
even-minus f3 h = refl
even-minus f4 h = refl

pub lift-coordinate : (a : F5) → a ≢ f0 → lift (coordinate a) ≡ some (if even a then a else minus a)
lift-coordinate f0 h = absurd (h refl)
lift-coordinate f1 h = refl
lift-coordinate f2 h = refl
lift-coordinate f3 h = refl
lift-coordinate f4 h = refl

pub apart : (a b : F5) → same a b ≡ false → a ≢ b
apart a b h e = cc (ap (same a) (sym e), same_self a)

abbrev pub F5-discrete : Discrete F5
F5-discrete f0 f0 = yes refl
F5-discrete f1 f1 = yes refl
F5-discrete f2 f2 = yes refl
F5-discrete f3 f3 = yes refl
F5-discrete f4 f4 = yes refl
F5-discrete a b = no (apart a b refl)

abbrev sum : List ℕ → ℕ
sum [] = 0
sum (b ∷ bs) = b + sum bs

abbrev of_bytes : List ℕ → F5
of_bytes bs = of_ℕ (sum bs)

abbrev multiples : List F5 → List F5 → Option F5
multiples ss ps = if length ss == length ps then some (combination plus times f0 ss ps) else none

pub multiples-combination :
    (ss ps : List F5) {p : F5}
    → length ss ≡ length ps
    → multiples ss ps ≡ some p
    → p ≡ combination plus times f0 ss ps
multiples-combination ss ps l h = ground arith

-- The random scalars are 1, 2, 3, and so on.
abbrev pub five : Curve
five = record {
  Scalar = F5;
  zero = f0;
  one = f1;
  add = plus;
  neg = minus;
  mul = times;
  invert = inverse;
  of_u32 = of_ℕ;
  of_bytes = of_bytes;
  to_bytes = λ a. to_ℕ a ∷ [];
  scalar_discrete = F5-discrete;
  Polynomial = List F5;
  polynomial = λ cs. cs;
  coefficients = λ cs. cs;
  eval = λ cs x. horner plus times f0 x cs;
  Point = F5;
  origin = f0;
  generator = f1;
  plus = plus;
  opposite = minus;
  smul = times;
  default_point = f0;
  point_discrete = F5-discrete;
  compress = λ p. to_ℕ p ∷ [];
  multimult = multiples;
  Element = F5;
  element_discrete = F5-discrete;
  element_bytes = λ p. to_ℕ p ∷ [];
  element_of_bytes = of_bytes;
  x = coordinate;
  has_even_y = even;
  lift_x = lift;
  sha256 = λ bs. (sum bs % 256) ∷ [];
  ecdsa_sign = λ h k. some (to_ℕ k ∷ h);
  Rng = ℕ;
  random = λ n. (of_ℕ n, n + 1);
  add_assoc = plus_assoc;
  add_comm = plus_comm;
  zero-add = zero-plus;
  add-neg = plus-minus;
  mul_assoc = times_assoc;
  mul_comm = times_comm;
  one-mul = one-times;
  mul-add = times-plus;
  mul-invert = times-inverse;
  of_u32_zero = refl;
  of_u32_one = refl;
  eval-coefficients = λ f x. refl;
  plus_assoc = plus_assoc;
  plus_comm = plus_comm;
  origin-plus = zero-plus;
  plus-opposite = plus-minus;
  one-smul = one-times;
  mul-smul = times_assoc;
  smul-plus = times-plus;
  add-smul = plus-times;
  default_origin = refl;
  multimult-combination = multiples-combination;
  x-opposite = coordinate-minus;
  even-opposite = even-minus;
  lift_x-x = lift-coordinate;
}

pub five-MultimultSucceeds : MultimultSucceeds ⦃c = five⦄
five-MultimultSucceeds ss ps h =
    (combination plus times f0 ss ps, rw ((==_iff (length ss) (length ps)).1 h) refl)
