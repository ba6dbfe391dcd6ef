-- ===== src/Prelude/Lists.antt =====
-- Lists over native numbers: the operations of `Vec` and of iterators that the source uses.
use Prim.Native.Nat.{ℕ, zero, suc, ◌+◌, ◌≤◌, ◌<◌}
use mathlib.Core.Path.{◌≡◌, refl, sym, ap, ◌∙◌}
use mathlib.Core.Bool.{Bool, true, false}
use mathlib.Core.Logic.{◌⊎◌, inl, inr}
use mathlib.Core.List.{List, [], ◌∷◌, ◌++◌, map}
use mathlib.Core.Option.{Option, none, some}
use native.Mathlib.Omega.{arith}
use wsts.Prelude.Tests.{◌==◌, if◌then◌else◌, Option-cases, ◌>>=◌}

module _ {ℓ} {A : Type ℓ} where
  abbrev pub length : List A → ℕ
  length [] = 0
  length (x ∷ xs) = suc (length xs)

  abbrev pub get_elem? : List A → ℕ → Option A
  get_elem? [] i = none
  get_elem? (x ∷ xs) zero = some x
  get_elem? (x ∷ xs) (suc i) = get_elem? xs i

  abbrev pub is_empty : List A → Bool
  is_empty [] = true
  is_empty (x ∷ xs) = false

  abbrev pub replicate : ℕ → A → List A
  replicate zero a = []
  replicate (suc n) a = a ∷ replicate n a

  pub length-append : (xs ys : List A) → length (xs ++ ys) ≡ length xs + length ys
  length-append [] ys = omega arith
  length-append (x ∷ xs) ys = omega (arith, length-append xs ys)

-- `start, start + 1, …`, in all `n` numbers.
abbrev pub range_from : ℕ → ℕ → List ℕ
range_from start zero = []
range_from start (suc n) = start ∷ range_from (suc start) n

-- The source's `0..n`.
abbrev pub range : ℕ → List ℕ
range n = range_from 0 n

abbrev pub contains : List ℕ → ℕ → Bool
contains [] a = false
contains (x ∷ xs) a = if x == a then true else contains xs a

-- `HashSet::remove`.
abbrev pub remove : ℕ → List ℕ → List ℕ
remove a [] = []
remove a (x ∷ xs) = if x == a then remove a xs else x ∷ remove a xs

module _ {ℓ κ} {A : Type ℓ} {B : Type κ} where
  abbrev pub flat_map : (A → List B) → List A → List B
  flat_map f [] = []
  flat_map f (x ∷ xs) = f x ++ flat_map f xs

  -- Stops at the shorter list, as `core::iter::zip` does.
  abbrev pub zip : List A → List B → List (A × B)
  zip [] ys = []
  zip (x ∷ xs) [] = []
  zip (x ∷ xs) (y ∷ ys) = (x, y) ∷ zip xs ys

  pub length-map : (xs : List A) (f : A → B) → length (map f xs) ≡ length xs
  length-map [] f = refl
  length-map (x ∷ xs) f = ap suc (length-map xs f)

  -- `filter` and `map` by a closure that may panic.
  abbrev pub traverse : (A → Option B) → List A → Option (List B)
  traverse f [] = some []
  traverse f (x ∷ xs) = do y ← f x; ys ← traverse f xs; some (y ∷ ys)

module _ {ℓ} {A : Type ℓ} where
  abbrev pub filter_by : (A → Bool) → List A → List A
  filter_by p [] = []
  filter_by p (x ∷ xs) = if p x then x ∷ filter_by p xs else filter_by p xs

  abbrev pub try_filter : (A → Option Bool) → List A → Option (List A)
  try_filter p [] = some []
  try_filter p (x ∷ xs) = do
    keep ← p x
    rest ← try_filter p xs
    some (if keep then x ∷ rest else rest)

  -- To split on a computed list and keep the equation.
  pub List-cases : (xs : List A) → (xs ≡ []) ⊎ ((x : A) × (rest : List A) × (xs ≡ x ∷ rest))
  List-cases [] = inl refl
  List-cases (x ∷ xs) = inr (x, xs, refl)

pub contains-remove :
    (a b : ℕ) (xs : List ℕ) → contains (remove a xs) b ≡ (if a == b then false else contains xs b)
contains-remove a b [] = ground arith
contains-remove a b (x ∷ xs) = ground (arith, contains-remove a b xs)

pub contains-range_from :
    (start n i : ℕ) → start ≤ i → i < start + n → contains (range_from start n) i ≡ true
contains-range_from start zero i l h = absurd (omega arith)
contains-range_from start (suc n) i l h = ground (arith, contains-range_from (suc start) n i)

pub length-range_from : (start n : ℕ) → length (range_from start n) ≡ n
length-range_from start zero = refl
length-range_from start (suc n) = ap suc (length-range_from (suc start) n)

-- Equal bounds make equal ranges.
pub resize : (a b m n : ℕ) → a ≡ b → m ≡ n → range_from a m ≡ range_from b n
resize a b m n h l = rw (h, l) refl

pub range_from-add : (a m n : ℕ) → range_from a (m + n) ≡ range_from a m ++ range_from (a + m) n
range_from-add a zero n = resize a (a + 0) (0 + n) n (omega arith) (omega arith)
range_from-add a (suc m) n =
    resize a a (suc m + n) (suc (m + n)) refl (omega arith)
    ∙ ap (λ js. a ∷ js)
        (range_from-add (suc a) m n
          ∙ ap (λ js. range_from (suc a) m ++ js)
              (resize (suc a + m) (a + suc m) n n (omega arith) refl))

-- A traversal of a range succeeds if each step does.
pub traverse-range_from {ℓ} :
    {A : Type ℓ} (f : ℕ → Option A) (start n : ℕ)
    → ((i : ℕ) → start ≤ i → i < start + n → (a : A) × (f i ≡ some a))
    → (ys : List A) × (traverse f (range_from start n) ≡ some ys)
traverse-range_from f start zero h = ([], refl)
traverse-range_from f start (suc n) h =
    let (a, p) = h start (omega arith) (omega arith) in
    let (ys, q) = traverse-range_from f (suc start) n (λ i l u. h i (omega arith) (omega arith)) in
    (a ∷ ys, rw (p, q) refl)

pub some-inj {ℓ} : {A : Type ℓ} {x y : A} → some x ≡ some y → x ≡ y
some-inj h = cc h

plus_zero : (n : ℕ) → n + 0 ≡ n
plus_zero n = omega arith

suc_plus : (n m : ℕ) → suc n + m ≡ n + suc m
suc_plus n m = omega arith

-- Concatenated traversals, and those that find at every place of a range what stands there in a list.
module _ {ℓ} {A : Type ℓ} where
  pub traverse-append :
      (f : ℕ → Option A) (is js : List ℕ) (xs ys : List A)
      → traverse f is ≡ some xs
      → traverse f js ≡ some ys
      → traverse f (is ++ js) ≡ some (xs ++ ys)
  traverse-append f [] js xs ys h k = k ∙ ap (λ o. some (o ++ ys)) (some-inj h)
  traverse-append f (i ∷ is) js xs ys h k = elim (Option-cases (f i)) [
    | inl e ↦ absurd (ground (arith, h, e))
    | inr (y, e) ↦ elim (Option-cases (traverse f is)) [
      | inl e' ↦ absurd (ground (arith, h, e, e'))
      | inr (zs, e') ↦
          let same : y ∷ zs ≡ xs = ground (arith, h, e, e') in
          rw (e, traverse-append f is js zs ys e' k) (ap (λ us. some (us ++ ys)) same)
    ]
  ]

  pub traverse-pointwise :
      (f : ℕ → Option A) (start : ℕ) (xs : List A)
      → ((i : ℕ) (x : A) → get_elem? xs i ≡ some x → f (start + i) ≡ some x)
      → traverse f (range_from start (length xs)) ≡ some xs
  traverse-pointwise f start [] h = refl
  traverse-pointwise f start (x ∷ xs) h =
      rw
        (
          ap f (sym (plus_zero start)) ∙ h 0 x refl,
          traverse-pointwise f (suc start) xs (λ i y e. ap f (suc_plus start i) ∙ h (suc i) y e),
        )
        refl

-- The first items of a slice, and the others.
module _ {ℓ} {A : Type ℓ} where
  abbrev pub take : ℕ → List A → List A
  take zero xs = []
  take (suc n) [] = []
  take (suc n) (x ∷ xs) = x ∷ take n xs

  abbrev pub drop : ℕ → List A → List A
  drop zero xs = xs
  drop (suc n) [] = []
  drop (suc n) (x ∷ xs) = drop n xs

  pub take-append : (n : ℕ) (xs ys : List A) → length xs ≡ n → take n (xs ++ ys) ≡ xs
  take-append zero [] ys h = refl
  take-append zero (x ∷ xs) ys h = absurd (omega arith)
  take-append (suc n) [] ys h = absurd (omega arith)
  take-append (suc n) (x ∷ xs) ys h = ap (λ zs. x ∷ zs) (take-append n xs ys (omega arith))

  pub drop-append : (n : ℕ) (xs ys : List A) → length xs ≡ n → drop n (xs ++ ys) ≡ ys
  drop-append zero [] ys h = refl
  drop-append zero (x ∷ xs) ys h = absurd (omega arith)
  drop-append (suc n) [] ys h = absurd (omega arith)
  drop-append (suc n) (x ∷ xs) ys h = drop-append n xs ys (omega arith)

  pub drop-get :
      (n : ℕ) (xs : List A) (x : A) → get_elem? xs n ≡ some x → drop n xs ≡ x ∷ drop (suc n) xs
  drop-get zero [] x h = cc h
  drop-get zero (y ∷ xs) x h = ap (λ z. z ∷ xs) (some-inj h)
  drop-get (suc n) [] x h = cc h
  drop-get (suc n) (y ∷ xs) x h = drop-get n xs x h

  pub drop-length : (xs : List A) → drop (length xs) xs ≡ []
  drop-length [] = refl
  drop-length (x ∷ xs) = drop-length xs
