-- ===== src/Prelude/Ordered.antt =====
-- Maps whose keys are a range, in order: what `insert`s at their end make of them.
use Prim.Native.Nat.{ℕ, zero, suc, ◌+◌, ◌≤◌, ◌<◌}
use mathlib.Core.Path.{◌≡◌, refl, sym, ap, ◌∙◌}
use mathlib.Core.List.{List, [], ◌∷◌, ◌++◌, map, append_assoc, append-nil}
use mathlib.Core.Bool.{true}
use mathlib.Core.Option.{some}
use native.Mathlib.Omega.{arith}
use wsts.Prelude.Tests.{==_iff}
use wsts.Prelude.Lists.{
  length, range_from, length-append, range_from-add, resize, range, length-map, length-range_from,
  contains, get_elem?, remove,
}
use wsts.Prelude.Maps.{Map, keys, insert, lookup}

module _ {V : Type 0} where
  -- `extend` of a map.
  abbrev pub extend : Map V → Map V → Map V
  extend [] m = m
  extend ((k, v) ∷ more) m = extend more (insert k v m)

  insert-next :
      (a : ℕ) (v : V) (m : Map V)
      → keys m ≡ range_from a (length m)
      → insert (a + length m) v m ≡ m ++ (a + length m, v) ∷ []
  insert-next a v [] h = refl
  insert-next a v ((j, w) ∷ m) h =
      ground (arith, h, insert-next (suc a) v m (ground (arith, h)), sums a (length m))
    where
      sums : (a n : ℕ) → a + suc n ≡ suc a + n
      sums a n = omega arith

  pub keys-append : (m es : Map V) → keys (m ++ es) ≡ keys m ++ keys es
  keys-append [] es = refl
  keys-append ((k, v) ∷ m) es = ap (λ ks. k ∷ ks) (keys-append m es)

  keys-next :
      (a : ℕ) (v : V) (m : Map V)
      → keys m ≡ range_from a (length m)
      → keys (m ++ (a + length m, v) ∷ []) ≡ range_from a (suc (length m))
  keys-next a v m h =
      keys-append m ((a + length m, v) ∷ [])
      ∙ ap (λ ks. ks ++ (a + length m) ∷ []) h
      ∙ sym (range_from-add a (length m) 1)
      ∙ resize a a (length m + 1) (suc (length m)) refl (omega arith)

  -- Entries that follow those of a map come after them, in their order.
  pub extend-append :
      (a : ℕ) (es m : Map V)
      → keys m ≡ range_from a (length m)
      → keys es ≡ range_from (a + length m) (length es)
      → extend es m ≡ m ++ es
  extend-append a [] m h l = sym (append-nil m)
  extend-append a ((k, v) ∷ es) m h l =
      ap (extend es) (ap (λ j. insert j v m) first ∙ insert-next a v m h)
      ∙ extend-append a es (m ++ (a + length m, v) ∷ [])
          (keys-next a v m h ∙ resize a a (suc (length m)) _ refl (sym longer))
          (later
            ∙ resize (suc (a + length m)) _ (length es) (length es) (omega (arith, longer)) refl)
      ∙ append_assoc m ((a + length m, v) ∷ []) es
      ∙ ap (λ j. m ++ (j, v) ∷ es) (sym first)
    where
      first : k ≡ a + length m
      first = ground (arith, l)

      later : keys es ≡ range_from (suc (a + length m)) (length es)
      later = ground (arith, l)

      longer : length (m ++ (a + length m, v) ∷ []) ≡ suc (length m)
      longer = length-append m ((a + length m, v) ∷ []) ∙ omega arith

  -- The entry at a key of a range.
  pub lookup-map-range_from :
      (f : ℕ → V) (a n j : ℕ)
      → a ≤ j
      → j < a + n
      → lookup j (map (λ i. (i, f i)) (range_from a n)) ≡ some (f j)
  lookup-map-range_from f a zero j l h = absurd (omega arith)
  lookup-map-range_from f a (suc n) j l h =
      ground (arith, ==_iff a j, lookup-map-range_from f (suc a) n j)

  -- There are as many entries as keys.
  pub length-keys : (m : Map V) (n : ℕ) → keys m ≡ range n → length m ≡ n
  length-keys m n h = sym (length-map m _) ∙ ap length h ∙ length-range_from 0 n

  pub extend-nil : (es : Map V) (n : ℕ) → keys es ≡ range n → extend es [] ≡ es
  extend-nil es n h =
      extend-append 0 es [] refl (h ∙ resize 0 0 n (length es) refl (sym (length-keys es n h)))

  -- A function at a key that is there, in whatever order.
  pub lookup-map-contains :
      (f : ℕ → V) (is : List ℕ) (k : ℕ)
      → contains is k ≡ true
      → lookup k (map (λ i. (i, f i)) is) ≡ some (f k)
  lookup-map-contains f [] k h = absurd (cc h)
  lookup-map-contains f (i ∷ is) k h =
      let later : contains is k ≡ true → lookup k (map (λ i. (i, f i)) is) ≡ some (f k) =
        lookup-map-contains f is k in
      ground (arith, h, ==_iff i k, later)

  pub lookup-map_value :
      (f : ℕ → V) (is : List ℕ) (k : ℕ) (v : V)
      → lookup k (map (λ i. (i, f i)) is) ≡ some v
      → v ≡ f k
  lookup-map_value f [] k v h = absurd (cc h)
  lookup-map_value f (i ∷ is) k v h =
      let later : lookup k (map (λ i. (i, f i)) is) ≡ some v → v ≡ f k =
        lookup-map_value f is k v in
      ground (arith, h, ==_iff i k, later)

-- Where the items of a list stand in another from place `b` on.
abbrev pub From : {A : Type 0} → ℕ → List A → List A → Type 0
From b xs all = (j : ℕ) → get_elem? xs j ≡ get_elem? all (b + j)

pub From-self : {A : Type 0} (xs : List A) → From 0 xs xs
From-self xs j = ap (get_elem? xs) (zero_plus j)
  where
    zero_plus : (j : ℕ) → j ≡ 0 + j
    zero_plus j = omega arith

pub From-first :
    {A : Type 0} (b : ℕ) (x : A) (xs all : List A) → From b (x ∷ xs) all → get_elem? all b ≡ some x
From-first b x xs all h = ap (get_elem? all) (plus_zero b) ∙ sym (h 0)
  where
    plus_zero : (n : ℕ) → n ≡ n + 0
    plus_zero n = omega arith

pub From-rest :
    {A : Type 0} (b : ℕ) (x : A) (xs all : List A) → From b (x ∷ xs) all → From (suc b) xs all
From-rest b x xs all h j = h (suc j) ∙ ap (get_elem? all) (plus_suc b j)
  where
    plus_suc : (m n : ℕ) → m + suc n ≡ suc m + n
    plus_suc m n = omega arith

-- The parts of a range that two lists make.
pub range_left :
    (a : ℕ) (xs ys : List ℕ)
    → xs ++ ys ≡ range_from a (length (xs ++ ys))
    → xs ≡ range_from a (length xs)
range_left a [] ys h = refl
range_left a (x ∷ xs) ys h = ground (arith, h, range_left (suc a) xs ys (ground (arith, h)))

pub range_right :
    (a : ℕ) (xs ys : List ℕ)
    → xs ++ ys ≡ range_from a (length (xs ++ ys))
    → ys ≡ range_from (a + length xs) (length ys)
range_right a [] ys h = h ∙ resize a (a + 0) (length ys) (length ys) (omega arith) refl
range_right a (x ∷ xs) ys h =
    range_right (suc a) xs ys (ground (arith, h))
    ∙ resize (suc a + length xs) (a + suc (length xs)) (length ys) (length ys) (omega arith) refl

remove-range_from_below : (i a n : ℕ) → i < a → remove i (range_from a n) ≡ range_from a n
remove-range_from_below i a zero h = refl
remove-range_from_below i a (suc n) h =
    ground (arith, h, ==_iff a i, remove-range_from_below i (suc a) n (omega arith))

-- The first number of a range, taken out.
pub remove-range_from : (a n : ℕ) → remove a (range_from a (suc n)) ≡ range_from (suc a) n
remove-range_from a n =
    ground (arith, ==_iff a a, remove-range_from_below a (suc a) n (omega arith))
