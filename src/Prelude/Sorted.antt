-- ===== src/Prelude/Sorted.antt =====
-- Maps of the kind `BTreeMap` that get entries for a range of keys, in order.
use Prim.Native.Nat.{ℕ, zero, suc, ◌+◌, ◌<◌}
use mathlib.Core.Path.{◌≡◌, refl, ap, ◌∙◌}
use mathlib.Core.List.{List, [], ◌∷◌, map}
use mathlib.Core.Option.{some}
use native.Mathlib.Omega.{arith}
use wsts.Prelude.Tests.{==_iff}
use wsts.Prelude.Lists.{range_from, resize, traverse}
use wsts.Prelude.Maps.{Map, keys, lookup, insert_sorted, lookup-insert_sorted}

keys-insert_sorted_end :
    {V : Type 0} (v : V) (m : Map V) (a n : ℕ)
    → keys m ≡ range_from a n
    → keys (insert_sorted (a + n) v m) ≡ range_from a (suc n)
keys-insert_sorted_end v [] a zero h = resize (a + 0) a 1 1 (omega arith) refl
keys-insert_sorted_end v [] a (suc n) h = absurd (cc h)
keys-insert_sorted_end v (e ∷ m) a zero h = absurd (cc h)
keys-insert_sorted_end v ((k, w) ∷ m) a (suc n) h = ground (
  arith,
  h,
  sums a n,
  ==_iff k (a + suc n),
  keys-insert_sorted_end v m (suc a) n (ground (arith, h)),
)
  where
    sums : (a n : ℕ) → a + suc n ≡ suc a + n
    sums a n = omega arith

module _ {R V : Type 0} (key : R → ℕ) (value : R → V) where
  -- Several entries, one after the other.
  abbrev pub insert_all : List R → Map V → Map V
  insert_all [] m = m
  insert_all (x ∷ xs) m = insert_all xs (insert_sorted (key x) (value x) m)

  lookup-insert_all_below :
      (xs : List R) (m : Map V) (a n j : ℕ)
      → map key xs ≡ range_from a n
      → j < a
      → lookup j (insert_all xs m) ≡ lookup j m
  lookup-insert_all_below [] m a n j ks h = refl
  lookup-insert_all_below (x ∷ xs) m a zero j ks h = absurd (cc ks)
  lookup-insert_all_below (x ∷ xs) m a (suc n) j ks h =
      lookup-insert_all_below xs (insert_sorted (key x) (value x) m) (suc a) n j
        (ground (arith, ks)) (omega (arith, h))
      ∙ lookup-insert_sorted (key x) j (value x) m
      ∙ ground (arith, ks, h, ==_iff (key x) j)

  -- All the entries are there.
  pub traverse-insert_all :
      (xs : List R) (m : Map V) (a n : ℕ)
      → map key xs ≡ range_from a n
      → traverse (λ i. lookup i (insert_all xs m)) (range_from a n) ≡ some (map value xs)
  traverse-insert_all [] m a zero ks = refl
  traverse-insert_all [] m a (suc n) ks = absurd (cc ks)
  traverse-insert_all (x ∷ xs) m a zero ks = absurd (cc ks)
  traverse-insert_all (x ∷ xs) m a (suc n) ks =
      rw (first, traverse-insert_all xs (insert_sorted (key x) (value x) m) (suc a) n rest) refl
    where
      m' : Map V
      m' = insert_sorted (key x) (value x) m

      rest : map key xs ≡ range_from (suc a) n
      rest = ground (arith, ks)

      first : lookup a (insert_all xs m') ≡ some (value x)
      first =
          lookup-insert_all_below xs m' (suc a) n a rest (omega arith)
          ∙ lookup-insert_sorted (key x) a (value x) m
          ∙ ground (arith, ks, ==_iff (key x) a)

  -- The keys after them.
  pub keys-insert_all :
      (xs : List R) (m : Map V) (a n k : ℕ)
      → keys m ≡ range_from a n
      → map key xs ≡ range_from (a + n) k
      → keys (insert_all xs m) ≡ range_from a (n + k)
  keys-insert_all [] m a n zero h ks = h ∙ resize a a n (n + 0) refl (omega arith)
  keys-insert_all [] m a n (suc k) h ks = absurd (cc ks)
  keys-insert_all (x ∷ xs) m a n zero h ks = absurd (cc ks)
  keys-insert_all (x ∷ xs) m a n (suc k) h ks =
      keys-insert_all xs (insert_sorted (key x) (value x) m) a (suc n) k
        (ap (λ i. keys (insert_sorted i (value x) m)) first
          ∙ keys-insert_sorted_end (value x) m a n h)
        (later ∙ resize (suc (a + n)) (a + suc n) k k (omega arith) refl)
      ∙ resize a a (suc n + k) (n + suc k) refl (omega arith)
    where
      first : key x ≡ a + n
      first = ground (arith, ks)

      later : map key xs ≡ range_from (suc (a + n)) k
      later = ground (arith, ks)
