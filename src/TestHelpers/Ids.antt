-- ===== src/TestHelpers/Ids.antt =====
-- src/common.rs: how `gen_signer_ids` divides the ids.
use wsts.Prelude.{
  ℕ, zero, suc, ◌+◌, ◌*◌, ◌/◌, ◌≤◌, ◌<◌, ◌≡◌, refl, sym, ap, ◌∙◌, some, List, [], ◌∷◌, ◌++◌, map,
  range, range_from, resize, range_from-add, flat_map, length, length-map, length-range_from,
  replicate, some-inj, arith,
}
use mathlib.Core.Path.{ap₂}
use native.Mathlib.Nat.{mul-div-le}
use wsts.TestHelpers.{gen_signer_ids}

map-add : (a b m : ℕ) → map (λ j. a + j) (range_from b m) ≡ range_from (a + b) m
map-add a b zero = refl
map-add a b (suc m) =
    ap (λ js. (a + b) ∷ js) (map-add a (suc b) m ∙ ap (λ s. range_from s m) (omega arith))

-- The blocks of `m` ids follow one another.
blocks :
    (s k m : ℕ)
    → flat_map (λ i. map (λ j. i * m + j) (range m)) (range_from s k) ≡ range_from (s * m) (k * m)
blocks s zero m = resize (s * m) (s * m) 0 (0 * m) refl (omega arith)
blocks s (suc k) m =
    ap₂ (λ xs ys. xs ++ ys)
      (map-add (s * m) 0 m ∙ resize (s * m + 0) (s * m) m m (omega arith) refl)
      (blocks (suc s) k m ∙ resize (suc s * m) (s * m + m) (k * m) (k * m) (omega arith) refl)
    ∙ sym (range_from-add (s * m) m (k * m))
    ∙ resize (s * m) (s * m) (m + k * m) (suc k * m) refl (omega arith)

flat_map-map :
    {A B C : Type 0} (f : A → B) (g : B → List C) (xs : List A)
    → flat_map g (map f xs) ≡ flat_map (λ x. g (f x)) xs
flat_map-map f g [] = refl
flat_map-map f g (x ∷ xs) = ap (λ ys. g (f x) ++ ys) (flat_map-map f g xs)

-- For `k` signers, at least one, `gen_signer_ids` makes `k` lists, and all their ids in order are
-- those below `k * (n / k)`: none comes twice, and none is as large as `n`.
pub gen_signer_ids-range :
    (n k : ℕ)
    → 0 < k
    → (ids : List (List ℕ)) × (gen_signer_ids n k ≡ some ids)
      × (length ids ≡ k)
      × (flat_map (λ is. is) ids ≡ range (k * (n / k)))
      × (k * (n / k) ≤ n)
unfolding gen_signer_ids
gen_signer_ids-range n zero h = absurd (omega arith)
gen_signer_ids-range n (suc k) h = (
  map (λ i. map (λ j. i * (n / suc k) + j) (range (n / suc k))) (range (suc k)),
  refl,
  length-map (range (suc k)) _ ∙ length-range_from 0 (suc k),
  flat_map-map (λ i. map (λ j. i * (n / suc k) + j) (range (n / suc k))) (λ is. is) (range (suc k))
      ∙ blocks 0 (suc k) (n / suc k)
      ∙ resize (0 * (n / suc k)) 0 (suc k * (n / suc k)) (suc k * (n / suc k)) (omega arith) refl,
  mul-div-le n (suc k),
)

map-replicate :
    {A B : Type 0} (f : A → B) (b : B) (xs : List A)
    → ((x : A) → f x ≡ b)
    → map f xs ≡ replicate (length xs) b
map-replicate f b [] h = refl
map-replicate f b (x ∷ xs) h = ap₂ (λ y ys. y ∷ ys) (h x) (map-replicate f b xs h)

map-map :
    {A B C : Type 0} (f : A → B) (g : B → C) (xs : List A)
    → map g (map f xs) ≡ map (λ x. g (f x)) xs
map-map f g [] = refl
map-map f g (x ∷ xs) = ap (λ ys. g (f x) ∷ ys) (map-map f g xs)

-- All its lists are of one length.
pub gen_signer_ids-sizes :
    (n k : ℕ) (ids : List (List ℕ))
    → gen_signer_ids n k ≡ some ids
    → map (λ is. length is) ids ≡ replicate k (n / k)
unfolding gen_signer_ids
gen_signer_ids-sizes n zero ids h = absurd (cc h)
gen_signer_ids-sizes n (suc k) ids h =
    ap (map (λ is. length is)) (sym (some-inj h))
    ∙ map-map block (λ is. length is) (range (suc k))
    ∙ map-replicate (λ i. length (block i)) (n / suc k) (range (suc k))
        (λ i.
          length-map (range (n / suc k)) (λ j. i * (n / suc k) + j)
          ∙ length-range_from 0 (n / suc k))
    ∙ ap (λ m. replicate m (n / suc k)) (length-range_from 0 (suc k))
  where
    block : ℕ → List ℕ
    block i = map (λ j. i * (n / suc k) + j) (range (n / suc k))
