-- ===== src/V1/Batch.antt =====
-- src/common.rs: the terms of the batch of private shares, and their sum.
use wsts.Prelude.{
  ℕ, zero, suc, ◌+◌, ◌-◌, ◌*◌, ◌%◌, ◌^◌, ◌<◌, ◌≤◌, ◌≡◌, refl, sym, ap, ◌∙◌, true, false, some, List,
  [], ◌∷◌, flat_map, zip, range_from, traverse, length, get_elem?, ltb, arith, resize,
  range_from-add, traverse-append, traverse-pointwise,
}
use native.Mathlib.Nat.{
  mod-eq_of_lt, div-eq_of_lt, mul-le-mul_right, mul-add-div_right, mul-add-mod_self_right, mul_comm,
}
use wsts.Prelude.Maps.{lookup}
use wsts.Curve.{Curve, Scalar, Point, G}
use wsts.Common.{PolyCommitment}
use wsts.Common.CheckPrivateShares.{CheckPrivateShares, get_scalar, get_point, term}

get-zip :
    {A B : Type 0} (xs : List A) (ys : List B) (i : ℕ) (x : A) (y : B)
    → get_elem? (zip xs ys) i ≡ some (x, y)
    → (get_elem? xs i ≡ some x) × (get_elem? ys i ≡ some y) × (i < length ys)
get-zip [] ys i x y h = cc h
get-zip (a ∷ xs) [] i x y h = cc h
get-zip (a ∷ xs) (b ∷ ys) zero x y h = (ground (arith, h), ground (arith, h), omega arith)
get-zip (a ∷ xs) (b ∷ ys) (suc i) x y h =
    let (e, f, l) = get-zip xs ys i x y h in (e, f, omega arith)

length-zip :
    {A B : Type 0} (xs : List A) (ys : List B)
    → length xs ≡ length ys
    → length (zip xs ys) ≡ length ys
length-zip [] [] h = refl
length-zip [] (y ∷ ys) h = absurd (omega arith)
length-zip (x ∷ xs) [] h = absurd (omega arith)
length-zip (x ∷ xs) (y ∷ ys) h = ap suc (length-zip xs ys (omega arith))

block_bound : (b j n t : ℕ) → b < n → j < t → b * t + j < n * t
block_bound b j n t h l = omega (arith, mul-le-mul_right t h)

module _ ⦃c : Curve⦄ where
  -- All the polynomials have one length.
  abbrev pub AllLength : ℕ → List PolyCommitment → Type 0
  AllLength t [] = Unit {0}
  AllLength t (comm ∷ comms) = (length comm.poly ≡ t) × AllLength t comms

  module _ (self : CheckPrivateShares) (small : self.n * self.t < 2 ^ 32) where
    -- A term of the first part, for the polynomial `b` and its coefficient `j`.
    block_term :
        (b j : ℕ) (comm : PolyCommitment) (s : Scalar) (p : Point)
        → b < self.n
        → j < self.t
        → get_elem? self.polys b ≡ some comm
        → get_elem? self.powers j ≡ some s
        → get_elem? comm.poly j ≡ some p
        → term self (b * self.t + j) ≡ some (s, p)
    unfolding get_scalar get_point
    block_term b j comm s p h l e f g =
        rw
          (
            mod-eq_of_lt small,
            below,
            mul-add-div_right {m = self.t} (omega (arith, l)) b j,
            mul-add-mod_self_right b self.t j,
            div-eq_of_lt l,
            mod-eq_of_lt l,
            ap (get_elem? self.polys) (plus_zero b) ∙ e,
            f,
            g,
          )
          refl
      where
        below : ltb (b * self.t + j) (self.n * self.t) ≡ true
        below = ground (arith, block_bound b j self.n self.t h l)

        plus_zero : (n : ℕ) → n + 0 ≡ n
        plus_zero n = omega arith

    -- A term of the second part, for the share at a place.
    pub share_term :
        (i : ℕ) (s : Scalar)
        → lookup i self.neg_shares ≡ some s
        → term self (self.n * self.t + i) ≡ some (s, G)
    unfolding get_scalar get_point
    share_term i s e =
        rw
          (
            mod-eq_of_lt small,
            beyond,
            ap (λ k. k % 2 ^ 32) (mul_comm self.t self.n) ∙ mod-eq_of_lt small,
            past (self.n * self.t) i,
            e,
          )
          refl
      where
        beyond : ltb (self.n * self.t + i) (self.n * self.t) ≡ false
        beyond = ground arith

        past : (m i : ℕ) → m + i - m ≡ i
        past m i = omega arith

    -- The polynomials of the list from place `b` on are those of a list.
    abbrev pub From : ℕ → List PolyCommitment → Type 0
    From b comms =
        (j : ℕ) (comm : PolyCommitment)
        → get_elem? comms j ≡ some comm
        → get_elem? self.polys (b + j) ≡ some comm

    module _ (full : length self.powers ≡ self.t) where
      block :
          (b : ℕ) (comm : PolyCommitment)
          → b < self.n
          → get_elem? self.polys b ≡ some comm
          → length comm.poly ≡ self.t
          → traverse (term self) (range_from (b * self.t) self.t) ≡ some (zip self.powers comm.poly)
      block b comm h e l =
          ap (traverse (term self)) (
            resize (b * self.t) (b * self.t) self.t (length (zip self.powers comm.poly)) refl
              (sym (length-zip self.powers comm.poly (full ∙ sym l) ∙ l)))
          ∙ traverse-pointwise (term self) (b * self.t) (zip self.powers comm.poly) at_place
        where
          at_place :
              (i : ℕ) (x : Scalar × Point)
              → get_elem? (zip self.powers comm.poly) i ≡ some x
              → term self (b * self.t + i) ≡ some x
          at_place i (s, p) g =
              let (f, k, m) = get-zip self.powers comm.poly i s p g in
              block_term b i comm s p h (omega (arith, l)) e f k

      pub blocks :
          (b : ℕ) (comms : List PolyCommitment)
          → From b comms
          → AllLength self.t comms
          → b + length comms ≤ self.n
          → traverse (term self) (range_from (b * self.t) (length comms * self.t))
            ≡ some (flat_map (λ comm. zip self.powers comm.poly) comms)
      blocks b [] from all h =
          ap (traverse (term self))
            (resize (b * self.t) (b * self.t) (0 * self.t) 0 refl (omega arith))
      blocks b (comm ∷ comms) from (l, all) h =
          ap (traverse (term self)) (
            resize (b * self.t) (b * self.t) (suc (length comms) * self.t)
              (self.t + length comms * self.t) refl (omega arith)
            ∙ range_from-add (b * self.t) self.t (length comms * self.t))
          ∙ traverse-append (term self) (range_from (b * self.t) self.t)
              (range_from (b * self.t + self.t) (length comms * self.t)) (zip self.powers comm.poly)
              (flat_map (λ comm. zip self.powers comm.poly) comms)
              (block b comm (omega arith)
                (ap (get_elem? self.polys) (plus_zero b) ∙ from 0 comm refl) l)
              (ap (traverse (term self)) (
                  resize (b * self.t + self.t) (suc b * self.t) (length comms * self.t)
                    (length comms * self.t) (omega arith) refl)
                ∙ blocks (suc b) comms
                    (λ j comm' e. ap (get_elem? self.polys) (suc_plus b j) ∙ from (suc j) comm' e)
                    all (omega arith))
        where
          plus_zero : (n : ℕ) → n ≡ n + 0
          plus_zero n = omega arith

          suc_plus : (n m : ℕ) → suc n + m ≡ n + suc m
          suc_plus n m = omega arith
