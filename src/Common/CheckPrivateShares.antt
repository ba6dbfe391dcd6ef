-- ===== src/Common/CheckPrivateShares.antt =====
-- src/common.rs: the shares that one key receives in key generation, all checked by one
-- multiplication. `get_scalar` and `get_point` panic where a key or an index is missing.
use wsts.Prelude.{
  ℕ, zero, suc, ◌+◌, ◌-◌, ◌*◌, ◌/◌, ◌%◌, ◌^◌, Option, some, List, [], ◌∷◌, map, range, traverse,
  length, get_elem?, ltb, if◌then◌else◌, ◌>>=◌,
}
use wsts.Prelude.Maps.{Map, lookup}
use wsts.Curve.{Curve, Scalar, Point, G, ◌⊗◌}
use wsts.Common.{PolyCommitment}

module _ ⦃c : Curve⦄ where
  pub record CheckPrivateShares : Type 0 where
    pub n : ℕ
    pub t : ℕ
    pub powers : List Scalar
    pub neg_shares : Map Scalar
    pub polys : List PolyCommitment

  unfoldable pub powers_loop : ℕ → Scalar → Scalar → List Scalar
  powers_loop zero x pow = []
  powers_loop (suc k) x pow = pow ∷ powers_loop k x (pow ⊗ x)

  unfoldable pub new : Scalar → Map Scalar → List PolyCommitment → Option CheckPrivateShares
  unfolding powers_loop
  new id shares polys = do
    first ← get_elem? polys 0
    let t = length first.poly
    some (record {
      n = length shares;
      t = t;
      powers = powers_loop t id c.one;
      neg_shares = map (λ e. (e.0, c.neg e.1)) shares;
      polys = polys;
    })

  unfoldable pub get_scalar : CheckPrivateShares → ℕ → Option Scalar
  get_scalar self i =
      if ltb i (self.n * self.t % 2 ^ 32)
      then get_elem? self.powers (i % self.t)
      else lookup (i - self.t * self.n % 2 ^ 32) self.neg_shares

  unfoldable pub get_point : CheckPrivateShares → ℕ → Option Point
  get_point self i =
      if ltb i (self.n * self.t % 2 ^ 32)
      then (do comm ← get_elem? self.polys (i / self.t); get_elem? comm.poly (i % self.t))
      else some G

  unfoldable pub get_size : CheckPrivateShares → ℕ
  get_size self = (self.t + 1) * self.n % 2 ^ 32

  abbrev pub term : CheckPrivateShares → ℕ → Option (Scalar × Point)
  term self i = do s ← get_scalar self i; p ← get_point self i; some (s, p)

  -- `Point::multimult_trait`: the terms below the size, handed to the library's multiplication.
  unfoldable pub multimult_trait : CheckPrivateShares → Option (Option Point)
  unfolding get_scalar get_point get_size
  multimult_trait self = do
    terms ← traverse (term self) (range (get_size self))
    some (c.multimult (map (λ e. e.0) terms) (map (λ e. e.1) terms))
