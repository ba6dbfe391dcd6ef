-- ===== src/V1/SavedSigner.antt =====
-- src/v1.rs: the group key of a signer, which no operation sets, and what is saved of it.
use wsts.Prelude.{ℕ, ◌≡◌, refl, ◌∙◌, some, List, [], ◌∷◌, map, arith}
use mathlib.Core.Path.{subst}
use wsts.Prelude.Maps.{Map}
use wsts.Curve.{Curve, Scalar, Point, Rng}
use wsts.Common.{PolyCommitment}
use wsts.V1.Party
use wsts.V1.Party.{Party, PartyState}
use wsts.V1.Signer
use wsts.V1.Signer.{Signer, SignerState, load, save, reset_polys, compute_secrets, gen_nonces}

module _ ⦃c : Curve⦄ where
  -- The signers that `new` and any operations after it lead to, also where these fail.
  pub data Reached : Signer → Type 0 where
    made :
        (id : ℕ) (key_ids : List ℕ) (num_keys threshold : ℕ) (rng : Rng)
        → Reached (Signer.new id key_ids num_keys threshold rng).0
    polys_reset :
        (s : Signer) (rng : Rng) {left : Signer × Rng}
        → Reached s
        → reset_polys s rng ≡ some left
        → Reached left.0
    secrets_computed :
        (s : Signer) (private_shares : Map (Map Scalar)) (polys : List PolyCommitment)
        → Reached s
        → Reached (compute_secrets private_shares polys s).0
    nonces_generated : (s : Signer) (rng : Rng) → Reached s → Reached (gen_nonces s rng).0
    restored : (s : Signer) → Reached s → Reached (load (save s))

  reset_polys-group_key :
      (s : Signer) (rng : Rng) (left : Signer × Rng)
      → reset_polys s rng ≡ some left
      → left.0.group_key ≡ s.group_key
  unfolding reset_polys
  reset_polys-group_key s rng left h = ground (arith, h)

  -- A signer's own group key is the point at infinity, whatever became of its parties'.
  pub group_key-Reached : (s : Signer) → Reached s → s.group_key ≡ c.origin
  unfolding compute_secrets gen_nonces load save Signer.new
  group_key-Reached _ (made id key_ids num_keys threshold rng) = refl
  group_key-Reached _ (polys_reset s rng {left = left} r h) =
      reset_polys-group_key s rng left h ∙ group_key-Reached s r
  group_key-Reached _ (secrets_computed s private_shares polys r) = group_key-Reached s r
  group_key-Reached _ (nonces_generated s rng r) = group_key-Reached s r
  group_key-Reached _ (restored s r) = group_key-Reached s r

  abbrev pub AllHave : Point → List Party → Type 0
  AllHave key [] = Unit {0}
  AllHave key (p ∷ parties) = (p.group_key ≡ key) × AllHave key parties

  loaded :
      (n : ℕ) (key : Point) (states : Map PartyState)
      → AllHave key (map (λ e. Party.load e.0 n key e.1) states)
  unfolding Party.load
  loaded n key [] = tt
  loaded n key ((id, state) ∷ states) = (refl, loaded n key states)

  -- A signer that `new` and any operations after it lead to, once saved and loaded: all its parties
  -- have the point at infinity for a group key, whatever key they had.
  pub load-save-Reached : (s : Signer) → Reached s → AllHave c.origin (load (save s)).parties
  unfolding load save
  load-save-Reached s r =
      subst
        (λ key. AllHave key (map (λ e. Party.load e.0 s.num_keys s.group_key e.1) (save s).parties))
        (group_key-Reached s r) (loaded s.num_keys s.group_key (save s).parties)
