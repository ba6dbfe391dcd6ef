-- ===== src/V1/DealersKeys.antt =====
-- src/v1.rs: `Signer::compute_secrets` on the shares and the commitments that all parties make.
use wsts.Prelude.{
  ℕ, zero, suc, ◌+◌, ◌*◌, ◌^◌, ◌≤◌, ◌<◌, ◌≡◌, refl, sym, ap, ◌∙◌, some, List, [], ◌∷◌, ◌++◌, map,
  range, range_from, arith,
}
use wsts.Prelude.Maps.{Map}
use wsts.Prelude.Outcome.{ok}
use wsts.Curve.{Curve, Scalar, MultimultSucceeds}
use wsts.Common.{PolyCommitment}
use wsts.V1.Completeness.{compute_secret-Sent}
use wsts.V1.Dealers.{Dealers, Made, Made-Sent, shares_for, sent_by, key_shares-all, keys-shares_for}
use wsts.V1.Honest.{ids}
use wsts.V1.HonestRound.{AllSent}
use wsts.V1.KeyGeneration.{keyed}
use wsts.V1.Party.{Party, compute_secret}
use wsts.V1.Signer.{Signer, compute_one, compute_all, compute_secrets}

module _ ⦃c : Curve⦄ where
  -- Parties with keys among `n`.
  abbrev pub Inside : ℕ → List Party → Type 0
  Inside n [] = Unit {0}
  Inside n (p ∷ ps) = (p.id < n) × (p.n ≡ n) × Inside n ps

  pub Inside-left : (n : ℕ) (xs ys : List Party) → Inside n (xs ++ ys) → Inside n xs
  Inside-left n [] ys h = tt
  Inside-left n (x ∷ xs) ys (a, b, h) = (a, b, Inside-left n xs ys h)

  pub Inside-right : (n : ℕ) (xs ys : List Party) → Inside n (xs ++ ys) → Inside n ys
  Inside-right n [] ys h = h
  Inside-right n (x ∷ xs) ys (a, b, h) = Inside-right n xs ys h

  pub Dealers-Inside :
      (n t a m : ℕ) (ps : List Party)
      → Dealers n t ps
      → ids ps ≡ range_from a m
      → a + m ≤ n
      → Inside n ps
  Dealers-Inside n t a m [] d h l = tt
  Dealers-Inside n t a zero (p ∷ ps) d h l = absurd (cc h)
  Dealers-Inside n t a (suc m) (p ∷ ps) (e, size, d) h l = (
    ground (arith, h),
    e,
    Dealers-Inside n t (suc a) m ps d (ground (arith, h)) (omega (arith, l)),
  )

  -- A party with the shares that all dealers make for it.
  abbrev pub member : List Party → Party → Party × Map Scalar
  member ps p = (p, shares_for p.id ps)

  module _ (works : MultimultSucceeds) (n t : ℕ) (ps : List Party) (comms : List PolyCommitment)
      (positive : 0 < t) (small : (t + 1) * n < 2 ^ 32) (dealers : Dealers n t ps)
      (all : ids ps ≡ range n) (made : Made ps comms) where
    pub Inside-AllSent : (qs : List Party) → Inside n qs → AllSent t ps comms (map (member ps) qs)
    Inside-AllSent [] h = tt
    Inside-AllSent (q ∷ qs) (l, e, h) = (
      keys-shares_for q.id ps ∙ all ∙ ap range (sym e),
      Made-Sent n t q.id ps comms l dealers made,
      Inside-AllSent qs h,
    )

    compute_one-accepts :
        (q : Party)
        → q.id < n
        → q.n ≡ n
        → (compute_one (sent_by ps) comms q ≡ compute_secret (shares_for q.id ps) comms q)
          × ((compute_secret (shares_for q.id ps) comms q).1 ≡ ok tt)
    unfolding compute_one
    compute_one-accepts q l e = (
      rw (key_shares-all n t q.id ps l dealers all) refl,
      compute_secret-Sent works q ps (shares_for q.id ps) comms t
          (keys-shares_for q.id ps ∙ all ∙ ap range (sym e)) (omega (arith, l, e)) positive
          (omega (arith, small, ap (λ m. (t + 1) * m) e))
          (Made-Sent n t q.id ps comms l dealers made),
    )

    -- All parties of a signer take what they were sent, and it reports no error.
    compute_all-accepts :
        (qs : List Party)
        → Inside n qs
        → compute_all (sent_by ps) comms qs [] ≡ (keyed comms (map (member ps) qs), some [])
    unfolding compute_all
    compute_all-accepts [] h = refl
    compute_all-accepts (q ∷ qs) (l, e, h) =
        let (same, fine) = compute_one-accepts q l e in
        ground (arith, same, fine, compute_all-accepts qs h)

    pub compute_secrets-accepts :
        (s : Signer)
        → Inside n s.parties
        → compute_secrets (sent_by ps) comms s
          ≡ (record s { parties = keyed comms (map (member ps) s.parties) }, ok tt)
    unfolding compute_secrets
    compute_secrets-accepts s h = rw (compute_all-accepts s.parties h) refl
