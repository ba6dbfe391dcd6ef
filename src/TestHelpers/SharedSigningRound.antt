-- ===== src/TestHelpers/SharedSigningRound.antt =====
-- src/v2.rs: a signing round of `test_helpers`, for parties that hold the keys of one group.
use wsts.Prelude.{ℕ, ◌≤◌, ◌≡◌, refl, sym, ap, ◌∙◌, some, List, [], ◌∷◌, ◌++◌, length, arith}
use mathlib.Core.Path.{subst}
use wsts.Prelude.Outcome.{ok}
use wsts.Curve.{Curve, Point, Rng, Bytes, MultimultSucceeds}
use wsts.Common.{Nonce, PublicNonce, SignatureShare}
use wsts.Compute.{intermediate}
use wsts.Compute.Lagrange.{Distinct}
use wsts.TestHelpers.V2
use wsts.TestHelpers.V2.{gen_each}
use wsts.V1.Tally.{total}
use wsts.V2.Aggregator
use wsts.V2.Aggregator.{Aggregator}
use wsts.V2.Honest.{HoldsKeys}
use wsts.V2.Party.{Party, gen_nonce}
use wsts.V2.Rounds.{AreKeyed, party_ids_of, keys_of, nonces_of, sign-key_holders}

module _ ⦃c : Curve⦄ where
  abbrev ready : List Party → Rng → List Party
  ready parties rng = (gen_each parties rng).0

  gen_each-nonces : (ps : List Party) (rng : Rng) → (gen_each ps rng).1 ≡ nonces_of (ready ps rng)
  unfolding gen_each gen_nonce
  gen_each-nonces [] rng = refl
  gen_each-nonces (p ∷ ps) rng =
      ap (λ ns. (gen_nonce p rng).1 ∷ ns) (gen_each-nonces ps (gen_nonce p rng).2)

  gen_each-party_ids : (ps : List Party) (rng : Rng) → party_ids_of (ready ps rng) ≡ party_ids_of ps
  unfolding gen_each gen_nonce
  gen_each-party_ids [] rng = refl
  gen_each-party_ids (p ∷ ps) rng =
      ap (λ is. p.party_id ∷ is) (gen_each-party_ids ps (gen_nonce p rng).2)

  gen_each-keys : (ps : List Party) (rng : Rng) → keys_of (ready ps rng) ≡ keys_of ps
  unfolding gen_each gen_nonce
  gen_each-keys [] rng = refl
  gen_each-keys (p ∷ ps) rng = ap (λ is. p.key_ids ++ is) (gen_each-keys ps (gen_nonce p rng).2)

  HoldsKeys-nonce :
      (p : Party) (nonce : Nonce) (group : List Point) (is : List ℕ)
      → HoldsKeys p group is
      → HoldsKeys (record p { nonce = nonce }) group is
  HoldsKeys-nonce p nonce group [] h = tt
  HoldsKeys-nonce p nonce group (i ∷ is) (a, h) = (a, HoldsKeys-nonce p nonce group is h)

  gen_each-AreKeyed :
      (group : List Point) (key : Point) (ps : List Party) (rng : Rng)
      → AreKeyed group key ps
      → AreKeyed group key (ready ps rng)
  unfolding gen_each gen_nonce
  gen_each-AreKeyed group key [] rng h = tt
  gen_each-AreKeyed group key (p ∷ ps) rng (a, b, h) = (
    HoldsKeys-nonce p (gen_nonce p rng).0.nonce group p.key_ids a,
    b,
    gen_each-AreKeyed group key ps (gen_nonce p rng).2 h,
  )

  -- Parties (v2) with distinct key ids in all that hold the keys of the aggregator's group, no fewer
  -- keys than its polynomial has coefficients: the signing round of `test_helpers` does not panic, and
  -- from the nonces, the shares and the key ids that it returns the aggregator makes a signature.
  pub sign-keyed_parties :
      MultimultSucceeds
      → (self : Aggregator) (msg : Bytes) (ps : List Party) (rng : Rng) (first : Point)
        (rest : List Point)
      → self.poly ≡ first ∷ rest
      → AreKeyed self.poly first ps
      → Distinct (keys_of ps)
      → length self.poly ≤ length (keys_of ps)
      → (nonces : List PublicNonce) × (shares : List SignatureShare) × ((V2.sign msg ps rng).1
          ≡ some (nonces, shares, keys_of ps))
        × (Aggregator.sign self msg nonces shares (keys_of ps)
            ≡ ok (record { R = (intermediate msg (party_ids_of ps) nonces).1; z = total shares }))
  unfolding V2.sign
  sign-keyed_parties works self msg ps rng first rest group keyed distinct enough =
      let qs : List Party = ready ps rng in
      let keys : keys_of qs ≡ keys_of ps = gen_each-keys ps rng in
      let ids : party_ids_of qs ≡ party_ids_of ps = gen_each-party_ids ps rng in
      let (shares, signed, made) =
        sign-key_holders works self msg qs first rest group
          (gen_each-AreKeyed self.poly first ps rng keyed) (subst Distinct (sym keys) distinct)
          (omega (arith, enough, ap length keys)) in
      (
        nonces_of qs,
        shares,
        rw (gen_each-nonces ps rng, sym keys, sym ids, signed) refl,
        ap (λ ks. Aggregator.sign self msg (nonces_of qs) shares ks) (sym keys)
            ∙ made
            ∙ ap
                (λ is. ok (record { R = (intermediate msg is (nonces_of qs)).1; z = total shares }))
                ids,
      )
