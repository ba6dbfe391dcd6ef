-- ===== src/V2/Honest.antt =====
-- src/v2.rs: the share of a party that follows the protocol, before the aggregator's test.
use wsts.Prelude.{ℕ, ◌≡◌, refl, sym, ap, ◌∙◌, some, List, [], ◌∷◌}
use mathlib.Core.Path.{ap₂}
use wsts.Prelude.Maps.{lookup}
use wsts.Curve.{Curve, Scalar, Point, Bytes, G, ◌⊕◌, ◌⊗◌, ◌⊞◌, ◌⊙◌}
use wsts.Curve.Algebra.{module_laws, zero-smul, origin-plus, plus-origin, smul-origin}
use wsts.Common.{PublicNonce, SignatureShare, from}
use wsts.Compute.{id, lambda, binding, bound, challenge, intermediate}
use wsts.Compute.Lagrange.{combine}
use wsts.Compute.Interpolation.{evaluate}
use wsts.V1.Aggregator.{sign_of}
use wsts.V1.Honest.{turned-sign}
use wsts.V1.Party.{turned}
use wsts.V2.Party.{Party, key_sum, sign_with_tweak}
use wsts.V2.Aggregator.{round_of}
use wsts.V2.Tally.{due}

module _ ⦃c : Curve⦄ where
  -- The party has a private key for each of the ids, and they belong to the group polynomial.
  abbrev pub HoldsKeys : Party → List Point → List ℕ → Type 0
  HoldsKeys self group [] = Unit {0}
  HoldsKeys self group (k ∷ ids) =
      ((x : Scalar) × (lookup k self.private_keys ≡ some x) × (x ⊙ G ≡ evaluate (id k) group))
      × HoldsKeys self group ids

  key_step :
      (cx h x l : Scalar) (rest : Point)
      → (cx ⊕ h ⊗ x ⊗ l) ⊙ G ⊞ h ⊙ rest ≡ cx ⊙ G ⊞ h ⊙ (l ⊙ x ⊙ G ⊞ rest)
  key_step cx h x l rest = simp module_laws

  key_sum-due :
      (self : Party) (group : List Point) (h : Scalar) (key_ids mine : List ℕ) (cx : Scalar)
      → HoldsKeys self group mine
      → (s : Scalar) × (key_sum self h key_ids mine cx ≡ some s)
        × (s ⊙ G ≡ cx ⊙ G ⊞ h ⊙ combine key_ids mine (λ k. evaluate (id k) group))
  unfolding key_sum combine
  key_sum-due self group h key_ids [] cx holds =
      (cx, refl, sym (ap (λ p. cx ⊙ G ⊞ p) (smul-origin h) ∙ plus-origin (cx ⊙ G)))
  key_sum-due self group h key_ids (k ∷ mine) cx ((x, found, on), holds) =
      let (s, e, d) = key_sum-due self group h key_ids mine (cx ⊕ h ⊗ x ⊗ lambda k key_ids) holds in
      (
        s,
        rw (key_sum, found) e,
        d
            ∙ key_step cx h x (lambda k key_ids) (combine key_ids mine (λ i. evaluate (id i) group))
            ∙ ap
                (λ p.
                  cx ⊙ G
                  ⊞ h ⊙ (lambda k key_ids ⊙ p ⊞ combine key_ids mine (λ i. evaluate (id i) group)))
                on,
      )

  share-eq :
      (r k d e b s : Scalar) → (r ⊗ (d ⊕ e ⊗ b) ⊕ k ⊗ s) ⊙ G ≡ r ⊙ (d ⊙ G ⊞ b ⊙ e ⊙ G) ⊞ k ⊙ s ⊙ G
  share-eq r k d e b s = simp module_laws

  -- A party that holds keys of the group for all its key ids: `sign_with_tweak` returns a share for
  -- these key ids, and it answers for the party.
  pub sign_with_tweak-due :
      (self : Party) (msg : Bytes) (party_ids key_ids : List ℕ) (nonces : List PublicNonce)
      (t : Scalar) (group : List Point)
      → HoldsKeys self group self.key_ids
      → (share : SignatureShare) × (sign_with_tweak self msg party_ids key_ids nonces t
          ≡ some share)
        × (share.key_ids ≡ self.key_ids)
        × (share.z_i ⊙ G
            ≡ due
                (round_of group key_ids
                  (self.group_key ⊞ t ⊙ G)
                  (intermediate msg party_ids nonces).1
                  msg
                  t)
                share
                (bound (from self.nonce, binding (id self.party_id) nonces msg)))
  unfolding sign_with_tweak from
  sign_with_tweak-due self msg party_ids key_ids nonces t group holds =
      let (cx, e, d) = key_sum-due self group h key_ids self.key_ids c.zero holds in
      (
        record {
          id = self.party_id;
          z_i = turned t sum response ⊕ turned t key cx;
          key_ids = self.key_ids;
        },
        rw e refl,
        refl,
        ap₂ (λ a b. (a ⊕ b) ⊙ G) (turned-sign t sum response) (turned-sign t key cx)
            ∙ share-eq (sign_of t sum) (sign_of t key) self.nonce.d self.nonce.e b cx
            ∙ ap (λ p. sign_of t sum ⊙ bound (from self.nonce, b) ⊞ sign_of t key ⊙ p)
                (d
                  ∙ ap (λ p. p ⊞ h ⊙ combine key_ids self.key_ids (λ k. evaluate (id k) group))
                      (zero-smul G)
                  ∙ origin-plus (h ⊙ combine key_ids self.key_ids (λ k. evaluate (id k) group))),
      )
    where
      key : Point
      key = self.group_key ⊞ t ⊙ G

      sum : Point
      sum = (intermediate msg party_ids nonces).1

      h : Scalar
      h = challenge key sum msg

      b : Scalar
      b = binding (id self.party_id) nonces msg

      response : Scalar
      response = self.nonce.d ⊕ self.nonce.e ⊗ b
