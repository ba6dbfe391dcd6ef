-- ===== src/V1/Response.antt =====
-- src/v1.rs: what `Aggregator::sign_with_tweak` computes, and the equation that its response solves.
use wsts.Prelude.{
  ℕ, ◌≤◌, ◌≡◌, refl, sym, ap, ◌∙◌, ◌≡⟨◌⟩◌, ◌∎, true, ite, if_pos, if_neg, List, [], ◌∷◌, length,
  length-map, is_empty, if◌then◌else◌, ==_iff,
}
use mathlib.Core.Path.{ap₂, subst}
use wsts.Prelude.Outcome.{ok, err, require, ◌>>=◌, ◌>>◌}
use wsts.Curve.{Curve, Scalar, Point, Bytes, MultimultSucceeds, G, ◌⊕◌, ◌⊗◌, ◌⊞◌, ◌⊙◌}
use wsts.Curve.Algebra.{
  zero-add, zero-smul, plus-origin, add-smul, smul-plus, mul-smul, plus_assoc, smul-origin,
}
use wsts.Common.{PublicNonce, SignatureShare}
use wsts.Common.Verify.{verify}
use wsts.Compute.{challenge, intermediate}
use wsts.Compute.Lagrange.{Distinct}
use wsts.Compute.Interpolation.{evaluate, combine-evaluate}
use wsts.Compute.Poly.{intermediate-sum, length-intermediate}
use wsts.Errors.{bad_party_sigs, bad_group_sig}
use wsts.Taproot
use wsts.Taproot.{SchnorrProof}
use wsts.V1.Aggregator.{
  Aggregator, Round, sign_with_tweak, verdict, round_of, no_tally, ids_of, sign_of,
}
use wsts.V1.Tally.{total, failing, check_shares-failing, total-due}

module _ ⦃c : Curve⦄ where
  -- The sum of the bound nonces, and the bound nonces.
  abbrev pub aggregate : Bytes → List PublicNonce → List SignatureShare → Point
  aggregate msg nonces shares = (intermediate msg (ids_of shares) nonces).1

  abbrev pub commitments : Bytes → List PublicNonce → List SignatureShare → List Point
  commitments msg nonces shares = (intermediate msg (ids_of shares) nonces).0

  -- The round that `sign_with_tweak` sets up for a group key.
  abbrev pub round_for :
      Aggregator → Bytes → List PublicNonce → List SignatureShare → Point → Scalar → Round
  round_for self msg nonces shares key t =
      round_of self.poly (ids_of shares) key (aggregate msg nonces shares) msg t

  -- The ids of the shares that do not answer for their party.
  abbrev pub failures :
      Aggregator → Bytes → List PublicNonce → List SignatureShare → Point → Scalar → List ℕ
  failures self msg nonces shares key t =
      failing (round_for self msg nonces shares key t) shares (commitments msg nonces shares)

  -- The response of the group signature.
  abbrev pub response : Bytes → List PublicNonce → List SignatureShare → Point → Scalar → Scalar
  response msg nonces shares key t =
      ite (c.scalar_discrete t c.zero) (total shares)
        (total shares ⊕ sign_of t key ⊗ challenge key (aggregate msg nonces shares) msg ⊗ t)

  pub verdict-verify :
      (bad : List ℕ) (msg : Bytes) (z₀ : Scalar) (key r : Point) (z : Scalar)
      → (bad ≡ [] → verify (record { R = r; z = z }) key msg ≡ true)
      → (do
        signed ← verdict (record { z = z₀; bad_keys = []; bad_sigs = bad }) key r z
        require (verify signed.1 signed.0 msg) bad_group_sig
        ok signed.1)
        ≡ (if is_empty bad then ok (record { R = r; z = z }) else err (bad_party_sigs bad))
  unfolding verdict
  verdict-verify [] msg z₀ key r z h = rw (h refl) refl
  verdict-verify (b ∷ bs) msg z₀ key r z h = refl

  pub verdict-taproot :
      (bad : List ℕ) (msg : Bytes) (z₀ : Scalar) (key r : Point) (z : Scalar)
      → (bad ≡ [] → Taproot.verify (Taproot.new (record { R = r; z = z })) (c.x key) msg ≡ true)
      → (do
        signed ← verdict (record { z = z₀; bad_keys = []; bad_sigs = bad }) key r z
        require (Taproot.verify (Taproot.new signed.1) (c.x signed.0) msg) bad_group_sig
        ok (Taproot.new signed.1))
        ≡ (if is_empty bad
            then ok (Taproot.new (record { R = r; z = z }))
            else err (bad_party_sigs bad))
  unfolding verdict
  verdict-taproot [] msg z₀ key r z h = rw (h refl) refl
  verdict-taproot (b ∷ bs) msg z₀ key r z h = refl

module _ ⦃c : Curve⦄ (works : MultimultSucceeds) (self : Aggregator) (msg : Bytes)
    (nonces : List PublicNonce) (shares : List SignatureShare) (first : Point) (rest : List Point)
    (group : self.poly ≡ first ∷ rest) (counted : length nonces ≡ length shares) (t : Scalar) where
  rs-length : length (commitments msg nonces shares) ≡ length shares
  rs-length =
      length-intermediate msg (ids_of shares) nonces (counted ∙ sym (length-map shares _))
      ∙ length-map shares _

  pub sign_with_tweak-verdict :
      sign_with_tweak self msg nonces shares t
      ≡ verdict
          (record {
            z = c.zero ⊕ total shares;
            bad_keys = [];
            bad_sigs = failures self msg nonces shares (first ⊞ t ⊙ G) t;
          })
          (first ⊞ t ⊙ G)
          (aggregate msg nonces shares)
          (response msg nonces shares (first ⊞ t ⊙ G) t)
  unfolding sign_with_tweak
  sign_with_tweak-verdict =
      rw ((==_iff _ _).1 counted, group, check_shares-failing works _ no_tally shares _ rs-length)
        (rw (zero-add (total shares)) refl)

  response-smul :
      response msg nonces shares (first ⊞ t ⊙ G) t ⊙ G
      ≡ total shares ⊙ G
        ⊞ sign_of t (first ⊞ t ⊙ G)
          ⊙ challenge (first ⊞ t ⊙ G) (aggregate msg nonces shares) msg
          ⊙ t
          ⊙ G
  response-smul = elim (c.scalar_discrete t c.zero) [
    | yes untweaked ↦
        rw (if_pos _ untweaked, untweaked, zero-smul G, smul-origin, smul-origin)
          (sym (plus-origin (total shares ⊙ G)))
    | no tweaked ↦ rw (if_neg _ tweaked) (simp (add-smul, mul-smul))
  ]

  constant : evaluate c.zero self.poly ≡ first
  unfolding evaluate
  constant = rw (group, zero-smul) (plus-origin first)

  -- If no share fails, the response has the logarithm of the group key.
  pub signed-equation :
      failures self msg nonces shares (first ⊞ t ⊙ G) t ≡ []
      → Distinct (ids_of shares)
      → length self.poly ≤ length shares
      → response msg nonces shares (first ⊞ t ⊙ G) t ⊙ G
        ≡ sign_of t (aggregate msg nonces shares) ⊙ aggregate msg nonces shares
          ⊞ sign_of t (first ⊞ t ⊙ G)
            ⊙ challenge (first ⊞ t ⊙ G) (aggregate msg nonces shares) msg
            ⊙ (first ⊞ t ⊙ G)
  signed-equation clean distinct enough =
      response msg nonces shares key t ⊙ G
      ≡⟨ response-smul ⟩ total shares ⊙ G ⊞ s ⊙ h ⊙ t ⊙ G
      ≡⟨ ap (λ p. p ⊞ s ⊙ h ⊙ t ⊙ G) due ⟩ r ⊙ sum ⊞ s ⊙ h ⊙ first ⊞ s ⊙ h ⊙ t ⊙ G
      ≡⟨ plus_assoc (r ⊙ sum) (s ⊙ h ⊙ first) (s ⊙ h ⊙ t ⊙ G) ⟩
        r ⊙ sum ⊞ (s ⊙ h ⊙ first ⊞ s ⊙ h ⊙ t ⊙ G)
      ≡⟨ ap (λ p. r ⊙ sum ⊞ p)
          (sym (smul-plus s (h ⊙ first) (h ⊙ t ⊙ G))
            ∙ ap (λ p. s ⊙ p) (sym (smul-plus h first (t ⊙ G)))) ⟩
        r ⊙ sum ⊞ s ⊙ h ⊙ (first ⊞ t ⊙ G) ∎
    where
      key : Point
      key = first ⊞ t ⊙ G

      sum : Point
      sum = aggregate msg nonces shares

      r : Scalar
      r = sign_of t sum

      s : Scalar
      s = sign_of t key

      h : Scalar
      h = challenge key sum msg

      due : total shares ⊙ G ≡ r ⊙ sum ⊞ s ⊙ h ⊙ first
      due =
          total-due (round_for self msg nonces shares key t) shares (commitments msg nonces shares)
            rs-length clean
          ∙ ap₂ (λ p q. r ⊙ p ⊞ s ⊙ h ⊙ q) (sym (intermediate-sum msg (ids_of shares) nonces))
              (combine-evaluate (ids_of shares) self.poly
                  (subst (λ n. length self.poly ≤ n) (sym (length-map shares _)) enough) distinct
                ∙ constant)
