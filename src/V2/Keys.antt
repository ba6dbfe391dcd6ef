-- ===== src/V2/Keys.antt =====
-- src/v2.rs: the keys that `Party::compute_secret` leaves.
use wsts.Prelude.{
  ℕ, suc, ◌≡◌, refl, sym, ap, ◌∙◌, ◌==◌, ==_iff, true, Option, none, some, List, [], ◌∷◌, ◌++◌,
  get_elem?, arith, contains, Option-cases, inl, inr, if◌then◌else◌,
}
use wsts.Prelude.Maps.{Map, lookup, insert, lookup-insert}
use wsts.Prelude.Outcome.{Outcome, ok, err, panic}
use wsts.Curve.{Curve, Scalar, Point, ◌⊕◌, ◌⊞◌}
use wsts.Curve.Algebra.{plus_assoc, plus-origin, add_assoc, add-zero, zero-add}
use wsts.Common.{PolyCommitment, verify}
use wsts.Errors.{DkgError}
use wsts.V1.Keys.{share_sum, constants, point_or}
use wsts.V2.Dkg.{check_comms, add_keys, sum_shares}
use wsts.V2.Party.{Party}
use wsts.V2.Secret.{compute_secret}

module _ ⦃c : Curve⦄ where
  check_comms-constants :
      (i : ℕ) (comms : List PolyCommitment) (bad : List ℕ) (g : Point) (bad' : List ℕ) (g' : Point)
      → check_comms i comms bad g ≡ ok (bad', g')
      → g' ≡ g ⊞ constants comms
  unfolding check_comms constants
  check_comms-constants i [] bad g bad' g' h = cc (h, plus-origin g)
  check_comms-constants i (comm ∷ comms) bad g bad' g' h = elim (Option-cases (verify comm)) [
    | inl e ↦ absurd (ground (arith, h, e))
    | inr (good, e) ↦ elim (Option-cases (get_elem? comm.poly 0)) [
      | inl e' ↦ absurd (ground (arith, h, e, e'))
      | inr (p, e') ↦ rw (ap point_or e') (
          check_comms-constants (suc i) comms (if good then bad else bad ++ i ∷ []) (g ⊞ p) bad' g'
            (rw (e, e') at h)
          ∙ plus_assoc g p (constants comms))
    ]
  ]

  abbrev pub sum_of : Option (Map Scalar) → Option Scalar
  sum_of none = none
  sum_of (some mine) = some (share_sum mine)

  -- The private key that a key id gets: the sum of the shares for it.
  abbrev pub key_of : Map (Map Scalar) → ℕ → Option Scalar
  key_of shares key_id = sum_of (lookup key_id shares)

  sum_shares-share_sum :
      (shares : Map Scalar) (acc : Scalar) → sum_shares shares acc ≡ acc ⊕ share_sum shares
  unfolding sum_shares share_sum
  sum_shares-share_sum [] acc = sym (add-zero acc)
  sum_shares-share_sum ((i, s) ∷ shares) acc =
      sum_shares-share_sum shares (acc ⊕ s) ∙ add_assoc acc s (share_sum shares)

  key_of-some :
      (shares : Map (Map Scalar)) (id k : ℕ) (mine : Map Scalar)
      → lookup id shares ≡ some mine
      → (id == k) ≡ true
      → key_of shares k ≡ some (sum_shares mine c.zero)
  key_of-some shares id k mine e same =
      ap (key_of shares) (sym ((==_iff id k).0 same))
      ∙ ap sum_of e
      ∙ ap some (sym (sum_shares-share_sum mine c.zero ∙ zero-add (share_sum mine)))

  -- The keys before the loop, overwritten at the key ids.
  add_keys-lookup :
      (ids : List ℕ) (shares : Map (Map Scalar)) (keys : Map Scalar) (keys' : Map Scalar) (k : ℕ)
      → add_keys ids shares keys ≡ ok keys'
      → lookup k keys' ≡ (if contains ids k then key_of shares k else lookup k keys)
  unfolding add_keys
  add_keys-lookup [] shares keys keys' k h = ap (lookup k) (cc h)
  add_keys-lookup (id ∷ ids) shares keys keys' k h = elim (Option-cases (lookup id shares)) [
    | inl e ↦ absurd (ground (arith, h, e))
    | inr (mine, e) ↦
        let key : Scalar = sum_shares mine c.zero in
        ground (
          arith,
          add_keys-lookup ids shares (insert id key keys) keys' k (rw e at h),
          lookup-insert id k key keys,
          key_of-some shares id k mine e,
        )
  ]

  -- A party whose `compute_secret` succeeds: every key id has the sum of its shares for a private
  -- key, other private keys are as they were, and the constant terms of the commitments are added
  -- to the group key that the party had before.
  pub compute_secret-private_keys :
      (shares : Map (Map Scalar)) (comms : List PolyCommitment) (self : Party)
      → (compute_secret shares comms self).1 ≡ ok tt
      → ((compute_secret shares comms self).0.group_key ≡ self.group_key ⊞ constants comms)
        × ((k : ℕ)
            → lookup k (compute_secret shares comms self).0.private_keys
              ≡ (if contains self.key_ids k then key_of shares k else lookup k self.private_keys))
  unfolding compute_secret
  compute_secret-private_keys shares comms self h =
      by_check (check_comms 0 comms [] self.group_key) refl
    where
      after : Party
      after = (compute_secret shares comms self).0

      Kept : Type 0
      Kept =
          (after.group_key ≡ self.group_key ⊞ constants comms)
          × ((k : ℕ)
              → lookup k after.private_keys
                ≡ (if contains self.key_ids k then key_of shares k else lookup k self.private_keys))

      by_keys :
          (bad : List ℕ) (g : Point)
          → check_comms 0 comms [] self.group_key ≡ ok (bad, g)
          → (keys : Outcome DkgError (Map Scalar))
          → add_keys self.key_ids shares self.private_keys ≡ keys
          → Kept
      by_keys bad g e (ok keys) e' = (
        ground (arith, h, e, e', check_comms-constants 0 comms [] self.group_key bad g e),
        λ k.
            ground
              (arith, h, e, e', add_keys-lookup self.key_ids shares self.private_keys keys k e'),
      )
      by_keys bad g e (err x) e' = absurd (ground (arith, h, e, e'))
      by_keys bad g e panic e' = absurd (ground (arith, h, e, e'))

      by_check :
          (checked : Outcome DkgError (List ℕ × Point))
          → check_comms 0 comms [] self.group_key ≡ checked
          → Kept
      by_check (ok (bad, g)) e =
          by_keys bad g e (add_keys self.key_ids shares self.private_keys) refl
      by_check (err x) e = absurd (ground (arith, h, e))
      by_check panic e = absurd (ground (arith, h, e))
