-- ===== src/StateMachine/Signer/Dkg.antt =====
-- src/state_machine/signer/mod.rs: a round of key generation, as a signer sees it.
use wsts.Prelude.{
  ℕ, ◌+◌, ◌%◌, ◌^◌, ◌==◌, ◌&&◌, Bool, Option, none, some, List, [], ◌∷◌, ◌++◌, map, length,
  contains, is_empty, if◌then◌else◌,
}
use wsts.Prelude.Maps.{Map, lookup, insert, insert_sorted, values}
use wsts.Prelude.Outcome.{Outcome, ok, err, panic, value}
use wsts.Prelude
use wsts.Prelude.Run.{Run, ◌>>=◌, ◌>>◌, get, modify, lift, pure}
use wsts.Curve.{Curve, Scalar, Point, Rng, Bytes}
use wsts.Channel.{Channel}
use wsts.Common.{PolyCommitment}
use wsts.Errors.{DkgError}
use wsts.Net
use wsts.Net.{
  DkgBegin, DkgPublicShares, DkgPrivateShares, DkgEnd, DkgStatus, success, failure, Message,
}
use wsts.Traits.{SignerTrait}
use wsts.Util.Encryption.{AesGcmError, make_shared_secret, encrypt, decrypt}
use wsts.StateMachine.Signer.{
  dkg_public_distribute, dkg_public_gather, dkg_private_gather, Error, SigningRound, is, move_to,
  reset,
}

module _ ⦃c : Curve⦄ ⦃ch : Channel⦄ where
  -- The point of the key under an id; `None` where there is none, or where it is no point.
  abbrev pub key_point : ℕ → Map ch.PublicKey → Option Point
  key_point id keys = elim (lookup id keys) [ none ↦ none | some key ↦ ch.to_point key ]

  abbrev pub encrypted : Option Bytes × Rng → Option (Bytes × Rng)
  encrypted (none, rng) = none
  encrypted (some bytes, rng) = some (bytes, rng)

  -- One share for its recipient; `None` stands for a panic.
  unfoldable pub encrypt_share : Map ch.PublicKey → Scalar → ℕ → Scalar → Rng → Option (Bytes × Rng)
  encrypt_share keys private_key dst_key_id share rng =
      elim (key_point ((dst_key_id + 1) % 2 ^ 32) keys) [
        | none ↦ none
        | some p ↦ encrypted (encrypt (make_shared_secret private_key p) (c.to_bytes share) rng)
      ]

  unfoldable pub encrypt_shares :
      Map ch.PublicKey → Scalar → Map Scalar → Map Bytes → Rng → Option (Map Bytes × Rng)
  encrypt_shares keys private_key [] done rng = some (done, rng)
  encrypt_shares keys private_key ((dst, share) ∷ shares) done rng =
      elim (encrypt_share keys private_key dst share rng) [
        | none ↦ none
        | some (bytes, rng') ↦ encrypt_shares keys private_key shares (insert dst bytes done) rng'
      ]

  unfoldable pub encrypt_all :
      Map ch.PublicKey → Scalar → Map (Map Scalar) → Rng → Option (List (ℕ × Map Bytes) × Rng)
  encrypt_all keys private_key [] rng = some ([], rng)
  encrypt_all keys private_key ((key_id, shares) ∷ rest) rng =
      elim (encrypt_shares keys private_key shares [] rng) [
        | none ↦ none
        | some (mine, rng') ↦ elim (encrypt_all keys private_key rest rng') [
          | none ↦ none
          | some (others, rng'') ↦ some ((key_id, mine) ∷ others, rng'')
        ]
      ]

  -- What the decryption of a share leaves: the shares so far and the invalid senders so far.
  abbrev pub parsed : ℕ → ℕ → Option Scalar → Map Scalar × List ℕ → Map Scalar × List ℕ
  parsed src dst (some s) (shares, invalid) = (insert dst s shares, invalid)
  parsed src dst none (shares, invalid) = (shares, invalid ++ src ∷ [])

  abbrev pub received :
      ℕ → ℕ → Outcome AesGcmError Bytes → Map Scalar × List ℕ → Option (Map Scalar × List ℕ)
  received src dst (ok plain) acc = some (parsed src dst (ch.scalar_of_slice plain) acc)
  received src dst (err e) (shares, invalid) = some (shares, invalid ++ src ∷ [])
  received src dst panic acc = none

  unfoldable pub decrypt_shares :
      Bytes → List ℕ → ℕ → Map Bytes → Map Scalar × List ℕ → Option (Map Scalar × List ℕ)
  decrypt_shares secret key_ids src [] acc = some acc
  decrypt_shares secret key_ids src ((dst, bytes) ∷ shares) acc = elim (contains key_ids dst) [
    | Prelude.false ↦ decrypt_shares secret key_ids src shares acc
    | Prelude.true ↦ elim (received src dst (decrypt secret bytes) acc) [
      | none ↦ none
      | some acc' ↦ decrypt_shares secret key_ids src shares acc'
    ]
  ]

  unfoldable pub decrypt_all :
      Bytes
      → List ℕ
      → List (ℕ × Map Bytes)
      → Map (Map Scalar) × List ℕ
      → Option (Map (Map Scalar) × List ℕ)
  decrypt_all secret key_ids [] acc = some acc
  decrypt_all secret key_ids ((src, shares) ∷ rest) (all, invalid) =
      elim (decrypt_shares secret key_ids src shares ([], invalid)) [
        | none ↦ none
        | some (mine, invalid') ↦ decrypt_all secret key_ids rest (insert src mine all, invalid')
      ]

module _ ⦃c : Curve⦄ ⦃ch : Channel⦄ ⦃sgn : SignerTrait⦄ where
  -- The messages with a commitment under the id that its proof names.
  abbrev pub tagged : List PolyCommitment → List (ℕ × PolyCommitment)
  tagged = map λ comm. (ch.get_u32 comm.id.id, comm)

  unfoldable pub dkg_public_begin : Run SigningRound Error (List Message)
  unfolding move_to
  dkg_public_begin = do
    self ← get
    comms ← lift (value (sgn.get_poly_commitments self.signer self.os_rng))
    modify (λ s. record s { os_rng = comms.1 })
    move_to dkg_public_gather
    pure (
        Net.dkg_public_shares
          (record { dkg_id = self.dkg_id; signer_id = self.signer_id; comms = tagged comms.0 })
        ∷ [])

  unfoldable pub dkg_begin : DkgBegin → Run SigningRound Error (List Message)
  unfolding move_to reset dkg_public_begin
  dkg_begin begin = do reset begin.dkg_id; move_to dkg_public_distribute; dkg_public_begin

  unfoldable pub dkg_private_begin : Run SigningRound Error (List Message)
  unfolding move_to
  dkg_private_begin = do
    self ← get
    shares ← lift (
        value (
          encrypt_all self.public_keys.key_ids self.network_private_key (sgn.get_shares self.signer)
            self.os_rng))
    modify (λ s. record s { os_rng = shares.1 })
    move_to dkg_private_gather
    pure (
        Net.dkg_private_shares
          (record { dkg_id = self.dkg_id; signer_id = self.signer_id; shares = shares.0 })
        ∷ [])

  abbrev pub add_commitments : List (ℕ × PolyCommitment) → Map PolyCommitment → Map PolyCommitment
  add_commitments [] comms = comms
  add_commitments ((party_id, comm) ∷ rest) comms =
      add_commitments rest (insert_sorted party_id comm comms)

  unfoldable pub dkg_public_share : DkgPublicShares → Run SigningRound Error (List Message)
  dkg_public_share shares = do
    modify (λ s. record s { commitments = add_commitments shares.comms s.commitments })
    pure []

  -- Panics where the sender has no key, or its key is no point.
  unfoldable pub dkg_private_shares : DkgPrivateShares → Run SigningRound Error (List Message)
  dkg_private_shares shares = do
    self ← get
    public_key ← lift (value (key_point shares.signer_id self.public_keys.signers))
    opened ← lift (
        value (
          decrypt_all (make_shared_secret self.network_private_key public_key)
            (sgn.get_key_ids self.signer) shares.shares
            (self.decrypted_shares, self.invalid_private_shares)))
    modify (λ s. record s { decrypted_shares = opened.0; invalid_private_shares = opened.1 })
    pure []

  -- The status that the result of `compute_secrets` gives; nothing after a panic.
  abbrev pub status_of : Outcome (Map DkgError) (Unit {0}) → Outcome Error DkgStatus
  status_of (ok u) = ok success
  status_of (err e) = ok failure
  status_of panic = panic

  abbrev pub compute_status : Run SigningRound Error DkgStatus
  compute_status self =
      let r = sgn.compute_secrets self.decrypted_shares (values self.commitments) self.signer in
      (record self { signer = r.0 }, status_of r.1)

  unfoldable pub dkg_ended : Run SigningRound Error Message
  dkg_ended = do
    self ← get
    status ← if is_empty self.invalid_private_shares then compute_status else pure failure
    pure
        (Net.dkg_end (record { dkg_id = self.dkg_id; signer_id = self.signer_id; status = status }))

  unfoldable pub public_shares_done : SigningRound → Bool
  public_shares_done self =
      is self.state dkg_public_gather && length self.commitments == sgn.get_num_parties self.signer

  unfoldable pub can_dkg_end : SigningRound → Bool
  can_dkg_end self =
      is self.state dkg_private_gather
      && (length self.commitments == sgn.get_num_parties self.signer
          && length self.decrypted_shares == sgn.get_num_parties self.signer)
