-- ===== src/StateMachine/Signer/Failures.antt =====
-- src/state_machine/signer/mod.rs: messages that end a signer, or that it refuses halfway.
use wsts.Prelude.{ℕ, ◌<◌, ◌≡◌, refl, true, some, none, List, [], ◌∷◌, contains, length, arith}
use wsts.Prelude.Maps.{Map}
use wsts.Prelude.Outcome.{err, panic}
use wsts.Curve.{Curve, Point, Rng, Bytes}
use wsts.Channel.{Channel}
use wsts.Net
use wsts.Net.{DkgBegin, DkgPrivateShares}
use wsts.Traits.{SignerTrait}
use wsts.Util.Encryption.{decrypt, make_shared_secret}
use wsts.StateMachine.Signer.{
  dkg_public_distribute, dkg_private_gather, bad_state_change, SigningRound, accepted, reset,
}
use wsts.StateMachine.Signer.Dkg.{
  dkg_begin, dkg_private_shares, decrypt_shares, decrypt_all, key_point,
}
use wsts.StateMachine.Signer.Process.{handle, process}

module _ ⦃c : Curve⦄ ⦃ch : Channel⦄ where
  decrypt-short : (key bytes : Bytes) → length bytes < 12 → decrypt key bytes ≡ panic
  unfolding decrypt
  decrypt-short key bytes h = ground (arith, h)

  decrypt_shares-short :
      (secret : Bytes) (key_ids : List ℕ) (src dst : ℕ) (bytes : Bytes) (rest : Map Bytes)
      (acc : Map c.Scalar × List ℕ)
      → contains key_ids dst ≡ true
      → length bytes < 12
      → decrypt_shares secret key_ids src ((dst, bytes) ∷ rest) acc ≡ none
  unfolding decrypt_shares
  decrypt_shares-short secret key_ids src dst bytes rest acc h l =
      rw (decrypt_shares, h, decrypt-short secret bytes l) refl

module _ ⦃c : Curve⦄ ⦃ch : Channel⦄ ⦃sgn : SignerTrait⦄ where
  -- A message of private shares whose sender has a public key, and whose first share is for a key of
  -- this signer and shorter than a nonce: the signer panics, whatever its state.
  pub process-short_share :
      (m : DkgPrivateShares) (s : SigningRound) (p : Point) (src dst : ℕ) (bytes : Bytes)
      (rest : Map Bytes) (others : List (ℕ × Map Bytes))
      → m.shares ≡ (src, (dst, bytes) ∷ rest) ∷ others
      → key_point m.signer_id s.public_keys.signers ≡ some p
      → contains (sgn.get_key_ids s.signer) dst ≡ true
      → length bytes < 12
      → (process (Net.dkg_private_shares m) s).1 ≡ panic
  unfolding process handle dkg_private_shares decrypt_all
  process-short_share m s p src dst bytes rest others e k mine l =
      rw
        (
          k,
          e,
          decrypt_all,
          decrypt_shares-short (make_shared_secret s.network_private_key p)
              (sgn.get_key_ids s.signer) src dst bytes rest ([], s.invalid_private_shares) mine l,
        )
        refl

  -- A signer that awaits private shares and can choose new polynomials refuses to begin a round, but
  -- what it had gathered is gone, and it is in the new round all the same, still awaiting shares.
  pub dkg_begin-refused :
      (m : DkgBegin) (s : SigningRound) (signer : sgn.Self) (rng : Rng)
      → s.state ≡ dkg_private_gather
      → sgn.reset_polys s.signer s.os_rng ≡ some (signer, rng)
      → ((dkg_begin m s).1 ≡ err (bad_state_change dkg_private_gather dkg_public_distribute))
        × ((dkg_begin m s).0 ≡ record s {
          dkg_id = m.dkg_id;
          commitments = [];
          decrypted_shares = [];
          invalid_private_shares = [];
          public_nonces = [];
          signer = signer;
          os_rng = rng;
        })
  unfolding dkg_begin reset accepted
  dkg_begin-refused m s signer rng h e = (ground (arith, h, e), ground (arith, h, e))
