-- ===== src/StateMachine/Signer/Sharing.antt =====
-- src/state_machine/signer/mod.rs: a private share on its way from one signer to another.
use wsts.Prelude.{ℕ, ◌+◌, ◌%◌, ◌^◌, ◌≡◌, refl, sym, ap, some, List, arith}
use wsts.Prelude.Maps.{Map, insert}
use wsts.Curve.{Curve, Scalar, Rng, Bytes, G, ◌⊙◌}
use wsts.Channel.{Channel}
use wsts.Util.Encryption.{
  make_shared_secret, make_shared_secret_comm, encrypt, decrypt, decrypt-encrypt,
}
use wsts.StateMachine.Signer.Dkg.{key_point, encrypt_share, received, encrypted}

module _ ⦃c : Curve⦄ ⦃ch : Channel⦄ where
  -- A share that a signer encrypts for a key id under whose number it has the recipient's public
  -- key: the recipient, who knows the sender's public key, decrypts and parses the same share, and
  -- notes it under the key id.
  pub received-encrypt_share :
      (a b share : Scalar) (keys : Map ch.PublicKey) (src dst : ℕ) (rng rng' : Rng) (bytes : Bytes)
      (shares : Map Scalar) (invalid : List ℕ)
      → key_point ((dst + 1) % 2 ^ 32) keys ≡ some (b ⊙ G)
      → encrypt_share keys a dst share rng ≡ some (bytes, rng')
      → received src dst (decrypt (make_shared_secret b (a ⊙ G)) bytes) (shares, invalid)
        ≡ some (insert dst share shares, invalid)
  unfolding encrypt_share
  received-encrypt_share a b share keys src dst rng rng' bytes shares invalid k h =
      rw
        (
          ap (λ secret. decrypt secret bytes) (sym (make_shared_secret_comm a b)),
          decrypt-encrypt (make_shared_secret a (b ⊙ G)) (c.to_bytes share) rng bytes
              (by_bytes (rw (encrypt_share, k) at h)),
          ch.scalar_of_slice-to_bytes share,
        )
        refl
    where
      by_bytes :
          encrypted (encrypt (make_shared_secret a (b ⊙ G)) (c.to_bytes share) rng)
            ≡ some (bytes, rng')
          → (encrypt (make_shared_secret a (b ⊙ G)) (c.to_bytes share) rng).0 ≡ some bytes
      by_bytes e = ground (arith, e)
