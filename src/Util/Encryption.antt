-- ===== src/Util/Encryption.antt =====
-- src/util.rs: the encryption of private shares under a shared secret.
use wsts.Prelude.{
  ℕ, ◌≡◌, sym, ap, ◌∙◌, Option, none, some, ◌++◌, length, length-append, take, drop, take-append,
  drop-append, ltb, if◌then◌else◌, arith, ◌>>=◌, Option-cases, inl, inr,
}
use wsts.Prelude.Outcome.{Outcome, ok, err, panic}
use wsts.Curve.{Curve, Scalar, Point, Rng, Bytes, G, ◌⊙◌}
use wsts.Curve.Algebra.{smul_comm}
use wsts.Channel.{Channel}
use wsts.Util.{as_bytes}

-- Of the error that aes-gcm returns the code reads nothing.
pub data AesGcmError : Type 0 where
  aes_gcm_error : AesGcmError

abbrev pub aes_gcm_nonce_size : ℕ
aes_gcm_nonce_size = 12

module _ ⦃c : Curve⦄ where
  unfoldable pub make_shared_secret : Scalar → Point → Bytes
  make_shared_secret private_key public_key =
      c.sha256 (as_bytes "DH_SHARED_SECRET_KEY/" ++ c.compress (private_key ⊙ public_key))

  -- Both ends of a key exchange compute one secret, each from its private key and the other's public
  -- key.
  pub make_shared_secret_comm :
      (a b : Scalar) → make_shared_secret a (b ⊙ G) ≡ make_shared_secret b (a ⊙ G)
  unfolding make_shared_secret
  make_shared_secret_comm a b =
      ap (λ p. c.sha256 (as_bytes "DH_SHARED_SECRET_KEY/" ++ c.compress p)) (smul_comm a b G)

module _ ⦃c : Curve⦄ ⦃ch : Channel⦄ where
  unfoldable pub encrypt : Bytes → Bytes → Rng → Option Bytes × Rng
  encrypt key plain rng =
      let (nonce, rng') = ch.fill_bytes aes_gcm_nonce_size rng in
      ((do cipher ← ch.aes_encrypt key nonce plain; some (nonce ++ cipher)), rng')

  abbrev decrypted : Option Bytes → Outcome AesGcmError Bytes
  decrypted none = err aes_gcm_error
  decrypted (some plain) = ok plain

  -- Panics where there are not enough bytes for a nonce.
  unfoldable pub decrypt : Bytes → Bytes → Outcome AesGcmError Bytes
  decrypt key bytes =
      if ltb (length bytes) aes_gcm_nonce_size
      then panic
      else decrypted
          (ch.aes_decrypt key (take aes_gcm_nonce_size bytes) (drop aes_gcm_nonce_size bytes))

  split_at :
      (n : ℕ) (key nonce cipher : Bytes)
      → length nonce ≡ n
      → (if ltb (length (nonce ++ cipher)) n
          then panic
          else decrypted (ch.aes_decrypt key (take n (nonce ++ cipher)) (drop n (nonce ++ cipher))))
        ≡ decrypted (ch.aes_decrypt key nonce cipher)
  split_at n key nonce cipher h =
      rw (take-append n nonce cipher h, drop-append n nonce cipher h)
        (ground (arith, h, length-append nonce cipher))

  by_cipher :
      (key plain nonce cipher bytes : Bytes)
      → ch.aes_encrypt key nonce plain ≡ some cipher
      → length nonce ≡ 12
      → nonce ++ cipher ≡ bytes
      → decrypt key bytes ≡ ok plain
  unfolding decrypt
  by_cipher key plain nonce cipher bytes e l b =
      ap (decrypt key) (sym b)
      ∙ split_at 12 key nonce cipher l
      ∙ ap decrypted (ch.aes_decrypt-aes_encrypt key nonce plain e)

  -- What `encrypt` makes of some bytes, `decrypt` takes back under the same key.
  pub decrypt-encrypt :
      (key plain : Bytes) (rng : Rng) (bytes : Bytes)
      → (encrypt key plain rng).0 ≡ some bytes
      → decrypt key bytes ≡ ok plain
  unfolding encrypt
  decrypt-encrypt key plain rng bytes h =
      elim (Option-cases (ch.aes_encrypt key (ch.fill_bytes 12 rng).0 plain)) [
        | inl e ↦ absurd (ground (arith, h, e))
        | inr (cipher, e) ↦
            by_cipher key plain (ch.fill_bytes 12 rng).0 cipher bytes e
              (ch.length-fill_bytes 12 rng) (ground (arith, h, e))
      ]
