-- ===== src/Tests/Channel.antt =====
-- The interface of src/util.rs and of the signers over the integers modulo 5: a public key is a point,
-- nonces are zeros, and a cipher is the plain text.
use wsts.Prelude.{
  Bool, true, false, ◌&&◌, ◌==◌, ==_iff, arith, ℕ, ◌≡◌, refl, sym, Option, none, some, List, [],
  ◌∷◌, length, replicate, ap, zero, suc,
}
use wsts.Curve.Five.{F5, f0, f1, f2, f3, f4, five, to_ℕ, pick}
use wsts.Channel.{Channel}

abbrev pub read : List ℕ → Option F5
read [] = none
read (b ∷ []) = some (pick b)
read (a ∷ b ∷ bs) = none

pub read-to_bytes : (a : F5) → read (to_ℕ a ∷ []) ≡ some a
read-to_bytes f0 = refl
read-to_bytes f1 = refl
read-to_bytes f2 = refl
read-to_bytes f3 = refl
read-to_bytes f4 = refl

pub length-replicate : (n : ℕ) → length {A = ℕ} (replicate n 0) ≡ n
length-replicate zero = refl
length-replicate (suc n) = ap suc (length-replicate n)

-- A signature is the private key, as a number, and the digest.
abbrev pub equal : List ℕ → List ℕ → Bool
equal [] [] = true
equal [] (y ∷ ys) = false
equal (x ∷ xs) [] = false
equal (x ∷ xs) (y ∷ ys) = x == y && equal xs ys

abbrev pub signs : List ℕ → List ℕ → F5 → Bool
signs [] digest key = false
signs (k ∷ sig) digest key = k == to_ℕ key && equal sig digest

equal_self : (xs : List ℕ) → equal xs xs ≡ true
equal_self [] = refl
equal_self (x ∷ xs) = ground (arith, ==_iff x x, equal_self xs)

pub signs-signed :
    (digest : List ℕ) (k key : F5) {bytes : List ℕ}
    → some (to_ℕ k ∷ digest) ≡ some bytes
    → some k ≡ some key
    → (sig : List ℕ) × (some bytes ≡ some sig) × (signs sig digest key ≡ true)
signs-signed digest k key {bytes} h e =
    (to_ℕ k ∷ digest, sym h, ground (arith, e, ==_iff (to_ℕ k) (to_ℕ k), equal_self digest))

abbrev pub channel : Channel ⦃c = five⦄
channel = record {
  PublicKey = F5;
  to_point = λ p. some p;
  public_key = λ k. some k;
  EcdsaSignature = List ℕ;
  ecdsa_signature = λ bytes. some bytes;
  ecdsa_verify = λ sig digest key. signs sig digest key;
  get_u32 = to_ℕ;
  scalar_of_slice = read;
  fill_bytes = λ n rng. (replicate n 0, rng);
  aes_encrypt = λ key nonce plain. some plain;
  aes_decrypt = λ key nonce cipher. some cipher;
  scalar_of_slice-to_bytes = read-to_bytes;
  ecdsa_verify-ecdsa_sign = λ digest k key h e. signs-signed digest k key h e;
  length-fill_bytes = λ n rng. length-replicate n;
  aes_decrypt-aes_encrypt = λ key nonce plain h. sym h;
}
