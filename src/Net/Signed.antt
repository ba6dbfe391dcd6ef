-- ===== src/Net/Signed.antt =====
-- src/net.rs: what a message and its signature make.
use wsts.Prelude.{◌≡◌, refl, some, arith}
use wsts.Curve.{Curve, Scalar, Bytes}
use wsts.Net
use wsts.Net.{Message, Packet, signed, hash}

module _ ⦃c : Curve⦄ where
  -- A key with which ecdsa signs, whatever the digest; an invalid key does not.
  abbrev pub CanSign : Scalar → Type 0
  CanSign key = (digest : Bytes) → (sig : Bytes) × (c.ecdsa_sign digest key ≡ some sig)

  pub signed-msg :
      (key : Scalar) (m : Message) (sent : Packet) → signed key m ≡ some sent → sent.msg ≡ m
  unfolding signed
  signed-msg key m sent h = ground (arith, h)

  pub signed-hash :
      (key : Scalar) (m : Message) (bytes : Bytes)
      → CanSign key
      → hash m ≡ some bytes
      → (sent : Packet) × (signed key m ≡ some sent) × (sent.msg ≡ m)
  unfolding signed Net.sign
  signed-hash key m bytes signs h =
      let (sig, e) = signs (c.sha256 bytes) in (record { msg = m; sig = sig }, rw (h, e) refl, refl)
