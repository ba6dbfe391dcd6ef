-- ===== src/Net.antt =====
-- src/net.rs: the messages, and the bytes of each that its signature covers.
pub mod Signatures
pub mod Signed
use wsts.Prelude.{
  ℕ, Bool, false, Option, none, some, List, [], ◌∷◌, ◌++◌, length, range, flat_map, if◌then◌else◌,
  ◌>>=◌,
}
use wsts.Prelude.Maps.{Map, lookup}
use wsts.Channel.{Channel}
use wsts.Curve.{Curve, Scalar, Bytes}
use wsts.Common.{PolyCommitment, PublicNonce, SignatureShare}
use wsts.Util.{as_bytes, be_bytes_32, be_bytes_64}

-- The text of a failure is a report that the code formats and never reads.
pub data DkgStatus : Type 0 where
  success failure : DkgStatus

pub record DkgBegin : Type 0 where
  pub dkg_id : ℕ

pub record DkgPrivateShares : Type 0 where
  pub dkg_id : ℕ
  pub signer_id : ℕ
  pub shares : List (ℕ × Map (List ℕ))

pub record DkgEnd : Type 0 where
  pub dkg_id : ℕ
  pub signer_id : ℕ
  pub status : DkgStatus

pub record NonceRequest : Type 0 where
  pub dkg_id : ℕ
  pub sign_id : ℕ
  pub sign_iter_id : ℕ

module _ ⦃c : Curve⦄ where
  pub record DkgPublicShares : Type 0 where
    pub dkg_id : ℕ
    pub signer_id : ℕ
    pub comms : List (ℕ × PolyCommitment)

  pub record NonceResponse : Type 0 where
    pub dkg_id : ℕ
    pub sign_id : ℕ
    pub sign_iter_id : ℕ
    pub signer_id : ℕ
    pub key_ids : List ℕ
    pub nonces : List PublicNonce

  pub record SignatureShareRequest : Type 0 where
    pub dkg_id : ℕ
    pub sign_id : ℕ
    pub sign_iter_id : ℕ
    pub nonce_responses : List NonceResponse
    pub message : Bytes
    pub is_taproot : Bool
    pub merkle_root : Option Bytes

  pub record SignatureShareResponse : Type 0 where
    pub dkg_id : ℕ
    pub sign_id : ℕ
    pub sign_iter_id : ℕ
    pub signer_id : ℕ
    pub signature_shares : List SignatureShare

  pub data Message : Type 0 where
    dkg_begin : DkgBegin → Message
    dkg_public_shares : DkgPublicShares → Message
    dkg_private_begin : DkgBegin → Message
    dkg_private_shares : DkgPrivateShares → Message
    dkg_end : DkgEnd → Message
    nonce_request : NonceRequest → Message
    nonce_response : NonceResponse → Message
    signature_share_request : SignatureShareRequest → Message
    signature_share_response : SignatureShareResponse → Message

  pub record Packet : Type 0 where
    pub msg : Message
    pub sig : Bytes

  abbrev pub hash_dkg_begin : DkgBegin → Bytes
  hash_dkg_begin m = as_bytes "DKG_BEGIN" ++ be_bytes_64 m.dkg_id

  abbrev pub hash_dkg_public_shares : DkgPublicShares → Bytes
  hash_dkg_public_shares m =
      as_bytes "DKG_PUBLIC_SHARES"
      ++ be_bytes_64 m.dkg_id
      ++ be_bytes_32 m.signer_id
      ++ flat_map (λ e. be_bytes_32 e.0 ++ flat_map c.compress e.1.poly) m.comms

  abbrev pub hash_entries : Map Bytes → List ℕ → Option Bytes
  hash_entries share [] = some []
  hash_entries share (dst_id ∷ ids) = do
    bytes ← lookup dst_id share
    rest ← hash_entries share ids
    some (be_bytes_32 dst_id ++ bytes ++ rest)

  abbrev pub hash_shares : List (ℕ × Map Bytes) → Option Bytes
  hash_shares [] = some []
  hash_shares ((src_id, share) ∷ shares) = do
    entries ← hash_entries share (range (length share))
    rest ← hash_shares shares
    some (be_bytes_32 src_id ++ entries ++ rest)

  -- `None` where `share[&dst_id]` has no entry.
  abbrev pub hash_dkg_private_shares : DkgPrivateShares → Option Bytes
  hash_dkg_private_shares m = do
    shares ← hash_shares m.shares
    some
        (as_bytes "DKG_PRIVATE_SHARES" ++ be_bytes_64 m.dkg_id ++ be_bytes_32 m.signer_id ++ shares)

  abbrev pub hash_dkg_end : DkgEnd → Bytes
  hash_dkg_end m = as_bytes "DKG_END" ++ be_bytes_64 m.dkg_id ++ be_bytes_32 m.signer_id

  abbrev pub hash_nonce_request : NonceRequest → Bytes
  hash_nonce_request m =
      as_bytes "NONCE_REQUEST"
      ++ be_bytes_64 m.dkg_id
      ++ be_bytes_64 m.sign_id
      ++ be_bytes_64 m.sign_iter_id

  abbrev pub hash_nonce_response : NonceResponse → Bytes
  hash_nonce_response m =
      as_bytes "NONCE_RESPONSE"
      ++ be_bytes_64 m.dkg_id
      ++ be_bytes_64 m.sign_id
      ++ be_bytes_64 m.sign_iter_id
      ++ be_bytes_32 m.signer_id
      ++ flat_map be_bytes_32 m.key_ids
      ++ flat_map (λ n. c.compress n.D ++ c.compress n.E) m.nonces

  abbrev root_bytes : Option Bytes → Bytes
  root_bytes none = []
  root_bytes (some root) = root

  abbrev pub hash_signature_share_request : SignatureShareRequest → Bytes
  hash_signature_share_request m =
      as_bytes "SIGNATURE_SHARE_REQUEST"
      ++ be_bytes_64 m.dkg_id
      ++ be_bytes_64 m.sign_id
      ++ flat_map hash_nonce_response m.nonce_responses
      ++ m.message
      ++ (0 ∷ (if m.is_taproot then 1 else 0) ∷ [])
      ++ root_bytes m.merkle_root

  abbrev pub hash_signature_share_response : SignatureShareResponse → Bytes
  hash_signature_share_response m =
      as_bytes "SIGNATURE_SHARE_RESPONSE"
      ++ be_bytes_64 m.dkg_id
      ++ be_bytes_64 m.sign_id
      ++ be_bytes_32 m.signer_id
      ++ flat_map (λ s. be_bytes_32 s.id ++ c.to_bytes s.z_i) m.signature_shares

  -- `Signable::hash`, for the message of a packet.
  unfoldable pub hash : Message → Option Bytes
  hash (dkg_begin m) = some (hash_dkg_begin m)
  hash (dkg_public_shares m) = some (hash_dkg_public_shares m)
  hash (dkg_private_begin m) = some (hash_dkg_begin m)
  hash (dkg_private_shares m) = hash_dkg_private_shares m
  hash (dkg_end m) = some (hash_dkg_end m)
  hash (nonce_request m) = some (hash_nonce_request m)
  hash (nonce_response m) = some (hash_nonce_response m)
  hash (signature_share_request m) = some (hash_signature_share_request m)
  hash (signature_share_response m) = some (hash_signature_share_response m)

  -- `Signable::sign` with the `expect` that every caller puts behind it.
  unfoldable pub sign : Message → Scalar → Option Bytes
  unfolding hash
  sign msg private_key = do bytes ← hash msg; c.ecdsa_sign (c.sha256 bytes) private_key

  -- A message with its signature.
  unfoldable pub signed : Scalar → Message → Option Packet
  signed private_key msg = do bytes ← sign msg private_key; some (record { msg = msg; sig = bytes })

  module _ ⦃ch : Channel⦄ where
    abbrev pub verified : Option ch.EcdsaSignature → Bytes → ch.PublicKey → Bool
    verified none digest public_key = false
    verified (some sig) digest public_key = ch.ecdsa_verify sig digest public_key

    -- `Signable::verify`.
    unfoldable pub verify : Message → Bytes → ch.PublicKey → Option Bool
    unfolding hash
    verify msg signature public_key = do
      bytes ← hash msg
      some (verified (ch.ecdsa_signature signature) (c.sha256 bytes) public_key)
