-- ===== src/Tests/Failures.antt =====
-- A signer of src/v1.rs with one key that awaits private shares, and a signer that is saved and loaded.
use wsts.Prelude.{◌≡◌, refl, [], ◌∷◌, replicate, arith}
use wsts.Prelude.Outcome.{err, panic}
use wsts.Curve.{Curve}
use wsts.Curve.Five.{F5, f0, f1, f2, f3, f4, five, to_ℕ}
use wsts.Common
use wsts.Net
use wsts.Net.{DkgPrivateShares}
use wsts.Taproot
use wsts.Taproot.{SchnorrProof, from-to_bytes}
use wsts.Traits.{SignerTrait}
use wsts.V1.Party.{Party, reset_poly}
use wsts.Vss.{random_poly}
use wsts.V1.SavedSigner.{AllHave, made, nonces_generated, load-save-Reached}
use wsts.V1.Signer
use wsts.V1.Signer.{Signer, load, save}
use wsts.V1.Trait.{signer_trait}
use wsts.StateMachine.Signer.{
  dkg_public_distribute, dkg_private_gather, bad_state_change, SigningRound,
}
use wsts.StateMachine.Signer.Dkg.{dkg_begin}
use wsts.StateMachine.Signer.Failures.{process-short_share, dkg_begin-refused}
use wsts.StateMachine.Signer.Process.{process}
use wsts.Tests.Channel.{channel}

abbrev sgn : SignerTrait ⦃c = five⦄
sgn = signer_trait ⦃c = five⦄

abbrev party : Party ⦃c = five⦄
party = record {
  id = 0;
  public_key = f0;
  f = f1 ∷ f3 ∷ [];
  n = 2;
  private_key = f0;
  group_key = f0;
  nonce = Common.zero ⦃c = five⦄;
}

abbrev waiting : SigningRound ⦃c = five⦄ ⦃ch = channel⦄ ⦃sgn = sgn⦄
waiting = record {
  dkg_id = 1;
  sign_id = 1;
  sign_iter_id = 1;
  threshold = 2;
  total_signers = 2;
  total_keys = 2;
  signer = record { id = 0; num_keys = 2; group_key = f0; parties = party ∷ [] };
  signer_id = 0;
  state = dkg_private_gather;
  commitments = [];
  decrypted_shares = [];
  invalid_private_shares = 1 ∷ [];
  public_nonces = [];
  network_private_key = f3;
  public_keys = record { signers = (1, f2) ∷ []; key_ids = [] };
  os_rng = 1;
}

abbrev short : DkgPrivateShares
short = record { dkg_id = 1; signer_id = 1; shares = (1, (0, 4 ∷ []) ∷ []) ∷ [] }

process-short_share_example :
    (process ⦃c = five⦄ ⦃ch = channel⦄ ⦃sgn = sgn⦄ (Net.dkg_private_shares short) waiting).1 ≡ panic
unfolding Signer.get_key_ids
process-short_share_example =
    process-short_share ⦃c = five⦄ ⦃ch = channel⦄ ⦃sgn = sgn⦄ short waiting f2 1 0 (4 ∷ []) [] []
      refl refl refl (omega arith)

dkg_begin-refused_example :
    ((dkg_begin ⦃c = five⦄ ⦃ch = channel⦄ ⦃sgn = sgn⦄ (record { dkg_id = 2 }) waiting).1
      ≡ err (bad_state_change dkg_private_gather dkg_public_distribute))
    × ((dkg_begin ⦃c = five⦄ ⦃ch = channel⦄ ⦃sgn = sgn⦄ (record { dkg_id = 2 }) waiting).0
        ≡ record waiting {
          dkg_id = 2;
          invalid_private_shares = [];
          signer = record waiting.signer { parties = record party { f = f1 ∷ f2 ∷ [] } ∷ [] };
          os_rng = 3;
        })
unfolding Signer.reset_polys reset_poly random_poly
dkg_begin-refused_example =
    dkg_begin-refused ⦃c = five⦄ ⦃ch = channel⦄ ⦃sgn = sgn⦄ (record { dkg_id = 2 }) waiting _ _ refl
      refl

abbrev used : Signer ⦃c = five⦄
used = (Signer.new ⦃c = five⦄ 0 (0 ∷ 1 ∷ []) 2 2 1).0

load-save-Reached_example :
    AllHave ⦃c = five⦄ f0
      (load ⦃c = five⦄ (save ⦃c = five⦄ (Signer.gen_nonces ⦃c = five⦄ used 1).0)).parties
load-save-Reached_example =
    load-save-Reached ⦃c = five⦄ (Signer.gen_nonces ⦃c = five⦄ used 1).0
      (nonces_generated used 1 (made 0 (0 ∷ 1 ∷ []) 2 2 1))

-- Coordinates of 32 bytes.
abbrev wide : Curve
wide = record five { element_bytes = λ e. to_ℕ e ∷ replicate 31 0 }

element_back : (e : F5) → wide.element_of_bytes (wide.element_bytes e) ≡ e
element_back f0 = refl
element_back f1 = refl
element_back f2 = refl
element_back f3 = refl
element_back f4 = refl

scalar_back : (s : F5) → wide.of_bytes (wide.to_bytes s) ≡ s
scalar_back f0 = refl
scalar_back f1 = refl
scalar_back f2 = refl
scalar_back f3 = refl
scalar_back f4 = refl

abbrev proof : SchnorrProof ⦃c = wide⦄
proof = record { r = f2; s = f3 }

from-to_bytes_example : Taproot.from ⦃c = wide⦄ (Taproot.to_bytes ⦃c = wide⦄ proof) ≡ proof
from-to_bytes_example = from-to_bytes ⦃c = wide⦄ (λ e. refl) element_back scalar_back proof
