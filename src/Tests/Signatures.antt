-- ===== src/Tests/Signatures.antt =====
-- The signature of a packet that ends key generation.
use wsts.Prelude.{ℕ, ◌≡◌, refl, some, List, ◌∷◌, true}
use wsts.Curve.Five.{f2, five}
use wsts.Net.{DkgEnd, Packet, dkg_end, success, failure, hash, hash_dkg_end, sign, signed, verify}
use wsts.Net.Signatures.{Confused, signed-Confused}
use wsts.Tests.Channel.{channel}

abbrev ended : DkgEnd
ended = record { dkg_id = 3; signer_id = 1; status = success }

abbrev signature : List ℕ
signature = 2 ∷ five.sha256 (hash_dkg_end ⦃c = five⦄ ended)

abbrev packet : Packet ⦃c = five⦄
packet = record { msg = dkg_end ended; sig = signature }

signed-Confused_example :
    (verify ⦃c = five⦄ ⦃ch = channel⦄ (dkg_end ended) signature f2 ≡ some true)
    × (verify ⦃c = five⦄ ⦃ch = channel⦄ (dkg_end (record ended { status = failure })) signature f2
        ≡ some true)
unfolding signed sign hash
signed-Confused_example =
    signed-Confused ⦃c = five⦄ ⦃ch = channel⦄ (dkg_end ended)
      (dkg_end (record ended { status = failure })) f2 f2 packet (Confused.status ended failure)
      refl refl
