-- ===== src/V1/Trait.antt =====
-- src/v1.rs: the aggregator and the signer as the traits of src/traits.rs.
use wsts.Curve.{Curve}
use wsts.Traits.{AggregatorTrait, SignerTrait}
use wsts.V1.Aggregator.{Aggregator, new, init, sign, sign_taproot}
use wsts.V1.Signer
use wsts.V1.Signer.{Signer}

module _ ⦃c : Curve⦄ where
  -- Signing takes `&mut self` and leaves it as it is.
  abbrev pub aggregator_trait : AggregatorTrait
  aggregator_trait = record {
    Self = Aggregator;
    new = new;
    init = init;
    sign = λ msg nonces shares key_ids self. (self, sign self msg nonces shares key_ids);
    sign_taproot = λ msg nonces shares key_ids merkle_root self.
        (self, sign_taproot self msg nonces shares key_ids merkle_root);
  }

  -- The number of signers is not used.
  abbrev pub signer_trait : SignerTrait
  signer_trait = record {
    Self = Signer;
    new = λ id key_ids num_signers num_keys threshold rng.
        Signer.new id key_ids num_keys threshold rng;
    get_id = λ self. self.id;
    get_key_ids = Signer.get_key_ids;
    get_num_parties = λ self. self.num_keys;
    get_poly_commitments = Signer.get_poly_commitments;
    reset_polys = Signer.reset_polys;
    get_shares = Signer.get_shares;
    compute_secrets = Signer.compute_secrets;
    gen_nonces = Signer.gen_nonces;
    compute_intermediate = Signer.compute_intermediate;
    sign = Signer.sign;
    sign_taproot = Signer.sign_taproot;
  }
