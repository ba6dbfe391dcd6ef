-- ===== src/V2/Trait.antt =====
-- src/v2.rs: the aggregator and the party as the traits of src/traits.rs.
use wsts.Prelude.{some}
use wsts.Curve.{Curve}
use wsts.Traits.{AggregatorTrait, SignerTrait}
use wsts.V2.Aggregator.{Aggregator, new, init, sign, sign_taproot}
use wsts.V2.Party
use wsts.V2.Party.{Party}
use wsts.V2.Signer

module _ ⦃c : Curve⦄ where
  -- Signing takes `&mut self` and leaves it as it is.
  abbrev pub aggregator_trait : AggregatorTrait
  aggregator_trait = record {
    Self = Aggregator;
    new = new;
    init = init;
    sign = λ msg nonces shares key_ids self. (self, sign self msg nonces shares key_ids);
    sign_taproot = λ msg nonces shares key_ids merkle_root self.
        (self, sign_taproot self msg nonces shares key_ids merkle_root);
  }

  abbrev pub signer_trait : SignerTrait
  signer_trait = record {
    Self = Party;
    new = Party.new;
    get_id = λ self. self.party_id;
    get_key_ids = λ self. self.key_ids;
    get_num_parties = λ self. self.num_parties;
    get_poly_commitments = Signer.get_poly_commitments;
    reset_polys = λ self rng. some (Party.reset_polys self rng);
    get_shares = Signer.get_shares;
    compute_secrets = Signer.compute_secrets;
    gen_nonces = Signer.gen_nonces;
    compute_intermediate = Signer.compute_intermediate;
    sign = Signer.sign;
    sign_taproot = Signer.sign_taproot;
  }
