-- ===== src/Frost/Types.antt =====
-- crates/frost/src/types.rs and errors.rs. A `Uuid` and an `Identifier` are numbers; what the
-- library of `Scheme` makes is a byte string; error texts are left out.
use spark_bridge_backend.Prelude.{ℕ, Bool, Option, Bytes}
use spark_bridge_backend.Prelude.Map.{Map}

pub data SigningMetadata : Type 0 where
  partial_create_token final_create_token partial_mint_token final_mint_token :
      Bytes → SigningMetadata
  partial_transfer_token final_transfer_token : Bytes → SigningMetadata
  authorization btc_transaction_metadata : SigningMetadata

pub record DkgRound1Request : Type 0 where
  pub dkg_share_id : ℕ

pub record DkgRound1Response : Type 0 where
  pub round1_package : Bytes

pub record DkgRound2Request : Type 0 where
  pub dkg_share_id : ℕ
  pub round1_packages : Map Bytes

pub record DkgRound2Response : Type 0 where
  pub round2_packages : Map Bytes

pub record DkgFinalizeRequest : Type 0 where
  pub dkg_share_id : ℕ
  pub round1_packages : Map Bytes
  pub round2_packages : Map Bytes

pub record DkgFinalizeResponse : Type 0 where
  pub public_key_package : Bytes

pub record SignRound1Request : Type 0 where
  pub dkg_share_id : ℕ
  pub session_id : ℕ
  pub metadata : SigningMetadata
  pub message_hash : Bytes
  pub tweak : Option Bytes

pub record SignRound1Response : Type 0 where
  pub commitments : Bytes

pub record SignRound2Request : Type 0 where
  pub dkg_share_id : ℕ
  pub session_id : ℕ
  pub signing_package : Bytes
  pub tap_tweek : Bool

pub record SignRound2Response : Type 0 where
  pub signature_share : Bytes

pub data AggregatorDkgState : Type 0 where
  initialized : AggregatorDkgState
  dkg_round1 : Map Bytes → AggregatorDkgState
  -- round1_packages, and by receiver the packages of each sender
  dkg_round2 : Map Bytes → Map (Map Bytes) → AggregatorDkgState
  dkg_finalized : Bytes → AggregatorDkgState

pub record AggregatorDkgShareData : Type 0 where
  pub dkg_state : AggregatorDkgState

pub data AggregatorSignState : Type 0 where
  signing_round1 : Bytes → AggregatorSignState
  signing_round2 : Bytes → AggregatorSignState

pub record AggregatorSignData : Type 0 where
  pub tweak : Option Bytes
  pub message_hash : Bytes
  pub metadata : SigningMetadata
  pub sign_state : AggregatorSignState

pub data SignerDkgState : Type 0 where
  dkg_round1 : Bytes → SignerDkgState
  dkg_round2 : Bytes → Map Bytes → SignerDkgState
  dkg_finalized : Bytes → SignerDkgState

pub record SignerDkgShareIdData : Type 0 where
  pub dkg_state : SignerDkgState

pub data SignerSignState : Type 0 where
  signing_round1 : Bytes → SignerSignState
  signing_round2 : Bytes → SignerSignState

pub record SignerSignData : Type 0 where
  pub tweak : Option Bytes
  pub message_hash : Bytes
  pub metadata : SigningMetadata
  pub sign_state : SignerSignState

-- `panicked` is a failed `assert_eq!`, which ends the handler.
pub data SignerError : Type 0 where
  invalid_user_state internal database_error panicked : SignerError
  dkg_share_already_exists dkg_share_not_found : ℕ → SignerError

pub data AggregatorError : Type 0 where
  invalid_user_state internal http_error database_error panicked : AggregatorError
  signer_error : SignerError → AggregatorError
  dkg_share_already_exists dkg_share_not_found : ℕ → AggregatorError
