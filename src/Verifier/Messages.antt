-- ===== src/Verifier/Messages.antt =====
-- The requests of the handlers of a verifier and of its clients.
use spark_bridge_backend.Prelude.{ℕ, Option, Bytes}
use spark_bridge_backend.Verifier.Types.{OutPoint, UserIds, FeePayment}

-- what the indexer and the Spark balance checker answer, and what the gateway is told
pub data BtcIndexerDepositStatus : Type 0 where
  confirmed failed : BtcIndexerDepositStatus

pub data SparkDepositStatus : Type 0 where
  confirmed failed : SparkDepositStatus

pub data GatewayDepositStatus : Type 0 where
  confirmed failed : GatewayDepositStatus

-- the request to the indexer, less the constant callback url
pub record IndexerRequest : Type 0 where
  pub request_id : ℕ
  pub btc_address : Bytes
  pub outpoint : OutPoint
  pub rune_id : Option Bytes
  pub rune_amount : Option ℕ
  pub sats_amount : Option ℕ

pub data GatewayNotice : Type 0 where
  runes_deposit :
      (verifier_id : ℕ)
      → (request_id : ℕ) → OutPoint
      → (sats_amount : ℕ) → GatewayDepositStatus
      → Option Bytes
      → GatewayNotice
  spark_deposit :
      (verifier_id : ℕ)
      → (request_id : ℕ) → (spark_address : Bytes) → GatewayDepositStatus
      → GatewayNotice

pub record VerifyBalanceRequest : Type 0 where
  pub request_id : ℕ
  pub spark_address : Bytes
  pub token_identifier : Bytes
  pub amount : ℕ

pub record VerifyTransferRequest : Type 0 where
  pub request_id : ℕ
  pub receiver_address : Bytes
  pub txid : Bytes
  pub amount : ℕ

pub record VerifyBalanceResponse : Type 0 where
  pub deposit_status : SparkDepositStatus
  pub error_details : Option Bytes

pub record FeeConfig : Type 0 where
  pub amount : ℕ
  pub btc_address : Bytes
  pub spark_address : Bytes

pub record WatchRunesDepositRequest : Type 0 where
  pub request_id : ℕ
  pub user_ids : UserIds
  pub nonce : Bytes
  pub amount : ℕ
  pub btc_address : Bytes
  pub bridge_address : Bytes
  pub outpoint : OutPoint
  pub fee_payment : Option FeePayment

pub record WatchSparkDepositRequest : Type 0 where
  pub request_id : ℕ
  pub user_ids : UserIds
  pub nonce : Bytes
  pub spark_address : Bytes
  pub exit_address : Bytes
  pub amount : ℕ
  pub token_identifier : Bytes
  pub fee_payment : Option FeePayment

pub record IndexerNotifyRequest : Type 0 where
  pub outpoint : OutPoint
  pub request_id : ℕ
  pub deposit_status : BtcIndexerDepositStatus
  pub sats_amount : Option ℕ
  pub rune_id : Option Bytes
  pub rune_amount : Option ℕ
  pub error_details : Option Bytes
