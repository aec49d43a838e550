-- ===== src/Verifier/Clients.antt =====
-- What the handlers of a verifier call: its clients, and the statuses they exchange.
use spark_bridge_backend.Prelude.{ℕ, Bool, Option, [], ◌∷◌, ◌++◌, if◌then◌else◌}
use spark_bridge_backend.Prelude.Exec.{ok, err, Exec, ok_or, map_err}
use spark_bridge_backend.Frost.Types.{SignerError}
use spark_bridge_backend.Token.Identifier as Identifier
use spark_bridge_backend.Verifier.Types.{DbError, DepositStatus}
use spark_bridge_backend.Verifier.Messages.{
  IndexerRequest, GatewayNotice, VerifyBalanceRequest, VerifyTransferRequest, VerifyBalanceResponse,
  FeeConfig, BtcIndexerDepositStatus, SparkDepositStatus, GatewayDepositStatus,
}
use spark_bridge_backend.Verifier.Tables.{Verifier, Db}

-- `unwrapped_none` is no error of the source: there it would panic.
pub data VerifierError : Type 0 where
  dkg : SignerError → VerifierError
  storage_error : DbError → VerifierError
  btc_indexer_client spark_balance_checker_client gateway_client validation healthcheck
        unwrapped_none :
      VerifierError

-- The clients of the indexer, of the Spark balance checker and of the gateway, each of which may fail.
pub record Clients (W : Type 0) : Type 0 where
  pub watch : IndexerRequest → W → Bool × W
  pub verify_balance : VerifyBalanceRequest → W → Option VerifyBalanceResponse × W
  pub verify_transfer : VerifyTransferRequest → W → Option VerifyBalanceResponse × W
  pub notify : GatewayNotice → W → Bool × W

-- `identifier` is the verifier's, of frost_signer.
pub record Config : Type 0 where
  pub identifier : ℕ
  pub fee : Option FeeConfig
  pub network : Identifier.Network

abbrev pub Handler : Type 0 → Type 0 → Type 0
Handler W A = Exec (Verifier W) VerifierError A

-- cast_deposit_status, and the `From` of the notification's status
unfoldable pub cast_deposit_status : SparkDepositStatus → DepositStatus
cast_deposit_status SparkDepositStatus.confirmed = DepositStatus.confirmed
cast_deposit_status SparkDepositStatus.failed = DepositStatus.failed

unfoldable pub cast_indexer_status : BtcIndexerDepositStatus → DepositStatus
cast_indexer_status BtcIndexerDepositStatus.confirmed = DepositStatus.confirmed
cast_indexer_status BtcIndexerDepositStatus.failed = DepositStatus.failed

unfoldable pub gateway_status : BtcIndexerDepositStatus → GatewayDepositStatus
gateway_status BtcIndexerDepositStatus.confirmed = GatewayDepositStatus.confirmed
gateway_status BtcIndexerDepositStatus.failed = GatewayDepositStatus.failed

unfoldable pub spark_gateway_status : SparkDepositStatus → GatewayDepositStatus
spark_gateway_status SparkDepositStatus.confirmed = GatewayDepositStatus.confirmed
spark_gateway_status SparkDepositStatus.failed = GatewayDepositStatus.failed

module _ {W : Type 0} where
  -- a query under `.map_err(|e| VerifierError::Storage(..))?`
  abbrev pub storage : {A : Type 0} → Db W A → Handler W A
  storage m s = (map_err VerifierError.storage_error (m s).0, (m s).1)

module _ {W : Type 0} (C : Clients W) where
  unfoldable pub watch : IndexerRequest → Handler W (Unit {0})
  watch request s =
      let (delivered, world) = C.watch request s.world in
      (
        if delivered then ok tt else err VerifierError.btc_indexer_client,
        record s { watched = s.watched ++ (request ∷ []); world = world },
      )

  unfoldable pub notify : GatewayNotice → Handler W (Unit {0})
  notify notice s =
      let (delivered, world) = C.notify notice s.world in
      (
        if delivered then ok tt else err VerifierError.gateway_client,
        record s { notified = s.notified ++ (notice ∷ []); world = world },
      )

  unfoldable pub verify_balance : VerifyBalanceRequest → Handler W VerifyBalanceResponse
  verify_balance request s =
      let (response, world) = C.verify_balance request s.world in
      (ok_or response VerifierError.spark_balance_checker_client, record s { world = world })

  unfoldable pub verify_transfer : VerifyTransferRequest → Handler W VerifyBalanceResponse
  verify_transfer request s =
      let (response, world) = C.verify_transfer request s.world in
      (ok_or response VerifierError.spark_balance_checker_client, record s { world = world })
