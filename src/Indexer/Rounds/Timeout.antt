-- ===== src/Indexer/Rounds/Timeout.antt =====
-- A request whose output does not appear in time, and the verifier that is told so.
use spark_bridge_backend.Prelude.{ℕ, ◌-◌, ◌<◌, ◌≡◌, refl, none, some, [], ◌∷◌, ◌++◌, arith, Bytes}
use spark_bridge_backend.Prelude.Exec.{err}
use spark_bridge_backend.Prelude.Rows.{update}
use spark_bridge_backend.Token.Identifier as Identifier
use spark_bridge_backend.Verifier.Types.{OutPoint}
use spark_bridge_backend.Indexer.Types.{
  Libraries, WatchRequestStatus, WatchRequestErrorDetails, WatchRequest, WatchRequestRow,
  BlockchainInfo, BtcIndexerConfig, DepositStatus, NotifyRunesDepositRequest, empty_metadata,
}
use spark_bridge_backend.Indexer.Requests.{
  Indexer, Clients, database, set_requests, has_id, update_watch_request_status,
}
use spark_bridge_backend.Indexer.Rounds.{
  validate_transaction_timeout, notice_of, get_blockchain_info, get_transaction_outpoint, now,
  callback, send_by_status, send_notify_request, settle, settle_missing, process_found,
  process_watch_request,
}
use spark_bridge_backend.Indexer.Types.{optional}
use spark_bridge_backend.Verifier.Types as Watcher
use spark_bridge_backend.Verifier.Tables.{Verifier}
use spark_bridge_backend.Verifier.Clients as Callees
use spark_bridge_backend.Verifier.Messages as Messages
use spark_bridge_backend.Verifier.Handlers.{notify_runes_deposit}
use spark_bridge_backend.Verifier.Clients.{VerifierError}

-- the notice as the verifier reads it, where `print` and `text` give the texts of a rune and of an error
abbrev pub received :
    (ℕ → Bytes)
    → (WatchRequestErrorDetails → Bytes)
    → NotifyRunesDepositRequest
    → Messages.IndexerNotifyRequest
received print text notice = record {
  outpoint = notice.outpoint;
  request_id = notice.request_id;
  deposit_status = elim notice.deposit_status [
    | DepositStatus.confirmed ↦ Messages.BtcIndexerDepositStatus.confirmed
    | DepositStatus.failed ↦ Messages.BtcIndexerDepositStatus.failed
  ];
  sats_amount = notice.sats_amount;
  rune_id = optional print notice.rune_id;
  rune_amount = notice.rune_amount;
  error_details = optional text notice.error_details;
}

abbrev pub late_notice : WatchRequest → NotifyRunesDepositRequest
late_notice request =
    notice_of request DepositStatus.failed empty_metadata (some WatchRequestErrorDetails.timeout)

abbrev pub timed_out : WatchRequestRow → WatchRequestRow
timed_out row = record row {
  status = WatchRequestStatus.failed;
  error_details = some WatchRequestErrorDetails.timeout;
}

module _ (K : Identifier.Libraries) (V : Watcher.Texts) {U : Type 0} (D : Callees.Clients U)
    (watcher : Callees.Config) (print : ℕ → Bytes) (text : WatchRequestErrorDetails → Bytes) where
  late_refused :
      (request : WatchRequest) (v : Verifier U)
      → notify_runes_deposit K V D watcher (received print text (late_notice request)) v
        ≡ (err VerifierError.validation, v)
  unfolding notify_runes_deposit
  late_refused request v = refl

  -- A request whose output the chain does not have when its time is over is stored as failed, and its
  -- verifier is sent a notice which it refuses as invalid, with its state as it was: for a round in which
  -- no query fails and the client of the chain answers.
  pub process_watch_request-notify_runes_deposit :
      (T : Libraries) (network : Identifier.Network) (config : BtcIndexerConfig) {W : Type 0}
      (C : Clients W) (request : WatchRequest) (s : Indexer W) (info : BlockchainInfo)
      (v : Verifier U)
      → s.faults ≡ []
      → (C.get_blockchain_info s.world).0 ≡ some info
      → (C.get_transaction_outpoint request.outpoint (C.get_blockchain_info s.world).1).0
        ≡ some none
      → config.validation_timeout_millis
        < T.timestamp_millis
            (C.now
              (C.get_transaction_outpoint request.outpoint (C.get_blockchain_info s.world).1).1).0
          - T.timestamp_millis request.created_at
      → let t = (process_watch_request T network config C request s).1 in
        (t.requests ≡ update (has_id request.id) timed_out s.requests)
        × (t.sent ≡ s.sent ++ ((request.callback_url, late_notice request) ∷ []))
        × (notify_runes_deposit K V D watcher (received print text (late_notice request)) v
            ≡ (err VerifierError.validation, v))
  unfolding process_watch_request process_found get_blockchain_info get_transaction_outpoint now
      validate_transaction_timeout settle_missing settle update_watch_request_status database
      set_requests send_notify_request send_by_status callback
  process_watch_request-notify_runes_deposit T network config C request s info v healthy known
        absent late =
      (
        ground (arith, healthy, known, absent, late),
        ground (arith, healthy, known, absent, late),
        late_refused request v,
      )
