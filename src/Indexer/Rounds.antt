-- ===== src/Indexer/Rounds.antt =====
-- btc_indexer/crates/indexer/src/indexer.rs: a round of the indexer over the requests that are pending.
pub mod Valid
pub mod Told
pub mod Pending
pub mod Verdicts
pub mod Timeout
use spark_bridge_backend.Prelude.{
  ℕ, zero, suc, ◌+◌, ◌-◌, ◌*◌, ◌/◌, ◌%◌, ◌^◌, ◌≤◌, ◌<◌, String, ◌≡◌, refl, sym, ap, ◌∙◌, ◌≢◌, ◌↔◌,
  ◌⊎◌, inl, inr, Bool, true, false, not, ◌&&◌, ◌||◌, Option, none, some, List, [], ◌∷◌, ◌++◌, map,
  arith, ltb, leb, ◌==◌, if◌then◌else◌, ==_iff, ==_refl, Bool-cases, Option-cases, is_none, is_some,
  Bytes, bytes_eq, bytes_eq_refl, bytes_eq_sound, All, length, get_elem?, take, drop, length-append,
  length-drop, take-append, drop-append, leb→le, ltb→lt,
}
use spark_bridge_backend.Prelude.Exec.{
  Result, ok, err, Exec, pure, raise, lift, gets, ◌>>=◌, ◌>>◌, ok_or, map_err, ◌and_then◌, Keeps,
  Keeps-bind, Keeps-pure, bind_rule, Result-cases,
}
use spark_bridge_backend.Prelude.Rows.{find, update}
use spark_bridge_backend.Prelude.Map.{Map, lookup}
use spark_bridge_backend.Token.Identifier as Identifier
use spark_bridge_backend.Verifier.Types.{OutPoint}
use spark_bridge_backend.Indexer.Types.{
  DbError, Libraries, WatchRequestStatus, WatchRequestErrorDetails, ValidationResult,
  ValidationMetadata, WatchRequest, WatchRequestRow, OutPointData, BlockchainInfo, BtcIndexerConfig,
  DepositStatus, NotifyRunesDepositRequest, IndexerError, WatchCall, into_row, from_row,
  empty_metadata,
}
use spark_bridge_backend.Indexer.Requests.{
  Indexer, Clients, Db, database, set_requests, is_pending, has_id, read_pending,
  update_watch_request_status, get_all_unprocessed_watch_requests, insert_watch_request,
}

abbrev pub or_zero : Option ℕ → ℕ
or_zero none = 0
or_zero (some n) = n

abbrev pub decided :
    WatchRequestStatus
    → Option WatchRequestErrorDetails
    → Option ValidationMetadata
    → ValidationResult × Option ValidationMetadata
decided status error_details metadata =
    (record { watch_request_status = status; error_details = error_details }, metadata)

-- the check of the sats, on the metadata that the check of the runes leaves
unfoldable pub check_sats :
    Option ℕ → OutPointData → ValidationMetadata → ValidationResult × Option ValidationMetadata
check_sats (some expected_sats_amount) outpoint_data metadata =
    let filled = record metadata { sats_amount = some outpoint_data.sats_amount } in
    if outpoint_data.sats_amount == expected_sats_amount
    then decided WatchRequestStatus.confirmed none (some filled)
    else decided WatchRequestStatus.failed (some WatchRequestErrorDetails.invalid_sats_amount)
        (some filled)
check_sats none outpoint_data metadata =
    decided WatchRequestStatus.confirmed none
      (some (record metadata { sats_amount = some outpoint_data.sats_amount }))

unfoldable pub check_runes :
    WatchRequest → Option ℕ → OutPointData → ValidationResult × Option ValidationMetadata
check_runes watch_request none outpoint_data =
    check_sats watch_request.sats_amount outpoint_data empty_metadata
check_runes watch_request (some rune_id) outpoint_data =
    let rune_amount = or_zero (lookup rune_id outpoint_data.rune_amounts) in
    if rune_amount == or_zero watch_request.rune_amount
    then check_sats watch_request.sats_amount outpoint_data
        (record { sats_amount = none; rune_id = some rune_id; rune_amount = some rune_amount })
    else decided WatchRequestStatus.failed (some WatchRequestErrorDetails.invalid_rune_amount) (
        some (record {
          sats_amount = some outpoint_data.sats_amount;
          rune_id = some rune_id;
          rune_amount = some rune_amount;
        }))

unfoldable pub validate_deposit_transaction :
    BtcIndexerConfig
    → WatchRequest
    → OutPointData
    → BlockchainInfo
    → ValidationResult × Option ValidationMetadata
validate_deposit_transaction config watch_request outpoint_data blockchain_info =
    if ltb (blockchain_info.block_height - outpoint_data.block_height)
      config.confirmation_block_height_delta
    then decided WatchRequestStatus.pending none none
    else check_runes watch_request watch_request.rune_id outpoint_data

unfoldable pub validate_transaction_timeout :
    Libraries → BtcIndexerConfig → WatchRequest → ℕ → ValidationResult × Option ValidationMetadata
validate_transaction_timeout T config watch_request cur_timestamp =
    if ltb config.validation_timeout_millis
      (T.timestamp_millis cur_timestamp - T.timestamp_millis watch_request.created_at)
    then decided WatchRequestStatus.failed (some WatchRequestErrorDetails.timeout) none
    else decided WatchRequestStatus.pending none none

-- .unwrap_or_default()
abbrev pub or_default : Option ValidationMetadata → ValidationMetadata
or_default none = empty_metadata
or_default (some metadata) = metadata

abbrev pub notice_of :
    WatchRequest
    → DepositStatus
    → ValidationMetadata
    → Option WatchRequestErrorDetails
    → NotifyRunesDepositRequest
notice_of watch_request deposit_status metadata error_details = record {
  outpoint = watch_request.outpoint;
  request_id = watch_request.request_id;
  deposit_status = deposit_status;
  sats_amount = metadata.sats_amount;
  rune_id = metadata.rune_id;
  rune_amount = metadata.rune_amount;
  error_details = error_details;
}

abbrev pub Round : Type 0 → Type 0 → Type 0
Round W A = Exec (Indexer W) IndexerError A

module _ {W : Type 0} where
  -- a query under `?`
  abbrev pub storage : {A : Type 0} → Db W A → Round W A
  storage m s = (map_err IndexerError.db_error (m s).0, (m s).1)

module _ {W : Type 0} (C : Clients W) where
  unfoldable pub get_blockchain_info : Round W BlockchainInfo
  get_blockchain_info s =
      let (info, world) = C.get_blockchain_info s.world in
      (ok_or info IndexerError.btc_indexer_client_error, record s { world = world })

  unfoldable pub get_transaction_outpoint : OutPoint → Round W (Option OutPointData)
  get_transaction_outpoint outpoint s =
      let (found, world) = C.get_transaction_outpoint outpoint s.world in
      (ok_or found IndexerError.btc_indexer_client_error, record s { world = world })

  unfoldable pub now : Round W ℕ
  now s = let (time, world) = C.now s.world in (ok time, record s { world = world })

  unfoldable pub callback : NotifyRunesDepositRequest → ℕ → Round W (Unit {0})
  callback notice url s =
      let (delivered, world) = C.send_notify_request notice url s.world in
      (
        if delivered then ok tt else err IndexerError.callback_client_error,
        record s { sent = s.sent ++ ((url, notice) ∷ []); world = world },
      )

  unfoldable pub send_by_status :
      WatchRequest
      → WatchRequestStatus
      → Option WatchRequestErrorDetails
      → Option ValidationMetadata
      → Round W (Unit {0})
  send_by_status watch_request WatchRequestStatus.confirmed error_details validation_metadata = do
    metadata ← lift (ok_or validation_metadata IndexerError.invalid_data)
    callback (notice_of watch_request DepositStatus.confirmed metadata error_details)
        watch_request.callback_url
  send_by_status watch_request WatchRequestStatus.failed error_details validation_metadata =
      callback
        (notice_of watch_request DepositStatus.failed (or_default validation_metadata)
          error_details)
        watch_request.callback_url
  send_by_status watch_request WatchRequestStatus.pending error_details validation_metadata =
      raise IndexerError.invalid_data

  unfoldable pub send_notify_request :
      WatchRequest → ValidationResult → Option ValidationMetadata → Round W (Unit {0})
  send_notify_request watch_request validation_result =
      send_by_status watch_request validation_result.watch_request_status
        validation_result.error_details

  -- A decision is stored, and then the verifier is told.
  unfoldable pub settle :
      WatchRequest → ValidationResult → Option ValidationMetadata → Round W (Unit {0})
  settle watch_request validation_result validation_metadata = do
    storage (update_watch_request_status watch_request.id validation_result)
    send_notify_request watch_request validation_result validation_metadata

  -- the two matches on the status
  unfoldable pub settle_found :
      WatchRequest
      → WatchRequestStatus
      → ValidationResult
      → Option ValidationMetadata
      → Round W (Unit {0})
  settle_found watch_request WatchRequestStatus.confirmed result metadata =
      settle watch_request result metadata
  settle_found watch_request WatchRequestStatus.failed result metadata =
      settle watch_request result metadata
  settle_found watch_request WatchRequestStatus.pending result metadata = pure tt

  unfoldable pub settle_missing :
      WatchRequest
      → WatchRequestStatus
      → ValidationResult
      → Option ValidationMetadata
      → Round W (Unit {0})
  settle_missing watch_request WatchRequestStatus.confirmed result metadata =
      raise IndexerError.invalid_data
  settle_missing watch_request WatchRequestStatus.failed result metadata =
      settle watch_request result metadata
  settle_missing watch_request WatchRequestStatus.pending result metadata = pure tt

module _ (T : Libraries) (network : Identifier.Network) (config : BtcIndexerConfig) {W : Type 0}
    (C : Clients W) where
  unfoldable pub process_found :
      WatchRequest → BlockchainInfo → Option OutPointData → Round W (Unit {0})
  process_found watch_request blockchain_info (some outpoint_data) =
      let (result, metadata) =
        validate_deposit_transaction config watch_request outpoint_data blockchain_info in
      settle_found C watch_request result.watch_request_status result metadata
  process_found watch_request blockchain_info none = do
    cur_timestamp ← now C
    let decision = validate_transaction_timeout T config watch_request cur_timestamp
    settle_missing C watch_request decision.0.watch_request_status decision.0 decision.1

  -- the body of the loop
  unfoldable pub process_watch_request : WatchRequest → Round W (Unit {0})
  process_watch_request watch_request = do
    blockchain_info ← get_blockchain_info C
    found ← get_transaction_outpoint C watch_request.outpoint
    process_found watch_request blockchain_info found

  unfoldable pub process_all : List WatchRequest → Round W (Unit {0})
  process_all [] = pure tt
  process_all (watch_request ∷ watch_requests) = do
    process_watch_request watch_request
    process_all watch_requests

  unfoldable pub process_watch_requests : Round W (Unit {0})
  process_watch_requests = do
    watch_requests ← storage (get_all_unprocessed_watch_requests T network)
    process_all watch_requests
