-- ===== src/Indexer/Rounds/Told.antt =====
-- The verdicts on a request, and their sending.
use spark_bridge_backend.Prelude.{
  ℕ, ◌-◌, ◌≤◌, ◌≡◌, refl, ◌≢◌, ◌⊎◌, inl, inr, Bool, true, false, Option, none, some, List, arith,
  ltb, ◌==◌, if◌then◌else◌, Bool-cases, All, get_elem?,
}
use spark_bridge_backend.Prelude.{All-last}
use spark_bridge_backend.Prelude.Exec.{ok, bind_rule}
use spark_bridge_backend.Prelude.Map.{lookup}
use spark_bridge_backend.Token.Identifier as Identifier
use spark_bridge_backend.Indexer.Types.{
  Libraries, WatchRequestStatus, WatchRequestErrorDetails, ValidationResult, ValidationMetadata,
  WatchRequest, WatchRequestRow, OutPointData, BlockchainInfo, BtcIndexerConfig, DepositStatus,
  NotifyRunesDepositRequest, from_row, empty_metadata,
}
use spark_bridge_backend.Indexer.Requests.{
  Indexer, Clients, database, set_requests, is_pending, update_watch_request_status,
}
use spark_bridge_backend.Indexer.Rounds.{
  or_zero, decided, check_sats, check_runes, validate_deposit_transaction,
  validate_transaction_timeout, or_default, notice_of, storage, callback, send_by_status,
  send_notify_request, settle, settle_found, settle_missing,
}
use spark_bridge_backend.Indexer.Rounds.Valid.{Matches}

module _ (config : BtcIndexerConfig) {W : Type 0} (C : Clients W) where
  -- what the client of the chain says of the request
  abbrev pub IsFound : WatchRequest → OutPointData → BlockchainInfo → Type 0
  IsFound request outpoint_data blockchain_info =
      (v : W) × (w : W) × ((C.get_transaction_outpoint request.outpoint v).0
        ≡ some (some outpoint_data))
      × ((C.get_blockchain_info w).0 ≡ some blockchain_info)

  abbrev pub IsConfirmation : WatchRequest → NotifyRunesDepositRequest → Type 0
  IsConfirmation request notice =
      (outpoint_data : OutPointData) × (blockchain_info : BlockchainInfo) × IsFound request
        outpoint_data blockchain_info
      × Matches config request outpoint_data blockchain_info
      × (notice.deposit_status ≡ DepositStatus.confirmed)
      × (notice.sats_amount ≡ some outpoint_data.sats_amount)

  abbrev pub IsRefusal : WatchRequest → NotifyRunesDepositRequest → Type 0
  IsRefusal request notice =
      (outpoint_data : OutPointData) × (blockchain_info : BlockchainInfo) × IsFound request
        outpoint_data blockchain_info
      × (config.confirmation_block_height_delta
          ≤ blockchain_info.block_height - outpoint_data.block_height)
      × (Matches config request outpoint_data blockchain_info → ⊥)
      × (notice.deposit_status ≡ DepositStatus.failed)
      × (notice.sats_amount ≡ some outpoint_data.sats_amount)

  abbrev pub IsTimeout : WatchRequest → NotifyRunesDepositRequest → Type 0
  IsTimeout request notice =
      (w : W) × ((C.get_transaction_outpoint request.outpoint w).0 ≡ some none)
      × (notice.deposit_status ≡ DepositStatus.failed)
      × (notice.sats_amount ≡ none)

  abbrev pub IsVerdict : WatchRequest → NotifyRunesDepositRequest → Type 0
  IsVerdict request notice =
      IsConfirmation request notice ⊎ (IsRefusal request notice ⊎ IsTimeout request notice)

module _ (T : Libraries) (network : Identifier.Network) where
  -- a pending row of the table stands for the request
  abbrev pub IsWatched : List WatchRequestRow → WatchRequest → Type 0
  IsWatched rows request =
      (i : ℕ) × (row : WatchRequestRow) × (get_elem? rows i ≡ some row)
      × (is_pending row.status ≡ true)
      × (from_row T row network ≡ ok request)

module _ (T : Libraries) (network : Identifier.Network) (config : BtcIndexerConfig) {W : Type 0}
    (C : Clients W) where
  -- The notice goes to the url of a request that was pending, and is a verdict on its out point.
  abbrev pub IsTold : List WatchRequestRow → ℕ × NotifyRunesDepositRequest → Type 0
  IsTold rows (url, notice) =
      (request : WatchRequest) × IsWatched T network rows request
      × (url ≡ request.callback_url)
      × (notice.request_id ≡ request.request_id)
      × (notice.outpoint ≡ request.outpoint)
      × IsVerdict config C request notice

sats_metadata :
    (expected : Option ℕ) (outpoint_data : OutPointData) (metadata : ValidationMetadata)
    → (m : ValidationMetadata) × ((check_sats expected outpoint_data metadata).1 ≡ some m)
      × (m.sats_amount ≡ some outpoint_data.sats_amount)
unfolding check_sats
sats_metadata none outpoint_data metadata =
    (record metadata { sats_amount = some outpoint_data.sats_amount }, refl, refl)
sats_metadata (some n) outpoint_data metadata =
    (record metadata { sats_amount = some outpoint_data.sats_amount }, ground arith, refl)

runes_metadata :
    (request : WatchRequest) (rune_id : Option ℕ) (outpoint_data : OutPointData)
    → (m : ValidationMetadata) × ((check_runes request rune_id outpoint_data).1 ≡ some m)
      × (m.sats_amount ≡ some outpoint_data.sats_amount)
unfolding check_runes
runes_metadata request none outpoint_data =
    sats_metadata request.sats_amount outpoint_data empty_metadata
runes_metadata request (some rune_id) outpoint_data = branch (amount == or_zero request.rune_amount)
  where
    amount : ℕ
    amount = or_zero (lookup rune_id outpoint_data.rune_amounts)

    branch :
        (b : Bool)
        → (m : ValidationMetadata) × ((if b
              then check_sats request.sats_amount outpoint_data
                  (record { sats_amount = none; rune_id = some rune_id; rune_amount = some amount })
              else decided WatchRequestStatus.failed
                  (some WatchRequestErrorDetails.invalid_rune_amount)
                  (some (record {
                    sats_amount = some outpoint_data.sats_amount;
                    rune_id = some rune_id;
                    rune_amount = some amount;
                  }))).1
            ≡ some m)
          × (m.sats_amount ≡ some outpoint_data.sats_amount)
    branch true = sats_metadata request.sats_amount outpoint_data _
    branch false = (_, refl, refl)

-- A decision is made for a deep output, and knows its sats.
pub decided_lem :
    (config : BtcIndexerConfig) (request : WatchRequest) (outpoint_data : OutPointData)
    (blockchain_info : BlockchainInfo)
    → let v = validate_deposit_transaction config request outpoint_data blockchain_info in
      v.0.watch_request_status ≢ WatchRequestStatus.pending
      → (config.confirmation_block_height_delta
          ≤ blockchain_info.block_height - outpoint_data.block_height)
        × ((m : ValidationMetadata) × (v.1 ≡ some m)
            × (m.sats_amount ≡ some outpoint_data.sats_amount))
unfolding validate_deposit_transaction
decided_lem config request outpoint_data blockchain_info undecided =
    elim (Bool-cases (
      ltb (blockchain_info.block_height - outpoint_data.block_height)
        config.confirmation_block_height_delta)) [
          | inl shallow ↦ absurd (undecided (ground (arith, shallow)))
          | inr deep ↦
              (ground (arith, deep), rw deep (runes_metadata request request.rune_id outpoint_data))
        ]

-- Sending what has been decided keeps what holds of every notice.
module _ {W : Type 0} (C : Clients W) (P : ℕ × NotifyRunesDepositRequest → Type 0)
    (request : WatchRequest) where
  abbrev pub Confirms : Option WatchRequestErrorDetails → Option ValidationMetadata → Type 0
  Confirms error metadata =
      (m : ValidationMetadata) × (metadata ≡ some m)
      × P (request.callback_url, notice_of request DepositStatus.confirmed m error)

  abbrev pub Refuses : Option WatchRequestErrorDetails → Option ValidationMetadata → Type 0
  Refuses error metadata =
      P (request.callback_url, notice_of request DepositStatus.failed (or_default metadata) error)

  callback_told :
      (notice : NotifyRunesDepositRequest) (url : ℕ) (s : Indexer W)
      → All P s.sent
      → P (url, notice)
      → All P (callback C notice url s).1.sent
  unfolding callback
  callback_told notice url s h new = All-last P s.sent (url, notice) h new

  send_told :
      (status : WatchRequestStatus) (error : Option WatchRequestErrorDetails)
      (metadata : Option ValidationMetadata) (s : Indexer W)
      → All P s.sent
      → (status ≡ WatchRequestStatus.confirmed → Confirms error metadata)
      → (status ≡ WatchRequestStatus.failed → Refuses error metadata)
      → All P (send_by_status C request status error metadata s).1.sent
  unfolding send_by_status
  send_told WatchRequestStatus.confirmed error metadata s h confirms refuses =
      let (m, there, new) = confirms refl in rw there (callback_told _ _ s h new)
  send_told WatchRequestStatus.failed error metadata s h confirms refuses =
      callback_told _ _ s h (refuses refl)
  send_told WatchRequestStatus.pending error metadata s h confirms refuses = h

  update_sent :
      (id : ℕ) (result : ValidationResult) (s : Indexer W)
      → (storage (update_watch_request_status id result) s).1.sent ≡ s.sent
  unfolding update_watch_request_status database set_requests
  update_sent id result s = ground arith

  settle_told :
      (result : ValidationResult) (metadata : Option ValidationMetadata) (s : Indexer W)
      → All P s.sent
      → (result.watch_request_status ≡ WatchRequestStatus.confirmed
          → Confirms result.error_details metadata)
      → (result.watch_request_status ≡ WatchRequestStatus.failed
          → Refuses result.error_details metadata)
      → All P (settle C request result metadata s).1.sent
  unfolding settle send_notify_request
  settle_told result metadata s h confirms refuses =
      bind_rule (λ _ t. All P t.sent) (storage (update_watch_request_status request.id result)) _ s
        (λ _ _.
          send_told result.watch_request_status result.error_details metadata _ stored confirms
            refuses)
        (λ _ _. stored)
    where
      stored : All P (storage (update_watch_request_status request.id result) s).1.sent
      stored = rw (update_sent request.id result s) h

  pub found_told :
      (status : WatchRequestStatus) (result : ValidationResult)
      (metadata : Option ValidationMetadata) (s : Indexer W)
      → All P s.sent
      → (result.watch_request_status ≡ WatchRequestStatus.confirmed
          → Confirms result.error_details metadata)
      → (result.watch_request_status ≡ WatchRequestStatus.failed
          → Refuses result.error_details metadata)
      → All P (settle_found C request status result metadata s).1.sent
  unfolding settle_found
  found_told WatchRequestStatus.confirmed result metadata s h confirms refuses =
      settle_told result metadata s h confirms refuses
  found_told WatchRequestStatus.failed result metadata s h confirms refuses =
      settle_told result metadata s h confirms refuses
  found_told WatchRequestStatus.pending result metadata s h confirms refuses = h

  pub missing_told :
      (status : WatchRequestStatus) (result : ValidationResult)
      (metadata : Option ValidationMetadata) (s : Indexer W)
      → All P s.sent
      → (result.watch_request_status ≡ WatchRequestStatus.confirmed
          → Confirms result.error_details metadata)
      → (result.watch_request_status ≡ WatchRequestStatus.failed
          → Refuses result.error_details metadata)
      → All P (settle_missing C request status result metadata s).1.sent
  unfolding settle_missing
  missing_told WatchRequestStatus.confirmed result metadata s h confirms refuses = h
  missing_told WatchRequestStatus.failed result metadata s h confirms refuses =
      settle_told result metadata s h confirms refuses
  missing_told WatchRequestStatus.pending result metadata s h confirms refuses = h

pub timeout_lem :
    (T : Libraries) (config : BtcIndexerConfig) (request : WatchRequest) (time : ℕ)
    → let v = validate_transaction_timeout T config request time in
      (v.0.watch_request_status ≢ WatchRequestStatus.confirmed) × (v.1 ≡ none)
unfolding validate_transaction_timeout
timeout_lem T config request time = branch (
    ltb config.validation_timeout_millis
      (T.timestamp_millis time - T.timestamp_millis request.created_at))
  where
    branch :
        (b : Bool)
        → let v =
            if b
            then decided WatchRequestStatus.failed (some WatchRequestErrorDetails.timeout) none
            else decided WatchRequestStatus.pending none none in
          (v.0.watch_request_status ≢ WatchRequestStatus.confirmed) × (v.1 ≡ none)
    branch true = (λ p. cc, refl)
    branch false = (λ p. cc, refl)
