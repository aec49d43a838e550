-- ===== src/Indexer/Rounds/Valid.antt =====
-- Which outputs confirm a request.
use spark_bridge_backend.Prelude.{ℕ, ◌-◌, ◌≤◌, ◌≡◌, ◌↔◌, Option, none, some, arith}
use spark_bridge_backend.Prelude.Map.{lookup}
use spark_bridge_backend.Indexer.Types.{
  WatchRequestStatus, ValidationResult, ValidationMetadata, WatchRequest, OutPointData,
  BlockchainInfo, BtcIndexerConfig, empty_metadata,
}
use spark_bridge_backend.Indexer.Rounds.{
  or_zero, check_sats, check_runes, validate_deposit_transaction,
}

abbrev pub RunesMatch : Option ℕ → Option ℕ → OutPointData → Type 0
RunesMatch none rune_amount outpoint_data = Unit
RunesMatch (some rune_id) rune_amount outpoint_data =
    or_zero (lookup rune_id outpoint_data.rune_amounts) ≡ or_zero rune_amount

abbrev pub SatsMatch : Option ℕ → OutPointData → Type 0
SatsMatch none outpoint_data = Unit
SatsMatch (some sats_amount) outpoint_data = outpoint_data.sats_amount ≡ sats_amount

-- The output is deep enough, and holds the runes and the sats that the request asks for.
abbrev pub Matches : BtcIndexerConfig → WatchRequest → OutPointData → BlockchainInfo → Type 0
Matches config watch_request outpoint_data blockchain_info =
    (config.confirmation_block_height_delta
      ≤ blockchain_info.block_height - outpoint_data.block_height)
    × RunesMatch watch_request.rune_id watch_request.rune_amount outpoint_data
    × SatsMatch watch_request.sats_amount outpoint_data

abbrev IsConfirmed : ValidationResult × Option ValidationMetadata → Type 0
IsConfirmed (result, metadata) = result.watch_request_status ≡ WatchRequestStatus.confirmed

sats-IsConfirmed :
    (expected : Option ℕ) (outpoint_data : OutPointData) (metadata : ValidationMetadata)
    → IsConfirmed (check_sats expected outpoint_data metadata) ↔ SatsMatch expected outpoint_data
unfolding check_sats
sats-IsConfirmed none outpoint_data metadata = ground arith
sats-IsConfirmed (some n) outpoint_data metadata = ground arith

runes-IsConfirmed :
    (request : WatchRequest) (rune_id : Option ℕ) (outpoint_data : OutPointData)
    → IsConfirmed (check_runes request rune_id outpoint_data) ↔ (
        RunesMatch rune_id request.rune_amount outpoint_data
        × SatsMatch request.sats_amount outpoint_data)
unfolding check_runes
runes-IsConfirmed request none outpoint_data =
    ground (arith, sats-IsConfirmed request.sats_amount outpoint_data empty_metadata)
runes-IsConfirmed request (some rune_id) outpoint_data = ground (
  arith,
  sats-IsConfirmed request.sats_amount outpoint_data (record {
    sats_amount = none;
    rune_id = some rune_id;
    rune_amount = some (or_zero (lookup rune_id outpoint_data.rune_amounts));
  }),
)

-- The output of a request confirms it exactly if it is deep enough for the configuration, the amount it
-- holds of the rune of the request, if any, is the expected one, or 0 where none is given, and its sats
-- are the expected ones, if any are.
pub validate_deposit_transaction_iff :
    (config : BtcIndexerConfig) (watch_request : WatchRequest) (outpoint_data : OutPointData)
    (blockchain_info : BlockchainInfo)
    → ((validate_deposit_transaction config watch_request outpoint_data
          blockchain_info).0.watch_request_status
        ≡ WatchRequestStatus.confirmed)
      ↔ Matches config watch_request outpoint_data blockchain_info
unfolding validate_deposit_transaction
validate_deposit_transaction_iff config watch_request outpoint_data blockchain_info =
    ground (arith, runes-IsConfirmed watch_request watch_request.rune_id outpoint_data)
