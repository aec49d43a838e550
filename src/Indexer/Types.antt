-- ===== src/Indexer/Types.antt =====
-- The data of btc_indexer: crates/local_db_store/src/schemas/requests.rs, crates/indexer/src/indexer.rs,
-- callback_client.rs and crates/server/src/handlers/watch.rs. A Uuid, an address, a RuneId, a url and a
-- date are numbers; the i64 of a row are their bit patterns, below 2 ^ 64.
pub mod Format
use spark_bridge_backend.Prelude.{
  ℕ, zero, suc, ◌+◌, ◌-◌, ◌*◌, ◌/◌, ◌%◌, ◌^◌, ◌≤◌, ◌<◌, String, ◌≡◌, refl, sym, ap, ◌∙◌, ◌≢◌, ◌↔◌,
  ◌⊎◌, inl, inr, Bool, true, false, not, ◌&&◌, ◌||◌, Option, none, some, List, [], ◌∷◌, ◌++◌, map,
  arith, ltb, leb, ◌==◌, if◌then◌else◌, ==_iff, ==_refl, Bool-cases, Option-cases, is_none, is_some,
  Bytes, bytes_eq, bytes_eq_refl, bytes_eq_sound, All, length, get_elem?, take, drop, length-append,
  length-drop, take-append, drop-append, leb→le, ltb→lt,
}
use spark_bridge_backend.Prelude.Exec.{Result, ok, err, ok_or, ◌and_then◌}
use spark_bridge_backend.Prelude.Map.{Map}
use spark_bridge_backend.Token.Identifier as Identifier
use spark_bridge_backend.Verifier.Types.{OutPoint}

-- the kinds that the queries raise; sqlx::Error is the first
pub data DbError : Type 0 where
  unable_to_retrieve_connection decode_error : DbError

-- What the code takes from bitcoin, ordinals, url and chrono: `Display` and `FromStr`, require_network,
-- and the milliseconds of a date, as an i64.
pub record Libraries : Type 0 where
  pub print_outpoint : OutPoint → Bytes
  pub parse_outpoint : Bytes → Option OutPoint
  pub print_address : ℕ → Bytes
  pub parse_address : Bytes → Option ℕ
  pub require_network : ℕ → Identifier.Network → Option ℕ
  pub print_rune_id : ℕ → Bytes
  pub parse_rune_id : Bytes → Option ℕ
  pub print_url : ℕ → Bytes
  pub parse_url : Bytes → Option ℕ
  pub timestamp_millis : ℕ → ℕ
  pub from_timestamp_millis : ℕ → Option ℕ

pub data WatchRequestStatus : Type 0 where
  pending confirmed failed : WatchRequestStatus

-- Their texts are left out.
pub data WatchRequestErrorDetails : Type 0 where
  timeout invalid_data invalid_rune_amount invalid_sats_amount : WatchRequestErrorDetails

pub record ValidationResult : Type 0 where
  pub watch_request_status : WatchRequestStatus
  pub error_details : Option WatchRequestErrorDetails

pub record WatchRequest : Type 0 where
  pub id : ℕ
  pub request_id : ℕ
  pub outpoint : OutPoint
  pub btc_address : ℕ
  pub rune_id : Option ℕ
  pub rune_amount : Option ℕ
  pub sats_amount : Option ℕ
  pub created_at : ℕ
  pub status : WatchRequestStatus
  pub error_details : Option WatchRequestErrorDetails
  pub callback_url : ℕ

pub record WatchRequestRow : Type 0 where
  pub id : ℕ
  pub request_id : ℕ
  pub outpoint : Bytes
  pub btc_address : Bytes
  pub rune_id : Option Bytes
  pub rune_amount : Option ℕ
  pub sats_amount : Option ℕ
  pub created_at : ℕ
  pub status : WatchRequestStatus
  pub error_details : Option WatchRequestErrorDetails
  pub callback_url : Bytes

pub record OutPointData : Type 0 where
  pub outpoint : OutPoint
  pub block_height : ℕ
  pub rune_amounts : Map ℕ
  pub sats_amount : ℕ

pub record BlockchainInfo : Type 0 where
  pub block_height : ℕ

pub record BtcIndexerConfig : Type 0 where
  pub validation_timeout_millis : ℕ
  pub confirmation_block_height_delta : ℕ

pub record ValidationMetadata : Type 0 where
  pub sats_amount : Option ℕ
  pub rune_id : Option ℕ
  pub rune_amount : Option ℕ

-- ValidationMetadata::default()
abbrev pub empty_metadata : ValidationMetadata
empty_metadata = record { sats_amount = none; rune_id = none; rune_amount = none }

pub data DepositStatus : Type 0 where
  confirmed failed : DepositStatus

pub record NotifyRunesDepositRequest : Type 0 where
  pub outpoint : OutPoint
  pub request_id : ℕ
  pub deposit_status : DepositStatus
  pub sats_amount : Option ℕ
  pub rune_id : Option ℕ
  pub rune_amount : Option ℕ
  pub error_details : Option WatchRequestErrorDetails

pub data IndexerError : Type 0 where
  callback_client_error btc_indexer_client_error invalid_data : IndexerError
  db_error : DbError → IndexerError

-- handlers/watch.rs, WatchRequest
pub record WatchCall : Type 0 where
  pub request_id : ℕ
  pub outpoint : OutPoint
  pub btc_address : Bytes
  pub rune_id : Option Bytes
  pub rune_amount : Option ℕ
  pub sats_amount : Option ℕ
  pub callback_url : Bytes

-- `as i64` of a u64 or a u128
abbrev pub as_i64 : ℕ → ℕ
as_i64 n = n % 2 ^ 64

-- `as u128` of an i64, which copies the sign
abbrev pub as_u128 : ℕ → ℕ
as_u128 n = if ltb n (2 ^ 63) then n else n + (2 ^ 128 - 2 ^ 64)

abbrev pub optional : {A B : Type 0} → (A → B) → Option A → Option B
optional f none = none
optional f (some a) = some (f a)

module _ (T : Libraries) where
  unfoldable pub into_row : WatchRequest → WatchRequestRow
  into_row self = record {
    id = self.id;
    request_id = self.request_id;
    outpoint = T.print_outpoint self.outpoint;
    btc_address = T.print_address self.btc_address;
    rune_id = optional T.print_rune_id self.rune_id;
    rune_amount = optional as_i64 self.rune_amount;
    sats_amount = optional as_i64 self.sats_amount;
    created_at = T.timestamp_millis self.created_at;
    status = self.status;
    error_details = self.error_details;
    callback_url = T.print_url self.callback_url;
  }

  -- The text is an address of the network.
  unfoldable pub parse_on_network : Bytes → Identifier.Network → Option ℕ
  parse_on_network text network = elim (T.parse_address text) [
    | none ↦ none
    | some address ↦ T.require_network address network
  ]

  abbrev pub read_rune_id : Option Bytes → Result DbError (Option ℕ)
  read_rune_id none = ok none
  read_rune_id (some text) =
      ok_or (T.parse_rune_id text) DbError.decode_error and_then λ rune_id. ok (some rune_id)

  unfoldable pub from_row : WatchRequestRow → Identifier.Network → Result DbError WatchRequest
  from_row row network =
      ok_or (T.parse_outpoint row.outpoint) DbError.decode_error and_then λ outpoint.
      ok_or (parse_on_network row.btc_address network) DbError.decode_error and_then λ btc_address.
      read_rune_id row.rune_id and_then λ rune_id.
      ok_or (T.from_timestamp_millis row.created_at) DbError.decode_error and_then λ created_at.
      ok_or (T.parse_url row.callback_url) DbError.decode_error and_then λ callback_url.
      ok (record {
        id = row.id;
        request_id = row.request_id;
        outpoint = outpoint;
        btc_address = btc_address;
        rune_id = rune_id;
        rune_amount = optional as_u128 row.rune_amount;
        sats_amount = row.sats_amount;
        created_at = created_at;
        status = row.status;
        error_details = row.error_details;
        callback_url = callback_url;
      })
