-- ===== src/Indexer/Requests.antt =====
-- btc_indexer/crates/local_db_store/src/schemas/requests.rs: the queries, on the table as a list of
-- rows; and crates/server/src/handlers/watch.rs, which adds to it.
use spark_bridge_backend.Prelude.{
  ℕ, Bool, true, false, Option, none, some, List, [], ◌∷◌, ◌++◌, ◌==◌, if◌then◌else◌, is_some,
}
use spark_bridge_backend.Prelude.Exec.{
  Result, ok, err, Exec, raise, lift, gets, ◌>>=◌, ◌>>◌, ok_or, map_err, ◌and_then◌,
}
use spark_bridge_backend.Prelude.Rows.{find, update}
use spark_bridge_backend.Token.Identifier as Identifier
use spark_bridge_backend.Verifier.Types.{OutPoint}
use spark_bridge_backend.Indexer.Types.{
  DbError, Libraries, WatchRequestStatus, ValidationResult, WatchRequest, WatchRequestRow,
  OutPointData, BlockchainInfo, NotifyRunesDepositRequest, WatchCall, into_row, from_row,
  parse_on_network, read_rune_id,
}

-- `sent` holds the notices given to the callback client, each with its url, and `world` is what answers.
-- `faults` says of each query to come whether it fails; when it is used up, none fails.
pub record Indexer (W : Type 0) : Type 0 where
  pub requests : List WatchRequestRow
  pub sent : List (ℕ × NotifyRunesDepositRequest)
  pub world : W
  pub faults : List Bool

-- The client of the chain and the callback client, each of which may fail, the clock and new Uuids.
pub record Clients (W : Type 0) : Type 0 where
  pub get_blockchain_info : W → Option BlockchainInfo × W
  pub get_transaction_outpoint : OutPoint → W → Option (Option OutPointData) × W
  pub send_notify_request : NotifyRunesDepositRequest → ℕ → W → Bool × W
  pub now : W → ℕ × W
  pub new_v4 : W → ℕ × W

pub data BtcIndexerServerError : Type 0 where
  decode_error validation_error : BtcIndexerServerError
  db_error : DbError → BtcIndexerServerError

abbrev pub Db : Type 0 → Type 0 → Type 0
Db W A = Exec (Indexer W) DbError A

abbrev pub is_pending : WatchRequestStatus → Bool
is_pending WatchRequestStatus.pending = true
is_pending _ = false

abbrev pub has_id : ℕ → WatchRequestRow → Bool
has_id id row = row.id == id

module _ {W : Type 0} where
  -- one query under `?`
  unfoldable pub database : Db W (Unit {0})
  database s = elim s.faults [
    | [] ↦ (ok tt, s)
    | true ∷ later ↦ (err DbError.unable_to_retrieve_connection, record s { faults = later })
    | false ∷ later ↦ (ok tt, record s { faults = later })
  ]

  unfoldable pub set_requests : List WatchRequestRow → Db W (Unit {0})
  set_requests rows s = (ok tt, record s { requests = rows })

  unfoldable pub update_watch_request_status : ℕ → ValidationResult → Db W (Unit {0})
  update_watch_request_status id status = do
    database
    self ← gets (λ s. s)
    set_requests (
        update (has_id id)
          (λ row. record row {
            status = status.watch_request_status;
            error_details = status.error_details;
          })
          self.requests)

module _ (T : Libraries) (network : Identifier.Network) where
  -- the rows under `collect`
  unfoldable pub read_pending : List WatchRequestRow → Result DbError (List WatchRequest)
  read_pending [] = ok []
  read_pending (row ∷ rows) =
      let later = read_pending rows in
      if is_pending row.status
      then (from_row T row network and_then λ request.
          later and_then λ requests. ok (request ∷ requests))
      else later

  abbrev pub read_one : Option WatchRequestRow → Result DbError (Option WatchRequest)
  read_one none = ok none
  read_one (some row) = from_row T row network and_then λ request. ok (some request)

module _ (T : Libraries) (network : Identifier.Network) {W : Type 0} where
  unfoldable pub get_watch_request : ℕ → Db W (Option WatchRequest)
  get_watch_request id = do
    database
    self ← gets (λ s. s)
    lift (read_one T network (find (has_id id) self.requests))

  unfoldable pub get_all_unprocessed_watch_requests : Db W (List WatchRequest)
  get_all_unprocessed_watch_requests = do
    database
    self ← gets (λ s. s)
    lift (map_err (λ _. DbError.decode_error) (read_pending T network self.requests))

module _ (T : Libraries) {W : Type 0} where
  unfoldable pub insert_watch_request : WatchRequest → Db W (Unit {0})
  insert_watch_request watch_request = do
    database
    self ← gets (λ s. s)
    let row = into_row T watch_request
    if is_some (find (has_id row.id) self.requests)
        then raise DbError.unable_to_retrieve_connection
        else set_requests (self.requests ++ (row ∷ []))

-- handlers/watch.rs
module _ (T : Libraries) (network : Identifier.Network) {W : Type 0} (C : Clients W) where
  abbrev pub taken_from : {A : Type 0} → (W → A × W) → Exec (Indexer W) BtcIndexerServerError A
  taken_from source s = let (a, world) = source s.world in (ok a, record s { world = world })

  unfoldable pub handle : WatchCall → Exec (Indexer W) BtcIndexerServerError (Unit {0})
  handle request = do
    rune_id ←
        lift
          (map_err (λ _. BtcIndexerServerError.validation_error) (read_rune_id T request.rune_id))
    callback_url ←
        lift (ok_or (T.parse_url request.callback_url) BtcIndexerServerError.validation_error)
    id ← taken_from C.new_v4
    btc_address ← lift (
        ok_or (parse_on_network T request.btc_address network)
          BtcIndexerServerError.validation_error)
    created_at ← taken_from C.now
    λ s.
        let (r, t) =
          insert_watch_request T
            (record {
              id = id;
              request_id = request.request_id;
              outpoint = request.outpoint;
              btc_address = btc_address;
              rune_id = rune_id;
              rune_amount = request.rune_amount;
              sats_amount = request.sats_amount;
              created_at = created_at;
              status = WatchRequestStatus.pending;
              error_details = none;
              callback_url = callback_url;
            })
            s in
        (map_err BtcIndexerServerError.db_error r, t)
