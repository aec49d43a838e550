-- ===== src/Gateway/Tables.antt =====
-- gateway/crates/local_db_store/src: the tables deposit_address, user_identifier and utxo as lists of
-- rows, and the queries of schemas/deposit_address.rs and schemas/user_identifier.rs.
use spark_bridge_backend.Prelude.{
  ℕ, Bool, true, false, ◌||◌, Option, none, some, List, [], ◌∷◌, ◌++◌, ◌==◌, if◌then◌else◌, is_none,
  is_some, Bytes, bytes_eq,
}
use spark_bridge_backend.Prelude.Exec.{Result, ok, err, Exec, pure, raise, lift, gets, ◌>>=◌, ◌>>◌}
unfoldable pub use spark_bridge_backend.Prelude.Rows.{find, update, delete}
use spark_bridge_backend.Gateway.Types.{
  DbError, InnerAddress, DepositStatus, VerifiersResponses, DepositAddrInfo, DbDepositAddrInfo,
  UtxoRow, DbUserIds, UserIds, Texts, user_id_from_str, to_string, to_db_format, from_db_format,
  FlowMessage,
}
use spark_bridge_backend.Gateway.Responses.{respond}

-- `sessions` holds the deposit addresses that a row of gateway.sessions refers to, `sent` the
-- messages given to the flow sender, `world` the verifiers and the flow processor. `faults` says of
-- each round trip to the database to come whether it fails; when it is used up, none fails.
pub record Gateway (W : Type 0) : Type 0 where
  pub deposit_address : List DbDepositAddrInfo
  pub user_identifier : List DbUserIds
  pub utxo : List UtxoRow
  pub sessions : List Bytes
  pub verifiers : List ℕ
  pub sent : List FlowMessage
  pub world : W
  pub faults : List Bool

abbrev pub Db : Type 0 → Type 0 → Type 0
Db W A = Exec (Gateway W) DbError A

abbrev pub at_address : Bytes → DbDepositAddrInfo → Bool
at_address address row = bytes_eq address row.deposit_address

module _ {W : Type 0} where
  -- one round trip to the database, under `.map_err(|e| DbError::BadRequest(..))?`
  unfoldable pub database : Db W (Unit {0})
  database s = elim s.faults [
    | [] ↦ (ok tt, s)
    | true ∷ later ↦ (err DbError.bad_request, record s { faults = later })
    | false ∷ later ↦ (ok tt, record s { faults = later })
  ]

  -- one whose failure is not mapped: sqlx::Error is `UnableToRetrieveConnection` under `?`
  unfoldable pub connection : Db W (Unit {0})
  connection s = elim s.faults [
    | [] ↦ (ok tt, s)
    | true ∷ later ↦ (err DbError.unable_to_retrieve_connection, record s { faults = later })
    | false ∷ later ↦ (ok tt, record s { faults = later })
  ]

  unfoldable pub set_deposit_address : List DbDepositAddrInfo → Db W (Unit {0})
  set_deposit_address rows s = (ok tt, record s { deposit_address = rows })

abbrev pub known_user : ℕ → DbUserIds → Bool
known_user id row = id == row.dkg_share_id

abbrev pub conflicts : Bytes → DbDepositAddrInfo → Bool
conflicts nonce row = bytes_eq nonce row.nonce

abbrev pub paid_to : Bytes → UtxoRow → Bool
paid_to address row = bytes_eq address row.btc_address

abbrev pub parsed : Texts → Option DbDepositAddrInfo → Result DbError (Option DepositAddrInfo)
parsed T none = ok none
parsed T (some row) = elim (from_db_format T row) [
  | ok info ↦ ok (some info)
  | err e ↦ err DbError.bad_request
]

module _ (T : Texts) {W : Type 0} where
  -- The primary key is the nonce; the deposit address is unique, and the share must be a user's.
  unfoldable pub insert_deposit_addr_info : DepositAddrInfo → Db W (Unit {0})
  insert_deposit_addr_info info = do
    database
    self ← gets (λ s. s)
    let db_info = to_db_format T info
    if is_some (find (conflicts info.nonce) self.deposit_address)
        then set_deposit_address (
            update (conflicts info.nonce)
              (λ row. record row { confirmation_status = db_info.confirmation_status })
              self.deposit_address)
        else if is_some (find (at_address db_info.deposit_address) self.deposit_address)
            || is_none (find (known_user info.dkg_share_id) self.user_identifier)
        then raise DbError.bad_request
        else set_deposit_address (self.deposit_address ++ (db_info ∷ []))

  -- No row of that address is no error.
  unfoldable pub set_confirmation_status_by_deposit_address :
      InnerAddress → VerifiersResponses → Db W (Unit {0})
  set_confirmation_status_by_deposit_address address status = do
    database
    self ← gets (λ s. s)
    set_deposit_address (
        update (at_address (to_string T address))
          (λ row. record row { confirmation_status = status }) self.deposit_address)

  unfoldable pub get_row_by_deposit_address : InnerAddress → Db W (Option DepositAddrInfo)
  get_row_by_deposit_address address = do
    database
    self ← gets (λ s. s)
    lift (parsed T (find (at_address (to_string T address)) self.deposit_address))

  abbrev pub respond_row : Bytes → ℕ → DepositStatus → Option DbDepositAddrInfo → Db W (Unit {0})
  respond_row address verifier_id response none = raise DbError.not_found
  respond_row address verifier_id response (some found) = do
    connection
    self ← gets (λ s. s)
    set_deposit_address (
        update (at_address address)
          (λ row. record row {
            confirmation_status = respond verifier_id response found.confirmation_status;
          })
          self.deposit_address)

  -- One transaction: the row is locked between the reading and the writing.
  unfoldable pub update_confirmation_status_by_deposit_address :
      InnerAddress → ℕ → DepositStatus → Db W (Unit {0})
  update_confirmation_status_by_deposit_address address verifier_id response = do
    connection
    self ← gets (λ s. s)
    respond_row (to_string T address) verifier_id response
        (find (at_address (to_string T address)) self.deposit_address)

  unfoldable pub update_bridge_address_by_deposit_address :
      InnerAddress → InnerAddress → Db W (Unit {0})
  update_bridge_address_by_deposit_address address bridge_address = do
    connection
    self ← gets (λ s. s)
    set_deposit_address (
        update (at_address (to_string T address))
          (λ row. record row { bridge_address = some (to_string T bridge_address) })
          self.deposit_address)

  -- A row that a session refers to cannot be deleted.
  unfoldable pub delete_pending_deposit : InnerAddress → Db W Bool
  delete_pending_deposit address = do
    database
    self ← gets (λ s. s)
    if is_none (find (at_address (to_string T address)) self.deposit_address)
          || is_some (find (paid_to (to_string T address)) self.utxo)
        then pure false
        else if is_some (find (bytes_eq (to_string T address)) self.sessions)
        then raise DbError.bad_request
        else do
          set_deposit_address (delete (at_address (to_string T address)) self.deposit_address)
          pure true

abbrev pub read_user : Texts → Option DbUserIds → Result DbError (Option UserIds)
read_user T none = ok none
read_user T (some row) = elim (user_id_from_str T row.user_id) [
  | err e ↦ err e
  | ok user_id ↦ ok (
      some (record {
        user_id = user_id;
        dkg_share_id = row.dkg_share_id;
        rune_id = row.rune_id;
        is_issuer = row.is_issuer;
      }))
]

module _ (T : Texts) {W : Type 0} where
  unfoldable pub get_row_by_dkg_id : ℕ → Db W (Option UserIds)
  get_row_by_dkg_id id = do
    database
    self ← gets (λ s. s)
    lift (read_user T (find (known_user id) self.user_identifier))
