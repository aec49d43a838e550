-- ===== src/Verifier/Tables.antt =====
-- verifier/crates/local_db_store/src/schemas/deposit_address.rs and user_identifier.rs: the queries,
-- on tables as lists of rows.
use spark_bridge_backend.Prelude.{
  ℕ, Bool, true, false, ◌&&◌, ◌||◌, Option, none, some, List, [], ◌∷◌, ◌++◌, ◌==◌, if◌then◌else◌,
  is_none, is_some, Bytes, bytes_eq,
}
use spark_bridge_backend.Prelude.Exec.{
  Result, ok, err, Exec, pure, raise, lift, gets, ◌>>=◌, ◌>>◌, ok_or,
}
use spark_bridge_backend.Prelude.Rows.{find, update}
use spark_bridge_backend.Verifier.Types.{
  DbError, OutPoint, Texts, DepositStatus, FeePayment, UserId, UserIds, DbUserIds, DepositAddrInfo,
  DbDepositAddrInfo, fee_to_string, user_id_to_string, user_id_from_str, to_db_format,
  from_db_format,
}
use spark_bridge_backend.Verifier.Messages.{IndexerRequest, GatewayNotice}

-- `dkg_share` holds the ids of the shares, which the users refer to; `watched` and `notified` the
-- requests given to the indexer and to the gateway, `world` what answers them. `faults` says of each
-- query to come whether it fails; when it is used up, none fails.
pub record Verifier (W : Type 0) : Type 0 where
  pub dkg_share : List ℕ
  pub user_identifier : List DbUserIds
  pub deposit_address : List DbDepositAddrInfo
  pub watched : List IndexerRequest
  pub notified : List GatewayNotice
  pub world : W
  pub faults : List Bool

abbrev pub Db : Type 0 → Type 0 → Type 0
Db W A = Exec (Verifier W) DbError A

abbrev pub same_text : Option Bytes → Option Bytes → Bool
same_text (some a) (some b) = bytes_eq a b
same_text _ _ = false

abbrev pub is_confirmed : DepositStatus → Bool
is_confirmed DepositStatus.confirmed = true
is_confirmed _ = false

abbrev pub known_share : ℕ → DbUserIds → Bool
known_share id row = id == row.dkg_share_id

abbrev pub paid_by : Bytes → DbDepositAddrInfo → Bool
paid_by payment row = same_text row.fee_payment (some payment)

abbrev pub at_outpoint : Bytes → DbDepositAddrInfo → Bool
at_outpoint outpoint row = same_text row.outpoint (some outpoint)

abbrev pub at_nonce : Bytes → DbDepositAddrInfo → Bool
at_nonce nonce row = bytes_eq row.nonce nonce

-- the primary key and the unique columns
abbrev pub conflicts : DbDepositAddrInfo → DbDepositAddrInfo → Bool
conflicts new row =
    bytes_eq row.nonce new.nonce
    || same_text row.outpoint new.outpoint
    || same_text row.fee_payment new.fee_payment

module _ {W : Type 0} where
  -- one query, under `.map_err(|e| DbError::BadRequest(..))?`
  unfoldable pub database : Db W (Unit {0})
  database s = elim s.faults [
    | [] ↦ (ok tt, s)
    | true ∷ later ↦ (err DbError.bad_request, record s { faults = later })
    | false ∷ later ↦ (ok tt, record s { faults = later })
  ]

  unfoldable pub set_rows : List DbDepositAddrInfo → Db W (Unit {0})
  set_rows rows s = (ok tt, record s { deposit_address = rows })

  -- `UPDATE verifier.deposit_address SET change WHERE test`, for which no row is no error
  unfoldable pub change_rows :
      (DbDepositAddrInfo → Bool) → (DbDepositAddrInfo → DbDepositAddrInfo) → Db W (Unit {0})
  change_rows test change = do
    database
    self ← gets (λ s. s)
    set_rows (update test change self.deposit_address)

  unfoldable pub set_confirmation_status_by_nonce :
      Bytes → DepositStatus → Option Bytes → Db W (Unit {0})
  set_confirmation_status_by_nonce nonce status error_details =
      change_rows (at_nonce nonce)
        (λ row. record row { confirmation_status = status; error_details = error_details })

module _ (T : Texts) where
  abbrev pub user_row : UserIds → DbUserIds
  user_row user_ids = record {
    user_id = user_id_to_string T user_ids.user_id;
    dkg_share_id = user_ids.dkg_share_id;
    rune_id = user_ids.rune_id;
    is_issuer = user_ids.is_issuer;
  }

  abbrev pub read_user : Option DbUserIds → Result DbError (Option UserIds)
  read_user none = ok none
  read_user (some row) = elim (user_id_from_str T row.user_id) [
    | err e ↦ err e
    | ok user_id ↦ ok (
        some (record {
          user_id = user_id;
          dkg_share_id = row.dkg_share_id;
          rune_id = row.rune_id;
          is_issuer = row.is_issuer;
        }))
  ]

module _ (T : Texts) {W : Type 0} where
  unfoldable pub get_deposit_addr_info_by_confirmed_fee_payment : FeePayment → Db W DepositAddrInfo
  get_deposit_addr_info_by_confirmed_fee_payment payment = do
    database
    self ← gets (λ s. s)
    db_info ← lift (
        ok_or
          (find
            (λ row. paid_by (fee_to_string T payment) row && is_confirmed row.fee_payment_status)
            self.deposit_address)
          DbError.not_found)
    lift (from_db_format T db_info)

  -- Its share must be a user's, and no row may have its nonce, its out point or its payment.
  unfoldable pub insert_deposit_addr_info : DepositAddrInfo → Db W (Unit {0})
  insert_deposit_addr_info deposit_addr_info = do
    database
    self ← gets (λ s. s)
    let db_info = to_db_format T deposit_addr_info
    if is_none (find (known_share db_info.dkg_share_id) self.user_identifier)
          || is_some (find (conflicts db_info) self.deposit_address)
        then raise DbError.bad_request
        else set_rows (self.deposit_address ++ (db_info ∷ []))

  unfoldable pub set_confirmation_status_by_out_point :
      OutPoint → DepositStatus → Option Bytes → Db W (Unit {0})
  set_confirmation_status_by_out_point outpoint status error_details =
      change_rows
        (λ row. at_outpoint (T.print_outpoint outpoint) row && is_confirmed row.fee_payment_status)
        (λ row. record row { confirmation_status = status; error_details = error_details })

  unfoldable pub set_fee_status_by_payment :
      FeePayment → DepositStatus → Option Bytes → Db W (Unit {0})
  set_fee_status_by_payment payment status error =
      change_rows (paid_by (fee_to_string T payment))
        (λ row. record row { fee_payment_status = status; error_details = error })

  unfoldable pub set_sats_amount_by_out_point : OutPoint → ℕ → Db W (Unit {0})
  set_sats_amount_by_out_point outpoint sats_amount =
      change_rows (at_outpoint (T.print_outpoint outpoint))
        (λ row. record row { sats_amount = some sats_amount })

  -- `ON CONFLICT (dkg_share_id) DO NOTHING`; the share must be there.
  unfoldable pub insert_user_ids : UserIds → Db W (Unit {0})
  insert_user_ids user_ids = do
    database
    self ← gets (λ s. s)
    if is_some (find (known_share user_ids.dkg_share_id) self.user_identifier)
        then pure tt
        else if is_none (find (λ id. id == user_ids.dkg_share_id) self.dkg_share)
        then raise DbError.bad_request
        else λ s.
            (ok tt, record s { user_identifier = s.user_identifier ++ (user_row T user_ids ∷ []) })

module _ (T : Texts) {W : Type 0} where
  abbrev pub select_user : (DbUserIds → Bool) → Db W (Option UserIds)
  select_user test = do
    database
    self ← gets (λ s. s)
    lift (read_user T (find test self.user_identifier))

  unfoldable pub get_row_by_user_id : UserId → Bytes → Db W (Option UserIds)
  get_row_by_user_id user_id rune_id =
      select_user
        (λ row. bytes_eq row.user_id (user_id_to_string T user_id) && bytes_eq row.rune_id rune_id)

  unfoldable pub get_row_by_dkg_id : ℕ → Db W (Option UserIds)
  get_row_by_dkg_id dkg_share_id = select_user (known_share dkg_share_id)

  unfoldable pub get_issuer_ids : Bytes → Db W (Option UserIds)
  get_issuer_ids rune_id = select_user (λ row. row.is_issuer && bytes_eq row.rune_id rune_id)
