-- ===== src/Verifier/Handlers.antt =====
-- verifier/crates/server/src/handlers: watch_runes_deposit, watch_spark_deposit and
-- notify_runes_deposit.
pub mod Fees
pub mod Silent
pub mod Asking
pub mod Steps
pub mod Asked
pub mod Unpaid
use spark_bridge_backend.Prelude.{
  ℕ, zero, suc, ◌+◌, ◌-◌, ◌*◌, ◌/◌, ◌%◌, ◌^◌, ◌≤◌, ◌<◌, String, ◌≡◌, refl, sym, ap, ◌∙◌, ◌≢◌, ◌↔◌,
  ◌⊎◌, inl, inr, Bool, true, false, not, ◌&&◌, ◌||◌, Option, none, some, List, [], ◌∷◌, ◌++◌, map,
  arith, ltb, leb, ◌==◌, if◌then◌else◌, ==_iff, ==_refl, Bool-cases, Option-cases, is_none, is_some,
  Bytes, bytes_eq, bytes_eq_refl, bytes_eq_sound, All, length, get_elem?, take, drop, length-append,
  length-drop, take-append, drop-append, leb→le, ltb→lt,
}
use spark_bridge_backend.Prelude.Exec.{
  Result, ok, err, Exec, pure, raise, lift, gets, ◌>>=◌, ◌>>◌, ok_or, map_err,
}
use spark_bridge_backend.Prelude.Rows.{find, update}
use spark_bridge_backend.Token.Identifier as Identifier
use spark_bridge_backend.Verifier.Types.{
  DbError, OutPoint, Texts, InnerAddress, DepositStatus, FeePayment, UserId, UserIds, DbUserIds,
  DepositAddrInfo, DbDepositAddrInfo, address_to_string, from_string_and_type, fee_to_string,
  to_db_format, from_db_format,
}
use spark_bridge_backend.Verifier.Messages.{
  IndexerRequest, GatewayNotice, VerifyBalanceRequest, VerifyTransferRequest, VerifyBalanceResponse,
  FeeConfig, WatchRunesDepositRequest, WatchSparkDepositRequest, IndexerNotifyRequest,
  BtcIndexerDepositStatus, SparkDepositStatus, GatewayDepositStatus,
}
use spark_bridge_backend.Verifier.Tables.{
  Verifier, Db, database, insert_user_ids, insert_deposit_addr_info,
  get_deposit_addr_info_by_confirmed_fee_payment, set_confirmation_status_by_out_point,
  set_fee_status_by_payment, set_sats_amount_by_out_point, set_confirmation_status_by_nonce,
}
use spark_bridge_backend.Verifier.Clients.{
  Clients, Config, Handler, VerifierError, cast_deposit_status, cast_indexer_status, gateway_status,
  notify, spark_gateway_status, storage, verify_balance, verify_transfer, watch,
}

-- OutPoint::default()
abbrev pub out_point_or_default : Option OutPoint → OutPoint
out_point_or_default none = record { txid = 0; vout = 4294967295 }
out_point_or_default (some outpoint) = outpoint

abbrev pub first_fee_status : Option FeeConfig → DepositStatus
first_fee_status (some _) = DepositStatus.pending
first_fee_status none = DepositStatus.confirmed

-- the request about the fee that is paid in bitcoin
abbrev pub fee_request : ℕ → FeeConfig → OutPoint → IndexerRequest
fee_request request_id fee_cfg outpoint = record {
  request_id = request_id;
  btc_address = fee_cfg.btc_address;
  outpoint = outpoint;
  rune_id = none;
  rune_amount = none;
  sats_amount = some fee_cfg.amount;
}

-- the request about the deposit of runes of a row
abbrev pub row_request : Texts → ℕ → Bytes → DepositAddrInfo → IndexerRequest
row_request T request_id rune_id info = record {
  request_id = request_id;
  btc_address = address_to_string T info.deposit_address;
  outpoint = out_point_or_default info.outpoint;
  rune_id = some rune_id;
  rune_amount = some info.deposit_amount;
  sats_amount = none;
}

module _ (T : Texts) {W : Type 0} (C : Clients W) where
  -- The transfer that pays the fee in Spark is checked, and what the check says is stored.
  unfoldable pub check_transfer : ℕ → FeeConfig → Bytes → Handler W (Unit {0})
  check_transfer request_id fee_cfg txid = do
    response ← verify_transfer C (record {
      request_id = request_id;
      receiver_address = fee_cfg.spark_address;
      txid = txid;
      amount = fee_cfg.amount;
    })
    storage (
        set_fee_status_by_payment T (FeePayment.spark txid)
          (cast_deposit_status response.deposit_status) response.error_details)

  -- watch_runes_deposit.rs
  module _ (request : WatchRunesDepositRequest) where
    abbrev pub runes_row : InnerAddress → Option FeeConfig → DepositAddrInfo
    runes_row deposit_address fee = record {
      dkg_share_id = request.user_ids.dkg_share_id;
      nonce = request.nonce;
      deposit_address = deposit_address;
      bridge_address = InnerAddress.spark_address request.bridge_address;
      is_btc = true;
      deposit_amount = request.amount;
      token = request.user_ids.rune_id;
      sats_amount = none;
      outpoint = some request.outpoint;
      fee_payment = request.fee_payment;
      fee_payment_status = first_fee_status fee;
      confirmation_status = DepositStatus.pending;
      error_details = none;
    }

    abbrev pub runes_request : IndexerRequest
    runes_request = record {
      request_id = request.request_id;
      btc_address = request.btc_address;
      outpoint = request.outpoint;
      rune_id = some request.user_ids.rune_id;
      rune_amount = some request.amount;
      sats_amount = none;
    }

    -- the match on the fee of the configuration, and on the payment
    unfoldable pub watch_runes_fee : Option FeeConfig → Option FeePayment → Handler W (Unit {0})
    watch_runes_fee none payment = watch C runes_request
    watch_runes_fee (some fee_cfg) none = raise VerifierError.unwrapped_none
    watch_runes_fee (some fee_cfg) (some (FeePayment.btc outpoint)) =
        watch C (fee_request request.request_id fee_cfg outpoint)
    watch_runes_fee (some fee_cfg) (some (FeePayment.spark txid)) = do
      check_transfer request.request_id fee_cfg txid
      deposit_addr_info ←
          storage (get_deposit_addr_info_by_confirmed_fee_payment T (FeePayment.spark txid))
      watch C (row_request T request.request_id request.user_ids.rune_id deposit_addr_info)

    unfoldable pub watch_runes_deposit : Config → Handler W (Unit {0})
    watch_runes_deposit config =
        if is_some config.fee && is_none request.fee_payment
        then raise VerifierError.validation
        else do
          deposit_address ←
              lift
                (ok_or (from_string_and_type T request.btc_address true) VerifierError.validation)
          storage (insert_user_ids T request.user_ids)
          storage (insert_deposit_addr_info T (runes_row deposit_address config.fee))
          watch_runes_fee config.fee request.fee_payment

  -- watch_spark_deposit.rs
  module _ (request : WatchSparkDepositRequest) where
    abbrev pub spark_row : InnerAddress → Option FeeConfig → DepositAddrInfo
    spark_row bridge_address fee = record {
      dkg_share_id = request.user_ids.dkg_share_id;
      nonce = request.nonce;
      deposit_address = InnerAddress.spark_address request.spark_address;
      bridge_address = bridge_address;
      is_btc = false;
      deposit_amount = request.amount;
      token = T.print_hash request.token_identifier;
      sats_amount = none;
      outpoint = none;
      fee_payment = request.fee_payment;
      fee_payment_status = first_fee_status fee;
      confirmation_status = DepositStatus.pending;
      error_details = none;
    }

    unfoldable pub verify_spark_deposit : Handler W DepositStatus
    verify_spark_deposit = do
      response ← verify_balance C (record {
        request_id = request.request_id;
        spark_address = request.spark_address;
        token_identifier = request.token_identifier;
        amount = request.amount;
      })
      let status = cast_deposit_status response.deposit_status
      storage (set_confirmation_status_by_nonce request.nonce status response.error_details)
      pure status

    unfoldable pub watch_spark_fee : Option FeeConfig → Option FeePayment → Handler W DepositStatus
    watch_spark_fee none payment = verify_spark_deposit
    watch_spark_fee (some fee_cfg) none = raise VerifierError.unwrapped_none
    watch_spark_fee (some fee_cfg) (some (FeePayment.btc outpoint)) = do
      watch C (fee_request request.request_id fee_cfg outpoint)
      pure DepositStatus.pending
    watch_spark_fee (some fee_cfg) (some (FeePayment.spark txid)) = do
      check_transfer request.request_id fee_cfg txid
      verify_spark_deposit

    unfoldable pub watch_spark_deposit : Config → Handler W DepositStatus
    watch_spark_deposit config =
        if is_some config.fee && is_none request.fee_payment
        then raise VerifierError.validation
        else do
          bridge_address ←
              lift
                (ok_or (from_string_and_type T request.exit_address true) VerifierError.validation)
          storage (insert_user_ids T request.user_ids)
          storage (insert_deposit_addr_info T (spark_row bridge_address config.fee))
          watch_spark_fee config.fee request.fee_payment

-- notify_runes_deposit.rs
module _ (K : Identifier.Libraries) (T : Texts) {W : Type 0} (C : Clients W) (config : Config)
    (request : IndexerNotifyRequest) where
  unfoldable pub notify_spark_payment : DepositAddrInfo → Handler W (Unit {0})
  notify_spark_payment info = do
    token_identifier ←
        lift (
          map_err (λ _. VerifierError.validation) (Identifier.from_str K info.token config.network))
    response ← verify_balance C (record {
      request_id = request.request_id;
      spark_address = address_to_string T info.deposit_address;
      token_identifier = token_identifier;
      amount = info.deposit_amount;
    })
    storage (
        set_confirmation_status_by_nonce info.nonce (cast_deposit_status response.deposit_status)
          response.error_details)
    notify C (
        GatewayNotice.spark_deposit config.identifier request.request_id
          (address_to_string T info.deposit_address) (spark_gateway_status response.deposit_status))

  unfoldable pub handle_fee_notification : Handler W (Unit {0})
  handle_fee_notification = do
    storage (
        set_fee_status_by_payment T (FeePayment.btc request.outpoint)
          (cast_indexer_status request.deposit_status) request.error_details)
    info ←
        storage (get_deposit_addr_info_by_confirmed_fee_payment T (FeePayment.btc request.outpoint))
    if info.is_btc
        then watch C (row_request T request.request_id info.token info)
        else notify_spark_payment info

  unfoldable pub notify_deposit : ℕ → Handler W (Unit {0})
  notify_deposit sats_amount = do
    storage (
        set_confirmation_status_by_out_point T request.outpoint
          (cast_indexer_status request.deposit_status) none)
    storage (set_sats_amount_by_out_point T request.outpoint sats_amount)
    notify C (
        GatewayNotice.runes_deposit config.identifier request.request_id request.outpoint
          sats_amount (gateway_status request.deposit_status) request.error_details)

  unfoldable pub notify_runes_deposit : Handler W (Unit {0})
  notify_runes_deposit = do
    sats_amount ← lift (ok_or request.sats_amount VerifierError.validation)
    if is_none request.rune_amount then handle_fee_notification else notify_deposit sats_amount
