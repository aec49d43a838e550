-- ===== src/Gateway/Verification.antt =====
-- gateway/crates/deposit_verification/src/aggregator.rs: DepositVerificationAggregator.
pub mod Status
pub mod Notification
pub mod Registration
pub mod Deletion
use spark_bridge_backend.Prelude.{
  ℕ, zero, suc, ◌+◌, ◌-◌, ◌*◌, ◌/◌, ◌%◌, ◌^◌, ◌≤◌, ◌<◌, String, ◌≡◌, refl, sym, ap, ◌∙◌, ◌≢◌, ◌↔◌,
  ◌⊎◌, inl, inr, Bool, true, false, not, ◌&&◌, ◌||◌, Option, none, some, List, [], ◌∷◌, ◌++◌, map,
  arith, ltb, leb, ◌==◌, if◌then◌else◌, ==_iff, ==_refl, Bool-cases, Option-cases, is_none, is_some,
  Bytes, bytes_eq, bytes_eq_refl, bytes_eq_sound, All, length, get_elem?, take, drop, length-append,
  length-drop, take-append, drop-append, leb→le, ltb→lt,
}
use spark_bridge_backend.Prelude.Map.{Map}
use spark_bridge_backend.Prelude.Exec.{
  Result, ok, err, Exec, pure, raise, lift, gets, ◌>>=◌, ◌>>◌, ok_or, map_err,
}
use spark_bridge_backend.Gateway.Types.{
  DbError, DepositVerificationError, InnerAddress, DepositStatus, VerifiersResponses,
  DepositAddrInfo, Utxo, UtxoStatus, UserIds, FeePayment, Texts, FlowMessage,
  WatchRunesDepositRequest, VerifyRunesDepositRequest, NotifyRunesDepositRequest,
  NotifySparkDepositRequest,
}
use spark_bridge_backend.Gateway.Responses.{new, check_all_verifiers_confirmed}
use spark_bridge_backend.Gateway.Tables.{
  Gateway, Db, database, set_confirmation_status_by_deposit_address, get_row_by_deposit_address,
  get_row_by_dkg_id, update_confirmation_status_by_deposit_address,
  update_bridge_address_by_deposit_address, delete_pending_deposit,
}
use spark_bridge_backend.Gateway.Utxos.{
  insert_utxo, update_status, update_sats_fee_amount, get_utxo,
}

-- DepositVerificationClientTrait of each verifier, and the flow sender, which may fail to deliver.
pub record Services (W : Type 0) : Type 0 where
  pub watch_runes_deposit :
      ℕ → WatchRunesDepositRequest → Exec W DepositVerificationError (Unit {0})
  pub healthcheck : ℕ → W → Bool × W
  pub deliver : FlowMessage → W → Bool × W

abbrev pub Aggregator : Type 0 → Type 0 → Type 0
Aggregator W A = Exec (Gateway W) DepositVerificationError A

module _ {W : Type 0} where
  -- a call of the storage under `?`
  abbrev pub storage : {A : Type 0} → Db W A → Aggregator W A
  storage m s = (map_err DepositVerificationError.db_error (m s).0, (m s).1)

module _ {W : Type 0} (V : Services W) where
  -- `join_all` asks every verifier, whatever the others answer.
  unfoldable pub ask_all :
      WatchRunesDepositRequest → List ℕ → W → List (Result DepositVerificationError (Unit {0})) × W
  ask_all request [] w = ([], w)
  ask_all request (id ∷ ids) w =
      let later = ask_all request ids (V.watch_runes_deposit id request w).1 in
      ((V.watch_runes_deposit id request w).0 ∷ later.0, later.1)

  unfoldable pub watch_all :
      WatchRunesDepositRequest → Aggregator W (List (Result DepositVerificationError (Unit {0})))
  watch_all request s =
      let replies = ask_all request s.verifiers s.world in
      (ok replies.0, record s { world = replies.1 })

  -- self.flow_sender.send(message).await.map_err(..)?
  pub send : FlowMessage → Aggregator W (Unit {0})
  send message s =
      let delivery = V.deliver message s.world in
      (
        if delivery.0 then ok tt else err DepositVerificationError.flow_processor_error,
        record s { world = delivery.1; sent = s.sent ++ (message ∷ []) },
      )

-- `collect::<Result<Vec<_>, _>>()`: the first error
unfoldable pub first_error :
    List (Result DepositVerificationError (Unit {0})) → Result DepositVerificationError (Unit {0})
first_error [] = ok tt
first_error (ok _ ∷ rest) = first_error rest
first_error (err e ∷ rest) = err e

module _ (T : Texts) {W : Type 0} where
  -- the status of the deposit after the verifier's answer is stored
  pub record_status : InnerAddress → ℕ → DepositStatus → Aggregator W VerifiersResponses
  record_status address verifier_id status = do
    storage (update_confirmation_status_by_deposit_address T address verifier_id status)
    found ← storage (get_row_by_deposit_address T address)
    deposit_addr_info ← lift (ok_or found DepositVerificationError.not_found)
    pure deposit_addr_info.confirmation_status

  unfoldable pub delete_pending_bridge_by_address : ℕ → Aggregator W (Unit {0})
  delete_pending_bridge_by_address btc_address = do
    removed ← storage (delete_pending_deposit T (InnerAddress.bitcoin_address btc_address))
    if removed then pure tt else raise DepositVerificationError.invalid_request

module _ (T : Texts) {W : Type 0} (V : Services W) where
  pub settle_runes : ℕ → Bytes → VerifiersResponses → Aggregator W (Unit {0})
  settle_runes outpoint btc_address responses =
      if check_all_verifiers_confirmed responses
      then storage (update_status T outpoint UtxoStatus.confirmed)
        >> send V (FlowMessage.bridge_runes btc_address)
      else pure tt

module _ {W : Type 0} (V : Services W) where
  pub settle_spark : Bytes → VerifiersResponses → Aggregator W (Unit {0})
  settle_spark spark_address responses =
      if check_all_verifiers_confirmed responses
      then send V (FlowMessage.exit_spark spark_address)
      else pure tt

  unfoldable pub check_verifiers : List ℕ → W → Result DepositVerificationError (Unit {0}) × W
  check_verifiers [] w = (ok tt, w)
  check_verifiers (id ∷ ids) w =
      let alive = V.healthcheck id w in
      let rest = check_verifiers ids alive.1 in
      if alive.0
      then rest
      else (err (DepositVerificationError.failed_to_check_status_of_verifier id), rest.1)

  unfoldable pub healthcheck : Aggregator W (Unit {0})
  healthcheck = do
    storage database
    λ s.
        (let checked = check_verifiers s.verifiers s.world in
          (checked.0, record s { world = checked.1 }))

module _ (T : Texts) {W : Type 0} (V : Services W) where
  unfoldable pub verify_runes_deposit : VerifyRunesDepositRequest → Aggregator W (Unit {0})
  verify_runes_deposit request = do
    storage (
        update_bridge_address_by_deposit_address T
          (InnerAddress.bitcoin_address request.btc_address)
          (InnerAddress.spark_address request.bridge_address))
    found ←
        storage (get_row_by_deposit_address T (InnerAddress.bitcoin_address request.btc_address))
    deposit_addr_info ← lift (ok_or found DepositVerificationError.not_found)
    user ← storage (get_row_by_dkg_id T deposit_addr_info.dkg_share_id)
    user_ids ← lift (ok_or user DepositVerificationError.not_found)
    replies ← watch_all V (record {
      request_id = request.request_id;
      user_ids = record user_ids { is_issuer = false };
      nonce = deposit_addr_info.nonce;
      amount = deposit_addr_info.amount;
      btc_address = request.btc_address;
      bridge_address = request.bridge_address;
      outpoint = request.outpoint;
      fee_payment = request.fee_payment;
    })
    lift (first_error replies)
    self ← gets (λ s. s)
    storage (
        set_confirmation_status_by_deposit_address T
          (InnerAddress.bitcoin_address request.btc_address)
          (new DepositStatus.waiting_for_confirmation self.verifiers))
    storage (
        insert_utxo T (record {
          outpoint = request.outpoint;
          btc_address = request.btc_address;
          rune_amount = deposit_addr_info.amount;
          rune_id = user_ids.rune_id;
          status = UtxoStatus.pending;
          sats_amount = 0;
        }))
    pure tt

  pub notify_runes_deposit : NotifyRunesDepositRequest → Aggregator W (Unit {0})
  notify_runes_deposit request = do
    storage (update_sats_fee_amount T request.outpoint request.sats_amount)
    found ← storage (get_utxo T request.outpoint)
    utxo ← lift (ok_or found DepositVerificationError.not_found)
    responses ←
        record_status T (InnerAddress.bitcoin_address utxo.btc_address) request.verifier_id
          request.status
    settle_runes T V request.outpoint (T.print utxo.btc_address) responses

  pub notify_spark_deposit : NotifySparkDepositRequest → Aggregator W (Unit {0})
  notify_spark_deposit request = do
    responses ←
        record_status T (InnerAddress.spark_address request.spark_address) request.verifier_id
          request.status
    settle_spark V request.spark_address responses
