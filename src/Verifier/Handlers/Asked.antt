-- ===== src/Verifier/Handlers/Asked.antt =====
-- What a verifier that takes fees asks of the indexer.
use spark_bridge_backend.Prelude.{
  ℕ, ◌≡◌, refl, ◌∙◌, inl, inr, Bool, true, false, Option, none, some, if◌then◌else◌, Bool-cases,
  is_none,
}
use spark_bridge_backend.Prelude.Exec.{pure, ok_or, bind_rule, lift_step}
use spark_bridge_backend.Token.Identifier as Identifier
use spark_bridge_backend.Verifier.Types.{
  Texts, DepositStatus, FeePayment, DepositAddrInfo, from_string_and_type,
}
use spark_bridge_backend.Verifier.Messages.{
  FeeConfig, WatchRunesDepositRequest, WatchSparkDepositRequest, IndexerNotifyRequest,
}
use spark_bridge_backend.Verifier.Tables.{
  Verifier, insert_user_ids, insert_deposit_addr_info, set_fee_status_by_payment,
}
use spark_bridge_backend.Verifier.Handlers.{
  row_request, check_transfer, watch_runes_fee, watch_runes_deposit, watch_spark_fee,
  watch_spark_deposit, notify_spark_payment, handle_fee_notification, notify_deposit,
  notify_runes_deposit,
}
use spark_bridge_backend.Verifier.Clients.{VerifierError, Clients, Config, storage, watch}
use spark_bridge_backend.Verifier.Handlers.Silent.{
  Silent-insert_user_ids, Silent-insert_deposit_addr_info, Silent-set_fee_status_by_payment,
  Silent-bind,
}
use spark_bridge_backend.Verifier.Handlers.Asking.{Call, serve, asking, Paid, Asked}
use spark_bridge_backend.Verifier.Handlers.Steps.{
  after-Silent, Asked-fee, Asked-row, after_get, check_transfer-Silent, verify_spark-Silent,
  notify_spark-Silent, notify_deposit-Silent,
}

module _ (K : Identifier.Libraries) (T : Texts) {W : Type 0} (C : Clients W) (config : Config)
    (s : Verifier W) where
  watch_runes_fee-Asked :
      (request : WatchRunesDepositRequest) (fee_cfg : FeeConfig) (payment : Option FeePayment)
      (t : Verifier W)
      → t.watched ≡ s.watched
      → request.fee_payment ≡ payment
      → Asked T
          (asking fee_cfg (Call.watch_runes request))
          s
          (watch_runes_fee T C request (some fee_cfg) payment t).1
  unfolding watch_runes_fee
  watch_runes_fee-Asked request fee_cfg none t here due = inl here
  watch_runes_fee-Asked request fee_cfg (some (FeePayment.btc outpoint)) t here due =
      Asked-fee T C (asking fee_cfg (Call.watch_runes request)) s outpoint t here due
  watch_runes_fee-Asked request fee_cfg (some (FeePayment.spark txid)) t here due =
      after-Silent T (asking fee_cfg (Call.watch_runes request)) s
        (check_transfer T C request.request_id fee_cfg txid) _ t (check_transfer-Silent T C _ _ _)
        here
        (λ _ u still.
          after_get T C (asking fee_cfg (Call.watch_runes request)) s (FeePayment.spark txid) _ u
            still
            (λ info v quiet paid.
              Asked-row T C (asking fee_cfg (Call.watch_runes request)) s _ info v quiet due paid))

  watch_spark_fee-Asked :
      (request : WatchSparkDepositRequest) (fee_cfg : FeeConfig) (payment : Option FeePayment)
      (t : Verifier W)
      → t.watched ≡ s.watched
      → request.fee_payment ≡ payment
      → Asked T
          (asking fee_cfg (Call.watch_spark request))
          s
          (watch_spark_fee T C request (some fee_cfg) payment t).1
  unfolding watch_spark_fee
  watch_spark_fee-Asked request fee_cfg none t here due = inl here
  watch_spark_fee-Asked request fee_cfg (some (FeePayment.btc outpoint)) t here due =
      bind_rule (λ _ u. Asked T (asking fee_cfg (Call.watch_spark request)) s u) (watch C _)
        (λ _. pure DepositStatus.pending) t
        (λ _ _. Asked-fee T C (asking fee_cfg (Call.watch_spark request)) s outpoint t here due)
        (λ _ _. Asked-fee T C (asking fee_cfg (Call.watch_spark request)) s outpoint t here due)
  watch_spark_fee-Asked request fee_cfg (some (FeePayment.spark txid)) t here due = inl (
      (Silent-bind (check_transfer T C request.request_id fee_cfg txid) _
          (check_transfer-Silent T C _ _ _) (λ _. verify_spark-Silent T C request)).at
        t
      ∙ here)

  fee_notification-Asked :
      (fee_cfg : FeeConfig) (request : IndexerNotifyRequest) (t : Verifier W)
      → t.watched ≡ s.watched
      → Asked T
          (asking fee_cfg (Call.notified request))
          s
          (handle_fee_notification K T C config request t).1
  unfolding handle_fee_notification
  fee_notification-Asked fee_cfg request t here =
      after-Silent T (asking fee_cfg (Call.notified request)) s
        (storage (set_fee_status_by_payment T _ _ _)) _ t (Silent-set_fee_status_by_payment T _ _ _)
        here
        (λ _ u still.
          after_get T C (asking fee_cfg (Call.notified request)) s (FeePayment.btc request.outpoint)
            _ u still (λ info v quiet paid. side info.is_btc info v quiet paid))
    where
      side :
          (is_btc : Bool) (info : DepositAddrInfo) (v : Verifier W)
          → v.watched ≡ s.watched
          → Paid T (FeePayment.btc request.outpoint) info v
          → Asked T
              (asking fee_cfg (Call.notified request))
              s
              ((if is_btc
                  then watch C (row_request T request.request_id info.token info)
                  else notify_spark_payment K T C config request info)
                v).1
      side true info v quiet paid =
          Asked-row T C (asking fee_cfg (Call.notified request)) s _ info v quiet refl paid
      side false info v quiet paid =
          inl ((notify_spark-Silent K T C config request info).at v ∙ quiet)

  notify-Asked :
      (fee_cfg : FeeConfig) (request : IndexerNotifyRequest)
      → Asked T
          (asking fee_cfg (Call.notified request))
          s
          (notify_runes_deposit K T C config request s).1
  unfolding notify_runes_deposit
  notify-Asked fee_cfg request =
      lift_step (λ _ t. Asked T (asking fee_cfg (Call.notified request)) s t)
        (ok_or request.sats_amount VerifierError.validation) _ s
        (λ sats_amount _. kind (is_none request.rune_amount) sats_amount) (λ _ _. inl refl)
    where
      kind :
          (fee : Bool) (sats_amount : ℕ)
          → Asked T
              (asking fee_cfg (Call.notified request))
              s
              ((if fee
                  then handle_fee_notification K T C config request
                  else notify_deposit K T C config request sats_amount)
                s).1
      kind true sats_amount = fee_notification-Asked fee_cfg request s refl
      kind false sats_amount = inl ((notify_deposit-Silent K T C config request sats_amount).at s)

  watch_runes-Asked :
      (request : WatchRunesDepositRequest) (fee_cfg : FeeConfig)
      → Asked T
          (asking fee_cfg (Call.watch_runes request))
          s
          (watch_runes_deposit T C request (record config { fee = some fee_cfg }) s).1
  unfolding watch_runes_deposit
  watch_runes-Asked request fee_cfg = elim (Bool-cases (is_none request.fee_payment)) [
    | inl missing ↦ rw missing (inl refl)
    | inr there ↦ rw there (
        lift_step (λ _ t. Asked T (asking fee_cfg (Call.watch_runes request)) s t)
          (ok_or (from_string_and_type T request.btc_address true) VerifierError.validation) _ s
          (λ a _.
            after-Silent T (asking fee_cfg (Call.watch_runes request)) s
              (storage (insert_user_ids T request.user_ids)) _ s (Silent-insert_user_ids T _) refl
              (λ _ t still.
                after-Silent T (asking fee_cfg (Call.watch_runes request)) s
                  (storage (insert_deposit_addr_info T _)) _ t (Silent-insert_deposit_addr_info T _)
                  still
                  (λ _ u quiet.
                    watch_runes_fee-Asked request fee_cfg request.fee_payment u quiet refl)))
          (λ _ _. inl refl))
  ]

  watch_spark-Asked :
      (request : WatchSparkDepositRequest) (fee_cfg : FeeConfig)
      → Asked T
          (asking fee_cfg (Call.watch_spark request))
          s
          (watch_spark_deposit T C request (record config { fee = some fee_cfg }) s).1
  unfolding watch_spark_deposit
  watch_spark-Asked request fee_cfg = elim (Bool-cases (is_none request.fee_payment)) [
    | inl missing ↦ rw missing (inl refl)
    | inr there ↦ rw there (
        lift_step (λ _ t. Asked T (asking fee_cfg (Call.watch_spark request)) s t)
          (ok_or (from_string_and_type T request.exit_address true) VerifierError.validation) _ s
          (λ a _.
            after-Silent T (asking fee_cfg (Call.watch_spark request)) s
              (storage (insert_user_ids T request.user_ids)) _ s (Silent-insert_user_ids T _) refl
              (λ _ t still.
                after-Silent T (asking fee_cfg (Call.watch_spark request)) s
                  (storage (insert_deposit_addr_info T _)) _ t (Silent-insert_deposit_addr_info T _)
                  still
                  (λ _ u quiet.
                    watch_spark_fee-Asked request fee_cfg request.fee_payment u quiet refl)))
          (λ _ _. inl refl))
  ]

  -- A verifier that takes fees sends the indexer at most one request in a handler, under the id of the
  -- call. Either it is about the fee of a watched deposit that is to be paid in bitcoin: it asks for the
  -- amount of the configuration, to its address, in the out point of the payment. Or it asks for the
  -- runes of a row whose fee is then stored as confirmed, with its amount, its out point and its address:
  -- for the row of the payment of the deposit of runes that is watched, the rune of its user, and for
  -- that of the fee that is notified, the rune of the row.
  pub serve-Asked :
      (call : Call) (fee_cfg : FeeConfig)
      → config.fee ≡ some fee_cfg
      → Asked T (asking fee_cfg call) s (serve K T C config call s)
  unfolding serve
  serve-Asked (Call.watch_runes request) fee_cfg taken = moved config.fee taken
    where
      moved :
          (fee : Option FeeConfig)
          → fee ≡ some fee_cfg
          → Asked T
              (asking fee_cfg (Call.watch_runes request))
              s
              (watch_runes_deposit T C request (record config { fee = fee }) s).1
      moved fee p = rw p (watch_runes-Asked request fee_cfg)
  serve-Asked (Call.watch_spark request) fee_cfg taken = moved config.fee taken
    where
      moved :
          (fee : Option FeeConfig)
          → fee ≡ some fee_cfg
          → Asked T
              (asking fee_cfg (Call.watch_spark request))
              s
              (watch_spark_deposit T C request (record config { fee = fee }) s).1
      moved fee p = rw p (watch_spark-Asked request fee_cfg)
  serve-Asked (Call.notified request) fee_cfg taken = notify-Asked fee_cfg request
