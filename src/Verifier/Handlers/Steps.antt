-- ===== src/Verifier/Handlers/Steps.antt =====
-- The steps of a handler: those that ask the indexer nothing, and those that ask it for a fee or a deposit.
use spark_bridge_backend.Prelude.{ℕ, ◌≡◌, refl, ap, ◌∙◌, inl, inr, some, [], ◌∷◌, ◌++◌, Bytes}
use spark_bridge_backend.Prelude.Exec.{lift, ◌>>=◌, bind_rule}
use spark_bridge_backend.Prelude.Rows.{find}
use spark_bridge_backend.Token.Identifier as Identifier
use spark_bridge_backend.Verifier.Types.{OutPoint, Texts, FeePayment, DepositAddrInfo}
use spark_bridge_backend.Verifier.Messages.{
  FeeConfig, WatchSparkDepositRequest, IndexerNotifyRequest,
}
use spark_bridge_backend.Verifier.Tables.{
  Verifier, get_deposit_addr_info_by_confirmed_fee_payment, set_confirmation_status_by_out_point,
  set_sats_amount_by_out_point, set_confirmation_status_by_nonce,
}
use spark_bridge_backend.Verifier.Handlers.{
  fee_request, row_request, check_transfer, verify_spark_deposit, notify_spark_payment,
  notify_deposit,
}
use spark_bridge_backend.Verifier.Clients.{
  Clients, Config, Handler, storage, watch, verify_balance, verify_transfer,
}
use spark_bridge_backend.Verifier.Handlers.Fees.{confirmed_payment, get_confirmed_lem}
use spark_bridge_backend.Verifier.Handlers.Silent.{
  Silent, Silent-change_rows, Silent-lift, Silent-set_fee_status_by_payment, Silent-verify_balance,
  Silent-verify_transfer, Silent-notify, watch_lem, Silent-bind,
}
use spark_bridge_backend.Verifier.Handlers.Asking.{Asking, Paid, Asked}

-- What a handler asks after a step that asks nothing.
module _ (T : Texts) {W A B : Type 0} (q : Asking) (s : Verifier W) where
  pub after-Silent :
      (m : Handler W A) (f : A → Handler W B) (u : Verifier W)
      → Silent m
      → u.watched ≡ s.watched
      → ((a : A) (t : Verifier W) → t.watched ≡ s.watched → Asked T q s (f a t).1)
      → Asked T q s ((m >>= f) u).1
  after-Silent m f u sm here later =
      bind_rule (λ _ t. Asked T q s t) m f u (λ a _. later a (m u).1 (sm.at u ∙ here))
        (λ e _. inl (sm.at u ∙ here))

module _ (T : Texts) {W : Type 0} (C : Clients W) (q : Asking) (s : Verifier W) where
  pub Asked-fee :
      (outpoint : OutPoint) (t : Verifier W)
      → t.watched ≡ s.watched
      → q.fee ≡ some (FeePayment.btc outpoint)
      → Asked T q s (watch C (fee_request q.request_id q.fee_cfg outpoint) t).1
  Asked-fee outpoint t here due = inr (
    fee_request q.request_id q.fee_cfg outpoint,
    (watch_lem C _ t).0 ∙ ap (λ w. w ++ (fee_request q.request_id q.fee_cfg outpoint ∷ [])) here,
    refl,
    inl (due, refl, refl, refl, refl),
  )

  pub Asked-row :
      (payment : FeePayment) (info : DepositAddrInfo) (t : Verifier W)
      → t.watched ≡ s.watched
      → q.payment ≡ some payment
      → Paid T payment info t
      → Asked T q s (watch C (row_request T q.request_id (q.rune_id info) info) t).1
  Asked-row payment info t here due (row, there, parsed) = inr (
    row_request T q.request_id (q.rune_id info) info,
    (watch_lem C _ t).0
        ∙ ap (λ w. w ++ (row_request T q.request_id (q.rune_id info) info ∷ [])) here,
    refl,
    inr (
      payment,
      info,
      due,
      (row, ap (find (confirmed_payment T payment)) (watch_lem C _ t).1 ∙ there, parsed),
      refl,
      refl,
      refl,
      refl,
      refl,
    ),
  )

  -- after the reading of a paid row
  pub after_get :
      {B : Type 0} (payment : FeePayment) (f : DepositAddrInfo → Handler W B) (u : Verifier W)
      → u.watched ≡ s.watched
      → ((info : DepositAddrInfo) (t : Verifier W)
          → t.watched ≡ s.watched
          → Paid T payment info t
          → Asked T q s (f info t).1)
      → Asked T q s ((storage (get_deposit_addr_info_by_confirmed_fee_payment T payment) >>= f) u).1
  after_get payment f u here later =
      let (quiet, rows, found) = get_confirmed_lem T payment u in
      bind_rule (λ _ t. Asked T q s t)
        (storage (get_deposit_addr_info_by_confirmed_fee_payment T payment)) f u
        (λ info h.
          let (row, there, parsed) = found info h in
          later info _ (quiet.0 ∙ here)
            (row, ap (find (confirmed_payment T payment)) rows ∙ there, parsed))
        (λ e _. inl (quiet.0 ∙ here))

-- steps that ask nothing
module _ (T : Texts) {W : Type 0} (C : Clients W) where
  pub check_transfer-Silent :
      (request_id : ℕ) (fee_cfg : FeeConfig) (txid : Bytes)
      → Silent (check_transfer T C request_id fee_cfg txid)
  unfolding check_transfer
  check_transfer-Silent request_id fee_cfg txid =
      Silent-bind (verify_transfer C _) _ (Silent-verify_transfer C _)
        (λ response. Silent-set_fee_status_by_payment T _ _ _)

  pub verify_spark-Silent :
      (request : WatchSparkDepositRequest) → Silent (verify_spark_deposit T C request)
  unfolding verify_spark_deposit set_confirmation_status_by_nonce
  verify_spark-Silent request =
      Silent-bind (verify_balance C _) _ (Silent-verify_balance C _) (λ response.
        Silent-bind (storage (set_confirmation_status_by_nonce request.nonce _ _)) _
          (Silent-change_rows _ _) (λ _. Silent-lift _))

module _ (K : Identifier.Libraries) (T : Texts) {W : Type 0} (C : Clients W) (config : Config) where
  pub notify_spark-Silent :
      (request : IndexerNotifyRequest) (info : DepositAddrInfo)
      → Silent (notify_spark_payment K T C config request info)
  unfolding notify_spark_payment set_confirmation_status_by_nonce
  notify_spark-Silent request info = Silent-bind (lift _) _ (Silent-lift _) (λ token_identifier.
      Silent-bind (verify_balance C _) _ (Silent-verify_balance C _) (λ response.
        Silent-bind (storage (set_confirmation_status_by_nonce info.nonce _ _)) _
          (Silent-change_rows _ _) (λ _. Silent-notify C _)))

  pub notify_deposit-Silent :
      (request : IndexerNotifyRequest) (sats_amount : ℕ)
      → Silent (notify_deposit K T C config request sats_amount)
  unfolding notify_deposit set_confirmation_status_by_out_point set_sats_amount_by_out_point
  notify_deposit-Silent request sats_amount =
      Silent-bind (storage (set_confirmation_status_by_out_point T _ _ _)) _
        (Silent-change_rows _ _)
        (λ _.
          Silent-bind (storage (set_sats_amount_by_out_point T _ _)) _ (Silent-change_rows _ _)
            (λ _. Silent-notify C _))
