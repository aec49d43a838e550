-- ===== src/Verifier/Handlers/Silent.antt =====
-- The steps of the handlers that ask nothing of the indexer.
use spark_bridge_backend.Prelude.{◌≡◌, refl, ◌∙◌, Bool, Option, [], ◌∷◌, ◌++◌, arith, Bytes}
use spark_bridge_backend.Prelude.Exec.{Result, lift, ◌>>=◌, bind_rule}
use spark_bridge_backend.Verifier.Types.{
  Texts, DepositStatus, FeePayment, UserIds, DepositAddrInfo, DbDepositAddrInfo,
}
use spark_bridge_backend.Verifier.Messages.{
  IndexerRequest, GatewayNotice, VerifyBalanceRequest, VerifyTransferRequest,
}
use spark_bridge_backend.Verifier.Tables.{
  Verifier, database, set_rows, change_rows, insert_user_ids, insert_deposit_addr_info,
  get_deposit_addr_info_by_confirmed_fee_payment, set_fee_status_by_payment,
}
use spark_bridge_backend.Verifier.Clients.{
  VerifierError, Clients, Handler, storage, watch, notify, verify_balance, verify_transfer,
}
use spark_bridge_backend.Verifier.Handlers.Fees.{change_rows_lem, get_confirmed_lem}

-- a step that asks nothing
pub record Silent {W A : Type 0} (m : Handler W A) : Type 0 where
  pub at : (s : Verifier W) → (m s).1.watched ≡ s.watched

module _ {W : Type 0} where
  pub Silent-change_rows :
      (test : DbDepositAddrInfo → Bool) (change : DbDepositAddrInfo → DbDepositAddrInfo)
      → Silent (storage {W = W} (change_rows test change))
  Silent-change_rows test change = record { at = λ s. (change_rows_lem test change s).0.0 }

  pub Silent-lift : {A : Type 0} (r : Result VerifierError A) → Silent {W = W} (lift r)
  Silent-lift r = record { at = λ s. refl }

module _ (T : Texts) {W : Type 0} where
  pub Silent-insert_user_ids : (ids : UserIds) → Silent (storage {W = W} (insert_user_ids T ids))
  unfolding insert_user_ids database
  Silent-insert_user_ids ids = record { at = λ s. ground arith }

  pub Silent-insert_deposit_addr_info :
      (info : DepositAddrInfo) → Silent (storage {W = W} (insert_deposit_addr_info T info))
  unfolding insert_deposit_addr_info database set_rows
  Silent-insert_deposit_addr_info info = record { at = λ s. ground arith }

  pub Silent-set_fee_status_by_payment :
      (payment : FeePayment) (status : DepositStatus) (error : Option Bytes)
      → Silent (storage {W = W} (set_fee_status_by_payment T payment status error))
  unfolding set_fee_status_by_payment
  Silent-set_fee_status_by_payment payment status error = Silent-change_rows _ _

  pub Silent-get :
      (payment : FeePayment)
      → Silent (storage {W = W} (get_deposit_addr_info_by_confirmed_fee_payment T payment))
  Silent-get payment = record { at = λ s. (get_confirmed_lem T payment s).0.0 }

module _ {W : Type 0} (C : Clients W) where
  pub Silent-verify_balance : (request : VerifyBalanceRequest) → Silent (verify_balance C request)
  unfolding verify_balance
  Silent-verify_balance request = record { at = λ s. refl }

  pub Silent-verify_transfer :
      (request : VerifyTransferRequest) → Silent (verify_transfer C request)
  unfolding verify_transfer
  Silent-verify_transfer request = record { at = λ s. refl }

  pub Silent-notify : (notice : GatewayNotice) → Silent (notify C notice)
  unfolding notify
  Silent-notify notice = record { at = λ s. refl }

  pub watch_lem :
      (request : IndexerRequest) (s : Verifier W)
      → ((watch C request s).1.watched ≡ s.watched ++ (request ∷ []))
        × ((watch C request s).1.deposit_address ≡ s.deposit_address)
  unfolding watch
  watch_lem request s = (refl, refl)

module _ {W A B : Type 0} where
  pub Silent-bind :
      (m : Handler W A) (f : A → Handler W B)
      → Silent m
      → ((a : A) → Silent (f a))
      → Silent (m >>= f)
  Silent-bind m f sm sf = record {
    at = λ s.
        bind_rule (λ _ t. t.watched ≡ s.watched) m f s (λ a _. (sf a).at (m s).1 ∙ sm.at s)
          (λ e _. sm.at s);
  }
