-- ===== src/Verifier/Handlers/Fees.antt =====
-- Fees: what is done before and after a fee has been paid.
use spark_bridge_backend.Prelude.{
  ◌≡◌, refl, sym, ap, ◌∙◌, ◌≢◌, inl, inr, Bool, false, ◌&&◌, Option, none, some, arith,
  Option-cases, Bytes,
}
use spark_bridge_backend.Prelude.Exec.{
  Result, ok, err, ◌>>=◌, ok_or, map_err, bind_rule, bind_step, lift_step, Result-cases,
}
use spark_bridge_backend.Prelude.Rows.{find, update, find-update-none}
use spark_bridge_backend.Token.Identifier as Identifier
use spark_bridge_backend.Verifier.Types.{
  DbError, Texts, DepositStatus, FeePayment, DepositAddrInfo, DbDepositAddrInfo, fee_to_string,
  from_db_format,
}
use spark_bridge_backend.Verifier.Messages.{IndexerNotifyRequest, BtcIndexerDepositStatus}
use spark_bridge_backend.Verifier.Tables.{
  Verifier, Db, database, set_rows, change_rows, paid_by, is_confirmed,
  get_deposit_addr_info_by_confirmed_fee_payment, set_fee_status_by_payment,
}
use spark_bridge_backend.Verifier.Handlers.{handle_fee_notification, notify_runes_deposit}
use spark_bridge_backend.Verifier.Clients.{
  VerifierError, Clients, Config, Handler, cast_indexer_status, storage,
}

-- Nothing has been sent between two states.
abbrev pub Quiet : {W : Type 0} → Verifier W → Verifier W → Type 0
Quiet s t = (t.watched ≡ s.watched) × (t.notified ≡ s.notified)

module _ {W : Type 0} where
  pub change_rows_lem :
      (test : DbDepositAddrInfo → Bool) (change : DbDepositAddrInfo → DbDepositAddrInfo)
      (s : Verifier W)
      → Quiet s (change_rows test change s).1
        × ((change_rows test change s).0 ≡ ok tt
            → (change_rows test change s).1.deposit_address ≡ update test change s.deposit_address)
  unfolding change_rows database set_rows
  change_rows_lem test change s = ground arith

module _ (T : Texts) where
  abbrev pub confirmed_payment : FeePayment → DbDepositAddrInfo → Bool
  confirmed_payment payment row =
      paid_by (fee_to_string T payment) row && is_confirmed row.fee_payment_status

module _ (T : Texts) {W : Type 0} where
  pub stored :
      (m : Db W (Unit {0})) {P : Type 0} (s : Verifier W)
      → Quiet s (m s).1 × ((m s).0 ≡ ok tt → P)
      → Quiet s (storage m s).1 × ((storage m s).0 ≡ ok tt → P)
  stored m s (quiet, done) = (quiet, λ h. done (returned (m s).0 h))
    where
      returned :
          (r : Result DbError (Unit {0}))
          → map_err VerifierError.storage_error r ≡ ok tt
          → r ≡ ok tt
      returned (ok tt) h = refl
      returned (err e) h = cc

  pub set_fee_status_lem :
      (payment : FeePayment) (status : DepositStatus) (error : Option Bytes) (s : Verifier W)
      → let r = storage (set_fee_status_by_payment T payment status error) s in
        Quiet s r.1
        × (r.0 ≡ ok tt
            → r.1.deposit_address
              ≡ update
                  (paid_by (fee_to_string T payment))
                  (λ row. record row { fee_payment_status = status; error_details = error })
                  s.deposit_address)
  unfolding set_fee_status_by_payment
  set_fee_status_lem payment status error s =
      stored
        (change_rows (paid_by (fee_to_string T payment))
          (λ row. record row { fee_payment_status = status; error_details = error }))
        s (change_rows_lem _ _ s)

  pub get_confirmed_lem :
      (payment : FeePayment) (s : Verifier W)
      → let r = storage (get_deposit_addr_info_by_confirmed_fee_payment T payment) s in
        Quiet s r.1
        × (r.1.deposit_address ≡ s.deposit_address)
        × ((info : DepositAddrInfo)
            → r.0 ≡ ok info
            → (row : DbDepositAddrInfo) × (find (confirmed_payment T payment) s.deposit_address
                ≡ some row)
              × (from_db_format T row ≡ ok info))
  unfolding get_deposit_addr_info_by_confirmed_fee_payment database
  get_confirmed_lem payment s =
      elim (Option-cases (find (confirmed_payment T payment) s.deposit_address)) [
        | inl none_there ↦ ground (arith, none_there)
        | inr (row, there) ↦ elim (Result-cases (from_db_format T row)) [
          | inl (info, parsed) ↦ ground (arith, there, parsed)
          | inr (e, failed) ↦ ground (arith, there, failed)
        ]
      ]

  -- A fee that was not paid: nothing is sent, and there is no row of a confirmed fee to go on with.
  pub unpaid :
      (payment : FeePayment) (status : DepositStatus) (error : Option Bytes) (s : Verifier W)
      → is_confirmed status ≡ false
      → find (confirmed_payment T payment) (
          update
            (paid_by (fee_to_string T payment))
            (λ row. record row { fee_payment_status = status; error_details = error })
            s.deposit_address)
        ≡ none
  unpaid payment status error s other =
      find-update-none _ _ _ s.deposit_address (λ row here. ground (arith, here, other))
        (λ row away. ground (arith, away))

  get_none :
      {B : Type 0} (payment : FeePayment) (f : DepositAddrInfo → Handler W B) (t : Verifier W)
      → find (confirmed_payment T payment) t.deposit_address ≡ none
      → let r = (storage (get_deposit_addr_info_by_confirmed_fee_payment T payment) >>= f) t in
        Quiet t r.1 × ((b : B) → r.0 ≢ ok b)
  get_none payment f t absent =
      let (quiet, rows, found) = get_confirmed_lem payment t in
      bind_rule (λ r u. Quiet t u × ((b : _) → r ≢ ok b))
        (storage (get_deposit_addr_info_by_confirmed_fee_payment T payment)) f t
        (λ info h. let (row, there, parsed) = found info h in absurd (none_or_some absent there))
        (λ e h. (quiet, λ b p. cc))
    where
      none_or_some : {A : Type 0} {o : Option A} {a : A} → o ≡ none → o ≡ some a → ⊥
      none_or_some p q = cc

module _ (K : Identifier.Libraries) (T : Texts) {W : Type 0} (C : Clients W) (config : Config)
    (request : IndexerNotifyRequest) where
  -- After a fee notification that the payment has failed nothing is sent, neither to the indexer nor to
  -- the gateway, and the handler answers with an error.
  pub notify_runes_deposit-unpaid :
      (s : Verifier W)
      → request.rune_amount ≡ none
      → request.deposit_status ≡ BtcIndexerDepositStatus.failed
      → let r = notify_runes_deposit K T C config request s in
        (r.1.watched ≡ s.watched) × (r.1.notified ≡ s.notified) × (r.0 ≢ ok tt)
  unfolding notify_runes_deposit handle_fee_notification cast_indexer_status
  notify_runes_deposit-unpaid s fee failed =
      lift_step Q (ok_or request.sats_amount VerifierError.validation) _ s
        (λ sats_amount _. rw fee (
          rw failed (
            bind_step Q
              (storage
                (set_fee_status_by_payment T payment DepositStatus.failed request.error_details))
              _ s
              (λ a t done here.
                let (quiet, rows) =
                  set_fee_status_lem T payment DepositStatus.failed request.error_details s in
                let (silent, fails) = get_none T payment _ t (
                  ap (λ u. find (confirmed_payment T payment) u.deposit_address) (sym here)
                  ∙ ap (find (confirmed_payment T payment)) (rows done)
                  ∙ unpaid T payment DepositStatus.failed request.error_details s refl) in
                (
                  silent.0 ∙ ap (λ u. u.watched) (sym here) ∙ quiet.0,
                  silent.1 ∙ ap (λ u. u.notified) (sym here) ∙ quiet.1,
                  fails tt,
                ))
              (λ e t done here.
                let (quiet, rows) =
                  set_fee_status_lem T payment DepositStatus.failed request.error_details s in
                (
                  ap (λ u. u.watched) (sym here) ∙ quiet.0,
                  ap (λ u. u.notified) (sym here) ∙ quiet.1,
                  λ p. cc,
                )))))
        (λ e _. (refl, refl, λ p. cc))
    where
      payment : FeePayment
      payment = FeePayment.btc request.outpoint

      Q : Result VerifierError (Unit {0}) → Verifier W → Type 0
      Q r t = (t.watched ≡ s.watched) × (t.notified ≡ s.notified) × (r ≢ ok tt)
