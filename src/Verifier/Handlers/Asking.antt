-- ===== src/Verifier/Handlers/Asking.antt =====
-- The requests to the indexer that a verifier which takes fees may make.
use spark_bridge_backend.Prelude.{ℕ, ◌≡◌, ◌⊎◌, Option, none, some, [], ◌∷◌, ◌++◌, Bytes}
use spark_bridge_backend.Prelude.Exec.{ok}
use spark_bridge_backend.Prelude.Rows.{find}
use spark_bridge_backend.Token.Identifier as Identifier
use spark_bridge_backend.Verifier.Types.{
  Texts, FeePayment, DepositAddrInfo, DbDepositAddrInfo, address_to_string, from_db_format,
}
use spark_bridge_backend.Verifier.Messages.{
  IndexerRequest, FeeConfig, WatchRunesDepositRequest, WatchSparkDepositRequest,
  IndexerNotifyRequest,
}
use spark_bridge_backend.Verifier.Tables.{Verifier}
use spark_bridge_backend.Verifier.Handlers.{
  watch_runes_deposit, watch_spark_deposit, notify_runes_deposit, out_point_or_default,
}
use spark_bridge_backend.Verifier.Clients.{Clients, Config}
use spark_bridge_backend.Verifier.Handlers.Fees.{confirmed_payment}

-- one of the handlers of the deposits
pub data Call : Type 0 where
  watch_runes : WatchRunesDepositRequest → Call
  watch_spark : WatchSparkDepositRequest → Call
  notified : IndexerNotifyRequest → Call

module _ (K : Identifier.Libraries) (T : Texts) {W : Type 0} (C : Clients W) (config : Config) where
  unfoldable pub serve : Call → Verifier W → Verifier W
  serve (Call.watch_runes request) s = (watch_runes_deposit T C request config s).1
  serve (Call.watch_spark request) s = (watch_spark_deposit T C request config s).1
  serve (Call.notified request) s = (notify_runes_deposit K T C config request s).1

-- What a call of a verifier that takes fees may ask about: the fee to be paid in bitcoin, if the
-- handler is to look at it, and the payment that must be confirmed before the deposit is looked at,
-- with the rune of that deposit.
pub record Asking : Type 0 where
  pub fee_cfg : FeeConfig
  pub request_id : ℕ
  pub fee : Option FeePayment
  pub payment : Option FeePayment
  pub rune_id : DepositAddrInfo → Bytes

abbrev pub asking : FeeConfig → Call → Asking
asking fee_cfg (Call.watch_runes request) = record {
  fee_cfg = fee_cfg;
  request_id = request.request_id;
  fee = request.fee_payment;
  payment = request.fee_payment;
  rune_id = λ info. request.user_ids.rune_id;
}
asking fee_cfg (Call.watch_spark request) = record {
  fee_cfg = fee_cfg;
  request_id = request.request_id;
  fee = request.fee_payment;
  payment = none;
  rune_id = λ info. info.token;
}
asking fee_cfg (Call.notified request) = record {
  fee_cfg = fee_cfg;
  request_id = request.request_id;
  fee = none;
  payment = some (FeePayment.btc request.outpoint);
  rune_id = λ info. info.token;
}

-- The request asks for the amount of the configuration, to its address, in the out point of the payment.
abbrev pub IsFee : Asking → IndexerRequest → Type 0
IsFee q request =
    (q.fee ≡ some (FeePayment.btc request.outpoint))
    × (request.btc_address ≡ q.fee_cfg.btc_address)
    × (request.sats_amount ≡ some q.fee_cfg.amount)
    × (request.rune_id ≡ none)
    × (request.rune_amount ≡ none)

module _ (T : Texts) {W : Type 0} where
  -- A row whose fee is confirmed, the payment being this one, stands behind the deposit of `info`.
  abbrev pub Paid : FeePayment → DepositAddrInfo → Verifier W → Type 0
  Paid payment info t =
      (row : DbDepositAddrInfo) × (find (confirmed_payment T payment) t.deposit_address ≡ some row)
      × (from_db_format T row ≡ ok info)

  -- The request asks for the runes of a deposit whose fee is confirmed.
  abbrev pub IsDeposit : Asking → IndexerRequest → Verifier W → Type 0
  IsDeposit q request t =
      (payment : FeePayment) × (info : DepositAddrInfo) × (q.payment ≡ some payment)
      × Paid payment info t
      × (request.rune_id ≡ some (q.rune_id info))
      × (request.rune_amount ≡ some info.deposit_amount)
      × (request.outpoint ≡ out_point_or_default info.outpoint)
      × (request.btc_address ≡ address_to_string T info.deposit_address)
      × (request.sats_amount ≡ none)

  -- At most one request has been sent.
  abbrev pub Asked : Asking → Verifier W → Verifier W → Type 0
  Asked q s t =
      (t.watched ≡ s.watched)
      ⊎ ((request : IndexerRequest) × (t.watched ≡ s.watched ++ (request ∷ []))
          × (request.request_id ≡ q.request_id)
          × (IsFee q request ⊎ IsDeposit q request t))
