-- ===== src/Tests/Deposits.antt =====
-- A deposit of runes and one of tokens with two verifiers.
use spark_bridge_backend.Prelude.{
  ℕ, ◌≤◌, ◌<◌, ◌≡◌, refl, ◌⊎◌, Bool, true, false, none, some, Option, List, [], ◌∷◌, ◌++◌, arith,
  Bytes, bytes_eq, length, take,
}
use spark_bridge_backend.Prelude.Map.{insert}
use spark_bridge_backend.Prelude.Exec.{ok}
use spark_bridge_backend.Gateway.Types.{
  InnerAddress, DepositStatus, VerifiersResponses, DepositAddrInfo, Utxo, UtxoStatus, Texts,
  FlowMessage, NotifyRunesDepositRequest, NotifySparkDepositRequest, to_db_format, from_db_format,
  is_bitcoin,
}
use spark_bridge_backend.Gateway.Types.Format.{from_db_format-to_db_format}
use spark_bridge_backend.Gateway.Responses.{new, insert_all, all_confirmed}
use spark_bridge_backend.Gateway.Responses.Unanimity.{
  respond_all, last_answer, mentions, check_all_verifiers_confirmed-last_answer,
}
use spark_bridge_backend.Gateway.Tables.{Gateway, connection, database, find, update}
use spark_bridge_backend.Gateway.Utxos.{
  select_utxos_for_amount, get_candidate_utxos_for_update, mark_utxos_as_spent, set_utxo,
  take_until, filter, is_among, insert_by, order_by, set_status, at_outpoint,
}
use spark_bridge_backend.Gateway.Utxos.Selection.{
  select_utxos_for_amount-total_amount, total_amount, candidates,
}
use spark_bridge_backend.Gateway.Verification.{Services, notify_runes_deposit, notify_spark_deposit}
use spark_bridge_backend.Gateway.Verification.Notification.{
  notify_runes_deposit-AllConfirmed, notify_spark_deposit-AllConfirmed,
}
use spark_bridge_backend.Gateway.Verification.Status.{AllConfirmed}
use spark_bridge_backend.Gateway.Types.{
  VerifyRunesDepositRequest, from_string_and_type, to_string, DbDepositAddrInfo,
}
use spark_bridge_backend.Gateway.Tables.{
  at_address, set_deposit_address, update_bridge_address_by_deposit_address,
  get_row_by_deposit_address, get_row_by_dkg_id, set_confirmation_status_by_deposit_address,
}
use spark_bridge_backend.Gateway.Utxos.{insert_utxo, upsert, set_utxo}
use spark_bridge_backend.Gateway.Verification.{
  verify_runes_deposit, watch_all, ask_all, first_error,
}
use spark_bridge_backend.Gateway.Verification.Registration.{verify_runes_deposit-new}
use spark_bridge_backend.Prelude.{bytes_eq}
use spark_bridge_backend.Gateway.Types.{UtxoRow, from_row, user_id_from_str}
use spark_bridge_backend.Gateway.Utxos.{from_rows, refs}
use spark_bridge_backend.Gateway.Utxos.Selection.{row_total}
use spark_bridge_backend.Prelude.{is_some}
use spark_bridge_backend.Prelude.Exec.{err}
use spark_bridge_backend.Gateway.Types.{DepositVerificationError}
use spark_bridge_backend.Gateway.Tables.{paid_to}
use spark_bridge_backend.Gateway.Verification.{delete_pending_bridge_by_address}
use spark_bridge_backend.Gateway.Verification.Deletion.{delete_pending_bridge_by_address_lem}

abbrev letter : Bytes → Option ℕ
letter [] = none
letter (a ∷ _) = some a

-- Every number is written as one letter.
abbrev addresses : Texts
addresses = record {
  print = λ a. a ∷ [];
  parse = letter;
  print_outpoint = λ a. a ∷ [];
  parse_outpoint = letter;
  parse_uuid = letter;
  parse_key = λ text. none;
  parse_x_only = λ text. none;
}

abbrev services : Services (Unit {0})
services = record {
  watch_runes_deposit = λ id request w. (ok tt, w);
  healthcheck = λ id w. (true, w);
  deliver = λ message w. (true, w);
}

abbrev waiting : VerifiersResponses
waiting = record {
  responses = (1, DepositStatus.confirmed) ∷ (2, DepositStatus.waiting_for_confirmation) ∷ [];
}

abbrev deposit : DepositAddrInfo
deposit = record {
  dkg_share_id = 7;
  nonce = 1 ∷ [];
  deposit_address = InnerAddress.bitcoin_address 66;
  bridge_address = some (InnerAddress.spark_address (70 ∷ []));
  is_btc = true;
  amount = 5;
  requested_amount = 5;
  confirmation_status = waiting;
}

abbrev coin : ℕ → ℕ → UtxoStatus → UtxoRow
coin outpoint amount status = record {
  outpoint = outpoint ∷ [];
  btc_address = 66 ∷ [];
  rune_amount = amount;
  rune_id = 3 ∷ [];
  status = status;
  sats_amount = 0;
}

abbrev gateway : Gateway (Unit {0})
gateway = record {
  deposit_address = to_db_format addresses deposit ∷ [];
  user_identifier = [];
  utxo =
      coin 1 5 UtxoStatus.pending
      ∷ coin 2 9 UtxoStatus.spent
      ∷ coin 3 4 UtxoStatus.confirmed
      ∷ coin 4 8 UtxoStatus.confirmed
      ∷ [];
  sessions = [];
  verifiers = 1 ∷ 2 ∷ [];
  sent = [];
  world = tt;
  faults = [];
}

abbrev none_locked : Bytes → Bool
none_locked outpoint = false

from_db_format-to_db_format_example :
    from_db_format addresses (to_db_format addresses deposit) ≡ ok deposit
unfolding is_bitcoin
from_db_format-to_db_format_example =
    from_db_format-to_db_format addresses (λ a. refl) deposit refl (λ a h. ground arith)

check_all_verifiers_confirmed-last_answer_example :
    last_answer 2
      ((2, DepositStatus.failed) ∷ (1, DepositStatus.confirmed) ∷ (2, DepositStatus.confirmed) ∷ [])
      none
    ≡ some DepositStatus.confirmed
unfolding mentions respond_all new insert_all insert all_confirmed
check_all_verifiers_confirmed-last_answer_example =
    check_all_verifiers_confirmed-last_answer DepositStatus.waiting_for_confirmation (1 ∷ 2 ∷ [])
      ((2, DepositStatus.failed) ∷ (1, DepositStatus.confirmed) ∷ (2, DepositStatus.confirmed) ∷ [])
      2 refl refl refl

abbrev paid : List Utxo
paid =
    record {
      outpoint = 1;
      btc_address = 66;
      rune_amount = 5;
      rune_id = 3 ∷ [];
      status = UtxoStatus.spent;
      sats_amount = 0;
    }
    ∷ record {
      outpoint = 3;
      btc_address = 66;
      rune_amount = 4;
      rune_id = 3 ∷ [];
      status = UtxoStatus.spent;
      sats_amount = 0;
    }
    ∷ []

select_utxos_for_amount-total_amount_example :
    let t = (select_utxos_for_amount addresses none_locked (3 ∷ []) 6 gateway).1 in
    (taken : List Utxo) × (left : List Utxo) × (from_rows addresses
        (candidates none_locked (3 ∷ []) gateway.utxo)
      ≡ ok (taken ++ left))
    × (6 ≤ total_amount taken)
    × ((n : ℕ) → n < length taken → total_amount (take n taken) < 6)
    × (t.utxo ≡ update (is_among (refs addresses taken)) (set_status UtxoStatus.spent) gateway.utxo)
    × (from_rows addresses (filter (is_among (refs addresses taken)) t.utxo) ≡ ok paid)
unfolding select_utxos_for_amount get_candidate_utxos_for_update database filter bytes_eq order_by
    insert_by take_until mark_utxos_as_spent set_utxo update is_among row_total from_rows from_row
select_utxos_for_amount-total_amount_example =
    select_utxos_for_amount-total_amount addresses none_locked (3 ∷ []) 6 gateway paid (omega arith)
      refl

abbrev runes_notice : NotifyRunesDepositRequest
runes_notice = record {
  verifier_id = 2;
  request_id = 0;
  outpoint = 1;
  sats_amount = 3;
  status = DepositStatus.confirmed;
  error_details = none;
}

notify_runes_deposit-AllConfirmed_example :
    let t = (notify_runes_deposit addresses services runes_notice gateway).1 in
    (t.sent ≡ [])
    ⊎ ((address : Bytes) × (utxo : UtxoRow) × (t.sent ≡ FlowMessage.bridge_runes address ∷ [])
        × AllConfirmed address t
        × (find (at_outpoint (1 ∷ [])) t.utxo ≡ some utxo)
        × (utxo.status ≡ UtxoStatus.confirmed))
notify_runes_deposit-AllConfirmed_example =
    notify_runes_deposit-AllConfirmed addresses services runes_notice gateway

abbrev spark_notice : NotifySparkDepositRequest
spark_notice = record {
  verifier_id = 2;
  request_id = 0;
  spark_address = 66 ∷ [];
  status = DepositStatus.confirmed;
  error_details = none;
}

notify_spark_deposit-AllConfirmed_example :
    let t = (notify_spark_deposit addresses services spark_notice gateway).1 in
    (t.sent ≡ []) ⊎ ((t.sent ≡ FlowMessage.exit_spark (66 ∷ []) ∷ []) × AllConfirmed (66 ∷ []) t)
notify_spark_deposit-AllConfirmed_example =
    notify_spark_deposit-AllConfirmed addresses services spark_notice gateway

abbrev runes_request : VerifyRunesDepositRequest
runes_request = record {
  request_id = 0;
  btc_address = 66;
  bridge_address = 71 ∷ [];
  outpoint = 9;
  fee_payment = none;
}

-- the user of the deposit's share is known
abbrev known_gateway : Gateway (Unit {0})
known_gateway = record gateway {
  user_identifier =
      record { user_id = 50 ∷ []; dkg_share_id = 7; rune_id = 3 ∷ []; is_issuer = false } ∷ [];
}

verify_runes_deposit-new_example :
    let t = (verify_runes_deposit addresses services runes_request known_gateway).1 in
    (row : DbDepositAddrInfo) × (utxo : UtxoRow) × (find (at_address (66 ∷ [])) t.deposit_address
      ≡ some row)
    × (row.confirmation_status ≡ new DepositStatus.waiting_for_confirmation t.verifiers)
    × (find (at_outpoint (9 ∷ [])) t.utxo ≡ some utxo)
    × (utxo.status ≡ UtxoStatus.pending)
    × (utxo.btc_address ≡ 66 ∷ [])
unfolding verify_runes_deposit update_bridge_address_by_deposit_address get_row_by_deposit_address
    get_row_by_dkg_id watch_all ask_all first_error set_confirmation_status_by_deposit_address
    insert_utxo upsert set_utxo set_deposit_address database connection find update to_string
    from_db_format from_string_and_type to_db_format bytes_eq new insert_all insert from_row
    user_id_from_str
verify_runes_deposit-new_example =
    verify_runes_deposit-new addresses services runes_request known_gateway refl

-- the deposit with no utxo paid to it
abbrev unpaid_gateway : Gateway (Unit {0})
unpaid_gateway = record gateway { utxo = [] }

delete_pending_bridge_by_address_lem_example :
    let t = (delete_pending_bridge_by_address addresses 66 unpaid_gateway).1 in
    (t.utxo ≡ [])
    × ((((delete_pending_bridge_by_address addresses 66 unpaid_gateway).0 ≡ ok tt)
          × (is_some (find (at_address (66 ∷ [])) unpaid_gateway.deposit_address) ≡ true)
          × (find (paid_to (66 ∷ [])) unpaid_gateway.utxo ≡ none)
          × (find (bytes_eq (66 ∷ [])) unpaid_gateway.sessions ≡ none)
          × (find (at_address (66 ∷ [])) t.deposit_address ≡ none))
        ⊎ ((e : DepositVerificationError) × ((delete_pending_bridge_by_address addresses 66
                unpaid_gateway).0
              ≡ err e)
            × (t.deposit_address ≡ unpaid_gateway.deposit_address)))
delete_pending_bridge_by_address_lem_example =
    delete_pending_bridge_by_address_lem addresses 66 unpaid_gateway

-- the second utxo of the table paid to the deposit anew
abbrev paid_again : Utxo
paid_again = record {
  outpoint = 2;
  btc_address = 66;
  rune_amount = 21;
  rune_id = 3 ∷ [];
  status = UtxoStatus.pending;
  sats_amount = 4;
}
