-- ===== src/Verifier/Handlers/Unpaid.antt =====
-- A deposit of tokens whose fee is paid in Spark.
use spark_bridge_backend.Prelude.{
  ℕ, ◌≡◌, refl, ap, ◌∙◌, true, false, Option, none, some, [], ◌∷◌, ◌++◌, arith, is_none, is_some,
  Bytes,
}
use spark_bridge_backend.Prelude.Exec.{ok, ◌>>◌, bind_ok}
use spark_bridge_backend.Prelude.Rows.{find}
use spark_bridge_backend.Token.Identifier as Identifier
use spark_bridge_backend.Verifier.Types.{
  Texts, InnerAddress, DepositStatus, FeePayment, DepositAddrInfo, from_string_and_type,
  to_db_format,
}
use spark_bridge_backend.Verifier.Messages.{
  VerifyBalanceRequest, VerifyTransferRequest, FeeConfig, WatchSparkDepositRequest,
  SparkDepositStatus,
}
use spark_bridge_backend.Verifier.Tables.{
  Verifier, database, set_rows, change_rows, conflicts, known_share, insert_user_ids,
  insert_deposit_addr_info, set_fee_status_by_payment, set_confirmation_status_by_nonce,
}
use spark_bridge_backend.Verifier.Handlers.{
  check_transfer, spark_row, verify_spark_deposit, watch_spark_fee, watch_spark_deposit,
}
use spark_bridge_backend.Verifier.Clients.{
  Clients, cast_deposit_status, storage, verify_balance, verify_transfer,
}

module _ (T : Texts) {W : Type 0} (C : Clients W) (network : Identifier.Network) (identifier : ℕ)
    (request : WatchSparkDepositRequest) (fee_cfg : FeeConfig) (txid : Bytes) where
  abbrev pub transfer_request : VerifyTransferRequest
  transfer_request = record {
    request_id = request.request_id;
    receiver_address = fee_cfg.spark_address;
    txid = txid;
    amount = fee_cfg.amount;
  }

  abbrev pub balance_request : VerifyBalanceRequest
  balance_request = record {
    request_id = request.request_id;
    spark_address = request.spark_address;
    token_identifier = request.token_identifier;
    amount = request.amount;
  }

  -- the state after the fee has been checked and found unpaid
  unpaid_fee :
      (s : Verifier W) (e d : Option Bytes)
      → s.faults ≡ []
      → ((w : W)
          → (C.verify_transfer transfer_request w).0
            ≡ some (record { deposit_status = SparkDepositStatus.failed; error_details = e }))
      → ((w : W)
          → (C.verify_balance balance_request w).0
            ≡ some (record { deposit_status = SparkDepositStatus.confirmed; error_details = d }))
      → (watch_spark_fee T C request (some fee_cfg) (some (FeePayment.spark txid)) s).0
        ≡ ok DepositStatus.confirmed
  unfolding watch_spark_fee check_transfer verify_spark_deposit verify_transfer verify_balance
      cast_deposit_status set_fee_status_by_payment set_confirmation_status_by_nonce change_rows
      database set_rows
  unpaid_fee s e d healthy unpaid balance =
      ground
        (arith, healthy, unpaid s.world, balance (C.verify_transfer transfer_request s.world).1)

  user_known :
      (s : Verifier W)
      → s.faults ≡ []
      → is_some (find (known_share request.user_ids.dkg_share_id) s.user_identifier) ≡ true
      → storage (insert_user_ids T request.user_ids) s ≡ (ok tt, s)
  unfolding insert_user_ids database
  user_known s healthy known = ground (arith, healthy, known)

  row_inserted :
      (row : DepositAddrInfo) (s : Verifier W)
      → s.faults ≡ []
      → is_some (find (known_share row.dkg_share_id) s.user_identifier) ≡ true
      → find (conflicts (to_db_format T row)) s.deposit_address ≡ none
      → storage (insert_deposit_addr_info T row) s
        ≡ (ok tt, record s { deposit_address = s.deposit_address ++ (to_db_format T row ∷ []) })
  unfolding insert_deposit_addr_info database set_rows to_db_format
  row_inserted row s healthy known free = ground (arith, healthy, known, free)

  steps :
      (bridge_address : InnerAddress) (s : Verifier W)
      → is_none request.fee_payment ≡ false
      → from_string_and_type T request.exit_address true ≡ some bridge_address
      → watch_spark_deposit T C request
          (record { identifier = identifier; fee = some fee_cfg; network = network })
          s
        ≡ (storage (insert_user_ids T request.user_ids)
              >> (storage (
                    insert_deposit_addr_info T
                      (spark_row T C request bridge_address (some fee_cfg)))
                  >> watch_spark_fee T C request (some fee_cfg) request.fee_payment))
            s
  unfolding watch_spark_deposit
  steps bridge_address s there parsed = rw there (rw parsed refl)

  -- A verifier that takes fees reports a deposit of tokens as confirmed although the check of the
  -- transfer that pays the fee has failed: for a request with a new row and a known user, when its
  -- address parses, the balance is there and no query fails.
  pub watch_spark_deposit-unpaid :
      (s : Verifier W) (exit_address : ℕ) (e d : Option Bytes)
      → request.fee_payment ≡ some (FeePayment.spark txid)
      → T.parse_address request.exit_address ≡ some exit_address
      → s.faults ≡ []
      → is_some (find (known_share request.user_ids.dkg_share_id) s.user_identifier) ≡ true
      → find
          (conflicts (
            to_db_format T
              (spark_row T C request (InnerAddress.bitcoin_address exit_address) (some fee_cfg))))
          s.deposit_address
        ≡ none
      → ((w : W)
          → (C.verify_transfer transfer_request w).0
            ≡ some (record { deposit_status = SparkDepositStatus.failed; error_details = e }))
      → ((w : W)
          → (C.verify_balance balance_request w).0
            ≡ some (record { deposit_status = SparkDepositStatus.confirmed; error_details = d }))
      → (watch_spark_deposit T C request
          (record { identifier = identifier; fee = some fee_cfg; network = network })
          s).0
        ≡ ok DepositStatus.confirmed
  unfolding watch_spark_deposit from_string_and_type
  watch_spark_deposit-unpaid s exit_address e d payment address healthy known free unpaid balance =
      ap (λ p. p.0)
        (steps (InnerAddress.bitcoin_address exit_address) s (ground (arith, payment))
            (ground (arith, address))
          ∙ bind_ok (storage (insert_user_ids T request.user_ids)) _ s s tt
              (user_known s healthy known)
          ∙ bind_ok (storage (insert_deposit_addr_info T row)) _ s t tt
              (row_inserted row s healthy known free))
      ∙ ap (λ q. (watch_spark_fee T C request (some fee_cfg) q t).0) payment
      ∙ unpaid_fee t e d healthy unpaid balance
    where
      row : DepositAddrInfo
      row = spark_row T C request (InnerAddress.bitcoin_address exit_address) (some fee_cfg)

      t : Verifier W
      t = record s { deposit_address = s.deposit_address ++ (to_db_format T row ∷ []) }
