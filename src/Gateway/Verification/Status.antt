-- ===== src/Gateway/Verification/Status.antt =====
-- What one notification does to the stored answers and to the messages sent.
use spark_bridge_backend.Prelude.{
  ℕ, ◌≡◌, refl, sym, ap, ◌∙◌, ◌⊎◌, true, Option, none, some, [], ◌∷◌, ◌++◌, arith, is_some, Bytes,
}
use spark_bridge_backend.Prelude.Map.{lookup}
use spark_bridge_backend.Prelude.Exec.{Result, ok, pure, lift, ◌>>=◌, ok_or, map_err, bind_step}
use spark_bridge_backend.Gateway.Types.{
  DbError, DepositVerificationError, InnerAddress, DepositStatus, VerifiersResponses,
  DepositAddrInfo, DbDepositAddrInfo, UtxoStatus, Texts, FlowMessage, to_string, from_db_format,
}
use spark_bridge_backend.Gateway.Responses.{all_confirmed-lookup, all_confirmed}
use spark_bridge_backend.Gateway.Tables.{
  connection, Gateway, database, find, update, at_address, parsed, get_row_by_deposit_address,
  set_deposit_address, update_confirmation_status_by_deposit_address,
}
use spark_bridge_backend.Gateway.Utxos.{
  update_status, change_row, set_utxo, set_status, at_outpoint,
}
use spark_bridge_backend.Gateway.Verification.{
  Services, storage, send, record_status, settle_runes, settle_spark,
}

-- the row of an address, with every verifier that answered having confirmed
abbrev pub AllConfirmed : {W : Type 0} → Bytes → Gateway W → Type 0
AllConfirmed address t =
    (row : DbDepositAddrInfo) × (find (at_address address) t.deposit_address ≡ some row)
    × ((id : ℕ) (status : DepositStatus)
        → lookup id row.confirmation_status.responses ≡ some status
        → status ≡ DepositStatus.confirmed)

map_err_ok :
    {A : Type 0} {r : Result DbError A} {a : A}
    → map_err DepositVerificationError.db_error r ≡ ok a
    → r ≡ ok a
map_err_ok h = ground arith

parsed_lem :
    (T : Texts) (row : Option DbDepositAddrInfo) (info : DepositAddrInfo)
    → parsed T row ≡ ok (some info)
    → (r : DbDepositAddrInfo) × (row ≡ some r) × (r.confirmation_status ≡ info.confirmation_status)
unfolding from_db_format
parsed_lem T none info h = cc
parsed_lem T (some r) info h = (r, refl, ground arith)

module _ (T : Texts) {W : Type 0} where
  pub record_status_sent :
      (a : InnerAddress) (id : ℕ) (status : DepositStatus) (s : Gateway W)
      → (record_status T a id status s).1.sent ≡ s.sent
  unfolding record_status update_confirmation_status_by_deposit_address get_row_by_deposit_address
      database connection set_deposit_address
  record_status_sent a id status s = ground arith

  get_row_lem :
      (a : InnerAddress) (s : Gateway W) (info : DepositAddrInfo)
      → (get_row_by_deposit_address T a s).0 ≡ ok (some info)
      → let t = (get_row_by_deposit_address T a s).1 in
        (t.deposit_address ≡ s.deposit_address)
        × (parsed T (find (at_address (to_string T a)) s.deposit_address) ≡ ok (some info))
  unfolding get_row_by_deposit_address database
  get_row_lem a s info h = ground arith

  pub record_status_lem :
      (a : InnerAddress) (id : ℕ) (status : DepositStatus) (s : Gateway W)
      (responses : VerifiersResponses)
      → (record_status T a id status s).0 ≡ ok responses
      → (row : DbDepositAddrInfo) × (find
            (at_address (to_string T a))
            (record_status T a id status s).1.deposit_address
          ≡ some row)
        × (row.confirmation_status ≡ responses)
  unfolding record_status
  record_status_lem a id status s responses =
      bind_step Q (storage (update_confirmation_status_by_deposit_address T a id status)) _ s
        (λ _ t _ _.
          bind_step Q (storage (get_row_by_deposit_address T a)) _ t
            (λ found u read here h. row_lem found t u read here h) (λ e t _ _ h. cc))
        (λ e t _ _ h. cc)
    where
      Q : Result DepositVerificationError VerifiersResponses → Gateway W → Type 0
      Q res t =
          res ≡ ok responses
          → (row : DbDepositAddrInfo) × (find (at_address (to_string T a)) t.deposit_address
              ≡ some row)
            × (row.confirmation_status ≡ responses)

      row_lem :
          (found : Option DepositAddrInfo) (t u : Gateway W)
          → (storage (get_row_by_deposit_address T a) t).0 ≡ ok found
          → (storage (get_row_by_deposit_address T a) t).1 ≡ u
          → Q
              ((lift (ok_or found DepositVerificationError.not_found) >>= λ info.
                  pure info.confirmation_status)
                u).0
              ((lift (ok_or found DepositVerificationError.not_found) >>= λ info.
                  pure info.confirmation_status)
                u).1
      row_lem none t u read here h = cc
      row_lem (some info) t u read here h =
          let g = get_row_lem a t info (map_err_ok read) in
          let p = parsed_lem T (find (at_address (to_string T a)) t.deposit_address) info g.1 in
          (p.0, rw (ap (λ x. x.deposit_address) (sym here) ∙ g.0) p.1, let q = p.2 in cc)

module _ {W : Type 0} (V : Services W) where
  pub settle_spark_lem :
      (address : Bytes) (responses : VerifiersResponses) (s : Gateway W)
      → let t = (settle_spark V address responses s).1 in
        (t.sent ≡ s.sent)
        ⊎ ((t.sent ≡ s.sent ++ (FlowMessage.exit_spark address ∷ []))
            × (t.deposit_address ≡ s.deposit_address)
            × (all_confirmed responses.responses ≡ true))
  unfolding settle_spark send
  settle_spark_lem address responses s = ground arith

module _ (T : Texts) {W : Type 0} (V : Services W) where
  pub settle_runes_lem :
      (outpoint : ℕ) (address : Bytes) (responses : VerifiersResponses) (s : Gateway W)
      → let t = (settle_runes T V outpoint address responses s).1 in
        (t.sent ≡ s.sent)
        ⊎ ((t.sent ≡ s.sent ++ (FlowMessage.bridge_runes address ∷ []))
            × (t.deposit_address ≡ s.deposit_address)
            × (all_confirmed responses.responses ≡ true)
            × (t.utxo
                ≡ update
                    (at_outpoint (T.print_outpoint outpoint))
                    (set_status UtxoStatus.confirmed)
                    s.utxo)
            × (is_some (find (at_outpoint (T.print_outpoint outpoint)) s.utxo) ≡ true))
  unfolding settle_runes send update_status change_row database set_utxo
  settle_runes_lem outpoint address responses s = ground arith

pub confirmed_row :
    {W : Type 0} (address : Bytes) (t : Gateway W) (row : DbDepositAddrInfo)
    (responses : VerifiersResponses)
    → find (at_address address) t.deposit_address ≡ some row
    → row.confirmation_status ≡ responses
    → all_confirmed responses.responses ≡ true
    → AllConfirmed address t
confirmed_row address t row responses at same all = (
  row,
  at,
  λ id status found.
      all_confirmed-lookup row.confirmation_status.responses id status (rw same all) found,
)
