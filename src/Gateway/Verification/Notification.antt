-- ===== src/Gateway/Verification/Notification.antt =====
-- When a verifier's notification makes the gateway start a bridge or an exit.
use spark_bridge_backend.Prelude.{
  ℕ, ◌≡◌, refl, sym, ap, ◌∙◌, ◌⊎◌, inl, inr, true, some, List, [], ◌∷◌, ◌++◌, arith, Bool-cases,
  is_some, Bytes,
}
use spark_bridge_backend.Prelude.Exec.{Result, ok_or, bind_step, lift_step}
use spark_bridge_backend.Gateway.Types.{
  DepositVerificationError, InnerAddress, UtxoRow, UtxoStatus, Texts, FlowMessage,
  NotifyRunesDepositRequest, NotifySparkDepositRequest, to_string,
}
use spark_bridge_backend.Gateway.Tables.{Gateway, database, find, update}
use spark_bridge_backend.Gateway.Utxos.{
  update_sats_fee_amount, get_utxo, change_row, set_utxo, set_status, at_outpoint,
}
use spark_bridge_backend.Gateway.Verification.{
  Services, storage, record_status, settle_runes, settle_spark, notify_runes_deposit,
  notify_spark_deposit,
}
use spark_bridge_backend.Gateway.Verification.Status.{
  AllConfirmed, record_status_sent, record_status_lem, settle_spark_lem, settle_runes_lem,
  confirmed_row,
}

-- A notification about a deposit of tokens starts an exit, the one of its own address, only if the
-- answers stored for that address are then all `Confirmed`. In every other case, errors included, it
-- starts nothing.
pub notify_spark_deposit-AllConfirmed :
    (T : Texts) {W : Type 0} (V : Services W) (request : NotifySparkDepositRequest) (s : Gateway W)
    → let t = (notify_spark_deposit T V request s).1 in
      (t.sent ≡ s.sent)
      ⊎ ((t.sent ≡ s.sent ++ (FlowMessage.exit_spark request.spark_address ∷ []))
          × AllConfirmed request.spark_address t)
unfolding notify_spark_deposit to_string
notify_spark_deposit-AllConfirmed T {W} V request s =
    bind_step Q (record_status T a request.verifier_id request.status) _ s
      (λ responses t stored here.
        let same =
          ap (λ x. x.sent) (sym here)
          ∙ record_status_sent T a request.verifier_id request.status s in
        let row = record_status_lem T a request.verifier_id request.status s responses stored in
        elim (settle_spark_lem V request.spark_address responses t) [
          | inl silent ↦ inl (silent ∙ same)
          | inr told ↦ inr (
            told.0 ∙ ap (λ x. x ++ (FlowMessage.exit_spark request.spark_address ∷ [])) same,
            confirmed_row request.spark_address (settle_spark V request.spark_address responses t).1
                row.0 responses (rw told.1 (rw (sym (ap (λ x. x.deposit_address) here)) row.1))
                row.2 told.2,
          )
        ])
      (λ e t _ here.
        inl (
          ap (λ x. x.sent) (sym here)
          ∙ record_status_sent T a request.verifier_id request.status s))
  where
    a : InnerAddress
    a = InnerAddress.spark_address request.spark_address

    Q : Result DepositVerificationError (Unit {0}) → Gateway W → Type 0
    Q _ t =
        (t.sent ≡ s.sent)
        ⊎ ((t.sent ≡ s.sent ++ (FlowMessage.exit_spark request.spark_address ∷ []))
            × AllConfirmed request.spark_address t)

module _ (T : Texts) {W : Type 0} (s : Gateway W) where
  update_sats_sent :
      (outpoint sats_amount : ℕ)
      → (storage (update_sats_fee_amount T outpoint sats_amount) s).1.sent ≡ s.sent
  unfolding update_sats_fee_amount change_row database set_utxo
  update_sats_sent outpoint sats_amount = ground arith

  get_utxo_sent : (outpoint : ℕ) → (storage (get_utxo T outpoint) s).1.sent ≡ s.sent
  unfolding get_utxo database
  get_utxo_sent outpoint = ground arith

update-find :
    (outpoint : Bytes) (rows : List UtxoRow)
    → is_some (find (at_outpoint outpoint) rows) ≡ true
    → (row : UtxoRow) × (find
          (at_outpoint outpoint)
          (update (at_outpoint outpoint) (set_status UtxoStatus.confirmed) rows)
        ≡ some row)
      × (row.status ≡ UtxoStatus.confirmed)
unfolding find update
update-find outpoint [] h = cc
update-find outpoint (r ∷ rows) h = elim (Bool-cases (at_outpoint outpoint r)) [
  | inl here ↦ (set_status UtxoStatus.confirmed r, ground arith, refl)
  | inr away ↦ ground (arith, update-find outpoint rows)
]

-- A notification about a deposit of runes starts a bridge only if the answers stored for the address
-- of the bridge are then all `Confirmed`, and the utxo of the notification is then `Confirmed` too. In
-- every other case, errors included, it starts nothing.
pub notify_runes_deposit-AllConfirmed :
    (T : Texts) {W : Type 0} (V : Services W) (request : NotifyRunesDepositRequest) (s : Gateway W)
    → let t = (notify_runes_deposit T V request s).1 in
      (t.sent ≡ s.sent)
      ⊎ ((address : Bytes) × (utxo : UtxoRow) × (t.sent
            ≡ s.sent ++ (FlowMessage.bridge_runes address ∷ []))
          × AllConfirmed address t
          × (find (at_outpoint (T.print_outpoint request.outpoint)) t.utxo ≡ some utxo)
          × (utxo.status ≡ UtxoStatus.confirmed))
unfolding notify_runes_deposit to_string
notify_runes_deposit-AllConfirmed T {W} V request s =
    bind_step Q (storage (update_sats_fee_amount T request.outpoint request.sats_amount)) _ s
      (λ _ t _ one.
        bind_step Q (storage (get_utxo T request.outpoint)) _ t
          (λ found u _ two.
            lift_step Q (ok_or found DepositVerificationError.not_found) _ u
              (λ utxo _.
                bind_step Q
                  (record_status T (InnerAddress.bitcoin_address utxo.btc_address)
                    request.verifier_id request.status)
                  _ u
                  (λ responses v stored three.
                    let address = T.print utxo.btc_address in
                    let same = after utxo.btc_address t u v one two three in
                    let row =
                      record_status_lem T (InnerAddress.bitcoin_address utxo.btc_address)
                        request.verifier_id request.status u responses stored in
                    elim (settle_runes_lem T V request.outpoint address responses v) [
                      | inl silent ↦ inl (silent ∙ same)
                      | inr told ↦
                          let found =
                            update-find (T.print_outpoint request.outpoint) v.utxo told.4 in
                          inr (
                            address,
                            found.0,
                            told.0 ∙ ap (λ x. x ++ (FlowMessage.bridge_runes address ∷ [])) same,
                            confirmed_row address
                                (settle_runes T V request.outpoint address responses v).1 row.0
                                responses
                                (rw told.1 (rw (sym (ap (λ x. x.deposit_address) three)) row.1))
                                row.2 told.2,
                            rw told.3 found.1,
                            found.2,
                          )
                    ])
                  (λ e v _ three. inl (after utxo.btc_address t u v one two three)))
              (λ e _. inl (before t u one two)))
          (λ e u _ two. inl (before t u one two)))
      (λ e t _ one.
        inl
          (ap (λ x. x.sent) (sym one) ∙ update_sats_sent T s request.outpoint request.sats_amount))
  where
    before :
        (t u : Gateway W)
        → (storage (update_sats_fee_amount T request.outpoint request.sats_amount) s).1 ≡ t
        → (storage (get_utxo T request.outpoint) t).1 ≡ u
        → u.sent ≡ s.sent
    before t u one two =
        ap (λ x. x.sent) (sym two)
        ∙ get_utxo_sent T t request.outpoint
        ∙ ap (λ x. x.sent) (sym one)
        ∙ update_sats_sent T s request.outpoint request.sats_amount

    after :
        (btc_address : ℕ) (t u v : Gateway W)
        → (storage (update_sats_fee_amount T request.outpoint request.sats_amount) s).1 ≡ t
        → (storage (get_utxo T request.outpoint) t).1 ≡ u
        → (record_status T
            (InnerAddress.bitcoin_address btc_address)
            request.verifier_id
            request.status
            u).1
          ≡ v
        → v.sent ≡ s.sent
    after btc_address t u v one two three =
        ap (λ x. x.sent) (sym three)
        ∙ record_status_sent T (InnerAddress.bitcoin_address btc_address) request.verifier_id
            request.status u
        ∙ before t u one two

    Q : Result DepositVerificationError (Unit {0}) → Gateway W → Type 0
    Q _ t =
        (t.sent ≡ s.sent)
        ⊎ ((address : Bytes) × (utxo : UtxoRow) × (t.sent
              ≡ s.sent ++ (FlowMessage.bridge_runes address ∷ []))
            × AllConfirmed address t
            × (find (at_outpoint (T.print_outpoint request.outpoint)) t.utxo ≡ some utxo)
            × (utxo.status ≡ UtxoStatus.confirmed))
