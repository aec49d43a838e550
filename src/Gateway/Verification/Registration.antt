-- ===== src/Gateway/Verification/Registration.antt =====
-- What a deposit of runes that is taken up for verification leaves in the tables.
use spark_bridge_backend.Prelude.{
  ◌≡◌, refl, sym, ap, ◌∙◌, inl, inr, true, some, List, [], ◌∷◌, arith, Bool-cases, is_some, Bytes,
}
use spark_bridge_backend.Prelude.Exec.{Result, ok, ok_or, bind_step, lift_step}
use spark_bridge_backend.Gateway.Types.{
  DepositVerificationError, InnerAddress, DepositStatus, VerifiersResponses, DepositAddrInfo,
  DbDepositAddrInfo, Utxo, UtxoRow, UtxoStatus, UserIds, Texts, VerifyRunesDepositRequest,
  to_string, utxo_row,
}
use spark_bridge_backend.Gateway.Responses.{new}
use spark_bridge_backend.Gateway.Tables.{
  Gateway, database, find, update, at_address, set_deposit_address,
  set_confirmation_status_by_deposit_address, update_bridge_address_by_deposit_address,
  get_row_by_deposit_address, get_row_by_dkg_id,
}
use spark_bridge_backend.Gateway.Utxos.Stored.{find-upsert}
use spark_bridge_backend.Gateway.Utxos.{insert_utxo, upsert, set_utxo, at_outpoint}
use spark_bridge_backend.Gateway.Verification.{
  Services, storage, watch_all, first_error, verify_runes_deposit,
}

find-update :
    (address : Bytes) (status : VerifiersResponses) (rows : List DbDepositAddrInfo)
    → is_some (
        find
          (at_address address)
          (update (at_address address) (λ row. record row { confirmation_status = status }) rows))
      ≡ true
    → (row : DbDepositAddrInfo) × (find
          (at_address address)
          (update (at_address address) (λ row. record row { confirmation_status = status }) rows)
        ≡ some row)
      × (row.confirmation_status ≡ status)
unfolding find update
find-update address status [] h = cc
find-update address status (r ∷ rows) h = elim (Bool-cases (at_address address r)) [
  | inl here ↦ (record r { confirmation_status = status }, ground arith, refl)
  | inr away ↦ ground (arith, find-update address status rows)
]

module _ (T : Texts) {W : Type 0} where
  set_status_lem :
      (a : InnerAddress) (status : VerifiersResponses) (s : Gateway W)
      → (storage (set_confirmation_status_by_deposit_address T a status) s).0 ≡ ok tt
      → let t = (storage (set_confirmation_status_by_deposit_address T a status) s).1 in
        (t.deposit_address
          ≡ update
              (at_address (to_string T a))
              (λ row. record row { confirmation_status = status })
              s.deposit_address)
        × (t.verifiers ≡ s.verifiers)
  unfolding set_confirmation_status_by_deposit_address database set_deposit_address
  set_status_lem a status s h = ground arith

  insert_utxo_lem :
      (u back : Utxo) (s : Gateway W)
      → (storage (insert_utxo T u) s).0 ≡ ok back
      → let t = (storage (insert_utxo T u) s).1 in
        (is_some (find (at_address (T.print u.btc_address)) s.deposit_address) ≡ true)
        × (t.utxo ≡ upsert (utxo_row T u) s.utxo)
        × (t.deposit_address ≡ s.deposit_address)
        × (t.verifiers ≡ s.verifiers)
  unfolding insert_utxo database set_utxo
  insert_utxo_lem u back s h = ground arith

  abbrev Registered : InnerAddress → Utxo → Gateway W → Type 0
  Registered a u t =
      (row : DbDepositAddrInfo) × (find (at_address (to_string T a)) t.deposit_address ≡ some row)
      × (row.confirmation_status ≡ new DepositStatus.waiting_for_confirmation t.verifiers)
      × (find (at_outpoint (T.print_outpoint u.outpoint)) t.utxo ≡ some (utxo_row T u))

  registered :
      (a : InnerAddress) (s4 s5 s6 : Gateway W) (u back : Utxo)
      → T.print u.btc_address ≡ to_string T a
      → let open_status = new DepositStatus.waiting_for_confirmation s4.verifiers in
        (storage (set_confirmation_status_by_deposit_address T a open_status) s4).0 ≡ ok tt
        → (storage (set_confirmation_status_by_deposit_address T a open_status) s4).1 ≡ s5
        → (storage (insert_utxo T u) s5).0 ≡ ok back
        → (storage (insert_utxo T u) s5).1 ≡ s6
        → Registered a u s6
  registered a s4 s5 s6 u back to set here stored there =
      let open_status = new DepositStatus.waiting_for_confirmation s4.verifiers in
      let p = set_status_lem a open_status s4 set in
      let q = insert_utxo_lem u back s5 stored in
      let rows = ap (λ x. x.deposit_address) (sym here) ∙ p.0 in
      let f =
        find-update (to_string T a) open_status s4.deposit_address
          (rw (sym rows) (rw (sym to) q.0)) in
      let same = ap (λ x. x.verifiers) (sym there) ∙ q.3 ∙ ap (λ x. x.verifiers) (sym here) ∙ p.1 in
      (
        f.0,
        ap (λ x. find (at_address (to_string T a)) x.deposit_address) (sym there)
            ∙ ap (find (at_address (to_string T a))) (q.2 ∙ rows)
            ∙ f.1,
        f.2 ∙ ap (new DepositStatus.waiting_for_confirmation) (sym same),
        ap (λ x. find (at_outpoint (T.print_outpoint u.outpoint)) x.utxo) (sym there)
            ∙ ap (find (at_outpoint (T.print_outpoint u.outpoint))) q.1
            ∙ find-upsert (utxo_row T u) s5.utxo,
      )

-- When the gateway takes up a deposit of runes, the answers stored for its address are one
-- `WaitingForConfirmation` for each verifier of the gateway, and the out point of the request stands
-- in the table of utxos, pending, as paid to that address.
pub verify_runes_deposit-new :
    (T : Texts) {W : Type 0} (V : Services W) (request : VerifyRunesDepositRequest) (s : Gateway W)
    → (verify_runes_deposit T V request s).0 ≡ ok tt
    → let t = (verify_runes_deposit T V request s).1 in
      (row : DbDepositAddrInfo) × (utxo : UtxoRow) × (find
          (at_address (T.print request.btc_address))
          t.deposit_address
        ≡ some row)
      × (row.confirmation_status ≡ new DepositStatus.waiting_for_confirmation t.verifiers)
      × (find (at_outpoint (T.print_outpoint request.outpoint)) t.utxo ≡ some utxo)
      × (utxo.status ≡ UtxoStatus.pending)
      × (utxo.btc_address ≡ T.print request.btc_address)
unfolding verify_runes_deposit to_string
verify_runes_deposit-new T {W} V request s =
    bind_step Q
      (storage (
        update_bridge_address_by_deposit_address T a
          (InnerAddress.spark_address request.bridge_address)))
      _ s
      (λ _ s1 _ _.
        bind_step Q (storage (get_row_by_deposit_address T a)) _ s1
          (λ found s2 _ _.
            lift_step Q (ok_or found DepositVerificationError.not_found) _ s2
              (λ info _.
                bind_step Q (storage (get_row_by_dkg_id T info.dkg_share_id)) _ s2
                  (λ user s3 _ _.
                    lift_step Q (ok_or user DepositVerificationError.not_found) _ s3
                      (λ user_ids _.
                        bind_step Q (watch_all V _) _ s3
                          (λ replies s4 _ _.
                            lift_step Q (first_error replies) _ s4
                              (λ _ _.
                                bind_step Q
                                  (storage (
                                    set_confirmation_status_by_deposit_address T a
                                      (new DepositStatus.waiting_for_confirmation s4.verifiers)))
                                  _ s4
                                  (λ _ s5 set here.
                                    bind_step Q (storage (insert_utxo T (row info user_ids))) _ s5
                                      (λ back s6 stored there h.
                                        let r =
                                          registered T a s4 s5 s6 (row info user_ids) back refl set
                                            here stored there in
                                        (
                                          r.0,
                                          utxo_row T (row info user_ids),
                                          r.1,
                                          r.2,
                                          r.3,
                                          refl,
                                          refl,
                                        ))
                                      (λ e t _ _ h. cc))
                                  (λ e t _ _ h. cc))
                              (λ e _ h. cc))
                          (λ e t _ _ h. cc))
                      (λ e _ h. cc))
                  (λ e t _ _ h. cc))
              (λ e _ h. cc))
          (λ e t _ _ h. cc))
      (λ e t _ _ h. cc)
  where
    a : InnerAddress
    a = InnerAddress.bitcoin_address request.btc_address

    row : DepositAddrInfo → UserIds → Utxo
    row info user_ids = record {
      outpoint = request.outpoint;
      btc_address = request.btc_address;
      rune_amount = info.amount;
      rune_id = user_ids.rune_id;
      status = UtxoStatus.pending;
      sats_amount = 0;
    }

    Q : Result DepositVerificationError (Unit {0}) → Gateway W → Type 0
    Q res t =
        res ≡ ok tt
        → (row : DbDepositAddrInfo) × (utxo : UtxoRow) × (find
              (at_address (T.print request.btc_address)) t.deposit_address
            ≡ some row)
          × (row.confirmation_status ≡ new DepositStatus.waiting_for_confirmation t.verifiers)
          × (find (at_outpoint (T.print_outpoint request.outpoint)) t.utxo ≡ some utxo)
          × (utxo.status ≡ UtxoStatus.pending)
          × (utxo.btc_address ≡ T.print request.btc_address)
