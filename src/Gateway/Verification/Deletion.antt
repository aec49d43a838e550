-- ===== src/Gateway/Verification/Deletion.antt =====
-- The deletion of a pending bridge (gateway/crates/deposit_verification/src/aggregator.rs).
use spark_bridge_backend.Prelude.{
  ℕ, ◌≡◌, refl, ◌⊎◌, true, none, List, [], ◌∷◌, arith, is_some, Bytes, bytes_eq,
}
use spark_bridge_backend.Prelude.Exec.{ok, err}
use spark_bridge_backend.Gateway.Types.{
  DepositVerificationError, DbDepositAddrInfo, Texts, to_string,
}
use spark_bridge_backend.Gateway.Tables.{
  Gateway, database, set_deposit_address, find, delete, at_address, paid_to, delete_pending_deposit,
}
use spark_bridge_backend.Gateway.Verification.{delete_pending_bridge_by_address}

find-delete :
    (address : Bytes) (rows : List DbDepositAddrInfo)
    → find (at_address address) (delete (at_address address) rows) ≡ none
unfolding find delete
find-delete address [] = refl
find-delete address (r ∷ rows) = ground (arith, find-delete address rows)

-- The deletion of a pending bridge either succeeds or fails: with
-- success the address had a row, no utxo was paid to it and no session refers to it, and it has no row
-- any more; with an error every row is as it was. The utxos are never changed.
pub delete_pending_bridge_by_address_lem :
    (T : Texts) {W : Type 0} (btc_address : ℕ) (s : Gateway W)
    → let address = T.print btc_address in
      let t = (delete_pending_bridge_by_address T btc_address s).1 in
      (t.utxo ≡ s.utxo)
      × ((((delete_pending_bridge_by_address T btc_address s).0 ≡ ok tt)
            × (is_some (find (at_address address) s.deposit_address) ≡ true)
            × (find (paid_to address) s.utxo ≡ none)
            × (find (bytes_eq address) s.sessions ≡ none)
            × (find (at_address address) t.deposit_address ≡ none))
          ⊎ ((e : DepositVerificationError) × ((delete_pending_bridge_by_address T btc_address s).0
                ≡ err e)
              × (t.deposit_address ≡ s.deposit_address)))
unfolding delete_pending_bridge_by_address delete_pending_deposit database set_deposit_address
    to_string
delete_pending_bridge_by_address_lem T btc_address s =
    let gone = find-delete (T.print btc_address) s.deposit_address in ground arith
