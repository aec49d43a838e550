-- ===== src/Gateway/Utxos/Stored.antt =====
-- `insert_utxo` and `get_utxo` of gateway/crates/local_db_store/src/schemas/utxo_storage.rs: the utxo
-- that is stored is the one that is found.
use spark_bridge_backend.Prelude.{◌≡◌, some, List, [], ◌∷◌, arith, bytes_eq_refl}
use spark_bridge_backend.Gateway.Types.{UtxoRow}
use spark_bridge_backend.Gateway.Tables.{Gateway, find}
use spark_bridge_backend.Gateway.Utxos.{at_outpoint, upsert}

-- the row is found
pub find-upsert :
    (row : UtxoRow) (rows : List UtxoRow)
    → find (at_outpoint row.outpoint) (upsert row rows) ≡ some row
unfolding upsert find
find-upsert row [] = ground (arith, bytes_eq_refl row.outpoint)
find-upsert row (r ∷ rows) = ground (arith, bytes_eq_refl row.outpoint, find-upsert row rows)
