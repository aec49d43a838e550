-- ===== src/Gateway/Utxos/Enough.antt =====
-- When a selection succeeds.
use spark_bridge_backend.Prelude.{◌≡◌}
use spark_bridge_backend.Prelude.Exec.{ok}
use spark_bridge_backend.Gateway.Types.{Utxo, UtxoRow, Texts, from_row}
use spark_bridge_backend.Gateway.Tables.{Gateway}

module _ (T : Texts) where
  -- A row of the table whose out point and whose address parse.
  abbrev pub IsReadable : UtxoRow → Type 0
  IsReadable row = (u : Utxo) × (from_row T row ≡ ok u)
