-- ===== src/Gateway/Types/Format.antt =====
-- A deposit as a row of its table, and the row read back (schemas/deposit_address.rs).
use spark_bridge_backend.Prelude.{ℕ, ◌≡◌, refl, Bool, true, false, not, Option, none, some, arith}
use spark_bridge_backend.Prelude.Exec.{ok}
use spark_bridge_backend.Gateway.Types.{
  InnerAddress, DepositAddrInfo, Texts, to_string, from_string_and_type, to_db_format,
  from_db_format, bridge_text, bridge_address_of, is_bitcoin,
}

module _ (T : Texts) (reads : (a : ℕ) → T.parse (T.print a) ≡ some a) where
  from_string_lem :
      (a : InnerAddress) (btc : Bool)
      → is_bitcoin a ≡ btc
      → from_string_and_type T (to_string T a) btc ≡ ok a
  unfolding from_string_and_type to_string is_bitcoin
  from_string_lem (InnerAddress.spark_address x) true h = cc
  from_string_lem (InnerAddress.spark_address x) false h = refl
  from_string_lem (InnerAddress.bitcoin_address x) true h = ground (arith, reads x)
  from_string_lem (InnerAddress.bitcoin_address x) false h = cc

  bridge_lem :
      (b : Option InnerAddress) (btc : Bool)
      → ((a : InnerAddress) → b ≡ some a → is_bitcoin a ≡ btc)
      → bridge_address_of T (bridge_text T b) btc ≡ ok b
  bridge_lem none btc h = refl
  bridge_lem (some a) btc h = ground (arith, from_string_lem a btc (h a refl))

  -- A deposit whose address is of the kind that `is_btc` tells, and whose bridge address, if it has
  -- one, is of the other kind, is read back from the row it is written as. The text of a bitcoin
  -- address parses to that address.
  pub from_db_format-to_db_format :
      (info : DepositAddrInfo)
      → is_bitcoin info.deposit_address ≡ info.is_btc
      → ((a : InnerAddress) → info.bridge_address ≡ some a → is_bitcoin a ≡ not info.is_btc)
      → from_db_format T (to_db_format T info) ≡ ok info
  unfolding from_db_format to_db_format
  from_db_format-to_db_format info kind bridge_kind = ground (
    arith,
    from_string_lem info.deposit_address info.is_btc kind,
    bridge_lem info.bridge_address (not info.is_btc) bridge_kind,
  )
