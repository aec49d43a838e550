-- ===== src/Verifier/Types/Format.antt =====
-- Deposits written to the table and read back.
use spark_bridge_backend.Prelude.{
  ◌≡◌, refl, sym, ap, ◌∙◌, ◌⊎◌, inl, inr, not, Option, none, some, arith, Bytes,
}
use spark_bridge_backend.Prelude.Exec.{ok}
use spark_bridge_backend.Verifier.Types.{
  OutPoint, Texts, InnerAddress, FeePayment, DepositAddrInfo, is_bitcoin, split_once,
  address_to_string, from_string_and_type, fee_to_string, fee_outpoint, fee_from_str, printed,
  to_db_format, read_outpoint, read_fee, from_db_format,
}

module _ (T : Texts) where
  -- An address that its text stands for, of the kind that is read.
  abbrev pub IsText : InnerAddress → Type 0
  IsText (InnerAddress.spark_address addr) = Unit
  IsText (InnerAddress.bitcoin_address addr) = T.parse_address (T.print_address addr) ≡ some addr

  abbrev pub IsOutpoint : Option OutPoint → Type 0
  IsOutpoint none = Unit
  IsOutpoint (some outpoint) = T.parse_outpoint (T.print_outpoint outpoint) ≡ some outpoint

  -- A payment in bitcoin whose text splits into its transaction and its output, or one in Spark whose
  -- text does not split so.
  abbrev pub IsPayment : Option FeePayment → Type 0
  IsPayment none = Unit
  IsPayment (some (FeePayment.btc outpoint)) =
      (before : Bytes) × (after : Bytes) × (split_once (T.print_outpoint outpoint)
        ≡ some (before, after))
      × (fee_outpoint T before after ≡ some outpoint)
  IsPayment (some (FeePayment.spark text)) =
      (split_once text ≡ none)
      ⊎ ((before : Bytes) × (after : Bytes) × (split_once text ≡ some (before, after))
          × (fee_outpoint T before after ≡ none))

  address_read :
      (address : InnerAddress)
      → IsText address
      → from_string_and_type T (address_to_string T address) (is_bitcoin address) ≡ some address
  unfolding from_string_and_type address_to_string is_bitcoin
  address_read (InnerAddress.spark_address addr) h = refl
  address_read (InnerAddress.bitcoin_address addr) h = rw h refl

  outpoint_read :
      (outpoint : Option OutPoint)
      → IsOutpoint outpoint
      → read_outpoint T (printed T T.print_outpoint outpoint) ≡ ok outpoint
  outpoint_read none h = refl
  outpoint_read (some outpoint) h = rw h refl

  fee_split :
      (text before after : Bytes) (outpoint : OutPoint)
      → split_once text ≡ some (before, after)
      → fee_outpoint T before after ≡ some outpoint
      → fee_from_str T text ≡ FeePayment.btc outpoint
  unfolding fee_from_str
  fee_split text before after outpoint split read = ground (arith, split, read)

  fee_other :
      (text before after : Bytes)
      → split_once text ≡ some (before, after)
      → fee_outpoint T before after ≡ none
      → fee_from_str T text ≡ FeePayment.spark text
  unfolding fee_from_str
  fee_other text before after split read = ground (arith, split, read)

  fee_whole : (text : Bytes) → split_once text ≡ none → fee_from_str T text ≡ FeePayment.spark text
  unfolding fee_from_str
  fee_whole text whole = ground (arith, whole)

  fee_read :
      (payment : Option FeePayment)
      → IsPayment payment
      → read_fee T (printed T (fee_to_string T) payment) ≡ payment
  unfolding fee_to_string
  fee_read none h = refl
  fee_read (some (FeePayment.btc outpoint)) (before, after, split, read) =
      ap some (fee_split (T.print_outpoint outpoint) before after outpoint split read)
  fee_read (some (FeePayment.spark text)) (inl whole) = ap some (fee_whole text whole)
  fee_read (some (FeePayment.spark text)) (inr (before, after, split, read)) =
      ap some (fee_other text before after split read)

  -- A deposit is read back from the row it is written as, when its address is of the kind that is_btc
  -- tells and its bridge address of the other kind, the texts of its addresses and of its out point
  -- parse to them, and the text of its fee payment parses as one in bitcoin exactly if it is one.
  pub from_db_format-to_db_format_deposit :
      (info : DepositAddrInfo)
      → is_bitcoin info.deposit_address ≡ info.is_btc
      → is_bitcoin info.bridge_address ≡ not info.is_btc
      → IsText info.deposit_address
      → IsText info.bridge_address
      → IsOutpoint info.outpoint
      → IsPayment info.fee_payment
      → from_db_format T (to_db_format T info) ≡ ok info
  unfolding from_db_format to_db_format
  from_db_format-to_db_format_deposit info kind other deposit bridge outpoint fee =
      rw
        (ap (from_string_and_type T (address_to_string T info.deposit_address)) (sym kind)
          ∙ address_read info.deposit_address deposit)
        (rw
          (ap (from_string_and_type T (address_to_string T info.bridge_address)) (sym other)
            ∙ address_read info.bridge_address bridge)
          (rw (outpoint_read info.outpoint outpoint) (rw (fee_read info.fee_payment fee) refl)))
