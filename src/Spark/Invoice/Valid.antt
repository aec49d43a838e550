-- ===== src/Spark/Invoice/Valid.antt =====
-- The fields of invoices that an encoding keeps.
use spark_bridge_backend.Prelude.{ℕ, ◌^◌, ◌<◌, ◌≡◌, true, Option, none, some, Bytes, length}
use spark_bridge_backend.Token.Identifier as Identifier
use spark_bridge_backend.Token.Identifier.{TokenIdentifier, Network, from_bytes}
use spark_bridge_backend.Spark.Proto.{Libraries}
use spark_bridge_backend.Spark.Invoice.{PaymentType, SparkInvoiceFields}

module _ (K : Identifier.Libraries) where
  -- A payment whose amount fits its type, and whose token identifier is one.
  unfoldable pub IsPayment : PaymentType → Type 0
  IsPayment (PaymentType.sats payment) = payment.amount < 2 ^ 64
  IsPayment (PaymentType.tokens payment) =
      (length payment.token_identifier ≡ 32)
      × (K.hash_from_slice payment.token_identifier ≡ some payment.token_identifier)
      × (payment.amount < 2 ^ 128)

module _ (L : Libraries) where
  unfoldable pub IsMemo : Option Bytes → Type 0
  IsMemo none = Unit
  IsMemo (some memo) = (L.is_utf8 memo ≡ true) × (length memo < 2 ^ 32)

  -- A key that the library reads back from the bytes it writes.
  unfoldable pub IsSender : Option ℕ → Type 0
  IsSender none = Unit
  IsSender (some key) =
      (L.from_slice (L.serialize key) ≡ some key) × (length (L.serialize key) ≡ 33)

  -- A date that the library gives back from its seconds and nanos, and that is no leap second.
  unfoldable pub IsDate : Option ℕ → Type 0
  IsDate none = Unit
  IsDate (some time) =
      (L.timestamp_opt (L.timestamp time) (L.timestamp_subsec_nanos time) ≡ some time)
      × (L.timestamp time < 2 ^ 64)
      × (L.timestamp_subsec_nanos time < 1_000_000_000)

module _ (K : Identifier.Libraries) (L : Libraries) where
  pub record IsInvoice (fields : SparkInvoiceFields) : Type 0 where
    pub version : fields.version < 2 ^ 32
    pub id : length fields.id ≡ 16
    pub payment : IsPayment K fields.payment_type
    pub memo : IsMemo L fields.memo
    pub sender : IsSender L fields.sender_public_key
    pub date : IsDate L fields.expiry_time
