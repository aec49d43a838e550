-- ===== src/Spark/Invoice/OneField.antt =====
-- Each field of an invoice, read by one round of the decoder.
use spark_bridge_backend.Prelude.{
  ℕ, ◌^◌, ◌<◌, ◌≡◌, refl, ◌∙◌, some, [], ◌∷◌, ◌++◌, arith, ◌==◌, if◌then◌else◌, Bytes, length,
  length-append,
}
use spark_bridge_backend.Prelude.Exec.{ok}
use spark_bridge_backend.Token.Identifier as Identifier
use spark_bridge_backend.Token.Identifier.{TokenIdentifier, Network, from_bytes}
use spark_bridge_backend.Spark.Proto.{
  Libraries, to_be_bytes, strip_zeros, or_zero, write_varint_u32, write_varint_u64,
  write_len_prefixed_bytes, write_timestamp, write_int64, write_int32, write_u128_be_bytes,
  timestamp_to_datetime,
}
use spark_bridge_backend.Spark.Proto.Varint.{read_varint_u32-write_varint_u32}
use spark_bridge_backend.Spark.Proto.Fields.{
  read_written, length-write_len_prefixed_bytes, length-write_varint_u32, length-write_varint_u64,
  decode_timestamp-write_timestamp,
}
use spark_bridge_backend.Spark.Proto.Amounts.{length_stripped}
use spark_bridge_backend.Spark.Invoice.{
  SatsPayment, TokensPayment, PaymentType, Decoded, sats_encode_proto, tokens_encode_proto,
  invoice_field,
}
use spark_bridge_backend.Spark.Proto.Fields.{read_written_text}
use spark_bridge_backend.Spark.Invoice.Payments.{
  sats_decode_proto-sats_encode_proto, tokens_decode_proto-tokens_encode_proto,
}
use spark_bridge_backend.Spark.Invoice.Valid.{IsPayment, IsMemo, IsDate}

length-write_timestamp :
    (seconds nanos : ℕ)
    → seconds < 2 ^ 64
    → nanos < 2 ^ 31
    → length (write_timestamp seconds nanos) < 2 ^ 32
unfolding write_timestamp write_int64 write_int32
length-write_timestamp seconds nanos h small = ground (
  arith,
  length-append (if seconds == 0 then [] else 0x08 ∷ write_varint_u64 seconds)
      (if nanos == 0 then [] else 0x10 ∷ write_varint_u32 nanos),
  length-write_varint_u64 seconds h,
  length-write_varint_u32 nanos (omega (arith, small)),
)

length-tokens_encode_proto :
    (payment : TokensPayment)
    → length payment.token_identifier ≡ 32
    → length (tokens_encode_proto payment) < 2 ^ 32
unfolding tokens_encode_proto write_u128_be_bytes
length-tokens_encode_proto payment size = omega (
  arith,
  length-append (0x0a ∷ write_len_prefixed_bytes payment.token_identifier)
      (0x12 ∷ write_len_prefixed_bytes (or_zero (strip_zeros (to_be_bytes 16 payment.amount)))),
  length-write_len_prefixed_bytes payment.token_identifier (omega (arith, size)),
  length_stripped payment.amount,
  length-write_len_prefixed_bytes (or_zero (strip_zeros (to_be_bytes 16 payment.amount)))
      (omega (arith, length_stripped payment.amount)),
  size,
)

module _ (K : Identifier.Libraries) (L : Libraries) (d : Decoded) (rest : Bytes) where
  pub version_field :
      (version : ℕ)
      → version < 2 ^ 32
      → invoice_field K L 0x08 d (write_varint_u32 version ++ rest)
        ≡ (ok (record d { version_opt = some version }), rest)
  unfolding invoice_field
  version_field version small = ground (arith, read_varint_u32-write_varint_u32 version rest small)

  pub id_field :
      (id : Bytes)
      → length id ≡ 16
      → invoice_field K L 0x12 d (write_len_prefixed_bytes id ++ rest)
        ≡ (ok (record d { id_opt = some id }), rest)
  unfolding invoice_field
  id_field id size = read_written _ id rest (omega (arith, size)) ∙ ground (arith, size)

  pub memo_field :
      (memo : Bytes)
      → IsMemo L (some memo)
      → invoice_field K L 0x2a d (write_len_prefixed_bytes memo ++ rest)
        ≡ (ok (record d { memo_opt = some memo }), rest)
  unfolding invoice_field IsMemo
  memo_field memo (valid, small) = read_written_text L _ memo rest small valid

  pub sender_field :
      (bytes : Bytes)
      → length bytes < 2 ^ 32
      → invoice_field K L 0x32 d (write_len_prefixed_bytes bytes ++ rest)
        ≡ (ok (record d { sender_public_key_opt = some bytes }), rest)
  unfolding invoice_field
  sender_field bytes small = read_written _ bytes rest small

  pub expiry_field :
      (time : ℕ)
      → IsDate L (some time)
      → invoice_field K L 0x3a d (
          write_len_prefixed_bytes
            (write_timestamp (L.timestamp time) (L.timestamp_subsec_nanos time))
          ++ rest)
        ≡ (ok (record d { expiry_time_opt = some time }), rest)
  unfolding invoice_field IsDate timestamp_to_datetime
  expiry_field time (known, seconds, nanos) =
      read_written _ _ rest (length-write_timestamp _ _ seconds (omega (arith, nanos)))
      ∙ ground (
        arith,
        decode_timestamp-write_timestamp (L.timestamp time) (L.timestamp_subsec_nanos time) seconds
            (omega (arith, nanos)),
        known,
      )

  pub sats_payment_field :
      (payment : SatsPayment)
      → payment.amount < 2 ^ 64
      → invoice_field K L 0x22 d (write_len_prefixed_bytes (sats_encode_proto payment) ++ rest)
        ≡ (ok (record d { payment_type_opt = some (PaymentType.sats payment) }), rest)
  unfolding invoice_field
  sats_payment_field payment small =
      read_written _ (sats_encode_proto payment) rest
        (omega (arith, length-write_varint_u64 payment.amount small))
      ∙ rw (sats_decode_proto-sats_encode_proto payment small) refl

  pub tokens_payment_field :
      (payment : TokensPayment)
      → IsPayment K (PaymentType.tokens payment)
      → invoice_field K L 0x1a d (write_len_prefixed_bytes (tokens_encode_proto payment) ++ rest)
        ≡ (ok (record d { payment_type_opt = some (PaymentType.tokens payment) }), rest)
  unfolding invoice_field IsPayment
  tokens_payment_field payment (size, known, small) =
      read_written _ (tokens_encode_proto payment) rest (length-tokens_encode_proto payment size)
      ∙ rw (tokens_decode_proto-tokens_encode_proto K payment size known small) refl
