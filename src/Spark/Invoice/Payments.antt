-- ===== src/Spark/Invoice/Payments.antt =====
-- Payments that were encoded, decoded again.
use spark_bridge_backend.Prelude.{
  ℕ, ◌%◌, ◌^◌, ◌<◌, ◌≡◌, ap, ◌∙◌, ◌≢◌, Option, none, some, [], ◌∷◌, ◌++◌, arith, ltb, ◌==◌, Bytes,
  length,
}
use spark_bridge_backend.Prelude.Exec.{Result, ok, err, pure, lift, ◌>>◌, map_err}
use spark_bridge_backend.Token.Identifier as Identifier
use spark_bridge_backend.Token.Identifier.{TokenIdentifier, Network, from_bytes}
use spark_bridge_backend.Spark.Proto.{
  DecodeError, Read, read_varint_u64, read_len, read_bytes, skip_field, decode_fields, fields_loop,
  to_be_bytes, from_be_bytes, strip_zeros, or_zero, write_varint_u64, write_len_prefixed_bytes,
  write_u128_be_bytes,
}
use spark_bridge_backend.Spark.Proto.Varint.{read_varint_u64-write_varint_u64}
use spark_bridge_backend.Spark.Proto.Reads.{
  Reads, Reads-bind, Reads-pure, Reads-raise, Reads-if, Reads-of_wire_type, Reads-read_varint_u64,
  Reads-skip_field, Reads-read_len, Reads-read_bytes, decode_fields-field,
}
use spark_bridge_backend.Spark.Proto.Fields.{read_written}
use spark_bridge_backend.Spark.Proto.Amounts.{from_be_bytes_stripped, length_stripped}
use spark_bridge_backend.Spark.Invoice.{
  SatsPayment, TokensPayment, sats_encode_proto, sats_field, sats_decode_proto, tokens_encode_proto,
  tokens_field, tokens_decode_proto, with_bytes,
}
use mathlib.Core.List.{append-nil}

pub Reads-with_bytes :
    {A : Type 0} (f : Bytes → Read A) → ((bytes : Bytes) → Reads (f bytes)) → Reads (with_bytes f)
Reads-with_bytes f rf =
    Reads-bind read_len _ Reads-read_len (λ l. Reads-bind (read_bytes l) f (Reads-read_bytes l) rf)

pub Reads-lift :
    {A : Type 0} (r : Result DecodeError A) → r ≢ err DecodeError.out_of_fuel → Reads (lift r)
Reads-lift r h = record { at = λ left. (omega arith, h) }

failing :
    {A : Type 0} (r : Result Identifier.TokenIdentifierParseError A)
    → map_err DecodeError.invalid_token_identifier r ≢ err DecodeError.out_of_fuel
failing (ok a) p = cc
failing (err e) p = cc

pub Reads-skip : {A : Type 0} (wt : ℕ) (a : A) → Reads (skip_field wt >> pure a)
Reads-skip wt a = Reads-bind (skip_field wt) _ (Reads-skip_field wt) (λ _. Reads-pure a)

pub Reads-sats_field : (tag : ℕ) (acc : Option ℕ) → Reads (sats_field tag acc)
unfolding sats_field
Reads-sats_field tag acc =
    Reads-if (tag == 0x08) _ _
      (Reads-of_wire_type 0 (tag % 8) _ (
        Reads-bind read_varint_u64 (λ amount. pure (some amount)) Reads-read_varint_u64
          (λ amount. Reads-pure (some amount))))
      (Reads-skip (tag % 8) acc)

amount_field :
    (amount : ℕ) (rest : Bytes)
    → amount < 2 ^ 64
    → sats_field 0x08 none (write_varint_u64 amount ++ rest) ≡ (ok (some amount), rest)
unfolding sats_field
amount_field amount rest small = ground (arith, read_varint_u64-write_varint_u64 amount rest small)

-- A payment of sats is decoded to itself, and all of its bytes are read.
pub sats_decode_proto-sats_encode_proto :
    (payment : SatsPayment)
    → payment.amount < 2 ^ 64
    → sats_decode_proto (sats_encode_proto payment)
      ≡ ok (payment, length (sats_encode_proto payment))
unfolding sats_decode_proto decode_fields fields_loop
sats_decode_proto-sats_encode_proto payment small =
    rw decoded (ap (λ (n : ℕ). ok (payment, n)) (omega arith))
  where
    decoded :
        decode_fields sats_field none (0x08 ∷ write_varint_u64 payment.amount)
        ≡ (ok (some payment.amount), [])
    decoded =
        decode_fields-field sats_field Reads-sats_field 0x08 none (some payment.amount)
          (write_varint_u64 payment.amount) [] (omega arith) (omega arith)
          (rw append-nil at (amount_field payment.amount [] small))

module _ (K : Identifier.Libraries) where
  pub Reads-tokens_field :
      (tag : ℕ) (acc : Option Bytes × Option ℕ) → Reads (tokens_field K tag acc)
  unfolding tokens_field
  Reads-tokens_field tag (id, amount) =
      Reads-if (tag == 0x0a) _ _
        (Reads-of_wire_type 2 (tag % 8) _ (
          Reads-with_bytes _
            (λ bytes. Reads-bind (lift _) _ (identifier bytes) (λ a. Reads-pure (some a, amount)))))
        (Reads-if (tag == 0x12) _ _
          (Reads-of_wire_type 2 (tag % 8) _ (
            Reads-with_bytes _ (λ bytes.
              Reads-if (ltb 16 (length bytes)) _ _
                (Reads-raise DecodeError.invalid_u128_bytes_length (λ p. cc))
                (Reads-pure (id, some (from_be_bytes 0 bytes))))))
          (Reads-skip (tag % 8) (id, amount)))
    where
      identifier :
          (bytes : Bytes)
          → Reads (lift (map_err DecodeError.invalid_token_identifier (from_bytes K bytes)))
      identifier bytes = Reads-lift _ (failing (from_bytes K bytes))

  identifier_field :
      (id rest : Bytes)
      → length id ≡ 32
      → K.hash_from_slice id ≡ some id
      → tokens_field K 0x0a (none, none) (write_len_prefixed_bytes id ++ rest)
        ≡ (ok (some id, none), rest)
  unfolding tokens_field from_bytes
  identifier_field id rest size known =
      read_written _ id rest (omega (arith, size)) ∙ ground (arith, size, known)

  token_amount_field :
      (id : Bytes) (amount : ℕ) (rest : Bytes)
      → amount < 2 ^ 128
      → tokens_field K 0x12 (some id, none) (write_u128_be_bytes amount ++ rest)
        ≡ (ok (some id, some amount), rest)
  unfolding tokens_field write_u128_be_bytes
  token_amount_field id amount rest small =
      read_written _ (or_zero (strip_zeros (to_be_bytes 16 amount))) rest
        (omega (arith, length_stripped amount))
      ∙ ground (arith, length_stripped amount, from_be_bytes_stripped amount small)

  -- So is a payment of tokens.
  pub tokens_decode_proto-tokens_encode_proto :
      (payment : TokensPayment)
      → length payment.token_identifier ≡ 32
      → K.hash_from_slice payment.token_identifier ≡ some payment.token_identifier
      → payment.amount < 2 ^ 128
      → tokens_decode_proto K (tokens_encode_proto payment)
        ≡ ok (payment, length (tokens_encode_proto payment))
  unfolding tokens_decode_proto tokens_encode_proto decode_fields fields_loop
  tokens_decode_proto-tokens_encode_proto payment size known small =
      rw decoded (ap (λ (n : ℕ). ok (payment, n)) (omega arith))
    where
      id : Bytes
      id = payment.token_identifier

      amount : Bytes
      amount = write_u128_be_bytes payment.amount

      decoded :
          decode_fields
            (tokens_field K)
            (none, none)
            (0x0a ∷ (write_len_prefixed_bytes id ++ (0x12 ∷ amount)))
          ≡ (ok (some id, some payment.amount), [])
      decoded =
          decode_fields-field (tokens_field K) Reads-tokens_field 0x0a (none, none) (some id, none)
            _ (0x12 ∷ amount) (omega arith) (omega arith)
            (identifier_field id (0x12 ∷ amount) size known)
          ∙ decode_fields-field (tokens_field K) Reads-tokens_field 0x12 (some id, none)
              (some id, some payment.amount) amount [] (omega arith) (omega arith)
              (rw append-nil at (token_amount_field id payment.amount [] small))
