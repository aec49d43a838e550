-- ===== src/Spark/Address/Payload.antt =====
-- The bytes of an address, written and read.
use spark_bridge_backend.Prelude.{
  ◌^◌, ◌<◌, ◌≡◌, refl, Option, none, some, [], ◌∷◌, ◌++◌, arith, Bytes, length, length-append,
  take-append, drop-append,
}
use spark_bridge_backend.Prelude.Exec.{ok}
use spark_bridge_backend.Token.Identifier as Identifier
use spark_bridge_backend.Token.Identifier.{TokenIdentifier, from_bytes}
use spark_bridge_backend.Spark.Proto.{Libraries, write_varint_u32, write_len_prefixed_bytes}
use spark_bridge_backend.Spark.Proto.Varint.{read_varint_u32-write_varint_u32}
use spark_bridge_backend.Spark.Invoice as Invoice
use spark_bridge_backend.Spark.Invoice.{
  SatsPayment, TokensPayment, PaymentType, SparkInvoiceFields, Decoded, sats_encode_proto,
  sats_field, sats_decode_proto, tokens_encode_proto, tokens_field, tokens_decode_proto,
  encode_payment, optional, with_bytes,
}
use mathlib.Core.List.{append_assoc, append-nil}
use spark_bridge_backend.Spark.Invoice.RoundTrip.{decode_proto-encode_proto}
use spark_bridge_backend.Spark.Invoice.Valid.{IsInvoice}
use spark_bridge_backend.Spark.Proto.Fields.{write_len_prefixed_bytes_lem}
use spark_bridge_backend.Spark.Address.{
  encode_proto, decode_key, decode_len, decode_signature, decode_invoice, decode_proto,
}

key_read : (key rest : Bytes) → decode_key (0x0a ∷ (length key ∷ (key ++ rest))) ≡ ok (key, rest)
unfolding decode_key
key_read key rest =
    ground (arith, length-append key rest, take-append key rest, drop-append key rest)

len_read :
    (bytes rest : Bytes)
    → length bytes < 2 ^ 32
    → decode_len (write_len_prefixed_bytes bytes ++ rest) ≡ ok (length bytes, bytes ++ rest)
unfolding decode_len
len_read bytes rest small = rw (write_len_prefixed_bytes_lem bytes small) (
    rw (append_assoc (write_varint_u32 (length bytes)) bytes rest) (
      rw (read_varint_u32-write_varint_u32 (length bytes) (bytes ++ rest) small)
        (ground (arith, length-append bytes rest))))

abbrev signature_bytes : Option Bytes → Bytes
signature_bytes = optional (λ bytes. 0x1a ∷ write_len_prefixed_bytes bytes)

unfoldable pub IsSignature : Option Bytes → Type 0
IsSignature none = Unit
IsSignature (some bytes) = length bytes < 2 ^ 32

signature_read :
    (signature : Option Bytes)
    → IsSignature signature
    → decode_signature (signature_bytes signature) ≡ ok (signature, [])
unfolding decode_signature IsSignature
signature_read none h = refl
signature_read (some bytes) small =
    rw (rw (append-nil (write_len_prefixed_bytes bytes)) at (len_read bytes [] small))
      (rw (take-append bytes [], drop-append bytes []) refl)

-- An invoice that is decoded from its encoding, which fits a length of 32 bits.
unfoldable pub IsPart :
    (K : Identifier.Libraries) (L : Libraries) → Option SparkInvoiceFields → Type 0
IsPart K L none = Unit
IsPart K L (some fields) = IsInvoice K L fields × (length (Invoice.encode_proto L fields) < 2 ^ 32)

abbrev invoice_bytes : Libraries → Option SparkInvoiceFields → Bytes
invoice_bytes L =
    optional (λ fields. 0x12 ∷ write_len_prefixed_bytes (Invoice.encode_proto L fields))

module _ (K : Identifier.Libraries) (L : Libraries) where
  no_invoice :
      (signature : Option Bytes)
      → decode_invoice K L (signature_bytes signature) ≡ ok (none, signature_bytes signature)
  unfolding decode_invoice
  no_invoice none = refl
  no_invoice (some bytes) = refl

  invoice_read :
      (invoice : Option SparkInvoiceFields) (signature : Option Bytes)
      → IsPart K L invoice
      → decode_invoice K L (invoice_bytes L invoice ++ signature_bytes signature)
        ≡ ok (invoice, signature_bytes signature)
  unfolding decode_invoice IsPart
  invoice_read none signature h = no_invoice signature
  invoice_read (some fields) signature (valid, small) =
      rw (len_read (Invoice.encode_proto L fields) (signature_bytes signature) small) (
        rw (take-append (Invoice.encode_proto L fields) (signature_bytes signature)) (
          rw (decode_proto-encode_proto K L fields valid)
            (rw (drop-append (Invoice.encode_proto L fields) (signature_bytes signature)) refl)))

  pub written :
      (key payload : Bytes) (invoice : Option SparkInvoiceFields) (signature : Option Bytes)
      → encode_proto L key invoice signature ≡ some payload
      → payload
        ≡ 0x0a ∷ (length key ∷ (key ++ (invoice_bytes L invoice ++ signature_bytes signature)))
  unfolding encode_proto
  written key payload invoice signature e = ground (arith, e)

  -- The payload of an address is read back.
  pub decode_proto-encode_proto_lem :
      (key payload : Bytes) (invoice : Option SparkInvoiceFields) (signature : Option Bytes)
      → IsPart K L invoice
      → IsSignature signature
      → encode_proto L key invoice signature ≡ some payload
      → decode_proto K L payload
        ≡ ok (record { key = key; invoice_fields = invoice; signature = signature })
  unfolding decode_proto encode_proto
  decode_proto-encode_proto_lem key payload invoice signature part signed e =
      rw (written key payload invoice signature e) (
        rw (key_read key (invoice_bytes L invoice ++ signature_bytes signature))
          (rw (invoice_read invoice signature part) (rw (signature_read signature signed) refl)))
