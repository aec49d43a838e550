-- ===== src/Spark/Invoice/RoundTrip.antt =====
-- The fields of an invoice that were encoded, decoded again.
use spark_bridge_backend.Prelude.{
  ℕ, ◌<◌, ◌≡◌, refl, ap, ◌∙◌, Option, none, some, [], ◌∷◌, ◌++◌, arith, Bytes, length,
}
use spark_bridge_backend.Prelude.Exec.{Result, ok}
use spark_bridge_backend.Token.Identifier as Identifier
use spark_bridge_backend.Token.Identifier.{TokenIdentifier, Network, from_bytes}
use spark_bridge_backend.Spark.Proto.{
  Libraries, DecodeError, decode_fields, fields_loop, write_len_prefixed_bytes,
}
use spark_bridge_backend.Spark.Proto.Reads.{decode_fields-field}
use spark_bridge_backend.Spark.Invoice.{
  PaymentType, SparkInvoiceFields, Decoded, encode_payment, optional, encode_proto, invoice_field,
  parse_sender, finish, decode_proto,
}
use mathlib.Core.List.{append-nil}
use mathlib.Core.Option.{map as option_map}
use spark_bridge_backend.Spark.Invoice.{nothing_decoded, expiry_bytes}
use spark_bridge_backend.Spark.Invoice.Ending.{Reads-invoice_field}
use spark_bridge_backend.Spark.Invoice.Valid.{IsPayment, IsMemo, IsSender, IsDate, IsInvoice}
use spark_bridge_backend.Spark.Invoice.OneField.{
  version_field, id_field, memo_field, sender_field, expiry_field, sats_payment_field,
  tokens_payment_field,
}

-- what is decoded when a field may be there
abbrev or_else : {A : Type 0} → Option A → Option A → Option A
or_else none old = old
or_else (some a) old = some a

module _ (K : Identifier.Libraries) (L : Libraries) where
  abbrev decode_rest : Decoded → Bytes → Result DecodeError Decoded × Bytes
  decode_rest = decode_fields (invoice_field K L)

  -- a field of the loop, once its body is known
  one_field :
      (tag : ℕ) (d e : Decoded) (bytes rest : Bytes)
      → (0 < tag) × (tag < 128)
      → invoice_field K L tag d (bytes ++ rest) ≡ (ok e, rest)
      → decode_rest d (tag ∷ (bytes ++ rest)) ≡ decode_rest e rest
  one_field tag d e bytes rest (some_tag, small) h =
      decode_fields-field (invoice_field K L) (Reads-invoice_field K L) tag d e (bytes ++ rest) rest
        some_tag small h

  memo_part :
      (d : Decoded) (memo : Option Bytes) (rest : Bytes)
      → IsMemo L memo
      → decode_rest d (optional (λ m. 0x2a ∷ write_len_prefixed_bytes m) memo ++ rest)
        ≡ decode_rest (record d { memo_opt = or_else memo d.memo_opt }) rest
  memo_part d none rest h = refl
  memo_part d (some memo) rest h =
      one_field 0x2a d _ _ rest (omega arith) (memo_field K L d rest memo h)

  sender_part :
      (d : Decoded) (sender : Option ℕ) (rest : Bytes)
      → IsSender L sender
      → decode_rest d
          (optional (λ key. 0x32 ∷ write_len_prefixed_bytes (L.serialize key)) sender ++ rest)
        ≡ decode_rest
            (record d {
              sender_public_key_opt =
                  or_else (option_map L.serialize sender) d.sender_public_key_opt;
            })
            rest
  unfolding IsSender
  sender_part d none rest h = refl
  sender_part d (some key) rest (known, size) =
      one_field 0x32 d _ _ rest (omega arith)
        (sender_field K L d rest (L.serialize key) (omega (arith, size)))

  expiry_part :
      (d : Decoded) (time : Option ℕ) (rest : Bytes)
      → IsDate L time
      → decode_rest d (optional (expiry_bytes L) time ++ rest)
        ≡ decode_rest (record d { expiry_time_opt = or_else time d.expiry_time_opt }) rest
  expiry_part d none rest h = refl
  expiry_part d (some time) rest h =
      one_field 0x3a d _ _ rest (omega arith) (expiry_field K L d rest time h)

  last_field :
      (tag : ℕ) (d e : Decoded) (bytes : Bytes)
      → (0 < tag) × (tag < 128)
      → invoice_field K L tag d (bytes ++ []) ≡ (ok e, [])
      → decode_rest d (tag ∷ bytes) ≡ (ok e, [])
  unfolding decode_fields fields_loop
  last_field tag d e bytes (some_tag, small) h =
      decode_fields-field (invoice_field K L) (Reads-invoice_field K L) tag d e bytes [] some_tag
        small (rw append-nil at h)

  payment_part :
      (d : Decoded) (payment : PaymentType)
      → IsPayment K payment
      → decode_rest d (encode_payment payment)
        ≡ (ok (record d { payment_type_opt = some payment }), [])
  unfolding encode_payment IsPayment
  payment_part d (PaymentType.sats payment) small =
      last_field 0x22 d _ _ (omega arith) (sats_payment_field K L d [] payment small)
  payment_part d (PaymentType.tokens payment) h =
      last_field 0x1a d _ _ (omega arith) (tokens_payment_field K L d [] payment h)

  all_fields :
      (fields : SparkInvoiceFields)
      → IsInvoice K L fields
      → decode_rest nothing_decoded (encode_proto L fields) ≡ (
        ok (record {
          version_opt = some fields.version;
          id_opt = some fields.id;
          payment_type_opt = some fields.payment_type;
          memo_opt = or_else fields.memo none;
          sender_public_key_opt = or_else (option_map L.serialize fields.sender_public_key) none;
          expiry_time_opt = or_else fields.expiry_time none;
        }),
        [],
      )
  unfolding encode_proto
  all_fields fields valid =
      one_field 0x08 _ _ _ _ (omega arith) (version_field K L _ _ fields.version valid.version)
      ∙ one_field 0x12 _ _ _ _ (omega arith) (id_field K L _ _ fields.id valid.id)
      ∙ memo_part _ fields.memo _ valid.memo
      ∙ sender_part _ fields.sender_public_key _ valid.sender
      ∙ expiry_part _ fields.expiry_time _ valid.date
      ∙ payment_part _ fields.payment_type valid.payment

  IsSender-parse :
      (sender : Option ℕ)
      → IsSender L sender
      → parse_sender L (or_else (option_map L.serialize sender) none) ≡ ok sender
  unfolding IsSender parse_sender
  IsSender-parse none h = refl
  IsSender-parse (some key) (known, size) = rw known refl

  or_else-none : {A : Type 0} (o : Option A) → or_else o none ≡ o
  or_else-none none = refl
  or_else-none (some a) = refl

  -- The fields of an invoice are decoded from their encoding, which is read to its end: for a version
  -- of 32 bits, an identifier of 16 bytes, a memo of UTF-8, a key that its library reads back, a date
  -- that its library gives back and that is no leap second, and a payment whose amount fits its type
  -- and whose token identifier has 32 bytes.
  pub decode_proto-encode_proto :
      (fields : SparkInvoiceFields)
      → IsInvoice K L fields
      → decode_proto K L (encode_proto L fields) ≡ ok (fields, length (encode_proto L fields))
  unfolding decode_proto finish
  decode_proto-encode_proto fields valid = rw (all_fields fields valid) (
      rw (IsSender-parse fields.sender_public_key valid.sender) (
        rw (or_else-none fields.memo)
          (rw (or_else-none fields.expiry_time) (ap (λ (n : ℕ). ok (fields, n)) (omega arith)))))
