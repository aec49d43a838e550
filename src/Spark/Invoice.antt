-- ===== src/Spark/Invoice.antt =====
-- crates/spark-invoice/src/lib.rs. A memo is the bytes of its UTF-8, an Uuid its 16 bytes, a public
-- key and a date are numbers.
pub mod Payments
pub mod Ending
pub mod Valid
pub mod OneField
pub mod RoundTrip
pub mod Hash
use spark_bridge_backend.Prelude.{
  ℕ, zero, suc, ◌+◌, ◌-◌, ◌*◌, ◌/◌, ◌%◌, ◌^◌, ◌≤◌, ◌<◌, String, ◌≡◌, refl, sym, ap, ◌∙◌, ◌≢◌, ◌↔◌,
  ◌⊎◌, inl, inr, Bool, true, false, not, ◌&&◌, ◌||◌, Option, none, some, List, [], ◌∷◌, ◌++◌, map,
  arith, ltb, leb, ◌==◌, if◌then◌else◌, ==_iff, ==_refl, Bool-cases, Option-cases, is_none, is_some,
  Bytes, bytes_eq, bytes_eq_refl, bytes_eq_sound, All, length, get_elem?, take, drop, length-append,
  length-drop, take-append, drop-append, leb→le, ltb→lt,
}
use spark_bridge_backend.Prelude.Exec.{
  Result, ok, err, Exec, pure, raise, lift, ◌>>=◌, ◌>>◌, ok_or, map_err, ◌and_then◌,
}
use spark_bridge_backend.Token.Identifier as Identifier
use spark_bridge_backend.Token.Identifier.{TokenIdentifier, Network, from_bytes}
use spark_bridge_backend.Spark.Proto.{
  Libraries, DecodeError, Read, Timestamp, write_varint_u32, write_varint_u64, write_u128_be_bytes,
  write_timestamp, write_len_prefixed_bytes, write_len_prefixed_str, to_be_bytes, from_be_bytes,
  of_wire_type, read_varint_u32, read_varint_u64, read_len, read_bytes, read_string, skip_field,
  decode_fields, decode_timestamp, timestamp_to_datetime,
}

pub record SatsPayment : Type 0 where
  pub amount : ℕ

pub record TokensPayment : Type 0 where
  pub token_identifier : TokenIdentifier
  pub amount : ℕ

pub data PaymentType : Type 0 where
  sats : SatsPayment → PaymentType
  tokens : TokensPayment → PaymentType

pub record SparkInvoiceFields : Type 0 where
  pub version : ℕ
  pub id : Bytes
  pub payment_type : PaymentType
  pub memo : Option Bytes
  pub sender_public_key : Option ℕ
  pub expiry_time : Option ℕ

abbrev pub sats_encode_proto : SatsPayment → Bytes
sats_encode_proto self = 0x08 ∷ write_varint_u64 self.amount

-- One field of the loop of SatsPayment::decode_proto, with the amount read so far.
unfoldable pub sats_field : ℕ → Option ℕ → Read (Option ℕ)
sats_field tag amount_opt =
    if tag == 0x08
    then of_wire_type 0 (tag % 8) (read_varint_u64 >>= (λ amount. pure (some amount)))
    else (skip_field (tag % 8) >> pure amount_opt)

-- The position is what is no longer left of the input.
unfoldable pub sats_decode_proto : Bytes → Result DecodeError (SatsPayment × ℕ)
sats_decode_proto input =
    let (decoded, left) = decode_fields sats_field none input in
    decoded and_then λ amount_opt.
    ok_or amount_opt (DecodeError.missing_field "Missing sats amount") and_then λ amount.
    ok (record { amount = amount }, length input - length left)

unfoldable pub tokens_encode_proto : TokensPayment → Bytes
tokens_encode_proto self =
    (0x0a ∷ write_len_prefixed_bytes self.token_identifier)
    ++ (0x12 ∷ write_u128_be_bytes self.amount)

unfoldable pub encode_payment : PaymentType → Bytes
encode_payment (PaymentType.sats payment) =
    0x22 ∷ write_len_prefixed_bytes (sats_encode_proto payment)
encode_payment (PaymentType.tokens payment) =
    0x1a ∷ write_len_prefixed_bytes (tokens_encode_proto payment)

abbrev pub optional : {A : Type 0} → (A → Bytes) → Option A → Bytes
optional f none = []
optional f (some a) = f a

-- `read_len(..)?` and `read_bytes(..)?`, and what an arm does with the bytes
abbrev pub with_bytes : {A : Type 0} → (Bytes → Read A) → Read A
with_bytes f = read_len >>= λ l. read_bytes l >>= f

module _ (K : Identifier.Libraries) where
  -- what the loop of TokensPayment::decode_proto has read so far
  unfoldable pub tokens_field : ℕ → Option Bytes × Option ℕ → Read (Option Bytes × Option ℕ)
  tokens_field tag (token_identifier_opt, amount_opt) =
      if tag == 0x0a
      then of_wire_type 2 (tag % 8) (
          with_bytes λ bytes. do
            token_identifier ←
                lift (map_err DecodeError.invalid_token_identifier (from_bytes K bytes))
            pure (some token_identifier, amount_opt))
      else if tag == 0x12
      then of_wire_type 2 (tag % 8) (
          with_bytes λ bytes.
            if ltb 16 (length bytes)
            then raise DecodeError.invalid_u128_bytes_length
            else pure (token_identifier_opt, some (from_be_bytes 0 bytes)))
      else (skip_field (tag % 8) >> pure (token_identifier_opt, amount_opt))

  unfoldable pub tokens_decode_proto : Bytes → Result DecodeError (TokensPayment × ℕ)
  tokens_decode_proto input =
      let (decoded, left) = decode_fields tokens_field (none, none) input in
      decoded and_then λ (token_identifier_opt, amount_opt).
      ok_or token_identifier_opt (DecodeError.missing_field "Missing token identifier")
      and_then λ token_identifier.
          ok_or amount_opt (DecodeError.missing_field "Missing token amount") and_then λ amount.
          ok (
            record { token_identifier = token_identifier; amount = amount },
            length input - length left,
          )

-- What the loop of SparkInvoiceFields::decode_proto has read so far.
pub record Decoded : Type 0 where
  pub version_opt : Option ℕ
  pub id_opt : Option Bytes
  pub payment_type_opt : Option PaymentType
  pub memo_opt : Option Bytes
  pub sender_public_key_opt : Option Bytes
  pub expiry_time_opt : Option ℕ

abbrev pub nothing_decoded : Decoded
nothing_decoded = record {
  version_opt = none;
  id_opt = none;
  payment_type_opt = none;
  memo_opt = none;
  sender_public_key_opt = none;
  expiry_time_opt = none;
}

module _ (L : Libraries) where
  abbrev pub expiry_bytes : ℕ → Bytes
  expiry_bytes expiry_time =
      0x3a
      ∷ write_len_prefixed_bytes
          (write_timestamp (L.timestamp expiry_time) (L.timestamp_subsec_nanos expiry_time))

  unfoldable pub encode_proto : SparkInvoiceFields → Bytes
  encode_proto self =
      (0x08 ∷ write_varint_u32 self.version)
      ++ ((0x12 ∷ write_len_prefixed_bytes self.id)
          ++ (optional (λ memo. 0x2a ∷ write_len_prefixed_str memo) self.memo
              ++ (optional (λ key. 0x32 ∷ write_len_prefixed_bytes (L.serialize key))
                    self.sender_public_key
                  ++ (optional expiry_bytes self.expiry_time ++ encode_payment self.payment_type))))

  -- `.map(PublicKey::from_slice).transpose().map_err(..)`
  unfoldable pub parse_sender : Option Bytes → Result DecodeError (Option ℕ)
  parse_sender none = ok none
  parse_sender (some bytes) = elim (L.from_slice bytes) [
    | some key ↦ ok (some key)
    | none ↦ err DecodeError.invalid_public_key
  ]

  -- the required fields, once the loop has ended
  unfoldable pub finish : Decoded → Result DecodeError SparkInvoiceFields
  finish d = ok_or d.version_opt (DecodeError.missing_field "Missing version") and_then λ version.
      ok_or d.id_opt (DecodeError.missing_field "Missing id") and_then λ id.
      ok_or d.payment_type_opt (DecodeError.missing_field "Missing payment type")
      and_then λ payment_type. parse_sender d.sender_public_key_opt and_then λ sender_public_key.
          ok (record {
            version = version;
            id = id;
            payment_type = payment_type;
            memo = d.memo_opt;
            sender_public_key = sender_public_key;
            expiry_time = d.expiry_time_opt;
          })

module _ (K : Identifier.Libraries) (L : Libraries) where
  -- One field of the loop of SparkInvoiceFields::decode_proto.
  unfoldable pub invoice_field : ℕ → Decoded → Read Decoded
  invoice_field tag d =
      let field = tag / 8 in
      let wt = tag % 8 in
      if field == 1
      then of_wire_type 0 wt
          (read_varint_u32 >>= λ version. pure (record d { version_opt = some version }))
      else if field == 2
      then of_wire_type 2 wt (
          with_bytes λ id_bytes.
            if length id_bytes == 16
            then pure (record d { id_opt = some id_bytes })
            else raise DecodeError.invalid_uuid_bytes_length)
      else if field == 3
      then of_wire_type 2 wt (
          with_bytes λ bytes. do
            (payment, _) ← lift (tokens_decode_proto K bytes)
            pure (record d { payment_type_opt = some (PaymentType.tokens payment) }))
      else if field == 4
      then of_wire_type 2 wt (
          with_bytes λ bytes. do
            (payment, _) ← lift (sats_decode_proto bytes)
            pure (record d { payment_type_opt = some (PaymentType.sats payment) }))
      else if field == 5
      then of_wire_type 2 wt
          (read_len >>= λ l. read_string L l >>= λ memo. pure (record d { memo_opt = some memo }))
      else if field == 6
      then of_wire_type 2 wt
          (with_bytes λ key. pure (record d { sender_public_key_opt = some key }))
      else if field == 7
      then of_wire_type 2 wt (
          with_bytes λ bytes. do
            ts ← lift (decode_timestamp bytes)
            expiry_time ← lift (timestamp_to_datetime L ts)
            pure (record d { expiry_time_opt = some expiry_time }))
      else (skip_field wt >> pure d)

  unfoldable pub decode_proto : Bytes → Result DecodeError (SparkInvoiceFields × ℕ)
  decode_proto input =
      let (decoded, left) = decode_fields invoice_field nothing_decoded input in
      decoded and_then λ d. finish L d and_then λ fields. ok (fields, length input - length left)
