-- ===== src/Spark/Address.antt =====
-- crates/spark-address/src/lib.rs. A text is the bytes of its UTF-8; what the buffer holds from the
-- position on stands for the position.
pub mod Payload
pub mod RoundTrip
use spark_bridge_backend.Prelude.{
  ℕ, zero, suc, ◌+◌, ◌-◌, ◌*◌, ◌/◌, ◌%◌, ◌^◌, ◌≤◌, ◌<◌, String, ◌≡◌, refl, sym, ap, ◌∙◌, ◌≢◌, ◌↔◌,
  ◌⊎◌, inl, inr, Bool, true, false, not, ◌&&◌, ◌||◌, Option, none, some, List, [], ◌∷◌, ◌++◌, map,
  arith, ltb, leb, ◌==◌, if◌then◌else◌, ==_iff, ==_refl, Bool-cases, Option-cases, is_none, is_some,
  Bytes, bytes_eq, bytes_eq_refl, bytes_eq_sound, All, length, get_elem?, take, drop, length-append,
  length-drop, take-append, drop-append, leb→le, ltb→lt,
}
use spark_bridge_backend.Prelude.Exec.{
  Result, ok, err, Exec, pure, raise, lift, continue, ◌>>=◌, ◌>>◌, ok_or, bind_rule, map_err,
  ◌and_then◌,
}
use spark_bridge_backend.Token.Identifier as Identifier
use spark_bridge_backend.Token.Identifier.{TokenIdentifier, from_bytes}
use spark_bridge_backend.Spark.Proto.{
  Libraries, DecodeError, Read, Timestamp, of_wire_type, ensure, read_u8, read_varint_u32,
  read_varint_u64, read_len, read_bytes, read_string, skip_field, decode_fields, fields_loop,
  decode_timestamp, to_be_bytes, from_be_bytes, strip_zeros, or_zero, write_varint_u32,
  write_varint_u64, write_len_prefixed_bytes, write_timestamp, write_int64, write_int32,
  write_u128_be_bytes, timestamp_to_datetime, clamp,
}
use spark_bridge_backend.Spark.Proto.Varint.{
  read_varint_u32-write_varint_u32, read_varint_u64-write_varint_u64,
}
use spark_bridge_backend.Spark.Proto.Reads.{
  Reads, Reads-bind, Reads-pure, Reads-raise, Reads-if, Reads-of_wire_type, Reads-read_varint_u32,
  Reads-read_varint_u64, Reads-skip_field, Reads-read_len, Reads-read_bytes, Reads-read_string,
  decode_fields-field, Reads-decode_fields,
}
use spark_bridge_backend.Spark.Proto.Fields.{
  read_written, length-write_len_prefixed_bytes, length-write_varint_u32, length-write_varint_u64,
  decode_timestamp-write_timestamp, Reads-decode_timestamp,
}
use spark_bridge_backend.Spark.Proto.Amounts.{from_be_bytes_stripped, length_stripped}
use spark_bridge_backend.Spark.Invoice as Invoice
use spark_bridge_backend.Spark.Invoice.{
  SatsPayment, TokensPayment, PaymentType, SparkInvoiceFields, Decoded, sats_encode_proto,
  sats_field, sats_decode_proto, tokens_encode_proto, tokens_field, tokens_decode_proto,
  encode_payment, optional, with_bytes,
}
use mathlib.Core.List.{append_assoc, append-nil}

pub data Network : Type 0 where
  mainnet testnet signet regtest local : Network

pub data SparkAddressError : Type 0 where
  invalid_bech32 invalid_variant mixed_case invalid_length bad_proto hex bech32_encode :
      SparkAddressError
  unknown_prefix : Bytes → SparkAddressError
  wrong_key_length : ℕ → SparkAddressError

-- What the code takes from the libraries hex and std: hex::decode and encode, str::to_lowercase.
pub record Texts : Type 0 where
  pub hex_decode : Bytes → Option Bytes
  pub hex_encode : Bytes → Bytes
  pub to_lowercase : Bytes → Bytes

pub record SparkAddressData : Type 0 where
  pub identity_public_key : Bytes
  pub network : Network
  pub invoice : Option SparkInvoiceFields
  pub signature : Option Bytes

pub record DecodedProto : Type 0 where
  pub key : Bytes
  pub invoice_fields : Option SparkInvoiceFields
  pub signature : Option Bytes

-- "sp", "spt", "sps", "sprt" and "spl"
unfoldable pub hrp : Network → Bytes
hrp Network.mainnet = 115 ∷ 112 ∷ []
hrp Network.testnet = 115 ∷ 112 ∷ 116 ∷ []
hrp Network.signet = 115 ∷ 112 ∷ 115 ∷ []
hrp Network.regtest = 115 ∷ 112 ∷ 114 ∷ 116 ∷ []
hrp Network.local = 115 ∷ 112 ∷ 108 ∷ []

-- "spark" is taken too.
unfoldable pub from_hrp : Bytes → Option Network
from_hrp text =
    if bytes_eq text (115 ∷ 112 ∷ [])
    then some Network.mainnet
    else if bytes_eq text (115 ∷ 112 ∷ 97 ∷ 114 ∷ 107 ∷ [])
    then some Network.mainnet
    else if bytes_eq text (115 ∷ 112 ∷ 116 ∷ [])
    then some Network.testnet
    else if bytes_eq text (115 ∷ 112 ∷ 115 ∷ [])
    then some Network.signet
    else if bytes_eq text (115 ∷ 112 ∷ 114 ∷ 116 ∷ [])
    then some Network.regtest
    else if bytes_eq text (115 ∷ 112 ∷ 108 ∷ [])
    then some Network.local
    else none

abbrev pub any : (ℕ → Bool) → Bytes → Bool
any p [] = false
any p (b ∷ bs) = p b || any p bs

abbrev pub is_ascii_uppercase : ℕ → Bool
is_ascii_uppercase b = leb 65 b && leb b 90

abbrev pub is_ascii_lowercase : ℕ → Bool
is_ascii_lowercase b = leb 97 b && leb b 122

module _ (L : Libraries) where
  -- `none` where the code panics: the length of the key is no u8.
  unfoldable pub encode_proto : Bytes → Option SparkInvoiceFields → Option Bytes → Option Bytes
  encode_proto key spark_invoice_fields signature =
      if ltb 255 (length key)
      then none
      else some (
          (0x0a ∷ (length key ∷ key))
          ++ (optional (λ fields. 0x12 ∷ write_len_prefixed_bytes (Invoice.encode_proto L fields))
                spark_invoice_fields
              ++ optional (λ bytes. 0x1a ∷ write_len_prefixed_bytes bytes) signature))

-- The key: its tag, its length in one byte, and its bytes, with what follows them.
unfoldable pub decode_key : Bytes → Result SparkAddressError (Bytes × Bytes)
decode_key [] = err SparkAddressError.bad_proto
decode_key (tag ∷ []) = err SparkAddressError.bad_proto
decode_key (tag ∷ key_len ∷ left) =
    if not (tag == 0x0a)
    then err SparkAddressError.bad_proto
    else if ltb (length left) key_len
    then err SparkAddressError.bad_proto
    else ok (take key_len left, drop key_len left)

-- The length of a part, with as many bytes left.
unfoldable pub decode_len : Bytes → Result SparkAddressError (ℕ × Bytes)
decode_len buf = map_err (λ _. SparkAddressError.bad_proto) (read_varint_u32 buf).0 and_then λ len.
    if ltb (length (read_varint_u32 buf).1) len
    then err SparkAddressError.bad_proto
    else ok (len, (read_varint_u32 buf).1)

unfoldable pub decode_signature : Bytes → Result SparkAddressError (Option Bytes × Bytes)
decode_signature [] = ok (none, [])
decode_signature (tag ∷ buf) =
    if not (tag == 0x1a)
    then ok (none, tag ∷ buf)
    else (decode_len buf and_then λ (len, left). ok (some (take len left), drop len left))

module _ (K : Identifier.Libraries) (L : Libraries) where
  -- The position moves by what the decoder of the invoice has read of its bytes.
  unfoldable pub decode_invoice :
      Bytes → Result SparkAddressError (Option SparkInvoiceFields × Bytes)
  decode_invoice [] = ok (none, [])
  decode_invoice (tag ∷ buf) =
      if not (tag == 0x12)
      then ok (none, tag ∷ buf)
      else (decode_len buf and_then λ (len, left).
          map_err (λ _. SparkAddressError.bad_proto) (Invoice.decode_proto K L (take len left))
          and_then λ (fields, used). ok (some fields, drop used left))

  unfoldable pub decode_proto : Bytes → Result SparkAddressError DecodedProto
  decode_proto buf = decode_key buf and_then λ (key, after_key).
      decode_invoice after_key and_then λ (invoice_fields, after_invoice).
      decode_signature after_invoice and_then λ (signature, _).
      ok (record { key = key; invoice_fields = invoice_fields; signature = signature })

module _ (K : Identifier.Libraries) where
  -- `none` where the code panics: the key is too long, or a prefix of the code is no Hrp.
  unfoldable pub encode_bech32 :
      Option Bytes → Option Bytes → Option (Result SparkAddressError Bytes)
  encode_bech32 (some proto) (some parsed) =
      some (ok_or (K.bech32m_encode parsed proto) SparkAddressError.bech32_encode)
  encode_bech32 _ _ = none

module _ (K : Identifier.Libraries) (L : Libraries) (T : Texts) where
  unfoldable pub encode_spark_address : SparkAddressData → Option (Result SparkAddressError Bytes)
  encode_spark_address self = elim (T.hex_decode self.identity_public_key) [
    | none ↦ some (err SparkAddressError.hex)
    | some key_bytes ↦
        if not (length key_bytes == 33)
        then some (err (SparkAddressError.wrong_key_length (length key_bytes)))
        else encode_bech32 K (encode_proto L key_bytes self.invoice self.signature)
            (K.parse_hrp (hrp self.network))
  ]

  unfoldable pub decode_spark_address : Bytes → Result SparkAddressError SparkAddressData
  decode_spark_address addr =
      if any is_ascii_uppercase addr && any is_ascii_lowercase addr
      then err SparkAddressError.mixed_case
      else (ok_or (K.bech32_decode addr) SparkAddressError.invalid_bech32
          and_then λ (hrp_str, proto).
              if any is_ascii_uppercase hrp_str
              then err SparkAddressError.mixed_case
              else (ok_or (K.bech32m_encode hrp_str proto) SparkAddressError.bech32_encode
                  and_then λ reencoded.
                      if not (bytes_eq (T.to_lowercase reencoded) (T.to_lowercase addr))
                      then err SparkAddressError.invalid_variant
                      else (ok_or (from_hrp hrp_str) (SparkAddressError.unknown_prefix hrp_str)
                          and_then λ network. decode_proto K L proto and_then λ decoded.
                              if not (length decoded.key == 33)
                              then err (SparkAddressError.wrong_key_length (length decoded.key))
                              else ok (record {
                                identity_public_key = T.hex_encode decoded.key;
                                network = network;
                                invoice = decoded.invoice_fields;
                                signature = decoded.signature;
                              }))))
