-- ===== src/Tests/Invoices.antt =====
-- Invoices and addresses at concrete inputs. The toy libraries keep texts, keys and dates as they are.
use spark_bridge_backend.Prelude.{
  ℕ, zero, suc, ◌+◌, ◌-◌, ◌^◌, ◌≡◌, refl, sym, ap, ◌∙◌, ◌≢◌, true, false, Option, none, some, [],
  ◌∷◌, ◌++◌, map, arith, ◌==◌, if◌then◌else◌, Bytes, length, take, drop, take-append, drop-append,
}
use spark_bridge_backend.Prelude.Exec.{ok, err}
use spark_bridge_backend.Token.Identifier as Identifier
use spark_bridge_backend.Token.Identifier.{TokenIdentifier, Network, from_bytes}
use spark_bridge_backend.Spark.Proto.{
  Libraries, DecodeError, read_varint_u32, read_varint_u64, write_varint_u32, write_varint_u64,
  write_len_prefixed_bytes,
}
use spark_bridge_backend.Spark.Proto.Varint.{
  read_varint_u32-write_varint_u32, read_varint_u64-write_varint_u64,
}
use spark_bridge_backend.Spark.Invoice.{PaymentType, SparkInvoiceFields, encode_proto, decode_proto}
use spark_bridge_backend.Token.Identifier.{
  TokenIdentifierParseError, encode_bech32m, decode_bech32m, prefix, from_bitcoin_network,
}
use spark_bridge_backend.Token.Identifier.Address.{Bech32Laws, decode_bech32m-encode_bech32m}
use native.Mathlib.Decide.{dec_lt}
use spark_bridge_backend.Prelude.WellFounded.{lt_wf}
use spark_bridge_backend.Spark.Proto.{write_loop}
use spark_bridge_backend.Spark.Invoice.Ending.{decode_proto-ne-out_of_fuel}
use spark_bridge_backend.Spark.Invoice.RoundTrip.{decode_proto-encode_proto}
use spark_bridge_backend.Spark.Invoice.Valid.{IsPayment, IsMemo, IsSender, IsDate, IsInvoice}
use spark_bridge_backend.Spark.Invoice.Hash.{hash, hash_ambiguous}
use spark_bridge_backend.Spark.Address.{
  SparkAddressData, Texts, hrp, any, is_ascii_uppercase, encode_spark_address, encode_bech32,
  decode_spark_address,
}
use spark_bridge_backend.Spark.Address as Address
use spark_bridge_backend.Spark.Address.Payload.{IsPart, IsSignature}
use spark_bridge_backend.Spark.Address.RoundTrip.{
  Bech32mLaws, IsAddress, decode_spark_address-encode_spark_address,
}

abbrev shifted : Bytes → Bytes
shifted = map (λ b. 200 + b)

abbrev unshifted : Bytes → Bytes
unshifted = map (λ b. b - 200)

abbrev decode_text : Bytes → Option (Bytes × Bytes)
decode_text [] = none
decode_text (n ∷ text) = some (take (n - 200) text, unshifted (drop (n - 200) text))

abbrev toy_texts : Identifier.Libraries
toy_texts = record {
  hash_from_slice = λ bytes. if length bytes == 32 then some bytes else none;
  hash_from_str = λ text. none;
  parse_hrp = λ text. some text;
  bech32m_encode = λ hrp_text bytes. some ((200 + length hrp_text) ∷ (hrp_text ++ shifted bytes));
  bech32_decode = decode_text;
}

unshifted-shifted : (bytes : Bytes) → unshifted (shifted bytes) ≡ bytes
unshifted-shifted [] = refl
unshifted-shifted (b ∷ bytes) =
    rw (unshifted-shifted bytes) (ap (λ (n : ℕ). n ∷ bytes) (omega arith))

some_injective : {A : Type 0} {x y : A} → some x ≡ some y → x ≡ y
some_injective h = cc

undo : (n : ℕ) → 200 + n - 200 ≡ n
undo n = omega arith

decode_text_lem :
    (hrp_text bytes : Bytes)
    → decode_text ((200 + length hrp_text) ∷ (hrp_text ++ shifted bytes)) ≡ some (hrp_text, bytes)
decode_text_lem hrp_text bytes =
    ap
      (λ (n : ℕ).
        some (take n (hrp_text ++ shifted bytes), unshifted (drop n (hrp_text ++ shifted bytes))))
      (undo (length hrp_text))
    ∙ rw (take-append hrp_text (shifted bytes), drop-append hrp_text (shifted bytes))
        (rw (unshifted-shifted bytes) refl)

toy_decode :
    (hrp_text bytes text : Bytes)
    → toy_texts.bech32m_encode hrp_text bytes ≡ some text
    → toy_texts.bech32_decode text ≡ some (hrp_text, bytes)
toy_decode hrp_text bytes text e = rw (sym (some_injective e)) (decode_text_lem hrp_text bytes)

no_upper :
    (hrp_text bytes : Bytes)
    → any is_ascii_uppercase hrp_text ≡ false
    → any is_ascii_uppercase (hrp_text ++ shifted bytes) ≡ false
no_upper [] [] h = refl
no_upper [] (b ∷ bytes) h = ground (arith, no_upper [] bytes refl)
no_upper (c ∷ hrp_text) bytes h = ground (arith, no_upper hrp_text bytes, h)

toy-Bech32Laws : Bech32Laws toy_texts
toy-Bech32Laws = record {
  parse_prefix = λ network. refl;
  decode_encode = toy_decode;
  hash_of_slice = λ bytes size. ground (arith, size);
}

toy-Bech32mLaws : Bech32mLaws toy_texts
toy-Bech32mLaws = record {
  parse_hrp = λ network. refl;
  lowercase = λ hrp_text bytes text h e.
      rw (sym (some_injective e)) (ground (arith, no_upper hrp_text bytes h));
  decode_encode = toy_decode;
}

abbrev zeros : ℕ → Bytes
zeros zero = []
zeros (suc n) = 0 ∷ zeros n

abbrev toy_key : Bytes → Option ℕ
toy_key [] = none
toy_key (key ∷ bytes) = some key

abbrev toy : Libraries
toy = record {
  is_utf8 = λ bytes. true;
  serialize = λ key. key ∷ zeros 32;
  from_slice = toy_key;
  timestamp = λ time. time;
  timestamp_subsec_nanos = λ time. 0;
  timestamp_opt = λ seconds nanos. some seconds;
  sha256 = λ bytes. bytes;
}

abbrev id : TokenIdentifier
id = 7 ∷ zeros 31

decode_bech32m-encode_bech32m_example :
    decode_bech32m toy_texts
      (205 ∷ (prefix (from_bitcoin_network Network.testnet) ++ shifted id))
      Network.testnet4
    ≡ ok id
unfolding encode_bech32m prefix from_bitcoin_network Identifier.network_eq
decode_bech32m-encode_bech32m_example =
    decode_bech32m-encode_bech32m toy_texts toy-Bech32Laws id _ Network.testnet Network.testnet4
      refl refl

read_varint_u64-write_varint_u64_example :
    read_varint_u64 (write_varint_u64 300 ++ (9 ∷ [])) ≡ (ok 300, 9 ∷ [])
read_varint_u64-write_varint_u64_example =
    read_varint_u64-write_varint_u64 300 (9 ∷ []) (omega arith)

read_varint_u32-write_varint_u32_example :
    read_varint_u32 (write_varint_u32 (2 ^ 31) ++ []) ≡ (ok (2 ^ 31), [])
read_varint_u32-write_varint_u32_example =
    read_varint_u32-write_varint_u32 (2 ^ 31) [] (omega arith)

decode_proto-ne-out_of_fuel_example :
    decode_proto toy_texts toy (8 ∷ 1 ∷ 18 ∷ 200 ∷ []) ≢ err DecodeError.out_of_fuel
decode_proto-ne-out_of_fuel_example =
    decode_proto-ne-out_of_fuel toy_texts toy (8 ∷ 1 ∷ 18 ∷ 200 ∷ [])

abbrev invoice : SparkInvoiceFields
invoice = record {
  version = 1;
  id = zeros 16;
  payment_type = PaymentType.tokens (record { token_identifier = id; amount = 2 ^ 100 });
  memo = some (104 ∷ 105 ∷ []);
  sender_public_key = some 2;
  expiry_time = some 1_700_000_000;
}

invoice-IsInvoice : IsInvoice toy_texts toy invoice
unfolding IsPayment IsMemo IsSender IsDate
invoice-IsInvoice = record {
  version = omega arith;
  id = refl;
  payment = (refl, refl, omega arith);
  memo = (refl, omega arith);
  sender = (refl, refl);
  date = (refl, omega arith, omega arith);
}

decode_proto-encode_proto_example :
    decode_proto toy_texts toy (encode_proto toy invoice)
    ≡ ok (invoice, length (encode_proto toy invoice))
decode_proto-encode_proto_example =
    decode_proto-encode_proto toy_texts toy invoice invoice-IsInvoice

abbrev hex : Texts
hex = record {
  hex_decode = λ text. some text;
  hex_encode = λ bytes. bytes;
  to_lowercase = λ text. text;
}

abbrev address : SparkAddressData
address = record {
  identity_public_key = zeros 33;
  network = Address.Network.regtest;
  invoice = none;
  signature = some (1 ∷ 2 ∷ 3 ∷ []);
}

address-IsAddress : IsAddress toy_texts toy hex address
unfolding IsPart IsSignature
address-IsAddress = record {
  key = zeros 33;
  decoded = refl;
  encoded = refl;
  size = refl;
  invoice = tt;
  signature = omega arith;
}

abbrev text : Bytes
text =
    204
    ∷ (115 ∷ 112 ∷ 114 ∷ 116 ∷ shifted ((0x0a ∷ (33 ∷ zeros 33)) ++ (0x1a ∷ 3 ∷ 1 ∷ 2 ∷ 3 ∷ [])))

decode_spark_address-encode_spark_address_example :
    decode_spark_address toy_texts toy hex text ≡ ok address
unfolding encode_spark_address encode_bech32 hrp Address.encode_proto write_len_prefixed_bytes
    write_varint_u32 write_loop lt_wf dec_lt
decode_spark_address-encode_spark_address_example =
    decode_spark_address-encode_spark_address toy_texts toy hex toy-Bech32mLaws address
      address-IsAddress text refl

hash_ambiguous_example :
    hash toy (record {
      receiver = 5;
      invoice_fields = record invoice { memo = none };
      network = Network.bitcoin;
    })
    ≡ hash toy (record {
      receiver = 5;
      invoice_fields = record invoice { memo = some (toy.serialize 2); sender_public_key = none };
      network = Network.bitcoin;
    })
hash_ambiguous_example =
    hash_ambiguous toy 5 1 (zeros 16) invoice.payment_type 2 (some 1_700_000_000)
      (some 1_700_000_000) Network.bitcoin refl
