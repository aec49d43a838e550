-- ===== src/Spark/Invoice/Ending.antt =====
-- The decoders end on any input.
use spark_bridge_backend.Prelude.{ℕ, ◌/◌, ◌%◌, String, ◌≢◌, Option, none, some, ◌==◌, Bytes, length}
use spark_bridge_backend.Prelude.Exec.{Result, ok, err, lift, ◌>>=◌, ok_or, ◌and_then◌}
use spark_bridge_backend.Token.Identifier as Identifier
use spark_bridge_backend.Token.Identifier.{TokenIdentifier, Network, from_bytes}
use spark_bridge_backend.Spark.Proto.{
  Libraries, DecodeError, Read, Timestamp, of_wire_type, read_varint_u32, read_len, read_string,
  decode_timestamp, timestamp_to_datetime, clamp,
}
use spark_bridge_backend.Spark.Proto.Reads.{
  Reads, Reads-bind, Reads-pure, Reads-raise, Reads-if, Reads-of_wire_type, Reads-read_varint_u32,
  Reads-read_len, Reads-read_string, Reads-decode_fields,
}
use spark_bridge_backend.Spark.Proto.Fields.{Reads-decode_timestamp}
use spark_bridge_backend.Spark.Invoice.{
  Decoded, sats_field, sats_decode_proto, tokens_field, tokens_decode_proto, invoice_field,
  parse_sender, finish, decode_proto,
}
use spark_bridge_backend.Spark.Invoice.Payments.{
  Reads-lift, Reads-skip, Reads-with_bytes, Reads-sats_field, Reads-tokens_field,
}

-- A `?` that cannot fail with the error keeps it away.
and_then_runs :
    {A B : Type 0} (r : Result DecodeError A) (f : A → Result DecodeError B)
    → r ≢ err DecodeError.out_of_fuel
    → ((a : A) → f a ≢ err DecodeError.out_of_fuel)
    → (r and_then f) ≢ err DecodeError.out_of_fuel
and_then_runs (ok a) f hr hf = hf a
and_then_runs (err e) f hr hf = λ p. hr (cc p)

required_runs :
    {A : Type 0} (o : Option A) (name : String)
    → ok_or o (DecodeError.missing_field name) ≢ err DecodeError.out_of_fuel
required_runs (some a) name p = cc
required_runs none name p = cc

sats_decode_proto-ne-out_of_fuel :
    (input : Bytes) → sats_decode_proto input ≢ err DecodeError.out_of_fuel
unfolding sats_decode_proto
sats_decode_proto-ne-out_of_fuel input =
    and_then_runs _ _ ((Reads-decode_fields sats_field Reads-sats_field none).at input).1
      (λ amount_opt. and_then_runs _ _ (required_runs amount_opt _) (λ amount p. cc))

module _ (K : Identifier.Libraries) where
  tokens_decode_proto-ne-out_of_fuel :
      (input : Bytes) → tokens_decode_proto K input ≢ err DecodeError.out_of_fuel
  unfolding tokens_decode_proto
  tokens_decode_proto-ne-out_of_fuel input =
      and_then_runs _ _
        ((Reads-decode_fields (tokens_field K) (Reads-tokens_field K) (none, none)).at input).1
        (λ (id, amount).
          and_then_runs _ _ (required_runs id _)
            (λ _. and_then_runs _ _ (required_runs amount _) (λ _ p. cc)))

lift_then :
    {A B : Type 0} (r : Result DecodeError A) (f : A → Read B)
    → r ≢ err DecodeError.out_of_fuel
    → ((a : A) → Reads (f a))
    → Reads (lift r >>= f)
lift_then r f runs rf = Reads-bind (lift r) f (Reads-lift r runs) rf

module _ (L : Libraries) where
  timestamp_to_datetime_runs :
      (ts : Timestamp) → timestamp_to_datetime L ts ≢ err DecodeError.out_of_fuel
  unfolding timestamp_to_datetime
  timestamp_to_datetime_runs ts = ok_or_runs (L.timestamp_opt ts.seconds (clamp ts.nanos))
    where
      ok_or_runs :
          (o : Option ℕ) → ok_or o DecodeError.invalid_timestamp ≢ err DecodeError.out_of_fuel
      ok_or_runs (some t) = λ p. cc
      ok_or_runs none = λ p. cc

  parse_sender_runs : (o : Option Bytes) → parse_sender L o ≢ err DecodeError.out_of_fuel
  unfolding parse_sender
  parse_sender_runs none = λ p. cc
  parse_sender_runs (some bytes) = parsed (L.from_slice bytes)
    where
      parsed :
          (o : Option ℕ)
          → elim o [ some key ↦ ok (some key) | none ↦ err DecodeError.invalid_public_key ]
            ≢ err DecodeError.out_of_fuel
      parsed (some key) = λ p. cc
      parsed none = λ p. cc

  finish_runs : (d : Decoded) → finish L d ≢ err DecodeError.out_of_fuel
  unfolding finish
  finish_runs d = and_then_runs _ _ (required_runs d.version_opt _) (λ version.
      and_then_runs _ _ (required_runs d.id_opt _) (λ id.
        and_then_runs _ _ (required_runs d.payment_type_opt _) (λ payment.
          and_then_runs _ _ (parse_sender_runs d.sender_public_key_opt) (λ sender p. cc))))

module _ (K : Identifier.Libraries) (L : Libraries) where
  pub Reads-invoice_field : (tag : ℕ) (d : Decoded) → Reads (invoice_field K L tag d)
  unfolding invoice_field
  Reads-invoice_field tag d =
      Reads-if (tag / 8 == 1) _ _
        (wired 0 (Reads-bind read_varint_u32 _ Reads-read_varint_u32 (λ v. Reads-pure _)))
        (Reads-if (tag / 8 == 2) _ _
          (wired 2 (
            Reads-with_bytes _ (λ bytes.
              Reads-if (length bytes == 16) _ _ (Reads-pure _)
                (Reads-raise DecodeError.invalid_uuid_bytes_length (λ p. cc)))))
          (Reads-if (tag / 8 == 3) _ _
            (wired 2 (
              Reads-with_bytes _ (λ bytes.
                lift_then (tokens_decode_proto K bytes) _
                  (tokens_decode_proto-ne-out_of_fuel K bytes) (λ p. Reads-pure _))))
            (Reads-if (tag / 8 == 4) _ _
              (wired 2 (
                Reads-with_bytes _ (λ bytes.
                  lift_then (sats_decode_proto bytes) _ (sats_decode_proto-ne-out_of_fuel bytes)
                    (λ p. Reads-pure _))))
              (Reads-if (tag / 8 == 5) _ _
                (wired 2 (
                  Reads-bind read_len _ Reads-read_len (λ l.
                    Reads-bind (read_string L l) _ (Reads-read_string L l) (λ memo. Reads-pure _))))
                (Reads-if (tag / 8 == 6) _ _ (wired 2 (Reads-with_bytes _ (λ key. Reads-pure _))) (
                  Reads-if (tag / 8 == 7) _ _
                    (wired 2 (
                      Reads-with_bytes _ (λ bytes.
                        lift_then (decode_timestamp bytes) _ (Reads-decode_timestamp bytes) (λ ts.
                          lift_then (timestamp_to_datetime L ts) _ (timestamp_to_datetime_runs L ts)
                            (λ t. Reads-pure _)))))
                    (Reads-skip (tag % 8) d)))))))
    where
      wired :
          (wanted : ℕ) {arm : Read Decoded} → Reads arm → Reads (of_wire_type wanted (tag % 8) arm)
      wired wanted r = Reads-of_wire_type wanted (tag % 8) _ r

  -- SparkInvoiceFields::decode_proto ends on every input: its loop, and those of the payment and of
  -- the timestamp inside it, run out of bytes before they run out of rounds.
  pub decode_proto-ne-out_of_fuel :
      (input : Bytes) → decode_proto K L input ≢ err DecodeError.out_of_fuel
  unfolding decode_proto
  decode_proto-ne-out_of_fuel input =
      and_then_runs _ _ ((Reads-decode_fields (invoice_field K L) Reads-invoice_field _).at input).1
        (λ d. and_then_runs _ _ (finish_runs L d) (λ fields p. cc))
