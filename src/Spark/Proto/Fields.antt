-- ===== src/Spark/Proto/Fields.antt =====
-- Fields that were written, read back.
use spark_bridge_backend.Prelude.{
  ℕ, zero, suc, ◌+◌, ◌/◌, ◌%◌, ◌^◌, ◌≤◌, ◌<◌, ◌≡◌, refl, ap, ◌∙◌, ◌≢◌, true, [], ◌∷◌, ◌++◌, arith,
  ◌==◌, if◌then◌else◌, Bytes, length, length-append, take-append, drop-append,
}
use spark_bridge_backend.Prelude.Exec.{ok, err, pure, ◌>>=◌}
use spark_bridge_backend.Spark.Proto.{
  Libraries, DecodeError, Read, Timestamp, ensure, read_varint_u32, read_varint_u64, read_len,
  read_bytes, read_string, skip_field, decode_fields, fields_loop, decode_timestamp_field,
  decode_timestamp, to_i32, write_varint_u32, write_varint_u64, write_len_prefixed_bytes,
  write_int64, write_int32, write_timestamp,
}
use spark_bridge_backend.Prelude.WellFounded.{lt_wf}
use spark_bridge_backend.Spark.Proto.Varint.{
  write_loop_shape, read_varint_u32-write_varint_u32, read_varint_u64-write_varint_u64,
}
use spark_bridge_backend.Spark.Proto.Reads.{
  Reads-of_wire_type, Reads, Reads-bind, Reads-pure, Reads-if, Reads-read_varint_u32,
  Reads-read_varint_u64, Reads-skip_field, decode_fields-field, Reads-decode_fields,
}
use mathlib.Core.List.{append_assoc, append-nil}

read_len-write_len :
    (n : ℕ) (left : Bytes)
    → n < 2 ^ 32
    → n ≤ length left
    → read_len (write_varint_u32 n ++ left) ≡ (ok n, left)
unfolding read_len ensure
read_len-write_len n left small enough =
    ground (arith, read_varint_u32-write_varint_u32 n left small)

read_bytes_lem : (bytes rest : Bytes) → read_bytes (length bytes) (bytes ++ rest) ≡ (ok bytes, rest)
unfolding read_bytes ensure
read_bytes_lem bytes rest =
    ground (arith, length-append bytes rest, take-append bytes rest, drop-append bytes rest)

-- A body that reads a length and then as many bytes has what was written with its length.
pub read_prefixed :
    {A : Type 0} (f : Bytes → Read A) (bytes rest : Bytes)
    → length bytes < 2 ^ 32
    → (read_len >>= λ l. read_bytes l >>= f) (write_varint_u32 (length bytes) ++ (bytes ++ rest))
      ≡ f bytes rest
read_prefixed f bytes rest small = ground (
  arith,
  length-append bytes rest,
  read_len-write_len (length bytes) (bytes ++ rest) small,
  read_bytes_lem bytes rest,
)

pub write_len_prefixed_bytes_lem :
    (bytes : Bytes)
    → length bytes < 2 ^ 32
    → write_len_prefixed_bytes bytes ≡ write_varint_u32 (length bytes) ++ bytes
unfolding write_len_prefixed_bytes
write_len_prefixed_bytes_lem bytes small =
    ap (λ (n : ℕ). write_varint_u32 n ++ bytes) (omega (arith, small))

pub read_written :
    {A : Type 0} (f : Bytes → Read A) (bytes rest : Bytes)
    → length bytes < 2 ^ 32
    → (read_len >>= λ l. read_bytes l >>= f) (write_len_prefixed_bytes bytes ++ rest) ≡ f bytes rest
read_written f bytes rest small = rw (write_len_prefixed_bytes_lem bytes small) (
    rw (append_assoc (write_varint_u32 (length bytes)) bytes rest)
      (read_prefixed f bytes rest small))

-- The same for a text.
pub read_written_text :
    (L : Libraries) {A : Type 0} (f : Bytes → Read A) (text rest : Bytes)
    → length text < 2 ^ 32
    → L.is_utf8 text ≡ true
    → (read_len >>= λ l. read_string L l >>= f) (write_len_prefixed_bytes text ++ rest)
      ≡ f text rest
unfolding read_string
read_written_text L f text rest small valid = rw (write_len_prefixed_bytes_lem text small) (
    rw (append_assoc (write_varint_u32 (length text)) text rest) (
      ground (
        arith,
        length-append text rest,
        read_len-write_len (length text) (text ++ rest) small,
        read_bytes_lem text rest,
        valid,
      )))

pub length-write_varint_u32 : (v : ℕ) → v < 2 ^ 32 → length (write_varint_u32 v) ≤ 5
unfolding write_varint_u32
length-write_varint_u32 v small = (write_loop_shape 4 v (lt_wf.apply v) (omega (arith, small))).2

pub length-write_varint_u64 : (v : ℕ) → v < 2 ^ 64 → length (write_varint_u64 v) ≤ 10
unfolding write_varint_u64
length-write_varint_u64 v small = (write_loop_shape 9 v (lt_wf.apply v) (omega (arith, small))).2

pub length-write_len_prefixed_bytes :
    (bytes : Bytes)
    → length bytes < 2 ^ 32
    → length (write_len_prefixed_bytes bytes) ≤ 5 + length bytes
length-write_len_prefixed_bytes bytes small = rw (write_len_prefixed_bytes_lem bytes small) (
    omega (
      arith,
      length-append (write_varint_u32 (length bytes)) bytes,
      length-write_varint_u32 (length bytes) small,
    ))

abbrev seen : ℕ → ℕ → Timestamp
seen seconds nanos = record { seconds = seconds; nanos = nanos }

-- the fields of a timestamp
Reads-decode_timestamp_field : (tag : ℕ) (ts : Timestamp) → Reads (decode_timestamp_field tag ts)
unfolding decode_timestamp_field
Reads-decode_timestamp_field tag ts =
    Reads-if (tag / 8 == 1) _ _
      (Reads-of_wire_type 0 (tag % 8) _ (
        Reads-bind read_varint_u64 (λ v. pure (seen v ts.nanos)) Reads-read_varint_u64
          (λ v. Reads-pure (seen v ts.nanos))))
      (Reads-if (tag / 8 == 2) _ _
        (Reads-of_wire_type 0 (tag % 8) _ (
          Reads-bind read_varint_u32 (λ v. pure (seen ts.seconds (to_i32 v))) Reads-read_varint_u32
            (λ v. Reads-pure (seen ts.seconds (to_i32 v)))))
        (Reads-bind (skip_field (tag % 8)) _ (Reads-skip_field (tag % 8)) (λ _. Reads-pure ts)))

pub Reads-decode_timestamp : (input : Bytes) → decode_timestamp input ≢ err DecodeError.out_of_fuel
unfolding decode_timestamp
Reads-decode_timestamp input =
    ((Reads-decode_fields decode_timestamp_field Reads-decode_timestamp_field _).at input).1

nanos_field :
    (seconds nanos : ℕ) (rest : Bytes)
    → nanos < 2 ^ 31
    → decode_timestamp_field 0x10 (seen seconds 0) (write_int32 nanos ++ rest)
      ≡ (ok (seen seconds nanos), rest)
unfolding decode_timestamp_field write_int32
nanos_field seconds nanos rest small =
    ground (arith, read_varint_u32-write_varint_u32 nanos rest (omega (arith, small)))

seconds_field :
    (seconds nanos : ℕ) (rest : Bytes)
    → seconds < 2 ^ 64
    → decode_timestamp_field 0x08 (seen 0 nanos) (write_int64 seconds ++ rest)
      ≡ (ok (seen seconds nanos), rest)
unfolding decode_timestamp_field write_int64
seconds_field seconds nanos rest small =
    ground (arith, read_varint_u64-write_varint_u64 seconds rest small)

abbrev nanos_bytes : ℕ → Bytes
nanos_bytes nanos = if nanos == 0 then [] else 0x10 ∷ write_int32 nanos

-- what is written for a number that is not 0
written : (tag n : ℕ) (bytes : Bytes) → (if suc n == 0 then [] else tag ∷ bytes) ≡ tag ∷ bytes
written tag n bytes = ground arith

read_nanos :
    (seconds nanos : ℕ)
    → nanos < 2 ^ 31
    → (decode_fields decode_timestamp_field (seen seconds 0) (nanos_bytes nanos)).0
      ≡ ok (seen seconds nanos)
unfolding decode_fields fields_loop
read_nanos seconds zero small = refl
read_nanos seconds (suc nanos) small =
    ap (λ t. (decode_fields decode_timestamp_field (seen seconds 0) t).0)
      (written 0x10 nanos (write_int32 (suc nanos)))
    ∙ ap (λ p. p.0)
        (decode_fields-field decode_timestamp_field Reads-decode_timestamp_field 0x10
          (seen seconds 0) (seen seconds (suc nanos)) (write_int32 (suc nanos)) [] (omega arith)
          (omega arith) (rw append-nil at (nanos_field seconds (suc nanos) [] small)))

-- What write_timestamp wrote is decoded to the same seconds and nanos, if the nanos are not negative.
pub decode_timestamp-write_timestamp :
    (seconds nanos : ℕ)
    → seconds < 2 ^ 64
    → nanos < 2 ^ 31
    → decode_timestamp (write_timestamp seconds nanos) ≡ ok (seen seconds nanos)
unfolding decode_timestamp write_timestamp
decode_timestamp-write_timestamp zero nanos h small = read_nanos 0 nanos small
decode_timestamp-write_timestamp (suc seconds) nanos h small =
    ap (λ t. (decode_fields decode_timestamp_field (seen 0 0) (t ++ nanos_bytes nanos)).0)
      (written 0x08 seconds (write_int64 (suc seconds)))
    ∙ ap (λ p. p.0)
        (decode_fields-field decode_timestamp_field Reads-decode_timestamp_field 0x08 (seen 0 0)
          (seen (suc seconds) 0) (write_int64 (suc seconds) ++ nanos_bytes nanos)
          (nanos_bytes nanos) (omega arith) (omega arith)
          (seconds_field (suc seconds) 0 (nanos_bytes nanos) h))
    ∙ read_nanos (suc seconds) nanos small
