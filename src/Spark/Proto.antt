-- ===== src/Spark/Proto.antt =====
-- crates/spark-invoice/src/proto.rs. A writer is the bytes that it appends to its buffer; the state
-- of a reader is what its buffer holds from the position on. An i64 and an i32 are their bit
-- patterns, below 2 ^ 64 and 2 ^ 32; a public key and a date are numbers.
pub mod Varint
pub mod Reads
pub mod Fields
pub mod Amounts
use spark_bridge_backend.Prelude.{
  ℕ, zero, suc, ◌+◌, ◌-◌, ◌*◌, ◌/◌, ◌%◌, ◌^◌, ◌≤◌, ◌<◌, String, ◌≡◌, refl, sym, ap, ◌∙◌, ◌≢◌, ◌↔◌,
  ◌⊎◌, inl, inr, Bool, true, false, not, ◌&&◌, ◌||◌, Option, none, some, List, [], ◌∷◌, ◌++◌, map,
  arith, ltb, leb, ◌==◌, if◌then◌else◌, ==_iff, ==_refl, Bool-cases, Option-cases, is_none, is_some,
  Bytes, bytes_eq, bytes_eq_refl, bytes_eq_sound, All, length, get_elem?, take, drop, length-append,
  length-drop, take-append, drop-append, leb→le, ltb→lt,
}
use spark_bridge_backend.Prelude.Exec.{
  Result, ok, err, Exec, pure, raise, lift, ◌>>=◌, ◌>>◌, ok_or, map_err, ◌and_then◌,
}
use spark_bridge_backend.Prelude.WellFounded.{lt_wf}
use spark_bridge_backend.Token.Identifier.{TokenIdentifierParseError}
use Prim.Native.Nat.{min, max, bit_and, bit_or}
use mathlib.Core.Logic.{dite}
use mathlib.Core.WellFounded.{Acc}
use native.Mathlib.Decide.{dec_lt}

-- `out_of_fuel` is no error of the source: a loop of the model has run out of its fuel.
pub data DecodeError : Type 0 where
  truncated overflow invalid_wire_type utf8 invalid_timestamp : DecodeError
  invalid_token_identifier : TokenIdentifierParseError → DecodeError
  invalid_uuid_bytes_length invalid_u128_bytes_length invalid_public_key : DecodeError
  missing_field : String → DecodeError
  out_of_fuel : DecodeError

-- What the code takes from the libraries std, bitcoin and chrono: String::from_utf8,
-- PublicKey::serialize and from_slice, and DateTime's timestamp, timestamp_subsec_nanos and
-- Utc.timestamp_opt(..).single(); and SHA-256.
pub record Libraries : Type 0 where
  pub is_utf8 : Bytes → Bool
  pub serialize : ℕ → Bytes
  pub from_slice : Bytes → Option ℕ
  pub timestamp : ℕ → ℕ
  pub timestamp_subsec_nanos : ℕ → ℕ
  pub timestamp_opt : ℕ → ℕ → Option ℕ
  pub sha256 : Bytes → Bytes

pub shift_shrinks : (v : ℕ) → 127 < v → v / 128 < v
shift_shrinks v h = omega arith

-- `v as u8` is `v % 256` and `v >>= 7` is `v / 128`.
unfoldable pub write_loop : (v : ℕ) → Acc ◌<◌ v → Bytes
write_loop v (Acc.intro _ smaller) =
    dite (dec_lt 0x7f v)
      (λ more.
        bit_or (bit_and (v % 256) 0x7f) 0x80
        ∷ write_loop (v / 128) (smaller _ (shift_shrinks v more)))
      (λ _. (v % 256) ∷ [])

unfoldable pub write_varint_u32 : ℕ → Bytes
write_varint_u32 v = write_loop v (lt_wf.apply v)

unfoldable pub write_varint_u64 : ℕ → Bytes
write_varint_u64 v = write_loop v (lt_wf.apply v)

-- u128::to_be_bytes, for any number of bytes
unfoldable pub to_be_bytes : ℕ → ℕ → Bytes
to_be_bytes zero v = []
to_be_bytes (suc n) v = to_be_bytes n (v / 256) ++ ((v % 256) ∷ [])

-- `v = (v << 8) | b` for each byte
unfoldable pub from_be_bytes : ℕ → Bytes → ℕ
from_be_bytes v [] = v
from_be_bytes v (b ∷ bs) = from_be_bytes (bit_or (v * 2 ^ 8 % 2 ^ 128) b) bs

-- the bytes from the first one that is not 0
unfoldable pub strip_zeros : Bytes → Bytes
strip_zeros [] = []
strip_zeros (b ∷ bs) = let rest = strip_zeros bs in if b == 0 then rest else b ∷ bs

unfoldable pub or_zero : Bytes → Bytes
or_zero [] = 0 ∷ []
or_zero (b ∷ bs) = b ∷ bs

-- `bytes.len() as u32`
unfoldable pub write_len_prefixed_bytes : Bytes → Bytes
write_len_prefixed_bytes bytes = write_varint_u32 (length bytes % 2 ^ 32) ++ bytes

abbrev pub write_len_prefixed_str : Bytes → Bytes
write_len_prefixed_str s = write_len_prefixed_bytes s

unfoldable pub write_u128_be_bytes : ℕ → Bytes
write_u128_be_bytes v = write_len_prefixed_bytes (or_zero (strip_zeros (to_be_bytes 16 v)))

unfoldable pub write_int64 : ℕ → Bytes
write_int64 v = write_varint_u64 v

unfoldable pub write_int32 : ℕ → Bytes
write_int32 v = write_varint_u32 v

abbrev pub timestamp_seconds_tag : ℕ
timestamp_seconds_tag = 0x08

abbrev pub timestamp_nanos_tag : ℕ
timestamp_nanos_tag = 0x10

unfoldable pub write_timestamp : ℕ → ℕ → Bytes
write_timestamp seconds nanos =
    (if seconds == 0 then [] else timestamp_seconds_tag ∷ write_int64 seconds)
    ++ (if nanos == 0 then [] else timestamp_nanos_tag ∷ write_int32 nanos)

abbrev pub Read : Type 0 → Type 0
Read A = Exec Bytes DecodeError A

unfoldable pub ensure : ℕ → Read (Unit {0})
ensure need left = if ltb (length left) need then raise DecodeError.truncated left else pure tt left

unfoldable pub read_u8 : Read ℕ
read_u8 [] = (err DecodeError.truncated, [])
read_u8 (b ∷ left) = (ok b, left)

-- Up to so many rounds on a number of `width` bits, with `x` read and the shift `s`.
unfoldable pub read_rounds : ℕ → ℕ → ℕ → ℕ → Read ℕ
read_rounds width zero x s = raise DecodeError.overflow
read_rounds width (suc rounds) x s = do
  b ← read_u8
  let x' = bit_or x (bit_and b 0x7f * 2 ^ s % 2 ^ width)
  let more = read_rounds width rounds x' (s + 7)
  if bit_and b 0x80 == 0 then pure x' else more

unfoldable pub read_varint_u32 : Read ℕ
read_varint_u32 = read_rounds 32 5 0 0

unfoldable pub read_varint_u64 : Read ℕ
read_varint_u64 = read_rounds 64 10 0 0

unfoldable pub read_len : Read ℕ
read_len = do l ← read_varint_u32; ensure l; pure l

unfoldable pub advance : ℕ → Read (Unit {0})
advance n left = (ok tt, drop n left)

unfoldable pub read_bytes : ℕ → Read Bytes
read_bytes len = do ensure len; λ left. (ok (take len left), drop len left)

unfoldable pub skip_field : ℕ → Read (Unit {0})
skip_field wire_type =
    if wire_type == 0
    then (read_varint_u64 >> pure tt)
    else if wire_type == 1
    then (ensure 8 >> advance 8)
    else if wire_type == 2
    then (read_len >>= advance)
    else if wire_type == 5
    then (ensure 4 >> advance 4)
    else raise DecodeError.invalid_wire_type

-- `tag >> 3` is `tag / 8` and `tag & 7` is `tag % 8`.
-- One round of `while pos < len`: the tag is read, 0 ends the loop, and the body takes what was
-- decoded so far to what is decoded after the field.
unfoldable pub round : {S : Type 0} → (ℕ → S → Read S) → (S → Read S) → S → Read S
round body next s = do tag ← read_varint_u32; if tag == 0 then pure s else (body tag s >>= next)

unfoldable pub fields_loop : {S : Type 0} → (ℕ → S → Read S) → ℕ → S → Read S
fields_loop body fuel s [] = pure s []
fields_loop body zero s (b ∷ left) = raise DecodeError.out_of_fuel (b ∷ left)
fields_loop body (suc fuel) s (b ∷ left) = round body (fields_loop body fuel) s (b ∷ left)

-- A round takes a byte at least, so as many rounds as there are bytes are enough.
unfoldable pub decode_fields : {S : Type 0} → (ℕ → S → Read S) → S → Read S
decode_fields body s left = fields_loop body (length left) s left

pub record Timestamp : Type 0 where
  pub seconds : ℕ
  pub nanos : ℕ

-- `if wt != wanted { return Err(..) }` before the rest of an arm
abbrev pub of_wire_type : {A : Type 0} → ℕ → ℕ → Read A → Read A
of_wire_type wanted wt arm = if wt == wanted then arm else raise DecodeError.invalid_wire_type

-- i32::try_from(v).unwrap_or(i32::MAX)
abbrev pub to_i32 : ℕ → ℕ
to_i32 v = if ltb v (2 ^ 31) then v else 2 ^ 31 - 1

unfoldable pub decode_timestamp_field : ℕ → Timestamp → Read Timestamp
decode_timestamp_field tag ts =
    if tag / 8 == 1
    then of_wire_type 0 (tag % 8)
        (read_varint_u64 >>= (λ v. pure (record { seconds = v; nanos = ts.nanos })))
    else if tag / 8 == 2
    then of_wire_type 0 (tag % 8)
        (read_varint_u32 >>= (λ v. pure (record { seconds = ts.seconds; nanos = to_i32 v })))
    else (skip_field (tag % 8) >> pure ts)

unfoldable pub decode_timestamp : Bytes → Result DecodeError Timestamp
decode_timestamp input =
    (decode_fields decode_timestamp_field (record { seconds = 0; nanos = 0 }) input).0

-- nanos.clamp(0, 999_999_999), on the bit pattern of an i32
abbrev pub clamp : ℕ → ℕ
clamp nanos = if ltb nanos (2 ^ 31) then min nanos 999_999_999 else 0

unfoldable pub timestamp_to_datetime : Libraries → Timestamp → Result DecodeError ℕ
timestamp_to_datetime L ts =
    ok_or (L.timestamp_opt ts.seconds (clamp ts.nanos)) DecodeError.invalid_timestamp

unfoldable pub read_string : Libraries → ℕ → Read Bytes
read_string L len = do b ← read_bytes len; if L.is_utf8 b then pure b else raise DecodeError.utf8
