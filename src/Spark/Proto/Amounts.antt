-- ===== src/Spark/Proto/Amounts.antt =====
-- Amounts of tokens in big-endian bytes.
use spark_bridge_backend.Prelude.{
  ℕ, zero, suc, ◌+◌, ◌*◌, ◌/◌, ◌%◌, ◌^◌, ◌≤◌, ◌<◌, ◌≡◌, refl, ap, ◌∙◌, [], ◌∷◌, ◌++◌, arith, Bytes,
  length, length-append,
}
use spark_bridge_backend.Prelude.Bits.{bit_or_below}
use spark_bridge_backend.Spark.Proto.{to_be_bytes, from_be_bytes, strip_zeros, or_zero}
use Prim.Native.Nat.{bit_or}
use native.Mathlib.Nat.{pow-suc}

push_byte :
    (v b : ℕ) → b < 256 → v * 256 + b < 2 ^ 128 → bit_or (v * 2 ^ 8 % 2 ^ 128) b ≡ v * 256 + b
push_byte v b small fits = ap (λ (t : ℕ). bit_or t b) whole ∙ bit_or_below 8 v b (omega arith)
  where
    whole : v * 2 ^ 8 % 2 ^ 128 ≡ v * 2 ^ 8
    whole = omega (arith, fits)

from_be_bytes_last :
    (v b : ℕ) (bs : Bytes)
    → from_be_bytes v (bs ++ (b ∷ [])) ≡ bit_or (from_be_bytes v bs * 2 ^ 8 % 2 ^ 128) b
unfolding from_be_bytes
from_be_bytes_last v b [] = refl
from_be_bytes_last v b (c ∷ bs) = from_be_bytes_last (bit_or (v * 2 ^ 8 % 2 ^ 128) c) b bs

from_be_bytes-to_be_bytes :
    (n v : ℕ) → v < 256 ^ n → v < 2 ^ 128 → from_be_bytes 0 (to_be_bytes n v) ≡ v
unfolding from_be_bytes to_be_bytes
from_be_bytes-to_be_bytes zero v h fits = omega arith
from_be_bytes-to_be_bytes (suc n) v h fits =
    from_be_bytes_last 0 (v % 256) (to_be_bytes n (v / 256))
    ∙ ap (λ (t : ℕ). bit_or (t * 2 ^ 8 % 2 ^ 128) (v % 256))
        (from_be_bytes-to_be_bytes n (v / 256) (omega (arith, pow-suc 256 n)) (omega arith))
    ∙ push_byte (v / 256) (v % 256) (omega arith) (omega arith)
    ∙ omega arith

zero_byte : bit_or (0 * 2 ^ 8 % 2 ^ 128) 0 ≡ 0
zero_byte = refl

from_be_bytes-strip_zeros : (bs : Bytes) → from_be_bytes 0 (strip_zeros bs) ≡ from_be_bytes 0 bs
unfolding from_be_bytes strip_zeros
from_be_bytes-strip_zeros [] = refl
from_be_bytes-strip_zeros (b ∷ bs) = ground (arith, from_be_bytes-strip_zeros bs, zero_byte)

from_be_bytes-or_zero : (bs : Bytes) → from_be_bytes 0 (or_zero bs) ≡ from_be_bytes 0 bs
unfolding from_be_bytes or_zero
from_be_bytes-or_zero [] = refl
from_be_bytes-or_zero (b ∷ bs) = refl

-- The bytes that stand for an amount give it back.
pub from_be_bytes_stripped :
    (v : ℕ) → v < 2 ^ 128 → from_be_bytes 0 (or_zero (strip_zeros (to_be_bytes 16 v))) ≡ v
from_be_bytes_stripped v h =
    from_be_bytes-or_zero (strip_zeros (to_be_bytes 16 v))
    ∙ from_be_bytes-strip_zeros (to_be_bytes 16 v)
    ∙ from_be_bytes-to_be_bytes 16 v (omega arith) h

length-to_be_bytes : (n v : ℕ) → length (to_be_bytes n v) ≡ n
unfolding to_be_bytes
length-to_be_bytes zero v = refl
length-to_be_bytes (suc n) v =
    rw (length-append (to_be_bytes n (v / 256)) ((v % 256) ∷ []))
      (omega (arith, length-to_be_bytes n (v / 256)))

length-strip_zeros : (bs : Bytes) → length (strip_zeros bs) ≤ length bs
unfolding strip_zeros
length-strip_zeros [] = omega arith
length-strip_zeros (b ∷ bs) = ground (arith, length-strip_zeros bs)

length-or_zero : (bs : Bytes) → length bs ≤ 16 → length (or_zero bs) ≤ 16
unfolding or_zero
length-or_zero [] h = omega arith
length-or_zero (b ∷ bs) h = h

pub length_stripped : (v : ℕ) → length (or_zero (strip_zeros (to_be_bytes 16 v))) ≤ 16
length_stripped v =
    length-or_zero _ (omega (arith, length-strip_zeros (to_be_bytes 16 v), length-to_be_bytes 16 v))
