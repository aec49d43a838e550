-- ===== src/Token/Cursor.antt =====
-- std::io::Cursor over a byte slice, as token_metadata.rs reads it: the state is what is left, and
-- a failed reading is TokenMetadataParseError::IoError.
use spark_bridge_backend.Prelude.{
  ℕ, zero, suc, ◌+◌, ◌*◌, ◌/◌, ◌%◌, ◌^◌, ◌<◌, ◌≡◌, refl, sym, [], ◌∷◌, ◌++◌, arith, leb,
  if◌then◌else◌, Bytes, length, take, drop, length-append, take-append, drop-append,
}
pub use spark_bridge_backend.Prelude.Exec.{bind_ok, bind_err}
use spark_bridge_backend.Prelude.Exec.{ok, err, Exec}

pub data TokenMetadataParseError : Type 0 where
  invalid_name_length invalid_symbol_length invalid_size : ℕ → TokenMetadataParseError
  io_error : TokenMetadataParseError

abbrev pub Read : Type 0 → Type 0
Read A = Exec Bytes TokenMetadataParseError A

unfoldable pub read_u8 : Read ℕ
read_u8 [] = (err TokenMetadataParseError.io_error, [])
read_u8 (b ∷ rest) = (ok b, rest)

unfoldable pub read_exact : ℕ → Read Bytes
read_exact n left =
    if leb n (length left)
    then (ok (take n left), drop n left)
    else (err TokenMetadataParseError.io_error, [])

-- the first bytes of a buffer of zeros overwritten
pub fill : ℕ → Bytes → Bytes
fill zero left = []
fill (suc n) [] = 0 ∷ fill n []
fill (suc n) (b ∷ left) = b ∷ fill n left

-- `cursor.read(&mut [0u8; n])`, which reads what there is
pub read : ℕ → Read Bytes
read n left = (ok (fill n left), drop n left)

-- u128::to_le_bytes and from_le_bytes, for any number of bytes
unfoldable pub to_le_bytes : ℕ → ℕ → Bytes
to_le_bytes zero v = []
to_le_bytes (suc n) v = (v % 256) ∷ to_le_bytes n (v / 256)

pub from_le_bytes : Bytes → ℕ
from_le_bytes [] = 0
from_le_bytes (b ∷ bs) = b + 256 * from_le_bytes bs

pub read_exact_lem :
    (n : ℕ) (xs rest : Bytes) → length xs ≡ n → read_exact n (xs ++ rest) ≡ (ok xs, rest)
unfolding read_exact
read_exact_lem n xs rest h =
    rw (sym h) (ground (arith, length-append xs rest, take-append xs rest, drop-append xs rest))

pub read_exact_short :
    (n : ℕ) (left : Bytes)
    → length left < n
    → (read_exact n left).0 ≡ err TokenMetadataParseError.io_error
unfolding read_exact
read_exact_short n left h = ground arith

fill-append : (xs rest : Bytes) → fill (length xs) (xs ++ rest) ≡ xs
unfolding fill
fill-append [] rest = refl
fill-append (x ∷ xs) rest = rw (fill-append xs rest) refl

pub read_lem : (n : ℕ) (xs rest : Bytes) → length xs ≡ n → read n (xs ++ rest) ≡ (ok xs, rest)
unfolding read
read_lem n xs rest h = rw (sym h) (rw (fill-append xs rest, drop-append xs rest) refl)

pub length-to_le_bytes : (n v : ℕ) → length (to_le_bytes n v) ≡ n
unfolding to_le_bytes
length-to_le_bytes zero v = refl
length-to_le_bytes (suc n) v = omega (arith, length-to_le_bytes n (v / 256))

pub from_le_bytes-to_le_bytes : (n v : ℕ) → v < 256 ^ n → from_le_bytes (to_le_bytes n v) ≡ v
unfolding to_le_bytes from_le_bytes
from_le_bytes-to_le_bytes zero v h = omega arith
from_le_bytes-to_le_bytes (suc n) v h =
    omega (arith, from_le_bytes-to_le_bytes n (v / 256) (omega arith))
