-- ===== src/Spark/Proto/Varint.antt =====
-- What write_varint_u32 and write_varint_u64 write, and how it is read.
use spark_bridge_backend.Prelude.{
  ℕ, zero, suc, ◌+◌, ◌*◌, ◌/◌, ◌%◌, ◌^◌, ◌≤◌, ◌<◌, ◌≡◌, refl, ap, ◌∙◌, [], ◌∷◌, ◌++◌, arith, Bytes,
  All, length,
}
use spark_bridge_backend.Prelude.Exec.{ok}
use spark_bridge_backend.Prelude.Bits.{bit_or_above, bit_or-lt, bit_and_low, bit_and_top}
use spark_bridge_backend.Prelude.WellFounded.{lt_wf}
use spark_bridge_backend.Spark.Proto.{
  write_loop, shift_shrinks, write_varint_u32, write_varint_u64, read_u8, read_rounds,
  read_varint_u32, read_varint_u64,
}
use Prim.Native.Nat.{bit_and, bit_or}
use mathlib.Core.Logic.{dite}
use native.Mathlib.Decide.{dec_lt}
use mathlib.Core.WellFounded.{Acc}
use native.Mathlib.Nat.{div-add-mod}
use native.Mathlib.Numerals.{towards_suc}

low_group : (v : ℕ) → bit_or (bit_and (v % 256) 0x7f) 0x80 ≡ v % 128 + 128
low_group v =
    rw (bit_and_low (v % 256) (omega arith))
      (omega (arith, bit_or_above 7 (v % 256 % 128) 1 (omega arith)))

write_last : (v : ℕ) (w : Acc ◌<◌ v) → v < 128 → write_loop v w ≡ v ∷ []
unfolding write_loop
write_last v (Acc.intro _ smaller) small = ground arith

write_round :
    (v : ℕ) (smaller : (y : ℕ) → y < v → Acc ◌<◌ y) (d : Dec (0x7f < v))
    → 127 < v
    → (w : Acc ◌<◌ (v / 128)) × (dite d
          (λ more.
            bit_or (bit_and (v % 256) 0x7f) 0x80
            ∷ write_loop (v / 128) (smaller (v / 128) (shift_shrinks v more)))
          (λ _. (v % 256) ∷ [])
        ≡ (v % 128 + 128) ∷ write_loop (v / 128) w)
write_round v smaller (yes m) more = (smaller (v / 128) (shift_shrinks v m), rw (low_group v) refl)
write_round v smaller (no n) more = absurd (n more)

write_more :
    (v : ℕ) (w : Acc ◌<◌ v)
    → 127 < v
    → (w' : Acc ◌<◌ (v / 128)) × (write_loop v w ≡ (v % 128 + 128) ∷ write_loop (v / 128) w')
unfolding write_loop
write_more v (Acc.intro _ smaller) more = write_round v smaller (dec_lt 0x7f v) more

pow_seven : (s : ℕ) → 2 ^ (s + 7) ≡ 128 * 2 ^ s
pow_seven s = simp towards_suc (omega arith)

module _ (width : ℕ) where
  accumulate :
      (x s c g : ℕ)
      → bit_and c 0x7f ≡ g
      → x < 2 ^ s
      → x + g * 2 ^ s < 2 ^ width
      → bit_or x (bit_and c 0x7f * 2 ^ s % 2 ^ width) ≡ x + g * 2 ^ s
  accumulate x s c g e above fits =
      rw e (rw (small (g * 2 ^ s) (omega (arith, fits))) (bit_or_above s x g above))
    where
      small : (t : ℕ) → t < 2 ^ width → t % 2 ^ width ≡ t
      small t h = grind arith

  -- One round on the last byte of a number, and one on another byte.
  pub last_round :
      (rounds x s v : ℕ) (rest : Bytes)
      → v < 128
      → x < 2 ^ s
      → x + v * 2 ^ s < 2 ^ width
      → read_rounds width (suc rounds) x s (v ∷ rest) ≡ (ok (x + v * 2 ^ s), rest)
  unfolding read_rounds read_u8
  last_round rounds x s v rest small above fits = ground (
    arith,
    bit_and_top v,
    accumulate x s v v (rw (bit_and_low v (omega arith)) (omega arith)) above fits,
  )

  inner_round :
      (rounds x s g : ℕ) (rest : Bytes)
      → g < 128
      → x < 2 ^ s
      → x + g * 2 ^ s < 2 ^ width
      → read_rounds width (suc rounds) x s ((g + 128) ∷ rest)
        ≡ read_rounds width rounds (x + g * 2 ^ s) (s + 7) rest
  unfolding read_rounds read_u8
  inner_round rounds x s g rest small above fits = ground (
    arith,
    bit_and_top (g + 128),
    accumulate x s (g + 128) g (rw (bit_and_low (g + 128) (omega arith)) (omega arith)) above fits,
  )

  group_fits : (x s g : ℕ) → g < 128 → x < 2 ^ s → x + g * 2 ^ s < 2 ^ (s + 7)
  group_fits x s g small above = rw (pow_seven s) (grind arith)

  split_low : (v s : ℕ) → v * 2 ^ s ≡ v % 128 * 2 ^ s + v / 128 * 2 ^ (s + 7)
  split_low v s = omega (
    arith,
    ap (λ (t : ℕ). t * 2 ^ s) (div-add-mod v 128),
    ap (λ (t : ℕ). v / 128 * t) (pow_seven s),
  )

  round_split :
      (rounds x s v : ℕ) (w : Acc ◌<◌ (v / 128)) (rest : Bytes)
      → x < 2 ^ s
      → x + v * 2 ^ s < 2 ^ width
      → ((y : ℕ)
          → y < 2 ^ (s + 7)
          → y + v / 128 * 2 ^ (s + 7) < 2 ^ width
          → read_rounds width rounds y (s + 7) (write_loop (v / 128) w ++ rest)
            ≡ (ok (y + v / 128 * 2 ^ (s + 7)), rest))
      → read_rounds width (suc rounds) x s ((v % 128 + 128) ∷ (write_loop (v / 128) w ++ rest))
        ≡ (ok (x + v * 2 ^ s), rest)
  round_split rounds x s v w rest above fits later =
      inner_round rounds x s (v % 128) _ (omega arith) above (omega (arith, split_low v s))
      ∙ later (x + v % 128 * 2 ^ s) (group_fits x s (v % 128) (omega arith) above)
          (omega (arith, split_low v s))
      ∙ ap (λ (n : ℕ). (ok n, rest)) (omega (arith, split_low v s))

  pub read_rounds-write_loop :
      (rounds x s v : ℕ) (w : Acc ◌<◌ v) (rest : Bytes)
      → v < 128 ^ suc rounds
      → x < 2 ^ s
      → x + v * 2 ^ s < 2 ^ width
      → read_rounds width (suc rounds) x s (write_loop v w ++ rest) ≡ (ok (x + v * 2 ^ s), rest)
  read_rounds-write_loop zero x s v w rest short above fits =
      rw (write_last v w (omega arith)) (last_round 0 x s v rest (omega arith) above fits)
  read_rounds-write_loop (suc rounds) x s v w rest short above fits = elim (dec_lt 127 v) [
    | yes more ↦
        let (w', e) = write_more v w more in
        rw e (
          round_split (suc rounds) x s v w' rest above fits
            (λ y. read_rounds-write_loop rounds y (s + 7) (v / 128) w' rest (omega arith)))
    | no last ↦
        rw (write_last v w (omega arith))
          (last_round (suc rounds) x s v rest (omega arith) above fits)
  ]

-- A number of 32 bits is read back from its varint, and what follows the varint is left.
pub read_varint_u32-write_varint_u32 :
    (v : ℕ) (rest : Bytes)
    → v < 2 ^ 32
    → read_varint_u32 (write_varint_u32 v ++ rest) ≡ (ok v, rest)
unfolding read_varint_u32 write_varint_u32
read_varint_u32-write_varint_u32 v rest h =
    read_rounds-write_loop 32 4 0 0 v (lt_wf.apply v) rest (omega arith) (omega arith) (omega arith)
    ∙ ap (λ (n : ℕ). (ok n, rest)) (omega arith)

-- A number of 64 bits is read back from its varint, and what follows the varint is left.
pub read_varint_u64-write_varint_u64 :
    (v : ℕ) (rest : Bytes)
    → v < 2 ^ 64
    → read_varint_u64 (write_varint_u64 v ++ rest) ≡ (ok v, rest)
unfolding read_varint_u64 write_varint_u64
read_varint_u64-write_varint_u64 v rest h =
    read_rounds-write_loop 64 9 0 0 v (lt_wf.apply v) rest (omega arith) (omega arith) (omega arith)
    ∙ ap (λ (n : ℕ). (ok n, rest)) (omega arith)

-- The varint of a number below 128 ^ (k + 1) has between 1 and k + 1 elements, and each is a byte.
pub write_loop_shape :
    (k v : ℕ) (w : Acc ◌<◌ v)
    → v < 128 ^ suc k
    → All (λ b. b < 256) (write_loop v w)
      × (1 ≤ length (write_loop v w))
      × (length (write_loop v w) ≤ suc k)
write_loop_shape zero v w h = rw (write_last v w (omega arith)) (omega arith)
write_loop_shape (suc k) v w h = elim (dec_lt 127 v) [
  | yes more ↦
      let (w', e) = write_more v w more in
      let (bytes, low, high) = write_loop_shape k (v / 128) w' (omega arith) in
      rw e ((omega arith, bytes), omega arith, omega (arith, high))
  | no last ↦ rw (write_last v w (omega arith)) (omega arith)
]

read_u8_takes :
    (left : Bytes) (b : ℕ) → (read_u8 left).0 ≡ ok b → suc (length (read_u8 left).1) ≡ length left
unfolding read_u8
read_u8_takes [] b e = cc
read_u8_takes (c ∷ left) b e = refl

-- What a reading returns fits the width, and it takes a byte at least and one for each round at most.
pub read_rounds_takes :
    (width rounds x s v : ℕ) (left : Bytes)
    → x < 2 ^ width
    → (read_rounds width rounds x s left).0 ≡ ok v
    → (v < 2 ^ width)
      × (length (read_rounds width rounds x s left).1 < length left)
      × (length left ≤ length (read_rounds width rounds x s left).1 + rounds)
unfolding read_rounds read_u8
read_rounds_takes width zero x s v left h e = cc
read_rounds_takes width (suc rounds) x s v [] h e = cc
read_rounds_takes width (suc rounds) x s v (b ∷ left) h e = ground (
  arith,
  wrapped,
  read_rounds_takes width rounds (bit_or x (bit_and b 0x7f * 2 ^ s % 2 ^ width)) (s + 7) v left
      wrapped,
)
  where
    below : (t m : ℕ) → 0 < m → t % m < m
    below t m p = grind arith

    wrapped : bit_or x (bit_and b 0x7f * 2 ^ s % 2 ^ width) < 2 ^ width
    wrapped = bit_or-lt width x _ h (below _ (2 ^ width) (omega (arith, h)))
