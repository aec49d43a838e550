-- ===== src/Prelude/Bits.antt =====
-- The bit operations that the byte formats use, as arithmetic.
use Prim.Native.Nat.{
  ℕ, zero, suc, ◌+◌, ◌*◌, ◌/◌, ◌%◌, ◌^◌, ◌≤◌, ◌<◌, max, digits, bit_and, bit_or, bit_or-bitwise,
}
use mathlib.Core.Path.{◌≡◌, refl, ap, ◌∙◌}
use mathlib.Core.Bool.{Bool, true, ◌&&◌}
use native.Mathlib.Omega.{arith}
use native.Mathlib.Nat.{pow-suc}
use spark_bridge_backend.Prelude.Tests.{◌==◌}

-- `|` with a count of the digits still to go, for which any bound of the first number serves
abbrev ors : ℕ → ℕ → ℕ → ℕ
ors = digits (λ b. b) max

ors_above : (n k x y g : ℕ) → x ≤ n → x < 2 ^ k → y ≡ g * 2 ^ k → ors n x y ≡ x + y
ors_above zero k zero y g below fits e = omega arith
ors_above zero k (suc x) y g below fits e = absurd (omega arith)
ors_above (suc n) k zero y g below fits e = omega arith
ors_above (suc n) zero (suc x) y g below fits e = absurd (omega arith)
ors_above (suc n) (suc k) (suc x) y g below fits e = ground (
  arith,
  double,
  ors_above n k (suc x / 2) (y / 2) g (omega arith) (omega (arith, pow-suc 2 k))
      (omega (arith, double)),
)
  where
    double : y ≡ 2 * (g * 2 ^ k)
    double = omega (arith, ap (λ (t : ℕ). g * t) (pow-suc 2 k))

-- `x | (g << k)` is a sum when `x` fits `k` bits.
pub bit_or_above : (k x g : ℕ) → x < 2 ^ k → bit_or x (g * 2 ^ k) ≡ x + g * 2 ^ k
bit_or_above k x g fits =
    simp bit_or-bitwise (ors_above x k x (g * 2 ^ k) g (omega arith) fits refl)

ors_below : (n k x y g : ℕ) → y ≤ n → x < 2 ^ k → y ≡ g * 2 ^ k → ors n y x ≡ y + x
ors_below zero k x zero g below fits e = omega arith
ors_below zero k x (suc y) g below fits e = absurd (omega arith)
ors_below (suc n) k x zero g below fits e = omega arith
ors_below (suc n) zero x (suc y) g below fits e = ground (
  arith,
  ors_below n zero (x / 2) (suc y / 2) (suc y / 2) (omega arith) (omega arith) (omega arith),
)
ors_below (suc n) (suc k) x (suc y) g below fits e = ground (
  arith,
  double,
  ors_below n k (x / 2) (suc y / 2) g (omega arith) (omega (arith, pow-suc 2 k))
      (omega (arith, double)),
)
  where
    double : suc y ≡ 2 * (g * 2 ^ k)
    double = e ∙ omega (arith, ap (λ (t : ℕ). g * t) (pow-suc 2 k))

-- `(g << k) | x` is the same sum.
pub bit_or_below : (k g x : ℕ) → x < 2 ^ k → bit_or (g * 2 ^ k) x ≡ g * 2 ^ k + x
bit_or_below k g x fits =
    simp bit_or-bitwise (ors_below (g * 2 ^ k) k x (g * 2 ^ k) g (omega arith) fits refl)

ors-lt : (n k a b : ℕ) → a ≤ n → a < 2 ^ k → b < 2 ^ k → ors n a b < 2 ^ k
ors-lt zero k a b below p q = q
ors-lt (suc n) k zero b below p q = q
ors-lt (suc n) zero (suc a) b below p q = absurd (omega arith)
ors-lt (suc n) (suc k) (suc a) b below p q =
    omega (arith, pow-suc 2 k, ors-lt n k (suc a / 2) (b / 2) (omega arith) half half_b)
  where
    half : suc a / 2 < 2 ^ k
    half = omega (arith, pow-suc 2 k)

    half_b : b / 2 < 2 ^ k
    half_b = omega (arith, pow-suc 2 k)

pub bit_or-lt : (k a b : ℕ) → a < 2 ^ k → b < 2 ^ k → bit_or a b < 2 ^ k
bit_or-lt k a b p q = simp bit_or-bitwise (ors-lt a k a b (omega arith) p q)

-- On a byte the masks are tables of 256 entries.
bytes_agree : (ℕ → ℕ) → (ℕ → ℕ) → ℕ → Bool
bytes_agree f g zero = true
bytes_agree f g (suc n) = (f n == g n) && bytes_agree f g n

bytes_agree_sound : (f g : ℕ → ℕ) (n b : ℕ) → bytes_agree f g n ≡ true → b < n → f b ≡ g b
unfolding bytes_agree
bytes_agree_sound f g zero b h below = absurd (omega arith)
bytes_agree_sound f g (suc n) b h below = ground (arith, bytes_agree_sound f g n b)

pub bit_and_low : (b : ℕ) → b < 256 → bit_and b 0x7f ≡ b % 128
unfolding bytes_agree
bit_and_low b = bytes_agree_sound (λ x. bit_and x 0x7f) (λ x. x % 128) 256 b refl

pub bit_and_top : (b : ℕ) → b < 256 → bit_and b 0x80 ≡ b / 128 * 128
unfolding bytes_agree
bit_and_top b = bytes_agree_sound (λ x. bit_and x 0x80) (λ x. x / 128 * 128) 256 b refl
