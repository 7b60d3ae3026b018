-- ===== src/Base/Bits.antt =====
-- Single bits of a number, and the bit sets that Go writes with `|=`, `&`, `&^` and `1 <<`.
use Prim.Native.Nat.{
  ℕ, zero, suc, ◌+◌, ◌-◌, ◌*◌, ◌/◌, ◌%◌, ◌^◌, ◌≤◌, ◌<◌, min, max, bit_and, bit_or, digits,
  bit_and-bitwise, bit_or-bitwise,
}
use mathlib.Core.Path.{◌≡◌, refl, ap, ◌∙◌}
use mathlib.Core.Bool.{Bool, false, ◌&&◌, ◌||◌, not}
use native.Mathlib.Nat.{pow-suc, mod-lt, mod-eq_of_lt, div-add-mod', add-mul-mod_self_right}
use native.Mathlib.Omega.{arith}
use lightpod.Base.Tests.{◌==◌}

-- The recursion of the native operations does not depend on its count of digits.
module _ (z : ℕ → ℕ) (f : ℕ → ℕ → ℕ) where
  digits_enough : (n m x y : ℕ) → x ≤ n → x ≤ m → digits z f n x y ≡ digits z f m x y
  digits_enough zero zero x y p q = refl
  digits_enough zero (suc m) zero y p q = refl
  digits_enough zero (suc m) (suc x) y p q = absurd (omega arith)
  digits_enough (suc n) zero zero y p q = refl
  digits_enough (suc n) zero (suc x) y p q = absurd (omega arith)
  digits_enough (suc n) (suc m) zero y p q = refl
  digits_enough (suc n) (suc m) (suc x) y p q =
      omega (arith, digits_enough n m (suc x / 2) (y / 2) (omega arith) (omega arith))

zero-bit_and : (y : ℕ) → bit_and 0 y ≡ 0
zero-bit_and y = bit_and-bitwise 0 y

pub zero-bit_or : (y : ℕ) → bit_or 0 y ≡ y
zero-bit_or y = bit_or-bitwise 0 y

-- The lowest digit of the result, and the rest.
bit_and_step : (x y : ℕ) → bit_and x y ≡ bit_and (x / 2) (y / 2) * 2 + min (x % 2) (y % 2)
bit_and_step zero y = omega (arith, zero-bit_and y, zero-bit_and (y / 2))
bit_and_step (suc x) y = omega (
  arith,
  bit_and-bitwise (suc x) y,
  bit_and-bitwise (suc x / 2) (y / 2),
  digits_enough (λ y. zero) min x (suc x / 2) (suc x / 2) (y / 2) (omega arith) (omega arith),
)

bit_or_step : (x y : ℕ) → bit_or x y ≡ bit_or (x / 2) (y / 2) * 2 + max (x % 2) (y % 2)
bit_or_step zero y = omega (arith, zero-bit_or y, zero-bit_or (y / 2))
bit_or_step (suc x) y = omega (
  arith,
  bit_or-bitwise (suc x) y,
  bit_or-bitwise (suc x / 2) (y / 2),
  digits_enough (λ y. y) max x (suc x / 2) (suc x / 2) (y / 2) (omega arith) (omega arith),
)

bit_and-le_count : (n x y : ℕ) → x ≤ n → bit_and x y ≤ x
bit_and-le_count zero zero y h = omega (arith, zero-bit_and y)
bit_and-le_count zero (suc x) y h = absurd (omega arith)
bit_and-le_count (suc n) zero y h = omega (arith, zero-bit_and y)
bit_and-le_count (suc n) (suc x) y h =
    omega (arith, bit_and_step (suc x) y, bit_and-le_count n (suc x / 2) (y / 2) (omega arith))

pub bit_and-le : (x y : ℕ) → bit_and x y ≤ x
bit_and-le x y = bit_and-le_count x x y (omega arith)

-- a &^ b
unfoldable pub and_not : ℕ → ℕ → ℕ
and_not x y = x - bit_and x y

unfoldable pub test_bit : ℕ → ℕ → Bool
test_bit x zero = x % 2 == 1
test_bit x (suc k) = test_bit (x / 2) k

pub test_bit-or : (k x y : ℕ) → test_bit (bit_or x y) k ≡ (test_bit x k || test_bit y k)
unfolding test_bit
test_bit-or zero x y = ground (arith, bit_or_step x y)
test_bit-or (suc k) x y =
    let e : bit_or x y / 2 ≡ bit_or (x / 2) (y / 2) = omega (arith, bit_or_step x y) in
    rw e (test_bit-or k (x / 2) (y / 2))

pub test_bit-and : (k x y : ℕ) → test_bit (bit_and x y) k ≡ (test_bit x k && test_bit y k)
unfolding test_bit
test_bit-and zero x y = ground (arith, bit_and_step x y)
test_bit-and (suc k) x y =
    let e : bit_and x y / 2 ≡ bit_and (x / 2) (y / 2) = omega (arith, bit_and_step x y) in
    rw e (test_bit-and k (x / 2) (y / 2))

pub test_bit-and_not : (k x y : ℕ) → test_bit (and_not x y) k ≡ (test_bit x k && not (test_bit y k))
unfolding test_bit and_not
test_bit-and_not zero x y = ground (arith, bit_and_step x y, bit_and-le (x / 2) (y / 2))
test_bit-and_not (suc k) x y =
    let e : (x - bit_and x y) / 2 ≡ x / 2 - bit_and (x / 2) (y / 2) =
      omega (arith, bit_and_step x y, bit_and-le (x / 2) (y / 2)) in
    rw e (test_bit-and_not k (x / 2) (y / 2))

pub test_bit-zero : (k : ℕ) → test_bit 0 k ≡ false
unfolding test_bit
test_bit-zero zero = refl
test_bit-zero (suc k) = test_bit-zero k

-- 1 << i has the bit i alone.
pub test_bit-pow : (i k : ℕ) → test_bit (2 ^ i) k ≡ (i == k)
unfolding test_bit
test_bit-pow zero zero = refl
test_bit-pow zero (suc k) = ground (arith, test_bit-zero k)
test_bit-pow (suc i) zero = ground (arith, pow-suc 2 i)
test_bit-pow (suc i) (suc k) =
    let e : 2 ^ suc i / 2 ≡ 2 ^ i = omega (arith, pow-suc 2 i) in
    rw e (ground (arith, test_bit-pow i k))

bit_and-zero_count : (n x : ℕ) → x ≤ n → bit_and x 0 ≡ 0
bit_and-zero_count n zero h = zero-bit_and 0
bit_and-zero_count zero (suc x) h = absurd (omega arith)
bit_and-zero_count (suc n) (suc x) h =
    omega (arith, bit_and_step (suc x) 0, bit_and-zero_count n (suc x / 2) (omega arith))

-- s & (1 << i) != 0 tests the bit i.
pub bit_and-pow : (i s : ℕ) → not (bit_and s (2 ^ i) == 0) ≡ test_bit s i
unfolding test_bit
bit_and-pow zero s =
    ground (arith, bit_and_step s 1, bit_and-zero_count (s / 2) (s / 2) (omega arith))
bit_and-pow (suc i) s =
    ground (arith, bit_and_step s (2 ^ suc i), pow-suc 2 i, bit_and-pow i (s / 2))

pow_pos : (n : ℕ) → 0 < 2 ^ n
pow_pos zero = omega arith
pow_pos (suc n) = omega (arith, pow-suc 2 n, pow_pos n)

bit_or-zero_count : (n x : ℕ) → x ≤ n → bit_or x 0 ≡ x
bit_or-zero_count n zero h = zero-bit_or 0
bit_or-zero_count zero (suc x) h = absurd (omega arith)
bit_or-zero_count (suc n) (suc x) h =
    omega (arith, bit_or_step (suc x) 0, bit_or-zero_count n (suc x / 2) (omega arith))

pub bit_or-zero : (x : ℕ) → bit_or x 0 ≡ x
bit_or-zero x = bit_or-zero_count x x (omega arith)

mul-pow_suc : (v n : ℕ) → v * 2 ^ suc n ≡ v * 2 ^ n * 2
mul-pow_suc v n = rw (pow-suc 2 n) (omega arith)

-- The low bits and the rest of a number, as remainder and quotient.
pub bit_and-low : (n x : ℕ) → bit_and x (2 ^ n - 1) ≡ x % 2 ^ n
bit_and-low zero x = omega (arith, bit_and-zero_count x x (omega arith))
bit_and-low (suc n) x =
    let half = x / 2 % 2 ^ n in
    let rest = x / 2 / 2 ^ n in
    let small : half < 2 ^ n = mod-lt (x / 2) (pow_pos n) in
    let double : rest * 2 ^ suc n ≡ rest * 2 ^ n * 2 = mul-pow_suc rest n in
    let parts : x ≡ half * 2 + x % 2 + rest * 2 ^ suc n =
      omega (arith, div-add-mod' (x / 2) (2 ^ n), double) in
    let fits : half * 2 + x % 2 < 2 ^ suc n = omega (arith, pow-suc 2 n) in
    let value : x % 2 ^ suc n ≡ half * 2 + x % 2 =
      ap (λ v. v % 2 ^ suc n) parts
      ∙ add-mul-mod_self_right (half * 2 + x % 2) rest (2 ^ suc n)
      ∙ mod-eq_of_lt fits in
    let low : (2 ^ suc n - 1) / 2 ≡ 2 ^ n - 1 = omega (arith, pow-suc 2 n, pow_pos n) in
    let last : (2 ^ suc n - 1) % 2 ≡ 1 = omega (arith, pow-suc 2 n, pow_pos n) in
    rw (bit_and_step x (2 ^ suc n - 1), low, last, bit_and-low n (x / 2), value) (omega arith)

pub and_not-low : (n x : ℕ) → and_not x (2 ^ n - 1) ≡ x - x % 2 ^ n
unfolding and_not
and_not-low n x = omega (arith, bit_and-low n x)

half_below : (n v : ℕ) → v < 2 ^ suc n → v / 2 < 2 ^ n
half_below n v h = omega (arith, pow-suc 2 n)

-- The fields on both sides of a bit do not mix.
pub bit_or-fields :
    (n a b c d : ℕ)
    → b < 2 ^ n
    → d < 2 ^ n
    → bit_or (a * 2 ^ n + b) (c * 2 ^ n + d) ≡ bit_or a c * 2 ^ n + bit_or b d
bit_or-fields zero a zero c zero hb hd =
    let ea : a * 1 + 0 ≡ a = omega arith in
    let ec : c * 1 + 0 ≡ c = omega arith in rw (ea, ec) (omega (arith, bit_or-zero 0))
bit_or-fields zero a zero c (suc d) hb hd = absurd (omega arith)
bit_or-fields zero a (suc b) c d hb hd = absurd (omega arith)
bit_or-fields (suc n) a b c d hb hd =
    let half_a : (a * 2 ^ suc n + b) / 2 ≡ a * 2 ^ n + b / 2 = omega (arith, mul-pow_suc a n) in
    let half_c : (c * 2 ^ suc n + d) / 2 ≡ c * 2 ^ n + d / 2 = omega (arith, mul-pow_suc c n) in
    let last_a : (a * 2 ^ suc n + b) % 2 ≡ b % 2 = omega (arith, mul-pow_suc a n) in
    let last_c : (c * 2 ^ suc n + d) % 2 ≡ d % 2 = omega (arith, mul-pow_suc c n) in
    rw
      (
        bit_or_step (a * 2 ^ suc n + b) (c * 2 ^ suc n + d),
        half_a,
        half_c,
        last_a,
        last_c,
        bit_or-fields n a (b / 2) c (d / 2) (half_below n b hb) (half_below n d hd),
      )
      (omega (arith, bit_or_step b d, mul-pow_suc (bit_or a c) n))

-- Numbers without a common bit are added.
pub bit_or-apart : (n a b : ℕ) → b < 2 ^ n → bit_or (a * 2 ^ n) b ≡ a * 2 ^ n + b
bit_or-apart n a b h =
    let left : a * 2 ^ n ≡ a * 2 ^ n + 0 = omega arith in
    let right : b ≡ 0 * 2 ^ n + b = omega arith in
    ap (λ v. bit_or v b) left
    ∙ ap (bit_or (a * 2 ^ n + 0)) right
    ∙ bit_or-fields n a 0 0 b (pow_pos n) h
    ∙ omega (arith, bit_or-zero a, ap (λ v. v * 2 ^ n) (bit_or-zero a), zero-bit_or b)

pub bit_or-below : (n a b : ℕ) → b < 2 ^ n → bit_or b (a * 2 ^ n) ≡ a * 2 ^ n + b
bit_or-below n a b h =
    let left : b ≡ 0 * 2 ^ n + b = omega arith in
    let right : a * 2 ^ n ≡ a * 2 ^ n + 0 = omega arith in
    ap (λ v. bit_or v (a * 2 ^ n)) left
    ∙ ap (bit_or (0 * 2 ^ n + b)) right
    ∙ bit_or-fields n 0 b a 0 h (pow_pos n)
    ∙ omega (arith, ap (λ v. v * 2 ^ n) (zero-bit_or a), bit_or-zero b)
