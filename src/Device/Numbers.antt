-- ===== src/Device/Numbers.antt =====
-- The encoding of a pair of device numbers in one word: Mkdev, Major and Minor.
use Prim.Native.Nat.{bit_and, bit_or}
use lightpod.Base.{ℕ, ◌≡◌, ◌+◌, ◌-◌, ◌*◌, ◌/◌, ◌%◌, ◌^◌, ◌<◌, arith, ap, ◌∙◌}
use lightpod.Base.Int.{ℤ, pos, to_word, of_word}
use lightpod.Base.Bits.{
  and_not, bit_and-low, bit_or-apart, bit_or-below, bit_or-fields, bit_or-zero,
}

-- The low twelve and the low eight bits.
abbrev low_twelve : ℕ
low_twelve = 2 ^ 12 - 1

abbrev low_eight : ℕ
low_eight = 2 ^ 8 - 1

-- x << n of a 64-bit word
abbrev shift_left : ℕ → ℕ → ℕ
shift_left x n = x * 2 ^ n % 2 ^ 64

-- Go's operators on int64 act on the patterns in two's complement.
unfoldable pub mkdev : ℤ → ℤ → ℕ
unfolding and_not
mkdev major minor =
    bit_or
      (bit_or
        (bit_or (shift_left (bit_and (to_word major) low_twelve) 8)
          (bit_and (to_word minor) low_eight))
        (shift_left (and_not (to_word major) low_twelve) 32))
      (shift_left (and_not (to_word minor) low_eight) 12)

unfoldable pub major : ℕ → ℤ
unfolding and_not
major dev =
    of_word (bit_or (bit_and (dev / 2 ^ 8) low_twelve) (and_not (dev / 2 ^ 32 % 2 ^ 32) low_twelve))

unfoldable pub minor : ℕ → ℤ
unfolding and_not
minor dev = of_word (bit_or (bit_and dev low_eight) (and_not (dev / 2 ^ 12 % 2 ^ 32) low_eight))

-- The fields of the encoding, from the highest: no two of them overlap.
abbrev joined : ℕ → ℕ → ℕ
joined m n = m / 2 ^ 12 * 2 ^ 44 + n / 2 ^ 8 * 2 ^ 20 + m % 2 ^ 12 * 2 ^ 8 + n % 2 ^ 8

low_fields : (m n : ℕ) → bit_or (m % 2 ^ 12 * 2 ^ 8) (n % 2 ^ 8) ≡ m % 2 ^ 12 * 2 ^ 8 + n % 2 ^ 8
low_fields m n = bit_or-apart 8 (m % 2 ^ 12) (n % 2 ^ 8) (omega arith)

middle_field :
    (low v w : ℕ)
    → low < 2 ^ 20
    → w < 2 ^ 24
    → bit_or (v * 2 ^ 44 + low) (w * 2 ^ 20) ≡ v * 2 ^ 44 + w * 2 ^ 20 + low
middle_field low v w h hw =
    let left : v * 2 ^ 44 + low ≡ v * 2 ^ 24 * 2 ^ 20 + low = omega arith in
    let right : w * 2 ^ 20 ≡ w * 2 ^ 20 + 0 = omega arith in
    ap (λ x. bit_or x (w * 2 ^ 20)) left
    ∙ ap (bit_or (v * 2 ^ 24 * 2 ^ 20 + low)) right
    ∙ bit_or-fields 20 (v * 2 ^ 24) low w 0 h (omega arith)
    ∙ omega (arith, ap (λ x. x * 2 ^ 20) (bit_or-apart 24 v w hw), bit_or-zero low)

mkdev-joined : (m n : ℕ) → m < 2 ^ 32 → n < 2 ^ 32 → mkdev (pos m) (pos n) ≡ joined m n
unfolding mkdev
mkdev-joined m n hm hn =
    let wm : m % 2 ^ 64 ≡ m = omega arith in
    let wn : n % 2 ^ 64 ≡ n = omega arith in
    let a : m % 2 ^ 12 * 2 ^ 8 % 2 ^ 64 ≡ m % 2 ^ 12 * 2 ^ 8 = omega arith in
    let b : (m - m % 2 ^ 12) * 2 ^ 32 % 2 ^ 64 ≡ m / 2 ^ 12 * 2 ^ 44 = omega arith in
    let c : (n - n % 2 ^ 8) * 2 ^ 12 % 2 ^ 64 ≡ n / 2 ^ 8 * 2 ^ 20 = omega arith in
    let low = m % 2 ^ 12 * 2 ^ 8 + n % 2 ^ 8 in
    let apart : m / 2 ^ 12 * 2 ^ 44 ≡ m / 2 ^ 12 * 2 ^ 24 * 2 ^ 20 = omega arith in
    let high : bit_or low (m / 2 ^ 12 * 2 ^ 44) ≡ m / 2 ^ 12 * 2 ^ 44 + low =
      ap (bit_or low) apart
      ∙ bit_or-below 20 (m / 2 ^ 12 * 2 ^ 24) low (omega arith)
      ∙ omega arith in
    rw
      (
        wm,
        wn,
        bit_and-low 12 m,
        bit_and-low 8 n,
        a,
        b,
        c,
        low_fields m n,
        high,
        middle_field (m % 2 ^ 12 * 2 ^ 8 + n % 2 ^ 8) (m / 2 ^ 12) (n / 2 ^ 8) (omega arith)
            (omega arith),
      )
      (omega arith)

of_word-small : (w : ℕ) → w < 2 ^ 63 → of_word w ≡ pos w
of_word-small w h = ground arith

major-fields :
    (dev : ℕ) → dev < 2 ^ 64 → major dev ≡ pos (dev / 2 ^ 44 * 2 ^ 12 + dev / 2 ^ 8 % 2 ^ 12)
unfolding major
major-fields dev h =
    let high = dev / 2 ^ 32 % 2 ^ 32 in
    let low = dev / 2 ^ 8 in
    let rest : high - high % 2 ^ 12 ≡ dev / 2 ^ 44 * 2 ^ 12 = omega arith in
    rw
      (
        bit_and-low 12 high,
        bit_and-low 12 low,
        rest,
        bit_or-below 12 (dev / 2 ^ 44) (low % 2 ^ 12) (omega arith),
      )
      (of_word-small (dev / 2 ^ 44 * 2 ^ 12 + low % 2 ^ 12) (omega arith))

minor-fields :
    (dev : ℕ) → dev < 2 ^ 64 → minor dev ≡ pos (dev / 2 ^ 20 % 2 ^ 24 * 2 ^ 8 + dev % 2 ^ 8)
unfolding minor
minor-fields dev h =
    let high = dev / 2 ^ 12 % 2 ^ 32 in
    let rest : high - high % 2 ^ 8 ≡ dev / 2 ^ 20 % 2 ^ 24 * 2 ^ 8 = omega arith in
    rw
      (
        bit_and-low 8 high,
        bit_and-low 8 dev,
        rest,
        bit_or-below 8 (dev / 2 ^ 20 % 2 ^ 24) (dev % 2 ^ 8) (omega arith),
      )
      (of_word-small (dev / 2 ^ 20 % 2 ^ 24 * 2 ^ 8 + dev % 2 ^ 8) (omega arith))

-- Every pair of device numbers of 32 bits is encoded in a word of 64 bits, from which Major and
-- Minor read it back; and every such word is the encoding of the pair that they read from it.
pub major-minor-mkdev :
    (m n dev : ℕ)
    → m < 2 ^ 32
    → n < 2 ^ 32
    → dev < 2 ^ 64
    → (mkdev (pos m) (pos n) < 2 ^ 64)
      × (major (mkdev (pos m) (pos n)) ≡ pos m)
      × (minor (mkdev (pos m) (pos n)) ≡ pos n)
      × (mkdev (major dev) (minor dev) ≡ dev)
major-minor-mkdev m n dev hm hn hdev =
    let fits : joined m n < 2 ^ 64 = omega arith in
    let high = dev / 2 ^ 44 * 2 ^ 12 + dev / 2 ^ 8 % 2 ^ 12 in
    let low = dev / 2 ^ 20 % 2 ^ 24 * 2 ^ 8 + dev % 2 ^ 8 in
    (
      rw (mkdev-joined m n hm hn) fits,
      rw (mkdev-joined m n hm hn) (major-fields (joined m n) fits ∙ ap pos (omega arith)),
      rw (mkdev-joined m n hm hn) (minor-fields (joined m n) fits ∙ ap pos (omega arith)),
      rw (major-fields dev hdev, minor-fields dev hdev)
          (mkdev-joined high low (omega arith) (omega arith) ∙ omega arith),
    )
