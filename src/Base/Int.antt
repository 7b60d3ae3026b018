-- ===== src/Base/Int.antt =====
-- Signed integers over the native numbers, and the wrap-around of a Go int64.
use Prim.Native.Nat.{ℕ, zero, suc, ◌+◌, ◌-◌, ◌*◌, ◌%◌, ◌^◌}
use mathlib.Core.Bool.{Bool, false}
use mathlib.Core.Option
use mathlib.Core.Option.{Option, none, some}
use mathlib.Core.List.{[], ◌∷◌}
use lightpod.Base.Tests.{ltb, ◌==◌, if◌then◌else◌}
use lightpod.Base.Text.{Bytes, parse_uint, decimal}

-- `negsuc n` is -(n + 1).
pub data ℤ : Type 0 where
  pos : ℕ → ℤ
  negsuc : ℕ → ℤ

-- v > 0 and v <= 0
abbrev pub is_pos : ℤ → Bool
is_pos (pos n) = ltb 0 n
is_pos (negsuc n) = false

-- The bit pattern of a value in two's complement, and the value of a pattern below 2 ^ 64.
abbrev pub to_word : ℤ → ℕ
to_word (pos n) = n % 2 ^ 64
to_word (negsuc n) = 2 ^ 64 - 1 - n % 2 ^ 64

abbrev pub of_word : ℕ → ℤ
of_word w = if ltb w (2 ^ 63) then pos w else negsuc (2 ^ 64 - w - 1)

-- a - b and a * b of two int64 values
abbrev pub sub64 : ℤ → ℤ → ℤ
sub64 a b = of_word ((to_word a + 2 ^ 64 - to_word b) % 2 ^ 64)

abbrev pub mul64 : ℤ → ℤ → ℤ
mul64 a b = of_word ((to_word a * to_word b) % 2 ^ 64)

abbrev negated : Option ℕ → Option ℤ
negated none = none
negated (some zero) = some (pos 0)
negated (some (suc n)) = some (negsuc n)

-- strconv.ParseInt(s, 10, 64), which is strconv.Atoi on a 64-bit build
unfoldable pub parse_int : Bytes → Option ℤ
unfolding parse_uint
parse_int [] = none
parse_int (c ∷ s) =
    if c == b'-'
    then negated (parse_uint (2 ^ 63) s)
    else if c == b'+'
    then Option.map pos (parse_uint (2 ^ 63 - 1) s)
    else Option.map pos (parse_uint (2 ^ 63 - 1) (c ∷ s))

-- strconv.Itoa and strconv.FormatInt(v, 10)
unfoldable pub signed_decimal : ℤ → Bytes
unfolding decimal
signed_decimal (pos n) = decimal n
signed_decimal (negsuc n) = b'-' ∷ decimal (suc n)
