-- ===== src/Base/Text.antt =====
-- Go strings as lists of bytes, and what the program takes from the packages strings and strconv.
-- Case mapping and white space are those of ASCII.
use Prim.Native.Char.{code}
use Prim.Native.Nat.{ℕ, zero, suc, ◌+◌, ◌-◌, ◌*◌, ◌/◌, ◌%◌}
use Prim.Native.String.{String}
use mathlib.Core.Path.{◌≡◌, refl}
use mathlib.Core.Logic.{◌↔◌, ◌≢◌}
use mathlib.Core.Bool.{Bool, true, false, ◌&&◌, ◌||◌}
use mathlib.Core.Option.{Option, none, some}
use mathlib.Core.List.{List, [], ◌∷◌, ◌++◌, map, reverse}
use native.Mathlib.Omega.{arith}
use lightpod.Base.Tests.{ltb, leb, ◌==◌, if◌then◌else◌}

abbrev pub Bytes : Type 0
Bytes = List ℕ

-- A literal of the source.
abbrev pub text : String → Bytes
text String.[] = []
text (String.◌∷◌ c s) = code c ∷ text s

abbrev pub texts : List String → List Bytes
texts [] = []
texts (s ∷ ss) = text s ∷ texts ss

-- s == t
unfoldable pub same : Bytes → Bytes → Bool
same [] [] = true
same [] (c ∷ t) = false
same (c ∷ s) [] = false
same (c ∷ s) (d ∷ t) = (c == d) && same s t

pub same_sound : (s t : Bytes) → same s t ≡ true → s ≡ t
unfolding same
same_sound [] [] h = refl
same_sound [] (c ∷ t) h = cc
same_sound (c ∷ s) [] h = cc
same_sound (c ∷ s) (d ∷ t) h = ground (arith, same_sound s t)

pub same_refl : (s : Bytes) → same s s ≡ true
unfolding same
same_refl [] = refl
same_refl (c ∷ s) = ground (arith, same_refl s)

pub same_complete : (s t : Bytes) → s ≡ t → same s t ≡ true
same_complete s t h = rw (← h) (same_refl s)

pub same_iff : (s t : Bytes) → (same s t ≡ true) ↔ (s ≡ t)
same_iff s t = (same_sound s t, same_complete s t)

pub same_ne : (s t : Bytes) → s ≢ t → same s t ≡ false
same_ne s t h = ground (arith, same_iff s t)

-- strings.HasPrefix, strings.TrimPrefix
unfoldable pub has_prefix : Bytes → Bytes → Bool
has_prefix s [] = true
has_prefix [] (c ∷ p) = false
has_prefix (d ∷ s) (c ∷ p) = (d == c) && has_prefix s p

unfoldable pub drop_prefix : Bytes → Bytes → Bytes
drop_prefix s [] = s
drop_prefix [] (c ∷ p) = []
drop_prefix (d ∷ s) (c ∷ p) = drop_prefix s p

unfoldable pub trim_prefix : Bytes → Bytes → Bytes
unfolding has_prefix drop_prefix
trim_prefix s p = if has_prefix s p then drop_prefix s p else s

unfoldable pub has_suffix : Bytes → Bytes → Bool
unfolding has_prefix
has_suffix s p = has_prefix (reverse s) (reverse p)

-- Some byte of `s` passes the test: strings.ContainsAny, strings.Contains of one byte.
unfoldable pub contains_any : (ℕ → Bool) → Bytes → Bool
contains_any p [] = false
contains_any p (c ∷ s) = p c || contains_any p s

abbrev pub cons_head : ℕ → List Bytes → List Bytes
cons_head c [] = (c ∷ []) ∷ []
cons_head c (p ∷ ps) = (c ∷ p) ∷ ps

-- strings.Split and strings.Join at a separator of one byte
unfoldable pub split : Bytes → ℕ → List Bytes
split [] sep = [] ∷ []
split (c ∷ s) sep = let rest = split s sep in if c == sep then [] ∷ rest else cons_head c rest

unfoldable pub join_with : ℕ → List Bytes → Bytes
join_with sep [] = []
join_with sep (p ∷ []) = p
join_with sep (p ∷ q ∷ ps) = p ++ sep ∷ join_with sep (q ∷ ps)

-- strings.Cut: what stands before and behind the first separator, and whether there is one
abbrev pub cut_cons : ℕ → Bytes × Bytes × Bool → Bytes × Bytes × Bool
cut_cons c (a, b, found) = (c ∷ a, b, found)

unfoldable pub cut : Bytes → ℕ → Bytes × Bytes × Bool
cut [] sep = ([], [], false)
cut (c ∷ s) sep = if c == sep then ([], s, true) else cut_cons c (cut s sep)

unfoldable pub to_upper : Bytes → Bytes
to_upper = map (λ c. if leb b'a' c && leb c b'z' then c - 32 else c)

unfoldable pub to_lower : Bytes → Bytes
to_lower = map (λ c. if leb b'A' c && leb c b'Z' then c + 32 else c)

-- \t \n \v \f \r and the space
abbrev pub is_space : ℕ → Bool
is_space c = (c == 32) || (leb 9 c && leb c 13)

unfoldable pub trim_left : (ℕ → Bool) → Bytes → Bytes
trim_left p [] = []
trim_left p (c ∷ s) = if p c then trim_left p s else c ∷ s

unfoldable pub trim_right : (ℕ → Bool) → Bytes → Bytes
unfolding trim_left
trim_right p s = reverse (trim_left p (reverse s))

unfoldable pub trim_space : Bytes → Bytes
unfolding trim_left trim_right
trim_space s = trim_right is_space (trim_left is_space s)

unfoldable pub non_empty : List Bytes → List Bytes
non_empty [] = []
non_empty ([] ∷ ps) = non_empty ps
non_empty ((c ∷ p) ∷ ps) = (c ∷ p) ∷ non_empty ps

-- strings.Fields
unfoldable pub fields : Bytes → List Bytes
unfolding split non_empty
fields s = non_empty (split (map (λ c. if is_space c then 32 else c) s) 32)

-- The digits of `s` behind the number `n`, as long as the value stays at most `max`.
unfoldable pub scan_digits : ℕ → ℕ → Bytes → Option ℕ
scan_digits max n [] = some n
scan_digits max n (c ∷ s) =
    if leb b'0' c && leb c b'9' && leb (n * 10 + (c - b'0')) max
    then scan_digits max (n * 10 + (c - b'0')) s
    else none

-- strconv.ParseUint(s, 10, bits), where `max` is the greatest value of that width
unfoldable pub parse_uint : ℕ → Bytes → Option ℕ
unfolding scan_digits
parse_uint max [] = none
parse_uint max (c ∷ s) = scan_digits max 0 (c ∷ s)

unfoldable pub mem : Bytes → List Bytes → Bool
mem x [] = false
mem x (y ∷ ys) = same y x || mem x ys

-- A Go map that is only read.
module _ {ℓ} {V : Type ℓ} where
  unfoldable pub lookup : Bytes → List (Bytes × V) → Option V
  lookup k [] = none
  lookup k ((j, v) ∷ m) = if same j k then some v else lookup k m

-- strconv.FormatUint(n, 10), with one more digit than n can have as fuel
unfoldable pub digits_onto : ℕ → ℕ → Bytes → Bytes
digits_onto zero n rest = rest
digits_onto (suc fuel) n rest =
    if ltb n 10 then (b'0' + n) ∷ rest else digits_onto fuel (n / 10) ((b'0' + n % 10) ∷ rest)

unfoldable pub decimal : ℕ → Bytes
decimal n = digits_onto (suc n) n []
