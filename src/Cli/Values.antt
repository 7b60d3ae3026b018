-- ===== src/Cli/Values.antt =====
-- parseSize of run.go, appendUnique, and resizeShm of flags.go.
use lightpod.Base.{
  ℕ, ◌^◌, ◌==◌, ◌||◌, Bool, if◌then◌else◌, Option, none, some, List, [], ◌∷◌, ◌++◌, Result, ok, err,
  msg,
}
use lightpod.Base.Int.{ℤ, pos, mul64, parse_int, signed_decimal}
use lightpod.Base.Text.{
  Bytes, text, same, mem, has_prefix, has_suffix, to_lower, trim_space, trim_right,
}
use lightpod.Oci.Spec.{Mount}

unfoldable pub multiplier : Bytes → ℕ
unfolding has_suffix
multiplier s =
    if has_suffix s (text "g") || has_suffix s (text "gb")
    then 2 ^ 30
    else if has_suffix s (text "m") || has_suffix s (text "mb")
    then 2 ^ 20
    else if has_suffix s (text "k") || has_suffix s (text "kb")
    then 2 ^ 10
    else 1

abbrev pub is_unit : ℕ → Bool
is_unit c = (c == b'k') || ((c == b'm') || ((c == b'g') || (c == b'b')))

abbrev pub scaled : ℕ → Option ℤ → Result ℤ
scaled factor none = err (msg "not a valid size")
scaled factor (some value) = ok (mul64 value (pos factor))

unfoldable pub parse_size : Bytes → Result ℤ
unfolding multiplier trim_space to_lower trim_right parse_int
parse_size value =
    let s = trim_space (to_lower value) in scaled (multiplier s) (parse_int (trim_right is_unit s))

unfoldable pub append_unique : List Bytes → Bytes → List Bytes
unfolding mem
append_unique list value = if mem value list then list else list ++ value ∷ []

unfoldable pub without_size : List Bytes → List Bytes
unfolding has_prefix
without_size [] = []
without_size (opt ∷ options) =
    let rest = without_size options in if has_prefix opt (text "size=") then rest else opt ∷ rest

abbrev pub resized : ℤ → Mount → Mount
resized size m = record m {
  options = without_size m.options ++ (text "size=" ++ signed_decimal size) ∷ [];
}

abbrev pub put_before : Mount → Option (List Mount) → Option (List Mount)
put_before m none = none
put_before m (some mounts) = some (m ∷ mounts)

-- The first mount at /dev/shm gets the size; `none` where there is none.
unfoldable pub resize_mounts : ℤ → List Mount → Option (List Mount)
unfolding without_size same
resize_mounts size [] = none
resize_mounts size (m ∷ mounts) =
    let rest = resize_mounts size mounts in
    if same m.destination (text "/dev/shm")
    then some (resized size m ∷ mounts)
    else put_before m rest
