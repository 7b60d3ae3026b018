-- ===== src/Runtime/Mounts/Options/Bits.antt =====
-- parseMountOptions, bit by bit: the last option that names a flag decides.
use lightpod.Base.{
  ℕ, ◌≡◌, refl, sym, ap, ◌∙◌, arith, Bool, false, not, ◌||◌, if◌then◌else◌, Option, none, some,
  List, [], ◌∷◌, ◌++◌, append_assoc, append-nil,
}
use lightpod.Base.Text.{Bytes, lookup, join_with}
use lightpod.Base.Bits.{test_bit, test_bit-or, test_bit-and_not, test_bit-zero}
use lightpod.Runtime.Mounts.Options.{
  MountFlag, Parsed, mount_flag_names, propagation_flags, with_option, parse_options_from,
  no_options, parse_mount_options,
}

-- What an option says of a flag: nothing, or whether the flag is set.
abbrev says : ℕ → Option MountFlag → Option Bool
says bit none = none
says bit (some entry) = if test_bit entry.flag bit then some (not entry.clear) else none

abbrev or_else : Option Bool → Option Bool → Option Bool
or_else none later = later
or_else (some b) later = some b

-- The last word of a list of options on a flag
unfoldable pub last_word : ℕ → List Bytes → Option Bool
last_word bit [] = none
last_word bit (opt ∷ options) =
    or_else (last_word bit options) (says bit (lookup opt mount_flag_names))

abbrev pub decided : Option Bool → Bool → Bool
decided none b = b
decided (some c) b = c

abbrev spreads : ℕ → Option MountFlag → Option ℕ → Bool
spreads bit (some entry) o = false
spreads bit none none = false
spreads bit none (some p) = test_bit p bit

-- Some option of the list is a propagation mode with the flag.
unfoldable pub some_spreads : ℕ → List Bytes → Bool
some_spreads bit [] = false
some_spreads bit (opt ∷ options) =
    spreads bit (lookup opt mount_flag_names) (lookup opt propagation_flags)
    || some_spreads bit options

abbrev kept : Bytes → Option MountFlag → Option ℕ → List Bytes → List Bytes
kept opt none none rest = opt ∷ rest
kept opt none (some p) rest = rest
kept opt (some entry) o rest = rest

-- The options that neither map knows
unfoldable pub unknown_options : List Bytes → List Bytes
unknown_options [] = []
unknown_options (opt ∷ options) =
    kept opt (lookup opt mount_flag_names) (lookup opt propagation_flags) (unknown_options options)

flip-bit :
    (bit : ℕ) (p : Parsed) (opt : Bytes) (m : Option MountFlag) (o : Option ℕ)
    → test_bit (with_option p opt m o).flags bit ≡ decided (says bit m) (test_bit p.flags bit)
flip-bit bit p opt none none = refl
flip-bit bit p opt none (some q) = refl
flip-bit bit p opt (some entry) o =
    ground (arith, test_bit-or bit p.flags entry.flag, test_bit-and_not bit p.flags entry.flag)

decided-or_else : (a b : Option Bool) (c : Bool) → decided a (decided b c) ≡ decided (or_else a b) c
decided-or_else none b c = refl
decided-or_else (some x) b c = refl

flags-last_word :
    (bit : ℕ) (options : List Bytes) (p : Parsed)
    → test_bit (parse_options_from p options).flags bit
      ≡ decided (last_word bit options) (test_bit p.flags bit)
unfolding parse_options_from last_word
flags-last_word bit [] p = refl
flags-last_word bit (opt ∷ options) p =
    let m = lookup opt mount_flag_names in
    let o = lookup opt propagation_flags in
    flags-last_word bit options (with_option p opt m o)
    ∙ ap (decided (last_word bit options)) (flip-bit bit p opt m o)
    ∙ decided-or_else (last_word bit options) (says bit m) (test_bit p.flags bit)

spread-bit :
    (bit : ℕ) (p : Parsed) (opt : Bytes) (m : Option MountFlag) (o : Option ℕ)
    → test_bit (with_option p opt m o).propagation bit
      ≡ (test_bit p.propagation bit || spreads bit m o)
spread-bit bit p opt none none = ground arith
spread-bit bit p opt none (some q) = test_bit-or bit p.propagation q
spread-bit bit p opt (some entry) o = ground arith

propagation-some_spreads :
    (bit : ℕ) (options : List Bytes) (p : Parsed)
    → test_bit (parse_options_from p options).propagation bit
      ≡ (test_bit p.propagation bit || some_spreads bit options)
unfolding parse_options_from some_spreads
propagation-some_spreads bit [] p = ground arith
propagation-some_spreads bit (opt ∷ options) p =
    let m = lookup opt mount_flag_names in
    let o = lookup opt propagation_flags in
    ground (
      arith,
      propagation-some_spreads bit options (with_option p opt m o),
      spread-bit bit p opt m o,
    )

kept-data :
    (p : Parsed) (opt : Bytes) (rest : List Bytes) (m : Option MountFlag) (o : Option ℕ)
    → (with_option p opt m o).data_opts ++ rest ≡ p.data_opts ++ kept opt m o rest
kept-data p opt rest none none = append_assoc p.data_opts (opt ∷ []) rest
kept-data p opt rest none (some q) = refl
kept-data p opt rest (some entry) o = refl

data-unknown :
    (options : List Bytes) (p : Parsed)
    → (parse_options_from p options).data_opts ≡ p.data_opts ++ unknown_options options
unfolding parse_options_from unknown_options
data-unknown [] p = sym (append-nil p.data_opts)
data-unknown (opt ∷ options) p =
    let m = lookup opt mount_flag_names in
    let o = lookup opt propagation_flags in
    data-unknown options (with_option p opt m o) ∙ kept-data p opt (unknown_options options) m o

abbrev pub Reads : List Bytes → ℕ → ℕ × ℕ × Bytes → Type 0
Reads options bit (flags, propagation, data_string) =
    (test_bit flags bit ≡ decided (last_word bit options) false)
    × (test_bit propagation bit ≡ some_spreads bit options)
    × (data_string ≡ join_with b',' (unknown_options options))

-- A flag of the mount is set exactly where the last option that names it sets it, and clear where
-- that option clears it or no option names it; a flag of the propagation is set exactly where some
-- option is a mode with it; and the data string joins the options that are neither, in their order.
pub parse_mount_options-Reads :
    (options : List Bytes) (bit : ℕ) → Reads options bit (parse_mount_options options)
unfolding parse_mount_options
parse_mount_options-Reads options bit = (
  flags-last_word bit options no_options ∙ ap (decided (last_word bit options)) (test_bit-zero bit),
  ground (arith, propagation-some_spreads bit options no_options, test_bit-zero bit),
  ap (join_with b',') (data-unknown options no_options),
)
