-- ===== src/Security/Capabilities/Parse.antt =====
-- The set that a list of capability names stands for.
use mathlib.Core.Path.{subst}
use native.Mathlib.Nat.{mod-eq_of_lt, pow-le-pow_right}
use lightpod.Base.{
  Bool-cases, ℕ, ◌^◌, ◌<◌, ◌≡◌, refl, inl, inr, Bool, true, false, ◌||◌, ◌==◌, Option, none, some,
  Option-cases, List, [], ◌∷◌, All, arith, ok, err, msg,
}
use lightpod.Base.Bits.{test_bit-or, test_bit-pow, test_bit-zero, bit_and-pow}
use lightpod.Base.Text.{Bytes, same, to_upper, lookup}
use lightpod.Security.Capabilities.{
  CapSet, capability_names, add, has, bit_mask, parse_names, parse_capabilities,
}

bit_mask-small : (b : ℕ) → b < 64 → bit_mask b ≡ 2 ^ b
bit_mask-small b h =
    mod-eq_of_lt
      (omega (arith, pow-le-pow_right {n = 2} (omega arith) {i = b} {j = 63} (omega arith)))

-- A set holds what was added to it and what it held before.
pub has-add : (s b c : ℕ) → b < 64 → c < 64 → has (add s b) c ≡ (has s c || b == c)
unfolding has add
has-add s b c hb hc =
    rw (bit_mask-small b hb, bit_mask-small c hc, bit_and-pow, bit_and-pow)
      (rw (test_bit-or c s (2 ^ b), test_bit-pow b c) refl)

has-zero : (c : ℕ) → c < 64 → has 0 c ≡ false
unfolding has
has-zero c hc = rw (bit_mask-small c hc, bit_and-pow) (test_bit-zero c)

lookup-All {ℓ κ} :
    {V : Type ℓ} (P : V → Type κ) (k : Bytes) (m : List (Bytes × V)) {v : V}
    → All (λ e. P e.1) m
    → lookup k m ≡ some v
    → P v
unfolding lookup
lookup-All P k [] h e = cc
lookup-All P k ((j, w) ∷ m) {v} (hw, hm) e = elim (Bool-cases (same j k)) [
  | inl here ↦ let same_value : w ≡ v = ground (arith, here) in subst P same_value hw
  | inr there ↦ lookup-All P k m hm (rw there at e)
]

abbrev bit_of : Bytes → Option ℕ
bit_of name = lookup (to_upper name) capability_names

bit_of-lt : (name : Bytes) {b : ℕ} → bit_of name ≡ some b → b < 64
bit_of-lt name h =
    lookup-All (λ (b : ℕ). b < 64) (to_upper name) capability_names
      (unfold capability_names in omega arith) h

abbrev names_bit : Option ℕ → ℕ → Bool
names_bit none c = false
names_bit (some b) c = b == c

-- One of the names, in upper case, is the name of the capability `c`.
unfoldable pub wants : List Bytes → ℕ → Bool
wants [] c = false
wants (name ∷ names) c = names_bit (bit_of name) c || wants names c

unfoldable pub all_known : List Bytes → Bool
all_known [] = true
all_known (name ∷ names) = elim (bit_of name) [ none ↦ false | some b ↦ all_known names ]

parse_names-has :
    (s : CapSet) (names : List Bytes) (set : CapSet) (c : ℕ)
    → c < 64
    → parse_names s names ≡ ok set
    → has set c ≡ (has s c || wants names c)
unfolding parse_names wants
parse_names-has s [] set c hc h = ground arith
parse_names-has s (name ∷ names) set c hc h = elim (Option-cases (bit_of name)) [
  | inl unknown ↦ ground (arith, unknown)
  | inr (b, known) ↦
      ground (
        arith,
        known,
        bit_of-lt name known,
        has-add s b c,
        parse_names-has (add s b) names set c hc,
      )
]

parse_names-known :
    (s : CapSet) (names : List Bytes)
    → all_known names ≡ true
    → (set : CapSet) × (parse_names s names ≡ ok set)
unfolding parse_names all_known
parse_names-known s [] h = (s, refl)
parse_names-known s (name ∷ names) h = elim (Option-cases (bit_of name)) [
  | inl unknown ↦ ground (arith, unknown)
  | inr (b, known) ↦
      rw (known, parse_names) (parse_names-known (add s b) names (ground (arith, known)))
]

parse_names-unknown :
    (s : CapSet) (names : List Bytes)
    → all_known names ≡ false
    → parse_names s names ≡ err (msg "unknown capability")
unfolding parse_names all_known
parse_names-unknown s [] h = cc
parse_names-unknown s (name ∷ names) h = elim (Option-cases (bit_of name)) [
  | inl unknown ↦ rw (unknown, parse_names)
  | inr (b, known) ↦
      rw (known, parse_names) (parse_names-unknown (add s b) names (ground (arith, known)))
]

-- If every name is known, whatever its case, the result is a set that holds the capability `c`
-- exactly if one of the names stands for it; if some name is unknown, the result is an error and no
-- set.
pub parse_capabilities-has :
    (names : List Bytes)
    → (all_known names ≡ true
        → (set : CapSet) × (parse_capabilities names ≡ ok set)
          × ((c : ℕ) → c < 64 → has set c ≡ wants names c))
      × (all_known names ≡ false → parse_capabilities names ≡ err (msg "unknown capability"))
unfolding parse_capabilities
parse_capabilities-has names = (
  λ known.
      let (set, parsed) = parse_names-known 0 names known in
      (set, parsed, λ c hc. rw (parse_names-has 0 names set c hc parsed, has-zero c hc) refl),
  parse_names-unknown 0 names,
)
