-- ===== src/Oci/Path.antt =====
-- The functions of the package path/filepath that the program calls, on the paths of Linux, and
-- `IsWithin` of pkg/oci/load.go.
pub mod Render
pub mod Clean
pub mod Within
mod Examples
use lightpod.Base.{ℕ, Bool, true, false, ◌||◌, ◌==◌, if◌then◌else◌, List, [], ◌∷◌, ◌++◌}
use lightpod.Base.Text.{Bytes, text, same, has_prefix, split, join_with}

abbrev pub slash : ℕ
slash = 47

abbrev pub dot : Bytes
dot = 46 ∷ []

abbrev pub dot_dot : Bytes
dot_dot = 46 ∷ 46 ∷ []

-- filepath.IsAbs
unfoldable pub is_abs : Bytes → Bool
is_abs [] = false
is_abs (c ∷ s) = c == slash

-- One element of Clean on the elements kept so far, the last one first.
abbrev pub pop : Bool → List Bytes → List Bytes
pop true [] = []
pop false [] = dot_dot ∷ []
pop rooted (p ∷ kept) = if same p dot_dot then dot_dot ∷ p ∷ kept else kept

unfoldable pub clean_step : Bool → List Bytes → Bytes → List Bytes
unfolding same
clean_step rooted kept part =
    if same part [] || same part dot
    then kept
    else if same part dot_dot
    then pop rooted kept
    else part ∷ kept

unfoldable pub clean_parts : Bool → List Bytes → List Bytes → List Bytes
unfolding clean_step
clean_parts rooted kept [] = kept
clean_parts rooted kept (part ∷ parts) = clean_parts rooted (clean_step rooted kept part) parts

unfoldable pub reverse_onto : List Bytes → List Bytes → List Bytes
reverse_onto [] ys = ys
reverse_onto (x ∷ xs) ys = reverse_onto xs (x ∷ ys)

abbrev pub relative : List Bytes → Bytes
relative [] = dot
relative (p ∷ ps) = join_with slash (p ∷ ps)

-- filepath.Clean
unfoldable pub clean : Bytes → Bytes
unfolding is_abs clean_parts reverse_onto split join_with
clean path =
    let parts = reverse_onto (clean_parts (is_abs path) [] (split path slash)) [] in
    if is_abs path then slash ∷ join_with slash parts else relative parts

-- filepath.Join of two elements
unfoldable pub join : Bytes → Bytes → Bytes
unfolding clean
join [] [] = []
join [] (c ∷ s) = clean (c ∷ s)
join (c ∷ s) t = clean ((c ∷ s) ++ slash ∷ t)

-- path[:i+1] for the last slash i
unfoldable pub up_to_slash : Bytes → Bytes
up_to_slash [] = []
up_to_slash (c ∷ s) = elim (up_to_slash s) [
  | [] ↦ (if c == slash then c ∷ [] else [])
  | d ∷ t ↦ c ∷ d ∷ t
]

-- filepath.Dir
unfoldable pub dir : Bytes → Bytes
unfolding clean up_to_slash
dir path = clean (up_to_slash path)

-- oci.IsWithin
unfoldable pub is_within : Bytes → Bytes → Bool
unfolding same has_prefix
is_within parent path = same path parent || has_prefix path (parent ++ slash ∷ [])
