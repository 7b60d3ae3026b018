-- ===== src/Oci/Path/Render.antt =====
-- Clean absolute paths as the lists of their names.
use lightpod.Base.{
  ℕ, ◌≡◌, ◌≢◌, refl, ap, ◌∙◌, Bool, Bool-cases, inl, inr, false, ◌||◌, ◌==◌, ==_ne, List, [], ◌∷◌,
  ◌++◌, append_assoc, All, arith,
}
use lightpod.Base.Text.{Bytes, same, split, join_with, cons_head}
use lightpod.Oci.Path.{slash, dot, dot_dot}

-- The empty element, `.` and `..` are no names.
unfoldable pub is_special : Bytes → Bool
unfolding same
is_special p = same p [] || same p dot || same p dot_dot

abbrev pub IsName : Bytes → Type 0
IsName p = (is_special p ≡ false) × All (λ c. c ≢ slash) p

-- The absolute path with these names.
abbrev pub render : List Bytes → Bytes
render ps = slash ∷ join_with slash ps

abbrev pub SlashFree : Bytes → Type 0
SlashFree p = All (λ c. c ≢ slash) p

split-SlashFree : (p : Bytes) → SlashFree p → split p slash ≡ p ∷ []
unfolding split
split-SlashFree [] h = refl
split-SlashFree (c ∷ p) (hc, hp) = rw (==_ne c slash hc, split-SlashFree p hp) refl

split-append : (p s : Bytes) → SlashFree p → split (p ++ slash ∷ s) slash ≡ p ∷ split s slash
unfolding split
split-append [] s h = refl
split-append (c ∷ p) s (hc, hp) = rw (==_ne c slash hc, split-append p s hp) refl

-- The elements of a path made of elements.
pub split-join_with :
    (p : Bytes) (ps : List Bytes)
    → All SlashFree (p ∷ ps)
    → split (join_with slash (p ∷ ps)) slash ≡ p ∷ ps
unfolding join_with
split-join_with p [] (h, _) = split-SlashFree p h
split-join_with p (q ∷ ps) (h, hs) =
    split-append p (join_with slash (q ∷ ps)) h ∙ ap (λ t. p ∷ t) (split-join_with q ps hs)

-- Behind one more slash.
pub split-join_with-slash :
    (p : Bytes) (ps : List Bytes) (s : Bytes)
    → All SlashFree (p ∷ ps)
    → split (join_with slash (p ∷ ps) ++ slash ∷ s) slash ≡ p ∷ ps ++ split s slash
unfolding join_with
split-join_with-slash p [] s (h, _) = split-append p s h
split-join_with-slash p (q ∷ ps) s (h, hs) =
    rw (append_assoc p (slash ∷ join_with slash (q ∷ ps)) (slash ∷ s)) (
      split-append p (join_with slash (q ∷ ps) ++ slash ∷ s) h
      ∙ ap (λ t. p ∷ t) (split-join_with-slash q ps s hs))

cons_head-SlashFree :
    (c : ℕ) (ps : List Bytes) → c ≢ slash → All SlashFree ps → All SlashFree (cons_head c ps)
cons_head-SlashFree c [] hc hs = ((hc, tt), tt)
cons_head-SlashFree c (p ∷ ps) hc (h, hs) = ((hc, h), hs)

-- No element of a split holds the separator.
pub split-SlashFree-All : (s : Bytes) → All SlashFree (split s slash)
unfolding split
split-SlashFree-All [] = (tt, tt)
split-SlashFree-All (c ∷ s) = elim (Bool-cases (c == slash)) [
  | inl at_slash ↦ rw at_slash (tt, split-SlashFree-All s)
  | inr other ↦
      rw other
        (cons_head-SlashFree c (split s slash) (ground (arith, other)) (split-SlashFree-All s))
]
