-- ===== src/Runtime/SecureJoin/Remaining.antt =====
-- The part of a path that the walk has still to resolve: `.` and `..` may only stand in front.
use lightpod.Base.{
  ℕ, ◌≡◌, ◌≢◌, refl, ap, ◌∙◌, ◌⊎◌, inl, inr, Bool, Bool-cases, true, false, ◌||◌, ◌==◌, ==_ne, List,
  [], ◌∷◌, ◌++◌, All, arith,
}
use lightpod.Base.Text.{Bytes, same, same_complete, split, join_with, trim_prefix, cut}
use lightpod.Oci.Path.{
  slash, dot, dot_dot, is_abs, clean, clean_step, clean_parts, pop, reverse_onto, relative, join,
}
use lightpod.Oci.Path.Render.{is_special, IsName, SlashFree, split-SlashFree-All}
use lightpod.Oci.Path.Clean.{clean-abs}
use lightpod.Oci.Path.Within.{root_excludes, IsName-nonempty}
use lightpod.Runtime.SecureJoin.{behind_link}

abbrev pub IsDots : Bytes → Type 0
IsDots p = (p ≡ dot) ⊎ (p ≡ dot_dot)

-- Elements that are dots, and names behind them.
abbrev pub Climb : List Bytes → Type 0
Climb [] = Unit
Climb (p ∷ ps) = (IsDots p × Climb ps) ⊎ (IsName p × All IsName ps)

pub Climb-names : (ps : List Bytes) → All IsName ps → Climb ps
Climb-names [] h = tt
Climb-names (p ∷ ps) (hp, h) = inr (hp, h)

-- The elements kept by Clean on a relative path, the last one first.
abbrev Kept : List Bytes → Type 0
Kept [] = Unit
Kept (p ∷ ps) = (IsName p × Kept ps) ⊎ ((p ≡ dot_dot) × All (λ q. q ≡ dot_dot) ps)

dots_not_up : (p : Bytes) → IsName p → same p dot_dot ≡ false
unfolding is_special
dots_not_up p (h, _) = ground arith

Kept-pop : (kept : List Bytes) → Kept kept → Kept (pop false kept)
Kept-pop [] h = inr (refl, tt)
Kept-pop (p ∷ kept) (inl (name, hk)) = rw (dots_not_up p name) hk
Kept-pop (p ∷ kept) (inr (up, ups)) = rw (same_complete p dot_dot up) (inr (refl, (up, ups)))

Kept-step :
    (kept : List Bytes) (p : Bytes) → Kept kept → SlashFree p → Kept (clean_step false kept p)
unfolding clean_step is_special
Kept-step kept p hk hp = elim (Bool-cases (same p [] || same p dot)) [
  | inl dropped ↦ rw dropped hk
  | inr other ↦ elim (Bool-cases (same p dot_dot)) [
    | inl up ↦ rw (other, up) (Kept-pop kept hk)
    | inr name ↦ rw (other, name) (inl ((ground arith, hp), hk))
  ]
]

Kept-clean_parts :
    (kept ps : List Bytes) → Kept kept → All SlashFree ps → Kept (clean_parts false kept ps)
unfolding clean_parts
Kept-clean_parts kept [] hk hp = hk
Kept-clean_parts kept (p ∷ ps) hk (h, hp) =
    Kept-clean_parts (clean_step false kept p) ps (Kept-step kept p hk h) hp

Climb-ups :
    (ups ps : List Bytes) → All (λ q. q ≡ dot_dot) ups → Climb ps → Climb (reverse_onto ups ps)
unfolding reverse_onto
Climb-ups [] ps hu hp = hp
Climb-ups (u ∷ ups) ps (h, hu) hp = Climb-ups ups (u ∷ ps) hu (inl (inr h, hp))

Climb-reverse_onto :
    (kept ps : List Bytes) → Kept kept → All IsName ps → Climb (reverse_onto kept ps)
unfolding reverse_onto
Climb-reverse_onto [] ps hk hp = Climb-names ps hp
Climb-reverse_onto (p ∷ kept) ps (inl (name, hk)) hp =
    Climb-reverse_onto kept (p ∷ ps) hk (name, hp)
Climb-reverse_onto (p ∷ kept) ps (inr (up, ups)) hp =
    Climb-ups kept (p ∷ ps) ups (inl (inr up, Climb-names ps hp))

-- The text spells the elements, perhaps behind a slash.
abbrev pub Spells : Bytes → List Bytes → Type 0
Spells s ps = (s ≡ join_with slash ps) ⊎ (s ≡ slash ∷ join_with slash ps)

relative-Spells :
    (ps : List Bytes) → Climb ps → (qs : List Bytes) × Climb qs × Spells (relative ps) qs
relative-Spells [] h = (dot ∷ [], inl (inl refl, tt), inl (unfold join_with in refl))
relative-Spells (p ∷ ps) h = (p ∷ ps, h, inl refl)

clean-relative :
    (s : Bytes)
    → is_abs s ≡ false
    → clean s ≡ relative (reverse_onto (clean_parts false [] (split s slash)) [])
unfolding clean
clean-relative s h = rw (h, clean)

-- Whatever Clean makes of a path is such a text.
clean-Spells : (s : Bytes) → (qs : List Bytes) × Climb qs × Spells (clean s) qs
unfolding is_abs
clean-Spells [] = rw (clean-relative [] refl) (
    relative-Spells _ (
      Climb-reverse_onto (clean_parts false [] (split [] slash)) []
        (Kept-clean_parts [] (split [] slash) tt (split-SlashFree-All [])) tt))
clean-Spells (c ∷ s) = elim (Bool-cases (c == slash)) [
  | inl rooted ↦
      let (ps, names, e) = clean-abs s in
      let at_slash : c ≡ slash = ground arith in
      (ps, Climb-names ps names, inr (ap (λ (x : ℕ). clean (x ∷ s)) at_slash ∙ e))
  | inr free ↦ rw (clean-relative (c ∷ s) free) (
      relative-Spells _ (
        Climb-reverse_onto (clean_parts false [] (split (c ∷ s) slash)) []
          (Kept-clean_parts [] (split (c ∷ s) slash) tt (split-SlashFree-All (c ∷ s))) tt))
]

join-Spells : (s t : Bytes) → (qs : List Bytes) × Climb qs × Spells (join s t) qs
unfolding join
join-Spells [] [] = ([], tt, inl (unfold join_with in refl))
join-Spells [] (c ∷ t) = clean-Spells (c ∷ t)
join-Spells (c ∷ s) t = clean-Spells ((c ∷ s) ++ slash ∷ t)

-- Elements that dots and names are: not empty, and without a slash.
pub Climb-head : (p : Bytes) (ps : List Bytes) → Climb (p ∷ ps) → (same p [] ≡ false) × SlashFree p
unfolding same
Climb-head p ps (inl (inl e, _)) = rw e (refl, omega arith)
Climb-head p ps (inl (inr e, _)) = rw e (refl, omega arith)
Climb-head p ps (inr (h, _)) = (IsName-nonempty p h, h.1)

pub trim-Spells :
    (s : Bytes) (qs : List Bytes)
    → Climb qs
    → Spells s qs
    → trim_prefix s (slash ∷ []) ≡ join_with slash qs
trim-Spells s [] h (inl e) = rw e (unfold join_with trim_prefix in refl)
trim-Spells s (q ∷ qs) h (inl e) =
    let (some_byte, free) = Climb-head q qs h in
    rw e (unfold trim_prefix in rw (root_excludes q qs some_byte free) refl)
trim-Spells s qs h (inr e) = rw e (unfold trim_prefix in refl)

-- The text behind a link.
pub behind_link-Spells :
    (link remaining : Bytes) → (qs : List Bytes) × Climb qs × Spells (behind_link link remaining) qs
behind_link-Spells link remaining =
    let (qs, climb, spelled) = join-Spells link remaining in
    (qs, climb, inr (ap (λ t. slash ∷ t) (trim-Spells (join link remaining) qs climb spelled)))

cut-SlashFree : (p s : Bytes) → SlashFree p → cut (p ++ slash ∷ s) slash ≡ (p, s, true)
unfolding cut
cut-SlashFree [] s h = refl
cut-SlashFree (c ∷ p) s (hc, h) = rw (==_ne c slash hc, cut-SlashFree p s h) refl

cut-whole : (p : Bytes) → SlashFree p → cut p slash ≡ (p, [], false)
unfolding cut
cut-whole [] h = refl
cut-whole (c ∷ p) (hc, h) = rw (==_ne c slash hc, cut-whole p h) refl

-- Cutting off the first element.
pub cut-join_with :
    (q : Bytes) (qs : List Bytes)
    → SlashFree q
    → (found : Bool) × (cut (join_with slash (q ∷ qs)) slash ≡ (q, join_with slash qs, found))
unfolding join_with
cut-join_with q [] h = (false, cut-whole q h)
cut-join_with q (r ∷ qs) h = (true, cut-SlashFree q (join_with slash (r ∷ qs)) h)

-- The loop's test for an end.
pub ended : (s : Bytes) → Spells s [] → (same s [] || same s (slash ∷ [])) ≡ true
unfolding same
ended s (inl e) = rw e (unfold join_with in refl)
ended s (inr e) = rw e (unfold join_with in refl)

first_byte :
    (q : Bytes) (qs : List Bytes)
    → same q [] ≡ false
    → SlashFree q
    → (c : ℕ) × (t : Bytes) × (join_with slash (q ∷ qs) ≡ c ∷ t) × (c ≢ slash)
unfolding join_with same
first_byte [] qs e h = absurd (cc)
first_byte (c ∷ q) [] e (hc, h) = (c, q, refl, hc)
first_byte (c ∷ q) (r ∷ qs) e (hc, h) = (c, q ++ slash ∷ join_with slash (r ∷ qs), refl, hc)

pub not_ended :
    (s : Bytes) (q : Bytes) (qs : List Bytes)
    → Climb (q ∷ qs)
    → Spells s (q ∷ qs)
    → (same s [] || same s (slash ∷ [])) ≡ false
unfolding same
not_ended s q qs h (inl e) =
    let (some_byte, free) = Climb-head q qs h in
    let (c, t, spelled, other) = first_byte q qs some_byte free in
    rw (e, spelled, ==_ne c slash other) refl
not_ended s q qs h (inr e) =
    let (some_byte, free) = Climb-head q qs h in
    let (c, t, spelled, other) = first_byte q qs some_byte free in rw (e, spelled) refl
