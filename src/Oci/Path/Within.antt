-- ===== src/Oci/Path/Within.antt =====
-- What IsWithin decides on clean absolute paths.
use lightpod.Base.{
  ◌||◌, ◌≡◌, refl, sym, ap, ◌∙◌, ◌↔◌, Bool-cases, inl, inr, true, false, ==_refl, ==_ne, List, [],
  ◌∷◌, ◌++◌, append_assoc, append-nil, All, arith,
}
use lightpod.Base.Text.{
  Bytes, same, same_sound, same_refl, split, join_with, has_prefix, drop_prefix,
}
use lightpod.Oci.Path.{slash, is_within}
use lightpod.Oci.Path.Render.{
  is_special, IsName, SlashFree, render, split-join_with, split-join_with-slash,
}
use lightpod.Oci.Path.Clean.{All-SlashFree}

has_prefix-append : (s t : Bytes) → has_prefix (s ++ t) s ≡ true
unfolding has_prefix
has_prefix-append [] t = refl
has_prefix-append (c ∷ s) t = rw (==_refl c) (has_prefix-append s t)

has_prefix_sound : (s p : Bytes) → has_prefix s p ≡ true → s ≡ p ++ drop_prefix s p
unfolding has_prefix drop_prefix
has_prefix_sound s [] h = refl
has_prefix_sound [] (c ∷ p) h = cc
has_prefix_sound (d ∷ s) (c ∷ p) h = ground (arith, has_prefix_sound s p)

-- Names behind names are a path behind a path.
pub join_with-append :
    (p : Bytes) (ps : List Bytes) (q : Bytes) (qs : List Bytes)
    → join_with slash ((p ∷ ps) ++ q ∷ qs)
      ≡ join_with slash (p ∷ ps) ++ slash ∷ join_with slash (q ∷ qs)
unfolding join_with
join_with-append p [] q qs = refl
join_with-append p (p' ∷ ps) q qs =
    rw (join_with-append p' ps q qs)
      (sym (append_assoc p (slash ∷ join_with slash (p' ∷ ps)) (slash ∷ join_with slash (q ∷ qs))))

-- A path made of further names is within.
pub is_within-append :
    (p : Bytes) (ps cs : List Bytes) → is_within (render (p ∷ ps)) (render ((p ∷ ps) ++ cs)) ≡ true
unfolding is_within
is_within-append p ps [] = rw (append-nil ps, same_refl (render (p ∷ ps))) refl
is_within-append p ps (c ∷ cs) =
    let parent = render (p ∷ ps) in
    let behind = join_with slash (c ∷ cs) in
    let e : render ((p ∷ ps) ++ c ∷ cs) ≡ (parent ++ slash ∷ []) ++ behind =
      ap (λ t. slash ∷ t) (join_with-append p ps c cs)
      ∙ sym (append_assoc parent (slash ∷ []) behind) in
    let found : has_prefix (render ((p ∷ ps) ++ c ∷ cs)) (parent ++ slash ∷ []) ≡ true =
      ap (λ t. has_prefix t (parent ++ slash ∷ [])) e
      ∙ has_prefix-append (parent ++ slash ∷ []) behind in
    ground (arith, found)

join_with-injective :
    (p q : Bytes) (ps qs : List Bytes)
    → All IsName (p ∷ ps)
    → All IsName (q ∷ qs)
    → join_with slash (q ∷ qs) ≡ join_with slash (p ∷ ps)
    → q ∷ qs ≡ p ∷ ps
join_with-injective p q ps qs hp hq e =
    sym (split-join_with q qs (All-SlashFree (q ∷ qs) hq))
    ∙ ap (λ t. split t slash) e
    ∙ split-join_with p ps (All-SlashFree (p ∷ ps) hp)

behind_prefix :
    (p q : Bytes) (ps qs : List Bytes) (t : Bytes)
    → All IsName (p ∷ ps)
    → All IsName (q ∷ qs)
    → join_with slash (q ∷ qs) ≡ join_with slash (p ∷ ps) ++ slash ∷ t
    → q ∷ qs ≡ (p ∷ ps) ++ split t slash
behind_prefix p q ps qs t hp hq e =
    sym (split-join_with q qs (All-SlashFree (q ∷ qs) hq))
    ∙ ap (λ s. split s slash) e
    ∙ split-join_with-slash p ps t (All-SlashFree (p ∷ ps) hp)

behind_slash : (s t : Bytes) → slash ∷ s ≡ slash ∷ t → s ≡ t
behind_slash s t e = ground arith

-- A path within another has the names of the other, and perhaps more.
within-names :
    (p q : Bytes) (ps qs : List Bytes)
    → All IsName (p ∷ ps)
    → All IsName (q ∷ qs)
    → is_within (render (p ∷ ps)) (render (q ∷ qs)) ≡ true
    → (cs : List Bytes) × (q ∷ qs ≡ (p ∷ ps) ++ cs)
unfolding is_within
within-names p q ps qs hp hq h =
    let parent = render (p ∷ ps) in
    elim (Bool-cases (same (render (q ∷ qs)) parent)) [
      | inl equal ↦ (
        [],
        join_with-injective p q ps qs hp hq (
              behind_slash (join_with slash (q ∷ qs)) (join_with slash (p ∷ ps))
                (same_sound _ _ equal))
            ∙ sym (append-nil (p ∷ ps)),
      )
      | inr other ↦
          let found : has_prefix (render (q ∷ qs)) (parent ++ slash ∷ []) ≡ true =
            ground (arith, other) in
          let t = drop_prefix (render (q ∷ qs)) (parent ++ slash ∷ []) in
          let e =
            has_prefix_sound (render (q ∷ qs)) (parent ++ slash ∷ []) found
            ∙ append_assoc parent (slash ∷ []) t in
          (
            split t slash,
            behind_prefix p q ps qs t hp hq
                (behind_slash (join_with slash (q ∷ qs)) (join_with slash (p ∷ ps) ++ slash ∷ t) e),
          )
    ]

pub root_prefix :
    (q : Bytes) (s : Bytes)
    → same q [] ≡ false
    → SlashFree q
    → has_prefix (q ++ s) (slash ∷ []) ≡ false
unfolding has_prefix same
root_prefix [] s e h = cc
root_prefix (c ∷ q) s e (hc, h) = rw (==_ne c slash hc) refl

pub root_excludes :
    (q : Bytes) (qs : List Bytes)
    → same q [] ≡ false
    → SlashFree q
    → has_prefix (join_with slash (q ∷ qs)) (slash ∷ []) ≡ false
unfolding join_with
root_excludes q [] e h = rw (← append-nil q) (root_prefix q [] e h)
root_excludes q (r ∷ qs) e h = root_prefix q (slash ∷ join_with slash (r ∷ qs)) e h

pub IsName-nonempty : (q : Bytes) → IsName q → same q [] ≡ false
unfolding is_special
IsName-nonempty q (h, _) = ground arith

pub not_root : (q : Bytes) (qs : List Bytes) → IsName q → same (join_with slash (q ∷ qs)) [] ≡ false
unfolding join_with is_special same
not_root [] [] (hq, _) = absurd (ground arith)
not_root (c ∷ q) [] h = refl
not_root [] (r ∷ qs) (hq, _) = absurd (ground arith)
not_root (c ∷ q) (r ∷ qs) h = refl

nothing_inside :
    (s : Bytes) → same s [] ≡ false → (same [] s || has_prefix [] (s ++ slash ∷ [])) ≡ false
unfolding same has_prefix
nothing_inside [] h = absurd (ground arith)
nothing_inside (c ∷ s) h = refl

-- Nothing but `/` contains `/`.
pub within-top :
    (r : Bytes) (rs : List Bytes)
    → All IsName (r ∷ rs)
    → is_within (render (r ∷ rs)) (render []) ≡ false
unfolding is_within same has_prefix join_with
within-top r rs names = nothing_inside (join_with slash (r ∷ rs)) (not_root r rs names.0)

within_root :
    (q : Bytes) (qs : List Bytes) → IsName q → is_within (render []) (render (q ∷ qs)) ≡ false
unfolding is_within has_prefix same
within_root q qs h =
    unfold join_with in rw (not_root q qs h, root_excludes q qs (IsName-nonempty q h) h.1) refl

-- Between clean absolute paths, `parent` not being the root, IsWithin holds exactly if the names of
-- the path are the names of the parent with further names behind them, none for the parent itself.
-- Of the root directory it holds for no other path: everything below `/` is reported as outside.
pub is_within_iff :
    (p : Bytes) (ps : List Bytes) (q : Bytes) (qs : List Bytes)
    → All IsName (p ∷ ps)
    → All IsName (q ∷ qs)
    → ((is_within (render (p ∷ ps)) (render (q ∷ qs)) ≡ true)
        ↔ ((cs : List Bytes) × (q ∷ qs ≡ (p ∷ ps) ++ cs)))
      × (is_within (render []) (render (q ∷ qs)) ≡ false)
is_within_iff p ps q qs hp hq = (
  (
    within-names p q ps qs hp hq,
    λ r. ap (λ t. is_within (render (p ∷ ps)) (render t)) r.1 ∙ is_within-append p ps r.0,
  ),
  within_root q qs hq.0,
)
