-- ===== src/Oci/Path/Clean.antt =====
-- filepath.Clean and filepath.Join on rendered paths, and what they make of any absolute path.
use lightpod.Base.{
  ◌≡◌, refl, sym, ap, ◌∙◌, Bool, Bool-cases, inl, inr, true, false, ◌||◌, ==_ne, List, [], ◌∷◌,
  ◌++◌, append_assoc, append-nil, All, arith,
}
use lightpod.Base.Text.{Bytes, same, split, join_with}
use lightpod.Oci.Path.{
  slash, dot, dot_dot, is_abs, clean_step, clean_parts, reverse_onto, clean, join, up_to_slash, dir,
  pop,
}
use lightpod.Oci.Path.Render.{
  is_special, IsName, SlashFree, render, split-join_with, split-join_with-slash,
  split-SlashFree-All,
}

pub All-SlashFree : (ps : List Bytes) → All IsName ps → All SlashFree ps
All-SlashFree [] h = tt
All-SlashFree (p ∷ ps) ((_, hp), h) = (hp, All-SlashFree ps h)

-- Names are kept.
clean_step-name :
    (rooted : Bool) (kept : List Bytes) (p : Bytes) → IsName p → clean_step rooted kept p ≡ p ∷ kept
unfolding clean_step is_special
clean_step-name rooted kept p (h, _) = ground arith

clean_parts-names :
    (rooted : Bool) (kept ps rest : List Bytes)
    → All IsName ps
    → clean_parts rooted kept (ps ++ rest) ≡ clean_parts rooted (reverse_onto ps kept) rest
unfolding clean_parts reverse_onto
clean_parts-names rooted kept [] rest h = refl
clean_parts-names rooted kept (p ∷ ps) rest (hp, h) =
    rw (clean_step-name rooted kept p hp, clean_parts)
      (clean_parts-names rooted (p ∷ kept) ps rest h)

pub reverse_onto-append :
    (xs ys zs : List Bytes) → reverse_onto xs ys ++ zs ≡ reverse_onto xs (ys ++ zs)
unfolding reverse_onto
reverse_onto-append [] ys zs = refl
reverse_onto-append (x ∷ xs) ys zs = reverse_onto-append xs (x ∷ ys) zs

pub reverse_onto-reverse_onto :
    (xs ys zs : List Bytes) → reverse_onto (reverse_onto xs ys) zs ≡ reverse_onto ys (xs ++ zs)
unfolding reverse_onto
reverse_onto-reverse_onto [] ys zs = refl
reverse_onto-reverse_onto (x ∷ xs) ys zs = reverse_onto-reverse_onto xs (x ∷ ys) zs

clean_parts-names-All :
    (rooted : Bool) (kept ps : List Bytes)
    → All IsName ps
    → clean_parts rooted kept ps ≡ reverse_onto ps kept
unfolding clean_parts reverse_onto
clean_parts-names-All rooted kept [] h = refl
clean_parts-names-All rooted kept (p ∷ ps) (hp, h) =
    rw (clean_step-name rooted kept p hp, clean_parts)
      (clean_parts-names-All rooted (p ∷ kept) ps h)

-- Two reversals, one onto the other.
pub reversed_twice :
    (ps qs : List Bytes) → reverse_onto (reverse_onto qs (reverse_onto ps [])) [] ≡ ps ++ qs
reversed_twice ps qs =
    reverse_onto-reverse_onto qs (reverse_onto ps []) []
    ∙ reverse_onto-reverse_onto ps [] (qs ++ [])
    ∙ unfold reverse_onto in ap (λ t. ps ++ t) (append-nil qs)

All-reverse_onto {ℓ} :
    (P : Bytes → Type ℓ) (xs ys : List Bytes) → All P xs → All P ys → All P (reverse_onto xs ys)
unfolding reverse_onto
All-reverse_onto P [] ys hx hy = hy
All-reverse_onto P (x ∷ xs) ys (h, hx) hy = All-reverse_onto P xs (x ∷ ys) hx (h, hy)

-- What Clean keeps of an absolute path is names.
All-pop : (kept : List Bytes) → All IsName kept → All IsName (pop true kept)
unfolding is_special
All-pop [] h = tt
All-pop (p ∷ kept) ((hp, _), h) = let named : same p dot_dot ≡ false = ground arith in rw named h

clean_step-IsName :
    (kept : List Bytes) (p : Bytes)
    → All IsName kept
    → SlashFree p
    → All IsName (clean_step true kept p)
unfolding clean_step is_special
clean_step-IsName kept p hk hp = elim (Bool-cases (same p [] || same p dot)) [
  | inl dropped ↦ rw dropped hk
  | inr other ↦ elim (Bool-cases (same p dot_dot)) [
    | inl up ↦ rw (other, up) (All-pop kept hk)
    | inr name ↦ rw (other, name) ((ground arith, hp), hk)
  ]
]

clean_parts-IsName :
    (kept ps : List Bytes)
    → All IsName kept
    → All SlashFree ps
    → All IsName (clean_parts true kept ps)
unfolding clean_parts
clean_parts-IsName kept [] hk hp = hk
clean_parts-IsName kept (p ∷ ps) hk (h, hp) =
    clean_parts-IsName (clean_step true kept p) ps (clean_step-IsName kept p hk h) hp

-- The names of an absolute path after Clean.
pub clean-abs : (s : Bytes) → (ps : List Bytes) × All IsName ps × (clean (slash ∷ s) ≡ render ps)
unfolding clean is_abs
clean-abs s =
    let parts = split (slash ∷ s) slash in
    (
      reverse_onto (clean_parts true [] parts) [],
      All-reverse_onto IsName (clean_parts true [] parts) []
          (clean_parts-IsName [] parts tt (split-SlashFree-All (slash ∷ s))) tt,
      refl,
    )

-- What Join makes of an absolute path and anything.
pub join-names :
    (rs : List Bytes) (s : Bytes)
    → (ps : List Bytes) × All IsName ps × (join (render rs) s ≡ render ps)
unfolding join
join-names rs s = clean-abs (join_with slash rs ++ slash ∷ s)

clean-slash :
    (s : Bytes) → clean (slash ∷ s) ≡ render (reverse_onto (clean_parts true [] (split s slash)) [])
unfolding clean is_abs split clean_parts
clean-slash s = refl

clean_parts-empty : (kept : List Bytes) → clean_parts true kept ([] ∷ []) ≡ kept
unfolding clean_parts
clean_parts-empty kept = refl

-- A rendered path with a rest behind a slash: the rest is cleaned from there.
pub clean-render-slash :
    (ps : List Bytes) (s : Bytes)
    → All IsName ps
    → clean (render ps ++ slash ∷ s)
      ≡ render (reverse_onto (clean_parts true (reverse_onto ps []) (split s slash)) [])
clean-render-slash [] s h = unfold clean is_abs split clean_parts join_with reverse_onto in refl
clean-render-slash (p ∷ ps) s h = rw (
  clean-slash (join_with slash (p ∷ ps) ++ slash ∷ s),
  split-join_with-slash p ps s (All-SlashFree (p ∷ ps) h),
  clean_parts-names true [] (p ∷ ps) (split s slash) h,
)

-- Joining two lists of names.
pub join-render :
    (ps qs : List Bytes)
    → All IsName ps
    → All IsName qs
    → join (render ps) (join_with slash qs) ≡ render (ps ++ qs)
unfolding join
join-render ps [] hp hq =
    clean-render-slash ps (join_with slash []) hp
    ∙ unfold join_with split clean_parts in ap render (reverse_onto-reverse_onto ps [] [])
join-render ps (q ∷ qs) hp hq =
    clean-render-slash ps (join_with slash (q ∷ qs)) hp ∙ ap render names_behind
  where
    names_behind :
        reverse_onto
          (clean_parts true (reverse_onto ps []) (split (join_with slash (q ∷ qs)) slash))
          []
        ≡ ps ++ q ∷ qs
    names_behind =
        rw
          (
            split-join_with q qs (All-SlashFree (q ∷ qs) hq),
            clean_parts-names-All true (reverse_onto ps []) (q ∷ qs) hq,
          )
          (reversed_twice ps (q ∷ qs))

-- Clean leaves a rendered path alone.
pub clean-render : (ps : List Bytes) → All IsName ps → clean (render ps) ≡ render ps
clean-render [] h = unfold clean is_abs split clean_parts join_with reverse_onto in refl
clean-render (p ∷ ps) h =
    rw
      (
        clean-slash (join_with slash (p ∷ ps)),
        split-join_with p ps (All-SlashFree (p ∷ ps) h),
        clean_parts-names-All true [] (p ∷ ps) h,
      )
      (ap render (unfold reverse_onto in reversed_twice [] (p ∷ ps)))

up_to_slash-SlashFree : (p : Bytes) → SlashFree p → up_to_slash p ≡ []
unfolding up_to_slash
up_to_slash-SlashFree [] h = refl
up_to_slash-SlashFree (c ∷ p) (hc, h) = rw (up_to_slash-SlashFree p h, ==_ne c slash hc) refl

up_to_slash-append : (s p : Bytes) → SlashFree p → up_to_slash (s ++ slash ∷ p) ≡ s ++ slash ∷ []
unfolding up_to_slash
up_to_slash-append [] p h = rw (up_to_slash-SlashFree p h) refl
up_to_slash-append (c ∷ []) p h = rw (up_to_slash-SlashFree p h) refl
up_to_slash-append (c ∷ d ∷ s) p h = rw (up_to_slash-append (d ∷ s) p h) refl

join_with-snoc :
    (p : Bytes) (ps : List Bytes) (q : Bytes)
    → join_with slash ((p ∷ ps) ++ q ∷ []) ≡ join_with slash (p ∷ ps) ++ slash ∷ q
unfolding join_with
join_with-snoc p [] q = refl
join_with-snoc p (p' ∷ ps) q =
    rw (join_with-snoc p' ps q)
      (sym (append_assoc p (slash ∷ join_with slash (p' ∷ ps)) (slash ∷ q)))

-- The parent of a rendered path.
pub dir-render :
    (ps : List Bytes) (q : Bytes)
    → All IsName ps
    → IsName q
    → dir (render (ps ++ q ∷ [])) ≡ render ps
unfolding dir
dir-render [] q hp (_, hq) = ap clean (up_to_slash-append [] q hq) ∙ clean-render [] tt
dir-render (p ∷ ps) q hp (_, hq) =
    ap (λ t. clean (up_to_slash (slash ∷ t))) (join_with-snoc p ps q)
    ∙ ap clean (up_to_slash-append (render (p ∷ ps)) q hq)
    ∙ clean-render-slash (p ∷ ps) [] hp
    ∙ unfold split clean_parts in
      ap render (unfold reverse_onto in reversed_twice (p ∷ ps) [])
      ∙ ap render (append-nil (p ∷ ps))
