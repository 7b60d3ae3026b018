-- ===== src/Runtime/SecureJoin/Stays.antt =====
-- What a round of the walk keeps of its path.
use mathlib.Core.Path.{subst}
use lightpod.Base.{
  ◌≡◌, ◌≢◌, refl, sym, ap, ◌∙◌, inl, inr, Bool, Bool-cases, true, false, if◌then◌else◌, List, [],
  ◌∷◌, ◌++◌, append-nil, append_assoc, All, All-append, All-append_left, arith, Option, none, some,
}
use lightpod.Base.Text.{Bytes, same, same_complete, join_with}
use lightpod.Oci.Path.{slash, is_abs, join, dir}
use lightpod.Oci.Path.Render.{IsName, render}
use lightpod.Oci.Path.Clean.{join-render, dir-render}
use lightpod.Runtime.SecureJoin.{Tree, Round, next_round, found, broken, follow, visit, step, round}
use lightpod.Runtime.SecureJoin.Remaining.{
  Climb, Climb-names, Climb-head, Spells, trim-Spells, behind_link-Spells, cut-join_with,
}
use lightpod.Runtime.SecureJoin.Links.{
  name_tests, IsTree, NoLinks, NoLinks-snoc, NoLinks-prefix, NoLinks-absent, NoLinks-append,
  All-last, snoc_view,
}

abbrev pub Left : Bytes → Type 0
Left remaining = (qs : List Bytes) × Climb qs × Spells remaining qs

module _ (tree : Tree) (t : IsTree tree) (rs : List Bytes) (names : All IsName rs) where
  -- What the walk keeps of `current`.
  pub record IsInside (path : Bytes) : Type 0 where
    pub below : List Bytes
    pub below_names : All IsName below
    pub links : NoLinks tree rs below
    pub spelled : path ≡ render (rs ++ below)

  -- A path with one name less.
  dir-IsInside :
      (current : Bytes)
      → IsInside current
      → same current (render rs) ≡ false
      → IsInside (dir current)
  dir-IsInside current h below_root = elim (snoc_view h.below) [
    | inl none_below ↦
        let at_root : current ≡ render rs =
          h.spelled ∙ ap (λ cs. render (rs ++ cs)) none_below ∙ ap render (append-nil rs) in
        absurd (ground (arith, same_complete current (render rs) at_root))
    | inr (ds, q, e) ↦
        let split_names = subst (All IsName) e h.below_names in
        let last_name = All-last ds q split_names in
        let ds_names = All-append_left IsName ds (q ∷ []) split_names in
        record {
          below = ds;
          below_names = ds_names;
          links = NoLinks-prefix tree rs ds (q ∷ []) (subst (NoLinks tree rs) e h.links);
          spelled =
              ap dir (
                h.spelled
                ∙ ap (λ cs. render (rs ++ cs)) e
                ∙ ap render (sym (append_assoc rs ds (q ∷ []))))
              ∙ dir-render (rs ++ ds) q (All-append IsName rs ds names ds_names) last_name;
        }
  ]

  -- `..`
  climb-IsInside :
      (current : Bytes)
      → IsInside current
      → IsInside (if same current (render rs) then current else dir current)
  climb-IsInside current h = elim (Bool-cases (same current (render rs))) [
    | inl at_root ↦ rw at_root h
    | inr below_root ↦ rw below_root (dir-IsInside current h below_root)
  ]

  -- What a round leaves behind.
  abbrev pub Stays : Round → Type 0
  Stays (next_round current remaining) = IsInside current × Left remaining
  Stays (found path) = IsInside path
  Stays broken = Unit

  pub root-IsInside : IsInside (render rs)
  root-IsInside = record {
    below = [];
    below_names = tt;
    links = tt;
    spelled = ap render (sym (append-nil rs));
  }

  follow-Stays :
      (current remaining : Bytes) (target : Option Bytes)
      → IsInside current
      → Stays (follow tree (render rs) current remaining target)
  follow-Stays current remaining none h = tt
  follow-Stays current remaining (some link) h = elim (Bool-cases (is_abs link)) [
    | inl rooted ↦ rw rooted (root-IsInside, behind_link-Spells link remaining)
    | inr free ↦ rw free (h, behind_link-Spells link remaining)
  ]

  -- The path of one more name.
  next_path :
      (current q : Bytes) (h : IsInside current)
      → IsName q
      → join current q ≡ render (rs ++ (h.below ++ q ∷ []))
  next_path current q h name =
      ap (λ t. join t q) h.spelled
      ∙ unfold join_with in
        join-render (rs ++ h.below) (q ∷ []) (All-append IsName rs h.below names h.below_names)
          (name, tt)
        ∙ ap render (append_assoc rs h.below (q ∷ []))

  next-IsInside :
      (current q : Bytes)
      → IsInside current
      → IsName q
      → tree.lstat (join current q) ≢ some true
      → IsInside (join current q)
  next-IsInside current q h name plain = record {
    below = h.below ++ q ∷ [];
    below_names = All-append IsName h.below (q ∷ []) h.below_names (name, tt);
    links =
        NoLinks-snoc tree rs h.below q h.links
          (subst (λ p. tree.lstat p ≢ some true) (next_path current q h name) plain);
    spelled = next_path current q h name;
  }

  -- The rest behind a name that does not exist.
  absent-IsInside :
      (path : Bytes) (qs : List Bytes)
      → IsInside path
      → All IsName qs
      → tree.lstat path ≡ none
      → IsInside (join path (join_with slash qs))
  absent-IsInside path qs h qs_names gone = record {
    below = h.below ++ qs;
    below_names = All-append IsName h.below qs h.below_names qs_names;
    links =
        NoLinks-append tree rs h.below qs h.links
          (NoLinks-absent tree (rs ++ h.below) qs t (sym (ap tree.lstat h.spelled) ∙ gone));
    spelled =
        ap (λ p. join p (join_with slash qs)) h.spelled
        ∙ join-render (rs ++ h.below) qs (All-append IsName rs h.below names h.below_names) qs_names
        ∙ ap render (append_assoc rs h.below qs);
  }

  visit-Stays :
      (current q : Bytes) (qs : List Bytes) (o : Option Bool)
      → tree.lstat (join current q) ≡ o
      → IsInside current
      → IsName q
      → All IsName qs
      → Stays (visit tree (render rs) current (join current q) (join_with slash qs) o)
  visit-Stays current q qs none e h name qs_names =
      absent-IsInside (join current q) qs
        (next-IsInside current q h name (λ link. ground (arith, e))) qs_names e
  visit-Stays current q qs (some false) e h name qs_names = (
    next-IsInside current q h name (λ link. ground (arith, e)),
    (qs, Climb-names qs qs_names, inl refl),
  )
  visit-Stays current q qs (some true) e h name qs_names =
      follow-Stays current (join_with slash qs) (tree.readlink (join current q)) h

  step-Stays :
      (current q : Bytes) (qs : List Bytes)
      → IsInside current
      → Climb (q ∷ qs)
      → Stays (step tree (render rs) current q (join_with slash qs))
  unfolding step
  step-Stays current q qs h (inl (inl e, climb)) = rw (e, step) (h, (qs, climb, inl refl))
  step-Stays current q qs h (inl (inr e, climb)) =
      rw (e, step) (climb-IsInside current h, (qs, climb, inl refl))
  step-Stays current q qs h (inr (name, qs_names)) =
      let (no_dot, no_up) = name_tests q name in
      rw (no_dot, no_up, step)
        (visit-Stays current q qs (tree.lstat (join current q)) refl h name qs_names)

  pub round-Stays :
      (current remaining q : Bytes) (qs : List Bytes)
      → IsInside current
      → Climb (q ∷ qs)
      → Spells remaining (q ∷ qs)
      → Stays (round tree (render rs) current remaining)
  unfolding round
  round-Stays current remaining q qs h climb spelled =
      let (hit, e) = cut-join_with q qs (Climb-head q qs climb).1 in
      rw (trim-Spells remaining (q ∷ qs) climb spelled, e, round) (step-Stays current q qs h climb)
