-- ===== src/Runtime/SecureJoin/Inside.antt =====
-- Where the walk of secureJoin goes on a tree with symbolic links.
use lightpod.Base.{
  ℕ, zero, suc, ◌≡◌, refl, ap, ◌∙◌, ◌⊎◌, inl, inr, true, List, [], ◌∷◌, ◌++◌, All, Result, ok, err,
  msg,
}
use lightpod.Base.Text.{Bytes}
use lightpod.Oci.Path.{slash, clean, is_within}
use lightpod.Oci.Path.Render.{IsName, render}
use lightpod.Oci.Path.Clean.{clean-abs}
use lightpod.Oci.Path.Within.{is_within-append}
use lightpod.Runtime.SecureJoin.{
  Tree, Round, next_round, found, broken, resume, round, finish, walk, secure_join, max_rounds,
}
use lightpod.Runtime.SecureJoin.Remaining.{Climb-names, Spells, ended, not_ended}
use lightpod.Runtime.SecureJoin.Links.{IsTree, NoLinks}
use lightpod.Runtime.SecureJoin.Stays.{Left, IsInside, Stays, root-IsInside, round-Stays}

module _ (tree : Tree) (t : IsTree tree) (rs : List Bytes) (names : All IsName rs) where
  -- A result inside, or one of the two errors of the loop.
  abbrev Good : Result Bytes → Type 0
  Good (ok path) = IsInside tree t rs names path
  Good (err e) = (e ≡ msg "too many symbolic links") ⊎ (e ≡ msg "reading symlink")

  module _ (below_root : (cs : List Bytes) → is_within (render rs) (render (rs ++ cs)) ≡ true) where
    finish-Good :
        (current : Bytes)
        → IsInside tree t rs names current
        → Good (finish tree (render rs) current)
    finish-Good current h =
        let inside : is_within (render rs) current ≡ true =
          ap (is_within (render rs)) h.spelled ∙ below_root h.below in
        rw inside h

    end-Good :
        (rounds : ℕ) (current remaining : Bytes)
        → IsInside tree t rs names current
        → Spells remaining []
        → Good (walk tree (render rs) rounds current remaining)
    unfolding walk
    end-Good zero current remaining h spelled =
        rw (ended remaining spelled, walk) (finish-Good current h)
    end-Good (suc rounds) current remaining h spelled =
        rw (ended remaining spelled, walk) (finish-Good current h)

    resume-Good :
        (next : Bytes → Bytes → Result Bytes)
        → ((current remaining : Bytes)
            → IsInside tree t rs names current
            → Left remaining
            → Good (next current remaining))
        → (r : Round) → Stays tree t rs names r
        → Good (resume next r)
    resume-Good next good (next_round current remaining) (h, left) = good current remaining h left
    resume-Good next good (found path) h = h
    resume-Good next good broken h = inr refl

    walk-Good :
        (rounds : ℕ) (current remaining : Bytes)
        → IsInside tree t rs names current
        → Left remaining
        → Good (walk tree (render rs) rounds current remaining)
    unfolding walk
    walk-Good rounds current remaining h ([], climb, spelled) =
        end-Good rounds current remaining h spelled
    walk-Good zero current remaining h (q ∷ qs, climb, spelled) =
        rw (not_ended remaining q qs climb spelled, walk) (inl refl)
    walk-Good (suc rounds) current remaining h (q ∷ qs, climb, spelled) =
        rw (not_ended remaining q qs climb spelled, walk)
          (resume-Good (walk tree (render rs) rounds) (walk-Good rounds)
            (round tree (render rs) current remaining)
            (round-Stays tree t rs names current remaining q qs h climb spelled))

-- What a successful resolution is: a path of the rootfs with further names below it, which the
-- containment check accepts, and no prefix of which below the rootfs is a symbolic link.
pub record Contained (tree : Tree) (rs : List Bytes) (path : Bytes) : Type 0 where
  pub below : List Bytes
  pub below_names : All IsName below
  pub spelled : path ≡ render (rs ++ below)
  pub inside : is_within (render rs) path ≡ true
  pub links : NoLinks tree rs below

abbrev pub Outcome : Tree → List Bytes → Result Bytes → Type 0
Outcome tree rs (ok path) = Contained tree rs path
Outcome tree rs (err e) = (e ≡ msg "too many symbolic links") ⊎ (e ≡ msg "reading symlink")

module _ (tree : Tree) (t : IsTree tree) (r : Bytes) (rs : List Bytes)
    (names : All IsName (r ∷ rs)) where
  Outcome-Good : (x : Result Bytes) → Good tree t (r ∷ rs) names x → Outcome tree (r ∷ rs) x
  Outcome-Good (err e) h = h
  Outcome-Good (ok path) h = record {
    below = h.below;
    below_names = h.below_names;
    spelled = h.spelled;
    inside = ap (is_within (render (r ∷ rs))) h.spelled ∙ is_within-append r rs h.below;
    links = h.links;
  }

  -- Whatever the container path and whatever symbolic links the image ships, on a tree where nothing
  -- exists below a missing path, and a rootfs that is a clean absolute path other than `/`: the
  -- walk either returns a path of the rootfs with clean names below it, no prefix of which is a
  -- symbolic link, so that the kernel resolves it to the place that it spells; or it fails because
  -- its rounds ran out or a link could not be read. The containment check at the end never fails.
  pub secure_join-Outcome :
      (unsafe_path : Bytes) → Outcome tree (r ∷ rs) (secure_join tree (render (r ∷ rs)) unsafe_path)
  unfolding secure_join
  secure_join-Outcome unsafe_path =
      let (qs, qs_names, e) = clean-abs unsafe_path in
      Outcome-Good
        (walk tree (render (r ∷ rs)) max_rounds (render (r ∷ rs)) (clean (slash ∷ unsafe_path)))
        (walk-Good tree t (r ∷ rs) names (is_within-append r rs) max_rounds (render (r ∷ rs))
          (clean (slash ∷ unsafe_path)) (root-IsInside tree t (r ∷ rs) names)
          (qs, Climb-names qs qs_names, inr e))
