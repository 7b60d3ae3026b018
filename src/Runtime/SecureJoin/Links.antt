-- ===== src/Runtime/SecureJoin/Links.antt =====
-- Paths of a tree without symbolic links below a base.
use mathlib.Core.Path.{subst}
use lightpod.Base.{
  ◌≡◌, ◌≢◌, refl, sym, ap, ◌⊎◌, inl, inr, true, false, ◌||◌, List, [], ◌∷◌, ◌++◌, append-nil,
  append_assoc, All, arith, none, some,
}
use lightpod.Base.Text.{Bytes, same}
use lightpod.Oci.Path.{dot, dot_dot}
use lightpod.Oci.Path.Render.{IsName, is_special, render}
use lightpod.Runtime.SecureJoin.{Tree}

pub name_tests :
    (q : Bytes) → IsName q → ((same q [] || same q dot) ≡ false) × (same q dot_dot ≡ false)
unfolding is_special
name_tests q (h, _) = (ground arith, ground arith)

-- Below a path that does not exist nothing exists.
pub record IsTree (tree : Tree) : Type 0 where
  pub below_absent :
      (xs ys : List Bytes) → tree.lstat (render xs) ≡ none → tree.lstat (render (xs ++ ys)) ≡ none

-- No path that is made of `base` and a non-empty prefix of the names is a symbolic link.
abbrev pub NoLinks : Tree → List Bytes → List Bytes → Type 0
NoLinks tree base [] = Unit
NoLinks tree base (c ∷ cs) =
    (tree.lstat (render (base ++ c ∷ [])) ≢ some true) × NoLinks tree (base ++ c ∷ []) cs

module _ (tree : Tree) where
  pub NoLinks-snoc :
      (base cs : List Bytes) (q : Bytes)
      → NoLinks tree base cs
      → tree.lstat (render (base ++ (cs ++ q ∷ []))) ≢ some true
      → NoLinks tree base (cs ++ q ∷ [])
  NoLinks-snoc base [] q h e = (e, tt)
  NoLinks-snoc base (c ∷ cs) q (hc, h) e =
      (hc, NoLinks-snoc (base ++ c ∷ []) cs q h (rw (append_assoc base (c ∷ []) (cs ++ q ∷ [])) e))

  pub NoLinks-prefix :
      (base cs ds : List Bytes) → NoLinks tree base (cs ++ ds) → NoLinks tree base cs
  NoLinks-prefix base [] ds h = tt
  NoLinks-prefix base (c ∷ cs) ds (hc, h) = (hc, NoLinks-prefix (base ++ c ∷ []) cs ds h)

  -- Behind a path that does not exist there are no links.
  pub NoLinks-absent :
      (base cs : List Bytes) → IsTree tree → tree.lstat (render base) ≡ none → NoLinks tree base cs
  NoLinks-absent base [] t e = tt
  NoLinks-absent base (c ∷ cs) t e =
      let gone = t.below_absent base (c ∷ []) e in
      ((λ link. ground (arith, gone)), NoLinks-absent (base ++ c ∷ []) cs t gone)

  pub NoLinks-append :
      (base cs ds : List Bytes)
      → NoLinks tree base cs
      → NoLinks tree (base ++ cs) ds
      → NoLinks tree base (cs ++ ds)
  NoLinks-append base [] ds h k = subst (λ b. NoLinks tree b ds) (append-nil base) k
  NoLinks-append base (c ∷ cs) ds (hc, h) k = (
    hc,
    NoLinks-append (base ++ c ∷ []) cs ds h
        (subst (λ b. NoLinks tree b ds) (sym (append_assoc base (c ∷ []) cs)) k),
  )

pub All-last : (ds : List Bytes) (q : Bytes) → All IsName (ds ++ q ∷ []) → IsName q
All-last [] q h = h.0
All-last (d ∷ ds) q h = All-last ds q h.1

pub snoc_view :
    (cs : List Bytes) → (cs ≡ []) ⊎ ((ds : List Bytes) × (q : Bytes) × (cs ≡ ds ++ q ∷ []))
snoc_view [] = inl refl
snoc_view (c ∷ cs) = elim (snoc_view cs) [
  | inl e ↦ inr ([], c, ap (λ t. c ∷ t) e)
  | inr (ds, q, e) ↦ inr (c ∷ ds, q, ap (λ t. c ∷ t) e)
]
