-- ===== src/Oci/Rootfs/Resolve.antt =====
-- ResolveRootfs of pkg/oci/load.go on absolute bundles.
use mathlib.Core.Path.{subst}
use lightpod.Base.{
  All-append_right, ◌≡◌, refl, sym, ap, ◌∙◌, inl, inr, Bool, true, false, Bool-cases, Option, none,
  some, List, [], ◌∷◌, ◌++◌, All, ok, err, msg, arith,
}
use lightpod.Base.Text.{Bytes, same}
use lightpod.Oci.Path.{is_abs, clean, is_within}
use lightpod.Oci.Path.Render.{IsName, render}
use lightpod.Oci.Path.Clean.{clean-render, join-names}
use lightpod.Oci.Path.Within.{within-top, is_within_iff}
use lightpod.Oci.Spec.{Spec}
use lightpod.Oci.Rootfs.{Files, absolute, root_path, existing, rootfs_of, resolve_rootfs}

existing-ok : (p q : Bytes) (o : Option Bool) → existing p o ≡ ok q → (p ≡ q) × (o ≡ some true)
existing-ok p q none h = absurd (ground arith)
existing-ok p q (some true) h = (ground arith, refl)
existing-ok p q (some false) h = absurd (ground arith)

module _ (files : Files) (spec : Spec) (b : Bytes) (bs : List Bytes)
    (names : All IsName (b ∷ bs)) where
  -- A directory at or below the bundle: the names of the bundle, then further names, none of them
  -- `.`, `..` or empty.
  pub record InBundle (path : Bytes) : Type 0 where
    pub below : List Bytes
    pub below_names : All IsName below
    pub spelled : path ≡ render ((b ∷ bs) ++ below)
    pub is_dir : files.is_directory path ≡ some true

  below-bundle :
      (ps : List Bytes)
      → All IsName ps
      → is_within (render (b ∷ bs)) (render ps) ≡ true
      → (cs : List Bytes) × (ps ≡ (b ∷ bs) ++ cs)
  below-bundle [] h inside = absurd (cc (within-top b bs names, inside))
  below-bundle (p ∷ ps) h inside = (is_within_iff b bs p ps names h).0.0 inside

  clean-bundle : clean (render (b ∷ bs)) ≡ render (b ∷ bs)
  clean-bundle = clean-render (b ∷ bs) names

  rootfs-names :
      (path : Bytes)
      → is_abs path ≡ false
      → (ps : List Bytes) × All IsName ps × (rootfs_of path (render (b ∷ bs)) ≡ render ps)
  unfolding rootfs_of
  rootfs-names path rel =
      let (ps, h, e) = join-names (b ∷ bs) path in (ps, h, rw (rel, e) (clean-render ps h))

  -- The cases of a relative, an absolute and a missing root path.
  pub record Resolves : Type 0 where
    pub relative :
        (path : Bytes)
        → is_abs (root_path spec.root) ≡ false
        → resolve_rootfs files spec (render (b ∷ bs)) ≡ ok path
        → InBundle path
    pub trusted :
        is_abs (root_path spec.root) ≡ true
        → files.is_directory (clean (root_path spec.root)) ≡ some true
        → same (root_path spec.root) [] ≡ false
        → resolve_rootfs files spec (render (b ∷ bs)) ≡ ok (clean (root_path spec.root))
    pub without :
        same (root_path spec.root) [] ≡ true
        → resolve_rootfs files spec (render (b ∷ bs)) ≡ err (msg "spec has no root.path")

  bundle-absolute : absolute files (render (b ∷ bs)) ≡ render (b ∷ bs)
  unfolding absolute is_abs
  bundle-absolute = clean-bundle

  resolve-relative :
      (path : Bytes)
      → is_abs (root_path spec.root) ≡ false
      → resolve_rootfs files spec (render (b ∷ bs)) ≡ ok path
      → InBundle path
  unfolding resolve_rootfs
  resolve-relative path rel h =
      let at = rootfs_of (root_path spec.root) (render (b ∷ bs)) in
      let (ps, hps, e) = rootfs-names (root_path spec.root) rel in
      elim (Bool-cases (same (root_path spec.root) [])) [
        | inl unset ↦ absurd (ground (arith, unset))
        | inr set ↦ elim (Bool-cases (is_within (absolute files (render (b ∷ bs))) at)) [
          | inr outside ↦ absurd (ground (arith, set, rel, outside))
          | inl inside ↦
              let (cs, split) = below-bundle ps hps (
                ap (is_within (render (b ∷ bs))) (sym e)
                ∙ ap (λ t. is_within t at) (sym bundle-absolute)
                ∙ inside) in
              let here : existing at (files.is_directory at) ≡ ok path =
                ground (arith, set, rel, inside) in
              let (same_path, dir) = existing-ok at path (files.is_directory at) here in
              record {
                below = cs;
                below_names = All-append_right IsName (b ∷ bs) cs (subst (All IsName) split hps);
                spelled = sym same_path ∙ e ∙ ap render split;
                is_dir = ap files.is_directory (sym same_path) ∙ dir;
              }
        ]
      ]

  -- For a bundle that is a clean absolute path other than `/`: a relative root path resolves, if at
  -- all, to a directory at or below the bundle, however many `..` it has; an absolute one is taken
  -- as it is, cleaned, wherever it points; and a spec without one is refused.
  pub resolve_rootfs-Resolves : Resolves
  unfolding resolve_rootfs rootfs_of
  resolve_rootfs-Resolves = record {
    relative = resolve-relative;
    trusted = λ absolute_path there set. rw (set, absolute_path, there) refl;
    without = λ unset. rw unset refl;
  }
