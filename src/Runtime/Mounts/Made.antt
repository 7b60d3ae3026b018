-- ===== src/Runtime/Mounts/Made.antt =====
-- The calls that a mount and the change of the root have made where they succeed.
use Prim.Native.Nat.{bit_or}
use mathlib.Core.Path.{subst}
use lightpod.Base.{
  ℕ, ◌==◌, ◌≡◌, sym, ap, arith, Bool, Bool-cases, inl, inr, true, false, ◌&&◌, if◌then◌else◌,
  Option, none, some, List, [], ◌∷◌, ◌++◌, Result, ok, err, wrapping,
}
use lightpod.Base.Text.{Bytes, text}
use lightpod.Oci.Path.{join}
use lightpod.Oci.Spec.{Mount, Root}
use lightpod.Kernel.{Kernel, Call, Event, mount, mkdir_all, pivot_root, chdir, unmount, remove}
use lightpod.Kernel.Laws.{>>=-ok}
use lightpod.Kernel.Does.{after, Does, Does-pure, Does-then, Does-wrapped, Does-wrapped-perform}
use lightpod.Runtime.SecureJoin.{Tree, secure_join}
use lightpod.Runtime.Mounts.Options.{parse_mount_options, has_flag, ms_bind, ms_rdonly, ms_remount}
use lightpod.Runtime.Mounts.Single.{
  make_target, mount_source, remount_readonly, set_propagation, mount_at, resolve, mount_one,
}
use lightpod.Runtime.Mounts.Covers.{readonly_flags}
use lightpod.Runtime.Mounts.Prepare.{
  InitConfig, pivot_to, readonly_root, finalize_rootfs, root_path, old_root, mnt_detach, cwd_of,
}

abbrev pub remount_calls : Bytes → ℕ → List Call
remount_calls target flags =
    if has_flag flags ms_bind && has_flag flags ms_rdonly
    then mount [] target [] (bit_or flags ms_remount) [] ∷ []
    else []

abbrev pub propagation_calls : Bytes → ℕ → List Call
propagation_calls target propagation =
    if propagation == 0 then [] else mount [] target [] propagation [] ∷ []

-- The mount, the second mount that makes a bind read-only, and the one that sets the propagation
abbrev pub mount_calls : Bytes → Mount → ℕ × ℕ × Bytes → List Call
mount_calls target m (flags, propagation, options) =
    mount (mount_source m) target (if has_flag flags ms_bind then [] else m.type) flags options
    ∷ (remount_calls target flags ++ propagation_calls target propagation)

abbrev pub readonly_root_calls : Option Root → List Call
readonly_root_calls none = []
readonly_root_calls (some root) =
    if root.readonly then mount [] root_path [] readonly_flags [] ∷ [] else []

abbrev pub pivot_calls : Bytes → List Call
pivot_calls newroot =
    mkdir_all (join newroot (text ".oldroot")) 448
    ∷ pivot_root newroot (join newroot (text ".oldroot"))
    ∷ chdir root_path
    ∷ unmount old_root mnt_detach
    ∷ remove old_root
    ∷ []

module _ (k : Kernel) where
  remount-Does :
      (target : Bytes) (flags : ℕ) (b : Bool)
      → Does
          (remount_readonly k target flags b)
          (if b then mount [] target [] (bit_or flags ms_remount) [] ∷ [] else [])
  remount-Does target flags true = Does-wrapped-perform k "remounting read-only" _
  remount-Does target flags false = Does-pure

  propagation-Does :
      (target : Bytes) (p : ℕ) → Does (set_propagation k target p) (propagation_calls target p)
  propagation-Does target p = elim (Bool-cases (p == 0)) [
    | inl unset ↦ rw unset Does-pure
    | inr mode ↦ rw mode (Does-wrapped-perform k "setting propagation" (mount [] target [] p []))
  ]

  readonly_root-Does : (root : Option Root) → Does (readonly_root k root) (readonly_root_calls root)
  readonly_root-Does none = Does-pure
  readonly_root-Does (some root) = elim (Bool-cases root.readonly) [
    | inl ro ↦ rw ro (Does-wrapped-perform k "remounting container root read-only" _)
    | inr rw_root ↦ rw rw_root Does-pure
  ]

  pivot-Does : (newroot : Bytes) → Does (pivot_to k newroot) (pivot_calls newroot)
  unfolding pivot_to
  pivot-Does newroot =
      Does-then _ _ (_ ∷ []) _ (Does-wrapped-perform k "creating old root mount point" _) (
        Does-then _ _ (_ ∷ []) _ (Does-wrapped-perform k "pivot_root" _) (
          Does-then _ _ (_ ∷ []) _ (Does-wrapped-perform k "chdir to new root" _) (
            Does-then _ _ (_ ∷ []) (_ ∷ []) (Does-wrapped-perform k "detaching old root" _)
              (Does-wrapped-perform k "removing old root mount point" _))))

  -- Where finalizeRootfs succeeds, it has made these calls and no other, in this order: the mount point
  -- of the old root, the change of the root onto it, the change into the new root, the detaching and
  -- the removal of the old root, the read-only remount of the root where the config asks for it, and
  -- the change into the working directory. No path of the host is reachable behind the fourth.
  pub finalize_rootfs-Does :
      (cfg : InitConfig) (h h' : List Event)
      → finalize_rootfs k cfg h ≡ (ok tt, h')
      → h'
        ≡ after
            (pivot_calls cfg.rootfs
              ++ (readonly_root_calls cfg.spec.root ++ (chdir (cwd_of cfg.spec.process) ∷ [])))
            h
  unfolding finalize_rootfs
  finalize_rootfs-Does cfg =
      (Does-then _ _ (pivot_calls cfg.rootfs) _
        (Does-wrapped "pivoting" _ _ (pivot-Does cfg.rootfs))
        (Does-then _ _ (readonly_root_calls cfg.spec.root) (_ ∷ [])
          (readonly_root-Does cfg.spec.root)
          (Does-wrapped-perform k "changing to working directory" _))).made

  -- What a mount of the config has done: its target, what was there when the target had been made, and
  -- the mounts after that.
  pub record Mounted (tree : List Event → Tree) (rootfs : Bytes) (m : Mount) (h h' : List Event)
      : Type 0 where
    pub target : Bytes
    pub resolved : secure_join (tree h) rootfs m.destination ≡ ok target
    pub prepared : List Event
    pub made :
        make_target k m.source target (has_flag (parse_mount_options m.options).0 ms_bind) h
        ≡ (ok tt, prepared)
    pub mounts : h' ≡ after (mount_calls target m (parse_mount_options m.options)) prepared

  mount_at-Does :
      (target : Bytes) (m : Mount) (parsed : ℕ × ℕ × Bytes) (h h' : List Event)
      → mount_at k target m parsed h ≡ (ok tt, h')
      → (prepared : List Event) × (make_target k m.source target (has_flag parsed.0 ms_bind) h
          ≡ (ok tt, prepared))
        × (h' ≡ after (mount_calls target m parsed) prepared)
  unfolding mount_at
  mount_at-Does target m (flags, propagation, options) h h' e =
      let (_, prepared, made, rest) =
        >>=-ok (make_target k m.source target (has_flag flags ms_bind)) _ h e in
      (
        prepared,
        made,
        (Does-then _ _ (_ ∷ []) (remount_calls target flags ++ propagation_calls target propagation)
              (Does-wrapped-perform k "mounting" _)
              (Does-then _ _ (remount_calls target flags) (propagation_calls target propagation)
                (remount-Does target flags (has_flag flags ms_bind && has_flag flags ms_rdonly))
                (propagation-Does target propagation))).made
            prepared h' rest,
      )

  resolved-ok :
      (r : Result Bytes) (target : Bytes) → wrapping "resolving" r ≡ ok target → r ≡ ok target
  resolved-ok (ok found) target e = e
  resolved-ok (err failure) target e = absurd (ground arith)

  -- Where mountOne succeeds, its target is what secureJoin made of the destination, the mount was made
  -- on that target with the flags of the options, a bind without a type; a bind that is read-only was
  -- remounted there with its flags and the remount flag, without which it would stay writable; a
  -- propagation was set there where the options ask for one; and nothing else followed the making of
  -- the target.
  pub mount_one-Mounted :
      (tree : List Event → Tree) (rootfs : Bytes) (m : Mount) (h h' : List Event)
      → mount_one k tree rootfs m h ≡ (ok tt, h')
      → Mounted tree rootfs m h h'
  unfolding mount_one
  mount_one-Mounted tree rootfs m h h' e =
      let (target, h₁, found, rest) = >>=-ok (resolve k tree rootfs m.destination) _ h e in
      let start : h ≡ h₁ = ap (λ x. x.1) found in
      let at_start : mount_at k target m (parse_mount_options m.options) h ≡ (ok tt, h') =
        subst (λ x. mount_at k target m (parse_mount_options m.options) x ≡ (ok tt, h')) (sym start)
          rest in
      let (prepared, made, mounts) =
        mount_at-Does target m (parse_mount_options m.options) h h' at_start in
      record {
        target = target;
        resolved =
            resolved-ok (secure_join (tree h) rootfs m.destination) target (ap (λ x. x.0) found);
        prepared = prepared;
        made = made;
        mounts = mounts;
      }
