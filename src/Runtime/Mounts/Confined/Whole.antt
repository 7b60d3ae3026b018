-- ===== src/Runtime/Mounts/Confined/Whole.antt =====
-- prepareRootfs changes nothing outside the rootfs.
use lightpod.Base.{ℕ, ◌≡◌, refl, ◌⊎◌, inl, inr, ◌++◌, All, Bool, Option, none, some, List, [], ◌∷◌}
use Prim.Native.Nat.{bit_or}
use lightpod.Base.Text.{Bytes}
use lightpod.Oci.Path.Render.{IsName, render}
use lightpod.Oci.Defaults.{default_devices}
use lightpod.Oci.Spec.{Mount, Linux, LinuxDevice}
use lightpod.Kernel.{Kernel, Call, Event, did, refused, mount}
use lightpod.Kernel.Actions.{Os, proceed, outcome, with_wrap, lift}
use lightpod.Kernel.Adds.{
  Grown, Adds, Adds-pure, Adds-lift, Adds-bind, Adds-wrapped, Adds-if, Adds-perform,
  Adds-perform_unless,
}
use lightpod.Runtime.SecureJoin.{Tree}
use lightpod.Runtime.SecureJoin.Links.{IsTree}
use lightpod.Runtime.Mounts.Options.{parse_mount_options, ms_private, ms_rec, rootfs_propagation}
use lightpod.Runtime.Mounts.Single.{eexist, mount_one, mount_all}
use lightpod.Runtime.Mounts.Nodes.{
  create_device, create_all, create_devices, create_dev_symlinks, devices_of,
}
use lightpod.Runtime.Mounts.Sysctl.{
  check_sysctl_key, apply_sysctl, apply_sysctl_list, apply_sysctls, sysctl_path,
}
use lightpod.Runtime.Mounts.Covers.{mask_paths, readonly_paths, cover_paths}
use lightpod.Runtime.Mounts.Prepare.{InitConfig, fill_rootfs, prepare_rootfs, root_path}
use lightpod.Runtime.Mounts.Confined.{Confined, Adds-then, Adds-resolve, root-Resolved}
use lightpod.Runtime.Mounts.Confined.Parts.{
  parent-Adds, mount_at-Adds, propagation-Adds, mknod_device-Adds, bind_device-Adds,
  mask_target-Adds, protect_target-Adds,
}

-- The mount that makes everything private
abbrev private_mount : Call
private_mount = mount [] root_path [] (bit_or ms_private ms_rec) []

-- Nothing but that mount, which was refused; or that mount, and calls on paths of the rootfs.
abbrev pub PrivateFirst : (List Event → Tree) → List Bytes → List Event → List Event → Type 0
PrivateFirst tree rs h h' =
    ((e : ℕ) × (h' ≡ refused private_mount e ∷ h))
    ⊎ Grown (Confined tree rs) (did private_mount ∷ h) h'

module _ (k : Kernel) (tree : List Event → Tree) (trees : (h : List Event) → IsTree (tree h))
    (r : Bytes) (rs : List Bytes) (names : All IsName (r ∷ rs)) where
  mount_one-Adds :
      (m : Mount) → Adds (Confined tree (r ∷ rs)) (mount_one k tree (render (r ∷ rs)) m)
  unfolding mount_one
  mount_one-Adds m = Adds-resolve k tree trees r rs names m.destination _ (λ target inside.
      mount_at-Adds k tree (r ∷ rs) target inside m (parse_mount_options m.options))

  mount_all-Adds :
      (mounts : List Mount)
      → Adds (Confined tree (r ∷ rs)) (mount_all k tree (render (r ∷ rs)) mounts)
  unfolding mount_all
  mount_all-Adds [] = Adds-pure tt
  mount_all-Adds (m ∷ mounts) = Adds-then _ _ (mount_one-Adds m) (mount_all-Adds mounts)

  create_device-Adds :
      (nodes : Bool) (dev : LinuxDevice)
      → Adds (Confined tree (r ∷ rs)) (create_device k tree (render (r ∷ rs)) nodes dev)
  unfolding create_device
  create_device-Adds nodes dev = Adds-resolve k tree trees r rs names dev.path _ (λ target inside.
      Adds-then _ _ (parent-Adds k tree (r ∷ rs) target inside) (
        Adds-if nodes _ _ (λ privileged. mknod_device-Adds k tree (r ∷ rs) target inside dev)
          (λ rootless. bind_device-Adds k tree (r ∷ rs) target inside dev)))

  create_all-Adds :
      (nodes : Bool) (devices : List LinuxDevice)
      → Adds (Confined tree (r ∷ rs)) (create_all k tree (render (r ∷ rs)) nodes devices)
  unfolding create_all
  create_all-Adds nodes [] = Adds-pure tt
  create_all-Adds nodes (dev ∷ devices) =
      Adds-then _ _ (create_device-Adds nodes dev) (create_all-Adds nodes devices)

  symlinks-Adds :
      (links : List (Bytes × Bytes))
      → Adds (Confined tree (r ∷ rs)) (create_dev_symlinks k tree (render (r ∷ rs)) links)
  unfolding create_dev_symlinks
  symlinks-Adds [] = Adds-pure tt
  symlinks-Adds ((oldname, newname) ∷ links) =
      Adds-resolve k tree trees r rs names newname _ (λ target inside.
        Adds-then _ _ (Adds-wrapped "linking" _ (Adds-perform_unless k eexist _ inside))
          (symlinks-Adds links))

  sysctl-Adds :
      (key value : Bytes)
      → Adds (Confined tree (r ∷ rs)) (apply_sysctl k tree (render (r ∷ rs)) key value)
  unfolding apply_sysctl
  sysctl-Adds key value = Adds-then _ _ (Adds-lift (check_sysctl_key key)) (
      Adds-resolve k tree trees r rs names (sysctl_path key) _
        (λ target inside. Adds-wrapped "setting sysctl" _ (Adds-perform k _ inside)))

  sysctl_list-Adds :
      (entries : List (Bytes × Bytes))
      → Adds (Confined tree (r ∷ rs)) (apply_sysctl_list k tree (render (r ∷ rs)) entries)
  unfolding apply_sysctl_list
  sysctl_list-Adds [] = Adds-pure tt
  sysctl_list-Adds ((key, value) ∷ entries) =
      Adds-then _ _ (sysctl-Adds key value) (sysctl_list-Adds entries)

  sysctls-Adds :
      (linux : Option Linux)
      → Adds (Confined tree (r ∷ rs)) (apply_sysctls k tree (render (r ∷ rs)) linux)
  sysctls-Adds none = Adds-pure tt
  sysctls-Adds (some linux) = sysctl_list-Adds linux.sysctl

  mask_paths-Adds :
      (paths : List Bytes)
      → Adds (Confined tree (r ∷ rs)) (mask_paths k tree (render (r ∷ rs)) paths)
  unfolding mask_paths
  mask_paths-Adds [] = Adds-pure tt
  mask_paths-Adds (p ∷ paths) = Adds-resolve k tree trees r rs names p _ (λ target inside.
      Adds-then _ _ (mask_target-Adds k tree (r ∷ rs) target inside) (mask_paths-Adds paths))

  readonly_paths-Adds :
      (paths : List Bytes)
      → Adds (Confined tree (r ∷ rs)) (readonly_paths k tree (render (r ∷ rs)) paths)
  unfolding readonly_paths
  readonly_paths-Adds [] = Adds-pure tt
  readonly_paths-Adds (p ∷ paths) = Adds-resolve k tree trees r rs names p _ (λ target inside.
      Adds-then _ _ (protect_target-Adds k tree (r ∷ rs) target inside) (readonly_paths-Adds paths))

  covers-Adds :
      (linux : Option Linux)
      → Adds (Confined tree (r ∷ rs)) (cover_paths k tree (render (r ∷ rs)) linux)
  covers-Adds none = Adds-pure tt
  covers-Adds (some linux) =
      Adds-then _ _ (mask_paths-Adds linux.masked_paths) (readonly_paths-Adds linux.readonly_paths)

  private_first :
      (rest : Os (Unit {0})) (o : Option ℕ) (h : List Event)
      → Adds (Confined tree (r ∷ rs)) rest
      → PrivateFirst tree
          (r ∷ rs)
          h
          (let (x, h₁) = outcome k private_mount o h in
            let (y, h₂) = with_wrap "making mount namespace private" x h₁ in
            proceed (λ _. rest) y h₂).1
  private_first rest none h a = inr (a.grows (did private_mount ∷ h))
  private_first rest (some e) h a = inl (e, refl)

  fill-Adds :
      (cfg : InitConfig)
      → cfg.rootfs ≡ render (r ∷ rs)
      → Adds (Confined tree (r ∷ rs)) (fill_rootfs k tree cfg)
  unfolding fill_rootfs create_devices
  fill-Adds cfg e =
      let root = root-Resolved k tree trees r rs names in
      let linux = cfg.spec.linux in
      rw e (
        Adds-then _ _ (Adds-wrapped "bind mounting rootfs onto itself" _ (Adds-perform k _ root)) (
          Adds-bind (lift (rootfs_propagation linux)) _ (Adds-lift (rootfs_propagation linux))
            (λ propagation.
              Adds-then _ _ (propagation-Adds k tree (r ∷ rs) (render (r ∷ rs)) root propagation) (
                Adds-then _ _ (mount_all-Adds cfg.spec.mounts) (
                  Adds-then _ _ (create_all-Adds cfg.nodes (default_devices ++ devices_of linux)) (
                    Adds-then _ _ (symlinks-Adds cfg.links)
                      (Adds-then _ _ (sysctls-Adds linux) (covers-Adds linux))))))))

  -- Whatever the config says and the kernel answers, and also where an error ends it: prepareRootfs
  -- makes the whole mount tree private before any other call, and makes no other call where that is
  -- refused; and the target of every later mount, and every path that it creates, writes or gives
  -- away, is the rootfs or a clean path below it that had no symbolic link below the rootfs when it
  -- was resolved, but for directories, which may be the parent of such a path. The rootfs is a clean
  -- absolute path other than `/`, and at every moment nothing exists below a missing path.
  pub prepare_rootfs-PrivateFirst :
      (cfg : InitConfig)
      → cfg.rootfs ≡ render (r ∷ rs)
      → (h : List Event) → PrivateFirst tree (r ∷ rs) h (prepare_rootfs k tree cfg h).1
  unfolding prepare_rootfs
  prepare_rootfs-PrivateFirst cfg e h =
      private_first (fill_rootfs k tree cfg) (k.answer h private_mount) h (fill-Adds cfg e)
