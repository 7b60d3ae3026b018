-- ===== src/Runtime/Mounts/Prepare.antt =====
-- prepareRootfs, finalizeRootfs and pivotRoot.
use Prim.Native.Nat.{bit_or}
use lightpod.Base.{ℕ, Bool, if◌then◌else◌, Option, none, some, List, [], ◌∷◌}
use lightpod.Base.Int.{ℤ}
use lightpod.Base.Text.{Bytes, text}
use lightpod.Oci.Path.{slash, join}
use lightpod.Oci.Spec.{Spec, Root, Process}
use lightpod.Kernel.{Kernel, Event, mount, mkdir_all, pivot_root, chdir, unmount, remove}
use lightpod.Kernel.Actions.{Os, ◌>>=◌, ◌>>◌, pure, lift, wrapped, perform}
use lightpod.Runtime.SecureJoin.{Tree}
use lightpod.Runtime.Mounts.Options.{ms_bind, ms_rec, ms_private, rootfs_propagation}
use lightpod.Runtime.Mounts.Single.{mount_all, set_propagation}
use lightpod.Runtime.Mounts.Nodes.{create_devices, create_dev_symlinks}
use lightpod.Runtime.Mounts.Sysctl.{apply_sysctls}
use lightpod.Runtime.Mounts.Covers.{cover_paths, readonly_flags}

-- initConfig, with Mode.SupportsDeviceNodes() in place of the mode, and the order in which the map of links is ranged over.
pub record InitConfig : Type 0 where
  pub spec : Spec
  pub rootfs : Bytes
  pub id : Bytes
  pub bundle : Bytes
  pub host_pid : ℤ
  pub nodes : Bool
  pub links : List (Bytes × Bytes)

abbrev pub root_path : Bytes
root_path = slash ∷ []

abbrev pub old_root : Bytes
old_root = text "/.oldroot"

-- MNT_DETACH
abbrev pub mnt_detach : ℕ
mnt_detach = 2

-- The working directory of the config, or `/`
abbrev pub non_empty_or : Bytes → Bytes → Bytes
non_empty_or [] other = other
non_empty_or (c ∷ path) other = c ∷ path

abbrev pub cwd_of : Option Process → Bytes
cwd_of none = root_path
cwd_of (some process) = non_empty_or process.cwd root_path

module _ (k : Kernel) where
  -- The mounts that come first: everything private, and the rootfs bound onto itself.
  abbrev pub make_private : Os (Unit {0})
  make_private =
      wrapped "making mount namespace private"
        (perform k (mount [] root_path [] (bit_or ms_private ms_rec) []))

  abbrev pub bind_rootfs : Bytes → Os (Unit {0})
  bind_rootfs rootfs =
      wrapped "bind mounting rootfs onto itself"
        (perform k (mount rootfs rootfs (text "bind") (bit_or ms_bind ms_rec) []))

  -- prepareRootfs behind its first mount
  unfoldable pub fill_rootfs : (List Event → Tree) → InitConfig → Os (Unit {0})
  unfolding mount_all create_devices create_dev_symlinks
  fill_rootfs tree cfg = do
    bind_rootfs cfg.rootfs
    propagation ← lift (rootfs_propagation cfg.spec.linux)
    set_propagation k cfg.rootfs propagation
    mount_all k tree cfg.rootfs cfg.spec.mounts
    create_devices k tree cfg.rootfs cfg.nodes cfg.spec.linux
    create_dev_symlinks k tree cfg.rootfs cfg.links
    apply_sysctls k tree cfg.rootfs cfg.spec.linux
    cover_paths k tree cfg.rootfs cfg.spec.linux

  unfoldable pub prepare_rootfs : (List Event → Tree) → InitConfig → Os (Unit {0})
  unfolding fill_rootfs
  prepare_rootfs tree cfg = do make_private; fill_rootfs tree cfg

  unfoldable pub pivot_to : Bytes → Os (Unit {0})
  unfolding join
  pivot_to newroot = do
    wrapped "creating old root mount point"
        (perform k (mkdir_all (join newroot (text ".oldroot")) 448))
    wrapped "pivot_root" (perform k (pivot_root newroot (join newroot (text ".oldroot"))))
    wrapped "chdir to new root" (perform k (chdir root_path))
    wrapped "detaching old root" (perform k (unmount old_root mnt_detach))
    wrapped "removing old root mount point" (perform k (remove old_root))

  abbrev pub readonly_root : Option Root → Os (Unit {0})
  readonly_root none = pure tt
  readonly_root (some root) =
      if root.readonly
      then wrapped "remounting container root read-only"
          (perform k (mount [] root_path [] readonly_flags []))
      else pure tt

  unfoldable pub finalize_rootfs : InitConfig → Os (Unit {0})
  unfolding pivot_to
  finalize_rootfs cfg = do
    wrapped "pivoting" (pivot_to cfg.rootfs)
    readonly_root cfg.spec.root
    wrapped "changing to working directory" (perform k (chdir (cwd_of cfg.spec.process)))
