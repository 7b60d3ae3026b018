-- ===== src/Runtime/Mounts/Single.antt =====
-- mountOne: one mount of the config.
use Prim.Native.Nat.{bit_or}
use lightpod.Base.{ℕ, ◌==◌, Bool, true, false, ◌&&◌, if◌then◌else◌, List, [], ◌∷◌, wrapping}
use lightpod.Base.Text.{Bytes, same}
use lightpod.Oci.Path.{dir}
use lightpod.Oci.Spec.{Mount}
use lightpod.Kernel.{Kernel, Event, FileKind, directory, mount, mkdir_all, create_file}
use lightpod.Kernel.Actions.{Os, ◌>>=◌, ◌>>◌, pure, wrapped, perform, perform_unless, stat_of}
use lightpod.Runtime.SecureJoin.{Tree, secure_join}
use lightpod.Runtime.Mounts.Options.{parse_mount_options, has_flag, ms_bind, ms_rdonly, ms_remount}

abbrev pub eexist : ℕ
eexist = 17

abbrev pub is_dir : FileKind → Bool
is_dir directory = true
is_dir kind = false

-- source := m.Source, and the type where that is empty
abbrev pub mount_source : Mount → Bytes
mount_source m = if same m.source [] then m.type else m.source

module _ (k : Kernel) where
  -- os.MkdirAll, and the file of os.OpenFile with O_CREATE, where an existing one is no error
  abbrev pub make_dir : Bytes → Os (Unit {0})
  make_dir path = wrapped "creating directory" (perform k (mkdir_all path 493))

  abbrev pub make_file : Bytes → Os (Unit {0})
  make_file path = wrapped "creating bind target" (perform_unless k eexist (create_file path 420))

  abbrev pub make_target_of : Bytes → Bool → Os (Unit {0})
  make_target_of target true = make_dir target
  make_target_of target false = do make_dir (dir target); make_file target

  -- The bind target has the kind of the source.
  abbrev pub make_target : Bytes → Bytes → Bool → Os (Unit {0})
  make_target source target true = do
    kind ← wrapped "bind mount source" (stat_of k source)
    make_target_of target (is_dir kind)
  make_target source target false = make_dir target

  abbrev pub remount_readonly : Bytes → ℕ → Bool → Os (Unit {0})
  remount_readonly target flags true =
      wrapped "remounting read-only" (perform k (mount [] target [] (bit_or flags ms_remount) []))
  remount_readonly target flags false = pure tt

  abbrev pub set_propagation : Bytes → ℕ → Os (Unit {0})
  set_propagation target propagation =
      if propagation == 0
      then pure tt
      else wrapped "setting propagation" (perform k (mount [] target [] propagation []))

  unfoldable pub mount_at : Bytes → Mount → ℕ × ℕ × Bytes → Os (Unit {0})
  unfolding same
  mount_at target m (flags, propagation, data_string) = do
    make_target m.source target (has_flag flags ms_bind)
    wrapped "mounting" (
        perform k (
          mount (mount_source m) target (if has_flag flags ms_bind then [] else m.type) flags
            data_string))
    remount_readonly target flags (has_flag flags ms_bind && has_flag flags ms_rdonly)
    set_propagation target propagation

  module _ (tree : List Event → Tree) (rootfs : Bytes) where
    -- secureJoin on the file system of the moment
    abbrev pub resolve : Bytes → Os Bytes
    resolve path h = (wrapping "resolving" (secure_join (tree h) rootfs path), h)

    unfoldable pub mount_one : Mount → Os (Unit {0})
    unfolding mount_at parse_mount_options
    mount_one m = do
      target ← resolve m.destination
      mount_at target m (parse_mount_options m.options)

    unfoldable pub mount_all : List Mount → Os (Unit {0})
    mount_all [] = pure tt
    mount_all (m ∷ mounts) = do mount_one m; mount_all mounts
