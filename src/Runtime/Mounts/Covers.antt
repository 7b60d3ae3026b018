-- ===== src/Runtime/Mounts/Covers.antt =====
-- maskPaths and readonlyPaths: what is mounted over paths of the container.
use lightpod.Base.{ℕ, Bool, true, false, Option, none, some, List, [], ◌∷◌, Result, ok, err}
use Prim.Native.Nat.{bit_or}
use lightpod.Base.Text.{Bytes, text}
use lightpod.Oci.Spec.{Linux}
use lightpod.Kernel.{Kernel, Event, FileKind, mount}
use lightpod.Kernel.Actions.{Os, ◌>>=◌, ◌>>◌, pure, wrapped, perform}
use lightpod.Runtime.SecureJoin.{Tree}
use lightpod.Runtime.Mounts.Options.{ms_bind, ms_rec, ms_rdonly, ms_remount}
use lightpod.Runtime.Mounts.Single.{resolve, is_dir}

-- MS_BIND | MS_REMOUNT | MS_RDONLY | MS_REC
unfoldable pub readonly_flags : ℕ
readonly_flags = bit_or (bit_or (bit_or ms_bind ms_remount) ms_rdonly) ms_rec

module _ (k : Kernel) where
  abbrev pub cover : Bytes → Bool → Os (Unit {0})
  cover target true =
      wrapped "masking directory"
        (perform k (mount (text "tmpfs") target (text "tmpfs") ms_rdonly (text "size=0k")))
  cover target false =
      wrapped "masking file" (perform k (mount (text "/dev/null") target [] ms_bind []))

  abbrev pub mask_found : Bytes → Result FileKind → Os (Unit {0})
  mask_found target (err e) = pure tt
  mask_found target (ok kind) = cover target (is_dir kind)

  abbrev pub mask_target : Bytes → Os (Unit {0})
  mask_target target h = mask_found target (k.stat h target) h

  abbrev pub protect_found : Bytes → Result FileKind → Os (Unit {0})
  protect_found target (err e) = pure tt
  protect_found target (ok kind) = do
    wrapped "binding for read-only remount"
        (perform k (mount target target [] (bit_or ms_bind ms_rec) []))
    wrapped "remounting read-only" (perform k (mount target target [] readonly_flags []))

  abbrev pub protect_target : Bytes → Os (Unit {0})
  protect_target target h = protect_found target (k.stat h target) h

  module _ (tree : List Event → Tree) (rootfs : Bytes) where
    unfoldable pub mask_paths : List Bytes → Os (Unit {0})
    mask_paths [] = pure tt
    mask_paths (p ∷ paths) = do
      target ← resolve k tree rootfs p
      mask_target target
      mask_paths paths

    unfoldable pub readonly_paths : List Bytes → Os (Unit {0})
    readonly_paths [] = pure tt
    readonly_paths (p ∷ paths) = do
      target ← resolve k tree rootfs p
      protect_target target
      readonly_paths paths

    abbrev pub cover_paths : Option Linux → Os (Unit {0})
    cover_paths none = pure tt
    cover_paths (some linux) = do mask_paths linux.masked_paths; readonly_paths linux.readonly_paths
