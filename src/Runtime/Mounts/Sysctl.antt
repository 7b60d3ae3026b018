-- ===== src/Runtime/Mounts/Sysctl.antt =====
-- applySysctls and checkSysctlKey.
use lightpod.Base.{
  ℕ, ◌==◌, Bool, false, ◌||◌, if◌then◌else◌, Option, none, some, List, [], ◌∷◌, ◌++◌, map, Result,
  err, msg, refuse_if,
}
use lightpod.Base.Text.{Bytes, text, same, split, contains_any}
use lightpod.Oci.Path.{slash, dot, dot_dot}
use lightpod.Oci.Spec.{Linux}
use lightpod.Kernel.{Kernel, Event, write_file}
use lightpod.Kernel.Actions.{Os, ◌>>=◌, ◌>>◌, pure, lift, wrapped, perform}
use lightpod.Runtime.SecureJoin.{Tree}
use lightpod.Runtime.Mounts.Single.{resolve}

unfoldable pub bad_segment : List Bytes → Bool
unfolding same
bad_segment [] = false
bad_segment (s ∷ segments) = same s [] || (same s dot || (same s dot_dot || bad_segment segments))

abbrev pub is_slash_or_nul : ℕ → Bool
is_slash_or_nul c = (c == b'/') || (c == 0)

unfoldable pub check_sysctl_key : Bytes → Result (Unit {0})
unfolding contains_any bad_segment split
check_sysctl_key [] = err (msg "empty key")
check_sysctl_key (c ∷ key) =
    refuse_if (contains_any is_slash_or_nul (c ∷ key) || bad_segment (split (c ∷ key) b'.'))
      "not a sysctl name"

-- "/proc/sys/" + strings.ReplaceAll(key, ".", "/")
unfoldable pub sysctl_path : Bytes → Bytes
sysctl_path key = text "/proc/sys/" ++ map (λ c. if c == b'.' then slash else c) key

module _ (k : Kernel) (tree : List Event → Tree) (rootfs : Bytes) where
  unfoldable pub apply_sysctl : Bytes → Bytes → Os (Unit {0})
  unfolding check_sysctl_key sysctl_path
  apply_sysctl key value = do
    lift (check_sysctl_key key)
    path ← resolve k tree rootfs (sysctl_path key)
    wrapped "setting sysctl" (perform k (write_file path value))

  -- The entries in the order in which the map is ranged over
  unfoldable pub apply_sysctl_list : List (Bytes × Bytes) → Os (Unit {0})
  unfolding apply_sysctl
  apply_sysctl_list [] = pure tt
  apply_sysctl_list ((key, value) ∷ entries) = do apply_sysctl key value; apply_sysctl_list entries

  abbrev pub apply_sysctls : Option Linux → Os (Unit {0})
  apply_sysctls none = pure tt
  apply_sysctls (some linux) = apply_sysctl_list linux.sysctl
