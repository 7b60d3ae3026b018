-- ===== src/Runtime/Namespaces.antt =====
-- cloneFlags of pkg/runtime/ns.go.
pub mod Flags
mod Examples
use Prim.Native.Nat.{bit_or}
use lightpod.Base.{
  ℕ, ◌^◌, Bool, true, false, not, if◌then◌else◌, Option, none, some, List, [], ◌∷◌, Result, ok, err,
  msg,
}
use lightpod.Base.Text.{Bytes, same}
use lightpod.Oci.Spec.{
  Spec, Linux, LinuxNamespace, pid_namespace, network_namespace, mount_namespace, ipc_namespace,
  uts_namespace, user_namespace, cgroup_namespace, time_namespace,
}

-- The bit of the clone(2) flag of a namespace type, CLONE_NEWUTS and so on.
unfoldable pub flag_bit : Bytes → Result ℕ
unfolding same
flag_bit type =
    if same type uts_namespace
    then ok 26
    else if same type ipc_namespace
    then ok 27
    else if same type network_namespace
    then ok 30
    else if same type pid_namespace
    then ok 29
    else if same type mount_namespace
    then ok 17
    else if same type user_namespace
    then ok 28
    else if same type cgroup_namespace
    then ok 25
    else if same type time_namespace
    then err (msg "time namespaces are not supported yet")
    else err (msg "unknown namespace type")

-- The loop over the namespaces, with the flags so far; one with a path is joined later.
abbrev pub with_flag : (ℕ → Result ℕ) → ℕ → Result ℕ → Result ℕ
with_flag next flags (err e) = err e
with_flag next flags (ok bit) = next (bit_or flags (2 ^ bit))

unfoldable pub collect_flags : List LinuxNamespace → ℕ → Result ℕ
unfolding same
collect_flags [] flags = ok flags
collect_flags (ns ∷ namespaces) flags =
    if not (same ns.path [])
    then collect_flags namespaces flags
    else with_flag (collect_flags namespaces) flags (flag_bit ns.type)

abbrev pub namespaces_of : Option Linux → List LinuxNamespace
namespaces_of none = []
namespaces_of (some linux) = linux.namespaces

unfoldable pub clone_flags : Spec → Result ℕ
clone_flags spec = collect_flags (namespaces_of spec.linux) 0
