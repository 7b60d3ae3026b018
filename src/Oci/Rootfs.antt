-- ===== src/Oci/Rootfs.antt =====
-- ResolveRootfs and Namespace of pkg/oci/load.go.
pub mod Resolve
mod Examples
use lightpod.Base.{
  Bool, true, false, not, ◌||◌, ◌&&◌, if◌then◌else◌, Option, none, some, List, [], ◌∷◌, Result, ok,
  err, msg,
}
use lightpod.Base.Text.{Bytes, same}
use lightpod.Oci.Path.{is_abs, clean, join, is_within}
use lightpod.Oci.Spec.{Spec, Root, Linux, LinuxNamespace}

-- The working directory, for filepath.Abs, and os.Stat, which tells of a path whether it is a
-- directory if it exists.
pub record Files : Type 0 where
  pub working_directory : Bytes
  pub is_directory : Bytes → Option Bool

unfoldable pub absolute : Files → Bytes → Bytes
absolute files path = if is_abs path then clean path else join files.working_directory path

abbrev pub root_path : Option Root → Bytes
root_path none = []
root_path (some root) = root.path

abbrev pub existing : Bytes → Option Bool → Result Bytes
existing rootfs none = err (msg "rootfs")
existing rootfs (some true) = ok rootfs
existing rootfs (some false) = err (msg "rootfs is not a directory")

-- Where the path of the spec is, before it is checked.
unfoldable pub rootfs_of : Bytes → Bytes → Bytes
rootfs_of path bundle = clean (if is_abs path then path else join bundle path)

unfoldable pub resolve_rootfs : Files → Spec → Bytes → Result Bytes
unfolding same
resolve_rootfs files spec bundle =
    let path = root_path spec.root in
    let rootfs = rootfs_of path bundle in
    if same path []
    then err (msg "spec has no root.path")
    else if not (is_abs path) && not (is_within (absolute files bundle) rootfs)
    then err (msg "root.path escapes the bundle directory")
    else existing rootfs (files.is_directory rootfs)

unfoldable pub find_namespace : Bytes → List LinuxNamespace → Option LinuxNamespace
unfolding same
find_namespace type [] = none
find_namespace type (ns ∷ namespaces) =
    if same ns.type type then some ns else find_namespace type namespaces

abbrev pub namespaces_or_none : Option Linux → List LinuxNamespace
namespaces_or_none none = []
namespaces_or_none (some linux) = linux.namespaces

unfoldable pub namespace : Spec → Bytes → Option LinuxNamespace
namespace spec type = find_namespace type (namespaces_or_none spec.linux)
