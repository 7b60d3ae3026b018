-- ===== src/Runtime/Cgroups.antt =====
-- pkg/runtime/cgroups.go: where the cgroup of a container is, and the limits that are written there.
pub mod Place
pub mod Controllers
pub mod Limits
mod Examples
use lightpod.Base.{
  ℕ, ◌+◌, ◌-◌, ◌*◌, ◌/◌, ◌%◌, ◌^◌, String, Bool, true, false, ltb, ◌==◌, not, if◌then◌else◌,
  is_empty, Option, none, some, List, [], ◌∷◌, ◌++◌, map, Result, ok, err, msg, wrap, refuse_if,
  ◌>>=◌, ◌>>◌,
}
use lightpod.Base.Text.{
  Bytes, text, texts, same, contains_any, split, join_with, trim_prefix, fields, mem,
}
use lightpod.Oci.Path.{slash, join, is_within}
use lightpod.Oci.Spec.{Spec, Linux, LinuxResources, LinuxMemory, LinuxCpu, LinuxPids}

abbrev is_colon : ℕ → Bool
is_colon c = c == 58

-- systemd's "slice:prefix:name" as one directory name
unfoldable pub flatten : Bytes → Bytes
unfolding contains_any split join_with
flatten custom = if contains_any is_colon custom then join_with 45 (split custom 58) else custom

abbrev pub cgroups_path_of : Option Linux → Bytes
cgroups_path_of none = []
cgroups_path_of (some linux) = linux.cgroups_path

-- The path of a spec that sets one.
unfoldable pub custom_path : Bytes → Bytes → Result Bytes
unfolding same trim_prefix
custom_path root custom =
    let path = join root (trim_prefix (flatten custom) (slash ∷ [])) in
    if not (is_within root path)
    then err (msg "linux.cgroupsPath escapes the cgroup root")
    else if same path root
    then err (msg "linux.cgroupsPath resolves to the cgroup root itself")
    else ok path

unfoldable pub container_cgroup_path : Bytes → Bytes → Spec → Result Bytes
unfolding same join_with
container_cgroup_path root id spec =
    if same (cgroups_path_of spec.linux) []
    then ok (join root (join_with slash (text "lightpod" ∷ id ∷ [])))
    else custom_path root (cgroups_path_of spec.linux)

-- shares is a uint64, and so is every intermediate value.
unfoldable pub shares_to_weight : ℕ → ℕ
shares_to_weight shares =
    let less_two = (shares + 2 ^ 64 - 2) % 2 ^ 64 in
    let weight = (1 + less_two * 9999 % 2 ^ 64 / 262142) % 2 ^ 64 in
    if shares == 0
    then 100
    else if ltb weight 1
    then 1
    else if ltb 10000 weight
    then 10000
    else weight

-- The controllers that a request needs, in the order of the names.
abbrev pub needs {ℓ} : {A : Type ℓ} → String → Option A → List Bytes
needs name none = []
needs name (some a) = text name ∷ []

unfoldable pub needed : LinuxResources → List Bytes
needed r = needs "cpu" r.cpu ++ (needs "memory" r.memory ++ needs "pids" r.pids)

unfoldable pub missing : List Bytes → List Bytes → List Bytes
missing available [] = []
missing available (c ∷ cs) =
    let rest = missing available cs in if mem c available then rest else c ∷ rest

-- os.ReadFile of cgroup.controllers, below a cgroup and below the mount point
pub record ControllerFiles : Type 0 where
  pub here : Result Bytes
  pub at_mountpoint : Result Bytes

abbrev pub has_none : Result Bytes → Bool
has_none (err e) = false
has_none (ok content) = is_empty (fields content)

abbrev pub checked : ControllerFiles → LinuxResources → Result Bytes → Result (Unit {0})
checked files r (err e) = err (wrap "reading controllers available" e)
checked files r (ok content) =
    if is_empty (missing (fields content) (needed r))
    then ok tt
    else if has_none files.at_mountpoint
    then err (wrap "controllers are not available" (msg "controllers are on cgroup v1"))
    else err (wrap "controllers are not available" (msg "no writable cgroup v2 delegation"))

unfoldable pub check_controllers : ControllerFiles → Option LinuxResources → Result (Unit {0})
check_controllers files none = ok tt
check_controllers files (some r) = if is_empty (needed r) then ok tt else checked files r files.here
