-- ===== src/Runtime/Cgroups/Examples.antt =====
-- Cgroups at a small spec and on a kernel that grants every write.
use lightpod.Base.{
  ℕ, ◌≡◌, ◌≤◌, ◌↔◌, refl, true, false, none, some, List, [], ◌∷◌, ◌++◌, ok, err, Error, arith, msg,
}
use lightpod.Base.Int.{pos}
use lightpod.Base.Text.{Bytes, text, same}
use lightpod.Kernel.{Kernel, Event, directory}
use lightpod.Oci.Path.Render.{IsName, is_special, render}
use lightpod.Oci.Spec.{Spec, LinuxResources}
use lightpod.Oci.Defaults.{default_spec}
use lightpod.Runtime.Cgroups.{
  ControllerFiles, cgroups_path_of, custom_path, container_cgroup_path, shares_to_weight,
  check_controllers, needed,
}
use lightpod.Runtime.Cgroups.Place.{Below, container_cgroup_path-Below, shares_to_weight-bounds}
use lightpod.Runtime.Cgroups.Controllers.{IsServed, AsksNothing, check_controllers_iff}
use lightpod.Runtime.Cgroups.Limits.{CgroupManager, set_resources}

abbrev fs : Bytes
fs = text "cg"

abbrev web : Bytes
web = text "web"

fs-IsName : IsName fs
unfolding is_special
fs-IsName = (refl, ground arith)

web-IsName : IsName web
unfolding is_special
web-IsName = (refl, ground arith)

slice_flattened :
    custom_path (text "/cg") (text "user.slice:lp:web") ≡ ok (text "/cg/user.slice-lp-web")
unfolding custom_path lightpod.Oci.Path.is_within lightpod.Oci.Path.join
    lightpod.Runtime.Cgroups.flatten
slice_flattened = refl

climbing_refused :
    custom_path (text "/cg") (text "../../user.slice")
    ≡ err (msg "linux.cgroupsPath escapes the cgroup root")
unfolding custom_path lightpod.Oci.Path.is_within lightpod.Oci.Path.join
    lightpod.Runtime.Cgroups.flatten
climbing_refused = refl

root_refused :
    custom_path (text "/cg") (text "a/..")
    ≡ err (msg "linux.cgroupsPath resolves to the cgroup root itself")
unfolding custom_path lightpod.Oci.Path.is_within lightpod.Oci.Path.join
    lightpod.Runtime.Cgroups.flatten
root_refused = refl

abbrev spec : Spec
spec = default_spec (text "/srv") [] false

container_cgroup_path-Below_example :
    ((path : Bytes)
      → container_cgroup_path (render (fs ∷ [])) web spec ≡ ok path
      → Below (fs ∷ []) path)
    × (same (cgroups_path_of spec.linux) [] ≡ true
        → container_cgroup_path (render (fs ∷ [])) web spec
          ≡ ok (render ((fs ∷ []) ++ text "lightpod" ∷ web ∷ [])))
container_cgroup_path-Below_example =
    container_cgroup_path-Below fs [] (fs-IsName, tt) web spec web-IsName

shares_to_weight-bounds_example :
    (1 ≤ shares_to_weight 1024)
    × (shares_to_weight 1024 ≤ 10000)
    × ((more : ℕ)
        → 2 ≤ 1024
        → 1024 ≤ more
        → more ≤ 262144
        → shares_to_weight 1024 ≤ shares_to_weight more)
    × (shares_to_weight 2 ≡ 1)
    × (shares_to_weight 262144 ≡ 10000)
    × (shares_to_weight 1 ≡ 10000)
shares_to_weight-bounds_example = shares_to_weight-bounds 1024

abbrev request : LinuxResources
request = record {
  devices = [];
  memory = some (record {
    limit = some (pos 65536);
    reservation = none;
    swap = some (pos 131072);
    swappiness = none;
    disable_oom_killer = none;
  });
  cpu = none;
  pids = some (record { limit = pos 16 });
}

abbrev listed : ControllerFiles
listed = record { here = ok (text "cpu memory\n"); at_mountpoint = ok (text "cpu memory pids\n") }

check_controllers_iff_example :
    ((content : Bytes)
      → listed.here ≡ ok content
      → (check_controllers listed (some request) ≡ ok tt) ↔ IsServed content request)
    × ((e : Error)
        → listed.here ≡ err e
        → (check_controllers listed (some request) ≡ ok tt) ↔ AsksNothing request)
    × (check_controllers listed none ≡ ok tt)
check_controllers_iff_example = check_controllers_iff listed request

abbrev granting : Kernel
granting = record {
  answer = λ h c. none;
  read_file = λ h path. ok [];
  stat = λ h path. ok directory;
}

abbrev manager : CgroupManager
manager = record { path = text "/cg/lightpod/web"; disabled = false }

abbrev writes : List Event
unfolding set_resources
writes = (set_resources granting manager (some request) []).1
