-- ===== src/Cli/Flags.antt =====
-- applyRunFlags of run.go, with applyProcessFlags, applyMountFlags and applyDeviceFlags of flags.go.
-- The warnings that they print are left out. `spec.Linux` is not nil behind the start of applyRunFlags.
use lightpod.Base.{
  ℕ, ◌-◌, ◌^◌, Bool, true, false, if◌then◌else◌, Option, none, some, List, [], ◌∷◌, ◌++◌, Result,
  ok, err, msg, wrapping, ◌>>=◌, ◌>>◌,
}
use lightpod.Base.Int.{ℤ, is_pos}
use lightpod.Base.Text.{Bytes, text, same, has_prefix, to_upper, cut, parse_uint}
use lightpod.Oci.Spec.{
  Spec, Process, User, Root, Mount, Linux, LinuxResources, LinuxCapabilities, LinuxNamespace,
  LinuxDevice, ipc_namespace,
}
use lightpod.Device.Raw.{FileInfo, parse_raw_device}
use lightpod.Device.Nvidia.{set_nvidia_env}
use lightpod.Cli.Values.{parse_size, append_unique, resize_mounts}
use lightpod.Cli.Volumes.{parse_volume}

-- The flags that are read here. `cpu_quota` is int64(cpus * 100000) of a positive --cpus.
pub record RunFlags : Type 0 where
  pub memory : Bytes
  pub cpu_quota : Option ℤ
  pub pids : ℤ
  pub hostname : Bytes
  pub seccomp : Bytes
  pub readonly : Bool
  pub tty : Bool
  pub shm_size : Bytes
  pub ipc : Bytes
  pub workdir : Bytes
  pub user : Bytes
  pub gpu : Bytes
  pub volumes : List Bytes
  pub devices : List Bytes
  pub env : List Bytes
  pub add_caps : List Bytes

-- &oci.Linux{} and &oci.LinuxResources{}
abbrev pub empty_linux : Linux
empty_linux = record {
  uid_mappings = [];
  gid_mappings = [];
  sysctl = [];
  resources = none;
  cgroups_path = [];
  namespaces = [];
  devices = [];
  seccomp = none;
  rootfs_propagation = [];
  masked_paths = [];
  readonly_paths = [];
  mount_label = [];
}

abbrev pub empty_resources : LinuxResources
empty_resources = record { devices = []; memory = none; cpu = none; pids = none }

abbrev pub empty_capabilities : LinuxCapabilities
empty_capabilities = record {
  bounding = [];
  effective = [];
  inheritable = [];
  permitted = [];
  ambient = [];
}

abbrev pub linux_or : Option Linux → Linux
linux_or none = empty_linux
linux_or (some linux) = linux

abbrev pub resources_or : Option LinuxResources → LinuxResources
resources_or none = empty_resources
resources_or (some resources) = resources

abbrev pub capabilities_or : Option LinuxCapabilities → LinuxCapabilities
capabilities_or none = empty_capabilities
capabilities_or (some caps) = caps

-- A change behind the pointer spec.Linux
abbrev pub on_linux : (Linux → Linux) → Spec → Spec
on_linux f spec = record spec { linux = some (f (linux_or spec.linux)) }

abbrev pub on_resources : (LinuxResources → LinuxResources) → Spec → Spec
on_resources f spec =
    on_linux (λ linux. record linux { resources = some (f (resources_or linux.resources)) }) spec

-- --user, --workdir, --cap-add and --env
abbrev pub with_gid : User → ℕ → Option ℕ → Result User
with_gid user uid none = err (msg "gid must be numeric")
with_gid user uid (some gid) = ok (record user { uid = uid; gid = gid })

abbrev pub with_uid : User → Option ℕ → Bytes → Bool → Result User
with_uid user none gid_part has_gid = err (msg "uid must be numeric")
with_uid user (some uid) gid_part false = ok (record user { uid = uid; gid = uid })
with_uid user (some uid) gid_part true = with_gid user uid (parse_uint (2 ^ 32 - 1) gid_part)

abbrev pub user_parts : User → Bytes × Bytes × Bool → Result User
user_parts user (uid_part, gid_part, has_gid) =
    with_uid user (parse_uint (2 ^ 32 - 1) uid_part) gid_part has_gid

unfoldable pub apply_user : Bytes → User → Result User
unfolding parse_uint cut
apply_user [] user = ok user
apply_user (c ∷ value) user = user_parts user (cut (c ∷ value) b':')

unfoldable pub apply_workdir : Bytes → Bytes → Result Bytes
unfolding has_prefix
apply_workdir [] cwd = ok cwd
apply_workdir (c ∷ dir) cwd =
    if has_prefix (c ∷ dir) (text "/")
    then ok (c ∷ dir)
    else err (msg "--workdir must be an absolute path")

unfoldable pub capability_name : Bytes → Bytes
unfolding has_prefix to_upper
capability_name name =
    let upper = to_upper name in
    if has_prefix upper (text "CAP_") then upper else text "CAP_" ++ upper

abbrev pub add_capability : Bytes → LinuxCapabilities → LinuxCapabilities
add_capability name caps = record caps {
  bounding = append_unique caps.bounding name;
  effective = append_unique caps.effective name;
  permitted = append_unique caps.permitted name;
}

unfoldable pub add_capabilities : List Bytes → Option LinuxCapabilities → Option LinuxCapabilities
unfolding append_unique capability_name
add_capabilities [] caps = caps
add_capabilities (name ∷ names) caps =
    add_capabilities names (some (add_capability (capability_name name) (capabilities_or caps)))

unfoldable pub process_flags : RunFlags → Process → Result Process
unfolding apply_workdir apply_user add_capabilities
process_flags rf process = do
  cwd ← apply_workdir rf.workdir process.cwd
  user ← apply_user rf.user process.user
  ok (record process {
    env = process.env ++ rf.env;
    cwd = cwd;
    user = user;
    capabilities = add_capabilities rf.add_caps process.capabilities;
  })

abbrev pub flagged_process : RunFlags → Option Process → Result Process
flagged_process rf none = err (msg "spec has no process section")
flagged_process rf (some process) = process_flags rf process

unfoldable pub apply_process_flags : RunFlags → Spec → Result Spec
unfolding process_flags
apply_process_flags rf spec = do
  process ← flagged_process rf spec.process
  ok (record spec { process = some process })

-- -v, --shm-size and --ipc
unfoldable pub add_volumes : List Bytes → List Mount → Result (List Mount)
unfolding parse_volume
add_volumes [] mounts = ok mounts
add_volumes (value ∷ values) mounts = do
  m ← parse_volume value
  add_volumes values (mounts ++ m ∷ [])

abbrev pub resized_or : Option (List Mount) → Result (List Mount)
resized_or none = err (msg "this bundle has no /dev/shm mount to resize")
resized_or (some mounts) = ok mounts

unfoldable pub apply_shm_size : Bytes → List Mount → Result (List Mount)
unfolding parse_size resize_mounts
apply_shm_size [] mounts = ok mounts
apply_shm_size (c ∷ value) mounts = do
  size ← wrapping "--shm-size" (parse_size (c ∷ value))
  resized_or (resize_mounts size mounts)

unfoldable pub set_namespace_path : Bytes → Bytes → List LinuxNamespace → List LinuxNamespace
unfolding same
set_namespace_path kind path [] = record { type = kind; path = path } ∷ []
set_namespace_path kind path (ns ∷ namespaces) =
    let rest = set_namespace_path kind path namespaces in
    if same ns.type kind then record ns { path = path } ∷ namespaces else ns ∷ rest

abbrev pub share_ipc : Linux → Linux
share_ipc linux = record linux {
  namespaces = set_namespace_path ipc_namespace (text "/proc/1/ns/ipc") linux.namespaces;
}

unfoldable pub apply_ipc : Bytes → Spec → Result Spec
unfolding same set_namespace_path
apply_ipc ipc spec =
    if same ipc []
    then ok spec
    else if same ipc (text "host")
    then ok (on_linux share_ipc spec)
    else err (msg "--ipc is not supported (only host)")

unfoldable pub apply_mount_flags : RunFlags → Spec → Result Spec
unfolding add_volumes apply_shm_size apply_ipc
apply_mount_flags rf spec = do
  with_volumes ← add_volumes rf.volumes spec.mounts
  mounts ← apply_shm_size rf.shm_size with_volumes
  apply_ipc rf.ipc (record spec { mounts = mounts })

-- --memory, --cpus, --pids and --seccomp
abbrev pub limit_memory : ℤ → LinuxResources → LinuxResources
limit_memory bytes resources = record resources {
  memory = some (record {
    limit = some bytes;
    reservation = none;
    swap = none;
    swappiness = none;
    disable_oom_killer = none;
  });
}

abbrev pub limit_cpus : ℤ → LinuxResources → LinuxResources
limit_cpus quota resources = record resources {
  cpu =
      some
        (record { shares = none; quota = some quota; period = some 100000; cpus = []; mems = [] });
}

abbrev pub limit_pids : ℤ → LinuxResources → LinuxResources
limit_pids limit resources = record resources { pids = some (record { limit = limit }) }

unfoldable pub apply_memory : Bytes → Spec → Result Spec
unfolding parse_size
apply_memory [] spec = ok spec
apply_memory (c ∷ value) spec = do
  bytes ← wrapping "--memory" (parse_size (c ∷ value))
  ok (on_resources (limit_memory bytes) spec)

abbrev pub apply_cpus : Option ℤ → Spec → Spec
apply_cpus none spec = spec
apply_cpus (some quota) spec = on_resources (limit_cpus quota) spec

abbrev pub apply_pids : ℤ → Spec → Spec
apply_pids limit spec = if is_pos limit then on_resources (limit_pids limit) spec else spec

unfoldable pub apply_seccomp_flag : Bytes → Spec → Spec
unfolding same
apply_seccomp_flag mode spec =
    if same mode (text "unconfined")
    then on_linux (λ linux. record linux { seccomp = none }) spec
    else spec

abbrev pub make_readonly : Option Root → Option Root
make_readonly none = none
make_readonly (some root) = some (record root { readonly = true })

unfoldable pub apply_names : RunFlags → Spec → Spec
unfolding same
apply_names rf spec = record spec {
  hostname = if same rf.hostname [] then spec.hostname else rf.hostname;
  root = if rf.readonly then make_readonly spec.root else spec.root;
}

abbrev pub refuse_tty : Bool → Result (Unit {0})
refuse_tty true = err (msg "--tty is not implemented yet")
refuse_tty false = ok tt

-- --device and --gpu. What os.Stat tells is a parameter.
module _ (stat : Bytes → Result FileInfo) where
  abbrev pub checked_path : Bytes → Result LinuxDevice
  checked_path value =
      if has_prefix value (text "/")
      then parse_raw_device stat value
      else err (msg "--device must be a host path")

  unfoldable pub add_devices : List Bytes → Spec → Result Spec
  unfolding has_prefix parse_raw_device
  add_devices [] spec = ok spec
  add_devices (value ∷ values) spec = do
    dev ← checked_path value
    add_devices values
        (on_linux (λ linux. record linux { devices = linux.devices ++ dev ∷ [] }) spec)

  unfoldable pub apply_gpu_flag : Bytes → Spec → Result Spec
  unfolding set_nvidia_env
  apply_gpu_flag [] spec = ok spec
  apply_gpu_flag (c ∷ gpu) spec = set_nvidia_env spec (c ∷ gpu)

  unfoldable pub apply_device_flags : RunFlags → Spec → Result Spec
  unfolding add_devices apply_gpu_flag
  apply_device_flags rf spec = do
    with_devices ← add_devices rf.devices spec
    apply_gpu_flag rf.gpu with_devices

  unfoldable pub apply_run_flags : RunFlags → Spec → Result Spec
  unfolding apply_names apply_process_flags apply_mount_flags apply_device_flags apply_memory
      apply_seccomp_flag
  apply_run_flags rf spec = do
    refuse_tty rf.tty
    with_process ←
        apply_process_flags rf (apply_names rf (on_resources (λ resources. resources) spec))
    with_mounts ← apply_mount_flags rf with_process
    with_devices ← apply_device_flags rf with_mounts
    limited ← apply_memory rf.memory with_devices
    ok (apply_seccomp_flag rf.seccomp (apply_pids rf.pids (apply_cpus rf.cpu_quota limited)))
