-- ===== src/Oci/Defaults.antt =====
-- pkg/oci/defaults.go: the spec that `run --rootfs` and `spec` generate.
use lightpod.Base.{ℕ, Bool, true, false, none, some, String, List, [], ◌∷◌, if◌then◌else◌}
use lightpod.Base.Int.{pos}
use lightpod.Base.Text.{Bytes, text, texts}
use lightpod.Oci.Spec.{
  Spec, Mount, LinuxNamespace, LinuxDevice, pid_namespace, network_namespace, ipc_namespace,
  uts_namespace, mount_namespace, cgroup_namespace, user_namespace,
}
use lightpod.Oci.Profile.{default_seccomp_profile}

-- version.OCIVersion
abbrev pub oci_version : Bytes
oci_version = text "1.2.0"

unfoldable pub default_capabilities : List Bytes
default_capabilities = texts (
    "CAP_CHOWN" ∷ "CAP_DAC_OVERRIDE" ∷ "CAP_FOWNER" ∷ "CAP_FSETID" ∷ "CAP_KILL"
    ∷ "CAP_NET_BIND_SERVICE" ∷ "CAP_SETFCAP" ∷ "CAP_SETGID" ∷ "CAP_SETPCAP" ∷ "CAP_SETUID"
    ∷ "CAP_SYS_CHROOT" ∷ [])

unfoldable pub default_masked_paths : List Bytes
default_masked_paths = texts (
    "/proc/asound" ∷ "/proc/acpi" ∷ "/proc/interrupts" ∷ "/proc/kcore" ∷ "/proc/keys"
    ∷ "/proc/latency_stats" ∷ "/proc/timer_list" ∷ "/proc/timer_stats" ∷ "/proc/sched_debug"
    ∷ "/proc/scsi" ∷ "/sys/firmware" ∷ "/sys/devices/virtual/powercap" ∷ [])

unfoldable pub default_readonly_paths : List Bytes
default_readonly_paths =
    texts ("/proc/bus" ∷ "/proc/fs" ∷ "/proc/irq" ∷ "/proc/sys" ∷ "/proc/sysrq-trigger" ∷ [])

abbrev mount_of : Bytes → Bytes → Bytes → List Bytes → Mount
mount_of destination type source options = record {
  destination = destination;
  type = type;
  source = source;
  options = options;
  uid_mappings = [];
  gid_mappings = [];
}

unfoldable pub sys_mount : Bool → Mount
sys_mount true =
    mount_of (text "/sys") (text "none") (text "/sys")
      (texts ("rbind" ∷ "nosuid" ∷ "noexec" ∷ "nodev" ∷ "ro" ∷ []))
sys_mount false =
    mount_of (text "/sys") (text "sysfs") (text "sysfs")
      (texts ("nosuid" ∷ "noexec" ∷ "nodev" ∷ "ro" ∷ []))

unfoldable pub default_mounts : Bool → List Mount
unfolding sys_mount
default_mounts rootless =
    mount_of (text "/proc") (text "proc") (text "proc") (texts ("nosuid" ∷ "noexec" ∷ "nodev" ∷ []))
    ∷ mount_of (text "/dev") (text "tmpfs") (text "tmpfs")
        (texts ("nosuid" ∷ "strictatime" ∷ "mode=755" ∷ "size=65536k" ∷ []))
    ∷ mount_of (text "/dev/pts") (text "devpts") (text "devpts")
        (texts ("nosuid" ∷ "noexec" ∷ "newinstance" ∷ "ptmxmode=0666" ∷ "mode=0620" ∷ []))
    ∷ mount_of (text "/dev/shm") (text "tmpfs") (text "shm")
        (texts ("nosuid" ∷ "noexec" ∷ "nodev" ∷ "mode=1777" ∷ "size=65536k" ∷ []))
    ∷ mount_of (text "/dev/mqueue") (text "mqueue") (text "mqueue")
        (texts ("nosuid" ∷ "noexec" ∷ "nodev" ∷ []))
    ∷ sys_mount rootless
    ∷ []

abbrev device_of : String → ℕ → ℕ → LinuxDevice
device_of path major minor = record {
  path = text path;
  type = text "c";
  major = pos major;
  minor = pos minor;
  file_mode = some 0o666;
  uid = none;
  gid = none;
}

unfoldable pub default_devices : List LinuxDevice
default_devices =
    device_of "/dev/null" 1 3
    ∷ device_of "/dev/zero" 1 5
    ∷ device_of "/dev/full" 1 7
    ∷ device_of "/dev/random" 1 8
    ∷ device_of "/dev/urandom" 1 9
    ∷ device_of "/dev/tty" 5 0
    ∷ []

abbrev create_namespace : Bytes → LinuxNamespace
create_namespace type = record { type = type; path = [] }

unfoldable pub default_namespaces : Bool → List LinuxNamespace
default_namespaces rootless =
    let namespaces =
      create_namespace pid_namespace
      ∷ create_namespace network_namespace
      ∷ create_namespace ipc_namespace
      ∷ create_namespace uts_namespace
      ∷ create_namespace mount_namespace
      ∷ create_namespace cgroup_namespace
      ∷ [] in
    if rootless then create_namespace user_namespace ∷ namespaces else namespaces

-- Default of the source.
unfoldable pub default_spec : Bytes → List Bytes → Bool → Spec
unfolding default_namespaces default_mounts
default_spec rootfs args rootless = record {
  version = oci_version;
  process = some (record {
    terminal = false;
    console_size = none;
    user = record { uid = 0; gid = 0; umask = none; additional_gids = []; username = [] };
    args = args;
    command_line = [];
    env =
        texts
          ("PATH=/usr/local/sbin:/usr/local/bin:/usr/sbin:/usr/bin:/sbin:/bin" ∷ "TERM=xterm" ∷ []);
    cwd = text "/";
    capabilities = some (record {
      bounding = default_capabilities;
      effective = default_capabilities;
      inheritable = [];
      permitted = default_capabilities;
      ambient = [];
    });
    rlimits = [];
    no_new_privileges = true;
    apparmor_profile = [];
    oom_score_adj = none;
    selinux_label = [];
  });
  root = some (record { path = rootfs; readonly = false });
  hostname = text "lightpod";
  domainname = [];
  mounts = default_mounts rootless;
  hooks = none;
  annotations = [];
  linux = some (record {
    uid_mappings = [];
    gid_mappings = [];
    sysctl = [];
    resources = some (record {
      devices = [];
      memory = none;
      cpu = none;
      pids = some (record { limit = pos 1024 });
    });
    cgroups_path = [];
    namespaces = default_namespaces rootless;
    devices = [];
    seccomp = some default_seccomp_profile;
    rootfs_propagation = [];
    masked_paths = default_masked_paths;
    readonly_paths = default_readonly_paths;
    mount_label = [];
  });
}
