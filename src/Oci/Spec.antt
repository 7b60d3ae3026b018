-- ===== src/Oci/Spec.antt =====
-- pkg/oci/runtime_spec.go and pkg/oci/state.go: the types of config.json. A pointer is an `Option`,
-- a map an association list, and a string type its bytes, since a bundle may hold any text.
use lightpod.Base.{ℕ, Bool, Option, List}
use lightpod.Base.Int.{ℤ}
use lightpod.Base.Text.{Bytes, text}

pub record Box : Type 0 where
  pub height : ℕ
  pub width : ℕ

pub record User : Type 0 where
  pub uid : ℕ
  pub gid : ℕ
  pub umask : Option ℕ
  pub additional_gids : List ℕ
  pub username : Bytes

pub record LinuxCapabilities : Type 0 where
  pub bounding : List Bytes
  pub effective : List Bytes
  pub inheritable : List Bytes
  pub permitted : List Bytes
  pub ambient : List Bytes

pub record PosixRlimit : Type 0 where
  pub type : Bytes
  pub hard : ℕ
  pub soft : ℕ

pub record Process : Type 0 where
  pub terminal : Bool
  pub console_size : Option Box
  pub user : User
  pub args : List Bytes
  pub command_line : Bytes
  pub env : List Bytes
  pub cwd : Bytes
  pub capabilities : Option LinuxCapabilities
  pub rlimits : List PosixRlimit
  pub no_new_privileges : Bool
  pub apparmor_profile : Bytes
  pub oom_score_adj : Option ℤ
  pub selinux_label : Bytes

pub record Root : Type 0 where
  pub path : Bytes
  pub readonly : Bool

pub record LinuxIdMapping : Type 0 where
  pub container_id : ℕ
  pub host_id : ℕ
  pub size : ℕ

pub record Mount : Type 0 where
  pub destination : Bytes
  pub type : Bytes
  pub source : Bytes
  pub options : List Bytes
  pub uid_mappings : List LinuxIdMapping
  pub gid_mappings : List LinuxIdMapping

pub record Hook : Type 0 where
  pub path : Bytes
  pub args : List Bytes
  pub env : List Bytes
  pub timeout : Option ℤ

pub record Hooks : Type 0 where
  pub prestart : List Hook
  pub create_runtime : List Hook
  pub create_container : List Hook
  pub start_container : List Hook
  pub poststart : List Hook
  pub poststop : List Hook

pub record LinuxNamespace : Type 0 where
  pub type : Bytes
  pub path : Bytes

pub record LinuxDevice : Type 0 where
  pub path : Bytes
  pub type : Bytes
  pub major : ℤ
  pub minor : ℤ
  pub file_mode : Option ℕ
  pub uid : Option ℕ
  pub gid : Option ℕ

pub record LinuxDeviceCgroup : Type 0 where
  pub allow : Bool
  pub type : Bytes
  pub major : Option ℤ
  pub minor : Option ℤ
  pub access : Bytes

pub record LinuxMemory : Type 0 where
  pub limit : Option ℤ
  pub reservation : Option ℤ
  pub swap : Option ℤ
  pub swappiness : Option ℕ
  pub disable_oom_killer : Option Bool

pub record LinuxCpu : Type 0 where
  pub shares : Option ℕ
  pub quota : Option ℤ
  pub period : Option ℕ
  pub cpus : Bytes
  pub mems : Bytes

pub record LinuxPids : Type 0 where
  pub limit : ℤ

pub record LinuxResources : Type 0 where
  pub devices : List LinuxDeviceCgroup
  pub memory : Option LinuxMemory
  pub cpu : Option LinuxCpu
  pub pids : Option LinuxPids

pub record LinuxSeccompArg : Type 0 where
  pub index : ℕ
  pub value : ℕ
  pub value_two : ℕ
  pub op : Bytes

pub record LinuxSyscall : Type 0 where
  pub names : List Bytes
  pub action : Bytes
  pub errno_ret : Option ℕ
  pub args : List LinuxSeccompArg

pub record LinuxSeccomp : Type 0 where
  pub default_action : Bytes
  pub default_errno_ret : Option ℕ
  pub architectures : List Bytes
  pub flags : List Bytes
  pub syscalls : List LinuxSyscall

pub record Linux : Type 0 where
  pub uid_mappings : List LinuxIdMapping
  pub gid_mappings : List LinuxIdMapping
  pub sysctl : List (Bytes × Bytes)
  pub resources : Option LinuxResources
  pub cgroups_path : Bytes
  pub namespaces : List LinuxNamespace
  pub devices : List LinuxDevice
  pub seccomp : Option LinuxSeccomp
  pub rootfs_propagation : Bytes
  pub masked_paths : List Bytes
  pub readonly_paths : List Bytes
  pub mount_label : Bytes

pub record Spec : Type 0 where
  pub version : Bytes
  pub process : Option Process
  pub root : Option Root
  pub hostname : Bytes
  pub domainname : Bytes
  pub mounts : List Mount
  pub hooks : Option Hooks
  pub annotations : List (Bytes × Bytes)
  pub linux : Option Linux

-- The four states that the program writes, and any other text of a record.
pub data ContainerStatus : Type 0 where
  creating created running stopped : ContainerStatus
  other_status : Bytes → ContainerStatus

-- The document that hooks and `lightpod state` get.
pub record State : Type 0 where
  pub version : Bytes
  pub id : Bytes
  pub status : ContainerStatus
  pub pid : ℤ
  pub bundle : Bytes
  pub annotations : List (Bytes × Bytes)

abbrev pub pid_namespace : Bytes
pid_namespace = text "pid"

abbrev pub network_namespace : Bytes
network_namespace = text "network"

abbrev pub mount_namespace : Bytes
mount_namespace = text "mount"

abbrev pub ipc_namespace : Bytes
ipc_namespace = text "ipc"

abbrev pub uts_namespace : Bytes
uts_namespace = text "uts"

abbrev pub user_namespace : Bytes
user_namespace = text "user"

abbrev pub cgroup_namespace : Bytes
cgroup_namespace = text "cgroup"

abbrev pub time_namespace : Bytes
time_namespace = text "time"

abbrev pub act_kill : Bytes
act_kill = text "SCMP_ACT_KILL"

abbrev pub act_kill_process : Bytes
act_kill_process = text "SCMP_ACT_KILL_PROCESS"

abbrev pub act_trap : Bytes
act_trap = text "SCMP_ACT_TRAP"

abbrev pub act_errno : Bytes
act_errno = text "SCMP_ACT_ERRNO"

abbrev pub act_trace : Bytes
act_trace = text "SCMP_ACT_TRACE"

abbrev pub act_allow : Bytes
act_allow = text "SCMP_ACT_ALLOW"

abbrev pub act_log : Bytes
act_log = text "SCMP_ACT_LOG"
