-- ===== src/Runtime/Launch.antt =====
-- pkg/runtime/init.go, execUserProcess and what it calls: how the init process becomes the
-- user's command.
pub mod Calls
pub mod Hardened
mod Examples
use lightpod.Base.{
  ℕ, String, Bool, true, false, ◌==◌, ◌&&◌, if◌then◌else◌, is_empty, Option, none, some, List, [],
  ◌∷◌, Result, ok, err, msg, wrapping,
}
use lightpod.Base.Int.{ℤ, signed_decimal}
use lightpod.Base.Text.{Bytes, text, same, cut, to_upper, lookup}
use lightpod.Oci.Spec.{Process, User, PosixRlimit, Linux, LinuxSeccomp}
use lightpod.Security.Syscalls.Arch.{Arch, entries}
use lightpod.Security.Capabilities.Apply.{apply_capabilities}
use lightpod.Security.Install.{set_no_new_privs, set_keep_caps, apply_seccomp}
use lightpod.Kernel.{Kernel, Event, setrlimit, write_file, umask, setgroups, setgid, setuid, exec}
use lightpod.Kernel.Actions.{Os, ◌>>=◌, ◌>>◌, pure, fail, wrapped, perform}
use lightpod.Kernel.Does.{always}

unfoldable pub rlimit_resources : List (Bytes × ℕ)
rlimit_resources = entries (
    ("RLIMIT_CPU", 0)
    ∷ ("RLIMIT_FSIZE", 1)
    ∷ ("RLIMIT_DATA", 2)
    ∷ ("RLIMIT_STACK", 3)
    ∷ ("RLIMIT_CORE", 4)
    ∷ ("RLIMIT_RSS", 5)
    ∷ ("RLIMIT_NPROC", 6)
    ∷ ("RLIMIT_NOFILE", 7)
    ∷ ("RLIMIT_MEMLOCK", 8)
    ∷ ("RLIMIT_AS", 9)
    ∷ ("RLIMIT_LOCKS", 10)
    ∷ ("RLIMIT_SIGPENDING", 11)
    ∷ ("RLIMIT_MSGQUEUE", 12)
    ∷ ("RLIMIT_NICE", 13)
    ∷ ("RLIMIT_RTPRIO", 14)
    ∷ ("RLIMIT_RTTIME", 15)
    ∷ [])

-- The process that runs this: os.Environ, its PATH, and exec.LookPath under a PATH, which depends on
-- what has happened so far.
pub record Surroundings : Type 0 where
  pub environ : List Bytes
  pub own_path : Bytes
  pub look_path : List Event → Bytes → Bytes → Result Bytes

-- A nil list and an empty one are the same here: the config comes through JSON with omitempty.
abbrev pub env_or : List Bytes → List Bytes → List Bytes
env_or [] environ = environ
env_or (kv ∷ env) environ = kv ∷ env

-- The value of the first PATH of the environment.
abbrev pub path_in : Bytes × Bytes × Bool → Bytes → Bytes
path_in (name, value, found) rest = if found && same name (text "PATH") then value else rest

unfoldable pub search_path : List Bytes → Bytes → Bytes
unfolding same cut
search_path [] own = own
search_path (kv ∷ env) own = let rest = search_path env own in path_in (cut kv b'=') rest

abbrev pub is_root : User → Bool
is_root user = (user.uid == 0) && ((user.gid == 0) && is_empty user.additional_gids)

abbrev pub seccomp_of : Option Linux → Option LinuxSeccomp
seccomp_of none = none
seccomp_of (some linux) = linux.seccomp

-- args[0], of a list that New has checked not to be empty.
abbrev pub program_name : List Bytes → Result Bytes
program_name [] = err (msg "index out of range")
program_name (name ∷ args) = ok name

abbrev pub find_program : Surroundings → Process → Result Bytes → Os Bytes
find_program s process (err e) h = (err e, h)
find_program s process (ok name) h = (
  wrapping "resolving inside the container"
      (s.look_path h (search_path (env_or process.env s.environ) s.own_path) name),
  h,
)

module _ (k : Kernel) where
  abbrev pub set_limit : PosixRlimit → Option ℕ → Os (Unit {0})
  set_limit limit none = fail "unknown rlimit"
  set_limit limit (some resource) =
      wrapped "setting rlimit" (perform k (setrlimit resource limit.soft limit.hard))

  unfoldable pub set_limits : List PosixRlimit → Os (Unit {0})
  set_limits [] = pure tt
  set_limits (limit ∷ limits) = do
    set_limit limit (lookup (to_upper limit.type) rlimit_resources)
    set_limits limits

  abbrev pub set_oom_score : Option ℤ → Os (Unit {0})
  set_oom_score none = pure tt
  set_oom_score (some value) =
      wrapped "setting oom_score_adj"
        (perform k (write_file (text "/proc/self/oom_score_adj") (signed_decimal value)))

  abbrev pub set_umask : Option ℕ → Os (Unit {0})
  set_umask none = pure tt
  set_umask (some mask) = always (umask mask)

  unfoldable pub apply_process_limits : Process → Os (Unit {0})
  apply_process_limits process = do
    set_limits process.rlimits
    set_oom_score process.oom_score_adj
    set_umask process.user.umask

  abbrev pub set_groups : List ℕ → Os (Unit {0})
  set_groups [] = pure tt
  set_groups (g ∷ gids) = wrapped "setting supplementary groups" (perform k (setgroups (g ∷ gids)))

  abbrev pub switch_user : User → Os (Unit {0})
  switch_user user = do
    set_keep_caps k true
    set_groups user.additional_gids
    wrapped "setting gid" (perform k (setgid user.gid))
    wrapped "setting uid" (perform k (setuid user.uid))
    set_keep_caps k false

  unfoldable pub setup_user : User → Os (Unit {0})
  setup_user user = if is_root user then pure tt else switch_user user

  abbrev pub forbid_new_privs : Bool → Os (Unit {0})
  forbid_new_privs false = pure tt
  forbid_new_privs true = set_no_new_privs k

  unfoldable pub exec_user_process : Arch → Surroundings → Process → Option Linux → Os (Unit {0})
  exec_user_process a s process linux = do
    binary ← find_program s process (program_name process.args)
    apply_process_limits process
    setup_user process.user
    apply_capabilities k process.capabilities
    forbid_new_privs process.no_new_privileges
    apply_seccomp k a (seccomp_of linux)
    wrapped "executing" (perform k (exec binary process.args (env_or process.env s.environ)))
