-- ===== src/Runtime/Init.antt =====
-- initSetup of pkg/runtime/init.go, with joinNamespaces of ns.go, HasNamespace of load.go and runHooks
-- of hooks.go: all that the init process does up to the user's command.
pub mod Ready
mod Examples
use lightpod.Base.{
  ℕ, Bool, true, false, ◌&&◌, not, if◌then◌else◌, Option, none, some, List, [], ◌∷◌, Result, ok,
  err,
}
use lightpod.Base.Int.{ℤ}
use lightpod.Base.Text.{Bytes, same}
use lightpod.Oci.Spec.{
  Spec, Process, Linux, LinuxNamespace, Hook, Hooks, State, ContainerStatus, creating, created,
  uts_namespace,
}
use lightpod.Security.Syscalls.Arch.{Arch}
use lightpod.Kernel.{
  Kernel, Event, setns, sethostname, run_hook, send_message, await_message, pass_start_fifo,
}
use lightpod.Kernel.Actions.{Os, ◌>>=◌, ◌>>◌, pure, fail, wrapped, perform}
use lightpod.Runtime.SecureJoin.{Tree}
use lightpod.Runtime.Namespaces.{namespaces_of}
use lightpod.Runtime.Mounts.Prepare.{InitConfig, prepare_rootfs, finalize_rootfs}
use lightpod.Runtime.Launch.{Surroundings, exec_user_process}
use lightpod.Runtime.Handshake.{hook_point, hooks_done, proc_ready}

unfoldable pub lists_type : Bytes → List LinuxNamespace → Bool
unfolding same
lists_type type [] = false
lists_type type (ns ∷ namespaces) =
    let rest = lists_type type namespaces in if same ns.type type then true else rest

unfoldable pub has_namespace : Spec → Bytes → Bool
unfolding lists_type
has_namespace spec type = lists_type type (namespaces_of spec.linux)

abbrev pub create_container_of : Option Hooks → List Hook
create_container_of none = []
create_container_of (some hooks) = hooks.create_container

abbrev pub start_container_of : Option Hooks → List Hook
start_container_of none = []
start_container_of (some hooks) = hooks.start_container

-- The documents that the two lists of hooks get
abbrev pub container_state : InitConfig → State
container_state cfg = record {
  version = cfg.spec.version;
  id = cfg.id;
  status = creating;
  pid = cfg.host_pid;
  bundle = cfg.bundle;
  annotations = cfg.spec.annotations;
}

abbrev pub start_state : InitConfig → State
start_state cfg = record {
  version = cfg.spec.version;
  id = cfg.id;
  status = created;
  pid = cfg.host_pid;
  bundle = cfg.bundle;
  annotations = [];
}

module _ (k : Kernel) where
  -- Opening the namespace and setns are one call; a namespace without a path was made by the clone.
  unfoldable pub join_namespaces : List LinuxNamespace → Os (Unit {0})
  unfolding same
  join_namespaces [] = pure tt
  join_namespaces (ns ∷ namespaces) = do
    if same ns.path [] then pure tt else wrapped "joining namespace" (perform k (setns ns.path))
    join_namespaces namespaces

  unfoldable pub set_hostname : Spec → Os (Unit {0})
  unfolding same has_namespace
  set_hostname spec =
      if not (same spec.hostname []) && has_namespace spec uts_namespace
      then wrapped "setting hostname" (perform k (sethostname spec.hostname))
      else pure tt

  unfoldable pub run_hooks : List Hook → State → Os (Unit {0})
  run_hooks [] state = pure tt
  run_hooks (hook ∷ hooks) state = do
    wrapped "hook" (perform k (run_hook hook state))
    run_hooks hooks state

  -- New has refused a config without a process.
  abbrev pub launch : Arch → Surroundings → Option Linux → Option Process → Os (Unit {0})
  launch a s linux none = fail "nil pointer dereference"
  launch a s linux (some process) = exec_user_process k a s process linux

  unfoldable pub init_setup : Arch → Surroundings → (List Event → Tree) → InitConfig → Os (Unit {0})
  unfolding join_namespaces set_hostname prepare_rootfs run_hooks finalize_rootfs exec_user_process
  init_setup a s tree cfg = do
    join_namespaces (namespaces_of cfg.spec.linux)
    set_hostname cfg.spec
    prepare_rootfs k tree cfg
    wrapped "sending" (perform k (send_message hook_point))
    wrapped "awaiting" (perform k (await_message hooks_done))
    run_hooks (create_container_of cfg.spec.hooks) (container_state cfg)
    finalize_rootfs k cfg
    wrapped "sending" (perform k (send_message proc_ready))
    wrapped "start fifo" (perform k pass_start_fifo)
    run_hooks (start_container_of cfg.spec.hooks) (start_state cfg)
    launch a s cfg.spec.linux cfg.spec.process
