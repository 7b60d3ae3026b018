-- ===== src/Kernel.antt =====
-- The kernel as the program sees it: the system calls that pkg/security and pkg/runtime make, and a
-- monad for code that makes them. The kernel is a parameter. It answers a call by what has happened
-- so far, in any way; the program's code decides which calls are made, and what an error does.
pub mod Actions
pub mod Laws
pub mod Adds
pub mod Does
use lightpod.Base.{ℕ, Bool, Option, List, Result}
use lightpod.Base.Text.{Bytes}
use lightpod.Oci.Spec.{Hook, State, ContainerStatus}
use lightpod.Security.Seccomp.{SockFilter}
use lightpod.Runtime.Handshake.{SyncType}

-- One half of a capset(2) argument.
pub record CapData : Type 0 where
  pub effective : ℕ
  pub permitted : ℕ
  pub inheritable : ℕ

-- `path` arguments are bytes; modes, flags and numbers are the values that are passed. Sending a
-- message to the host, awaiting one from it, and opening and writing the start FIFO are calls too.
pub data Call : Type 0 where
  prctl : ℕ → ℕ → Call
  prctl_ambient : ℕ → ℕ → Call
  capset : CapData → CapData → Call
  seccomp_filter : List SockFilter → Call
  mount : Bytes → Bytes → Bytes → ℕ → Bytes → Call
  pivot_root : Bytes → Bytes → Call
  unmount : Bytes → ℕ → Call
  chdir : Bytes → Call
  mkdir_all : Bytes → ℕ → Call
  create_file : Bytes → ℕ → Call
  write_file : Bytes → Bytes → Call
  remove : Bytes → Call
  symlink : Bytes → Bytes → Call
  mknod : Bytes → ℕ → ℕ → Call
  chown : Bytes → ℕ → ℕ → Call
  setrlimit : ℕ → ℕ → ℕ → Call
  umask : ℕ → Call
  setgroups : List ℕ → Call
  setgid : ℕ → Call
  setuid : ℕ → Call
  setns : Bytes → Call
  sethostname : Bytes → Call
  run_hook : Hook → State → Call
  run_helper : Bytes → List Bytes → Call
  send_message : SyncType → Call
  await_message : SyncType → Call
  pass_start_fifo : Call
  exec : Bytes → List Bytes → List Bytes → Call

-- A call that succeeded, or the errno with which it failed.
pub data Event : Type 0 where
  did : Call → Event
  refused : Call → ℕ → Event

-- What os.Stat and os.Lstat tell of a path.
pub data FileKind : Type 0 where
  directory regular symbolic_link : FileKind
  char_device block_device named_pipe other_kind : FileKind

-- All that is known of the outside: the answers depend on the events so far, the newest first.
pub record Kernel : Type 0 where
  pub answer : List Event → Call → Option ℕ
  pub read_file : List Event → Bytes → Result Bytes
  pub stat : List Event → Bytes → Result FileKind
