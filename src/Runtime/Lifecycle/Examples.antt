-- ===== src/Runtime/Lifecycle/Examples.antt =====
-- The verbs on a disk with one container, whose record is kept by its status alone.
use lightpod.Base.{
  ℕ, ◌≡◌, refl, true, false, ◌==◌, if◌then◌else◌, Option, none, some, List, [], ◌∷◌, ◌++◌, Result,
  ok, err, Bool, msg,
}
use lightpod.Base.Int.{pos}
use lightpod.Base.Text.{Bytes, text}
use lightpod.Oci.Spec.{ContainerStatus, created, running, stopped}
use lightpod.Oci.Defaults.{default_spec}
use lightpod.Store
use lightpod.Store.{Host}
use lightpod.Store.Directory.{Disk}
use lightpod.Runtime.Lifecycle.{
  Outside, Handle, returned, panicked, start, delete, signal, wait_for_exit, open_fifo,
}
use lightpod.Runtime.Lifecycle.Signals.{Killed, kill-Killed}
use lightpod.Runtime.Lifecycle.Verbs.{Starts, start-Starts}
use lightpod.Runtime.Lifecycle.Deletion.{Deletes, delete-Deletes}

abbrev pod : Bytes
pod = text "pod"

abbrev record_of : ContainerStatus → Store.Container
record_of s = record {
  schema_version = pos 1;
  id = pod;
  bundle = [];
  rootfs = [];
  pid = pos 42;
  status = s;
  cgroup_path = [];
  created_at = [];
  annotations = [];
}

abbrev status_byte : ContainerStatus → ℕ
status_byte created = 1
status_byte running = 2
status_byte s = 0

abbrev status_of : Bytes → Option Store.Container
status_of [] = none
status_of (b ∷ s) =
    some (record_of (if b == 1 then created else if b == 2 then running else stopped))

abbrev quiet : Host
quiet = record {
  encode = λ r. some (status_byte r.status ∷ []);
  decode = status_of;
  lock = λ d. ok d;
  mkdir = λ d id. none;
  write_temp = λ d id. none;
  rename = λ d id. none;
  read = λ d id. none;
  read_dir = λ d. none;
  remove_all = λ d id. none;
  probe = λ pid. none;
}

abbrev open_outside : Outside
open_outside = record { fifo = λ acts id. none; kill_error = λ acts pid sig. none }

abbrev disk_of : ℕ → Disk
disk_of b = (pod, record { state_file = some (b ∷ 10 ∷ []); temp_file = none }) ∷ []

abbrev handle : Handle
handle = record { id = pod; spec = some (default_spec (text "/srv") [] false) }

abbrev adopted : Handle
adopted = record { id = pod; spec = none }

started :
    start quiet open_outside handle (disk_of 1) []
    ≡ (returned (ok tt), disk_of 2, open_fifo pod ∷ [])
unfolding start Store.load Store.validate_id lightpod.Base.Text.lookup Store.reconcile Store.save
    default_spec lightpod.Store.Directory.put
started = refl

adopted_panics :
    start quiet open_outside adopted (disk_of 1) [] ≡ (panicked, disk_of 2, open_fifo pod ∷ [])
unfolding start Store.load Store.validate_id lightpod.Base.Text.lookup Store.reconcile Store.save
    lightpod.Store.Directory.put
adopted_panics = refl

forced :
    delete quiet open_outside handle true (disk_of 2) []
    ≡ (returned (ok tt), [], wait_for_exit (pos 42) ∷ signal (pos 42) 9 ∷ [])
unfolding delete Store.load Store.validate_id lightpod.Base.Text.lookup Store.reconcile Store.delete
    default_spec lightpod.Store.Directory.erase
forced = refl

kill-Killed_example : Killed quiet open_outside handle (disk_of 2) [] 15
kill-Killed_example = kill-Killed quiet open_outside handle (disk_of 2) [] 15

start-Starts_example : Starts quiet open_outside handle (disk_of 1) []
start-Starts_example = start-Starts quiet open_outside handle (disk_of 1) []

running_loads : Store.load quiet pod (disk_of 2) ≡ ok (record_of running)
unfolding Store.load Store.validate_id lightpod.Base.Text.lookup Store.reconcile
running_loads = refl

delete-Deletes_example : Deletes quiet open_outside handle true (disk_of 2) [] (record_of running)
delete-Deletes_example =
    delete-Deletes quiet open_outside handle true (disk_of 2) [] (record_of running) running_loads
