-- ===== src/Runtime/Lifecycle.antt =====
-- The host side of a container in pkg/runtime/container.go: Start, Kill, Delete and State.
pub mod Signals
pub mod Verbs
pub mod Deletion
mod Examples
use lightpod.Base.{
  ℕ, Bool, true, false, ◌==◌, not, ◌&&◌, if◌then◌else◌, Option, none, some, List, [], ◌∷◌, Result,
  ok, err, Error, msg, wrap, errno,
}
use lightpod.Base.Int.{ℤ, pos, is_pos}
use lightpod.Base.Text.{Bytes, same}
use lightpod.Oci.Spec.{
  Spec, Hooks, Hook, State, ContainerStatus, creating, created, running, stopped, other_status,
}
use lightpod.Store
use lightpod.Store.{Host, to_oci}
use lightpod.Store.Directory.{Disk}

-- What the host side does to the outside, the calls of hooks.go and of the cgroup manager included.
-- Waiting for an exit gives up after 5 seconds; the caller goes on either way, and is not told.
pub data Act : Type 0 where
  open_fifo : Bytes → Act
  signal : ℤ → ℕ → Act
  wait_for_exit : ℤ → Act
  remove_cgroup : Bytes → Act
  run_poststart : List Hook → State → Act
  run_poststop : List Hook → State → Act

-- The errors of opening the start FIFO and of kill(2), after the acts so far.
pub record Outside : Type 0 where
  pub fifo : List Act → Bytes → Option ℕ
  pub kill_error : List Act → ℤ → ℕ → Option ℕ

-- The handle of a container; one that was adopted has no spec.
pub record Handle : Type 0 where
  pub id : Bytes
  pub spec : Option Spec

-- A call returns, or dereferences a nil pointer.
pub data Finish : Type 0 where
  returned : Result (Unit {0}) → Finish
  panicked : Finish

abbrev pub Outcome : Type 0
Outcome = Finish × Disk × List Act

abbrev pub is_stopped : ContainerStatus → Bool
is_stopped stopped = true
is_stopped s = false

abbrev pub is_created : ContainerStatus → Bool
is_created created = true
is_created s = false

abbrev pub sigkill : ℕ
sigkill = 9

module _ (host : Host) (outside : Outside) (c : Handle) where
  -- `if c.Spec.Hooks != nil`, which a handle without a spec does not survive
  abbrev pub poststart : Option Spec → Store.Container → List Act → Finish × List Act
  poststart none r acts = (panicked, acts)
  poststart (some spec) r acts = elim (spec.hooks) [
    | none ↦ (returned (ok tt), acts)
    | some hooks ↦ (returned (ok tt), run_poststart hooks.poststart (to_oci r) ∷ acts)
  ]

  abbrev pub saved_running : Store.Container → Result (Unit {0}) × Disk → List Act → Outcome
  saved_running r (err e, d) acts = (returned (err e), d, acts)
  saved_running r (ok _, d) acts = let (f, acts') = poststart c.spec r acts in (f, d, acts')

  abbrev pub opened : Store.Container → Option ℕ → Disk → List Act → Outcome
  opened r (some e) d acts = (returned (err (wrap "opening start FIFO" (errno e))), d, acts)
  opened r none d acts =
      let now = record r { status = running } in
      saved_running now (Store.save host now d) (open_fifo c.id ∷ acts)

  abbrev pub start_loaded : Result Store.Container → Disk → List Act → Outcome
  start_loaded (err e) d acts = (returned (err e), d, acts)
  start_loaded (ok r) d acts =
      if not (is_created r.status)
      then (returned (err (msg "cannot start container in this state")), d, acts)
      else opened r (outside.fifo acts c.id) d acts

  unfoldable pub start : Disk → List Act → Outcome
  start d acts = start_loaded (Store.load host c.id d) d acts

  abbrev pub signalled : Option ℕ → Finish
  signalled none = returned (ok tt)
  signalled (some e) = returned (err (wrap "signalling container" (errno e)))

  abbrev pub kill_loaded : ℕ → Result Store.Container → Disk → List Act → Outcome
  kill_loaded sig (err e) d acts = (returned (err e), d, acts)
  kill_loaded sig (ok r) d acts =
      if is_stopped r.status
      then (returned (err (msg "container is not running")), d, acts)
      else (signalled (outside.kill_error acts r.pid sig), d, signal r.pid sig ∷ acts)

  unfoldable pub kill : ℕ → Disk → List Act → Outcome
  kill sig d acts = kill_loaded sig (Store.load host c.id d) d acts

  abbrev pub stop_first : Store.Container → List Act → List Act
  stop_first r acts =
      if not (is_stopped r.status) && is_pos r.pid
      then wait_for_exit r.pid ∷ signal r.pid sigkill ∷ acts
      else acts

  abbrev pub drop_cgroup : Store.Container → List Act → List Act
  drop_cgroup r acts = if same r.cgroup_path [] then acts else remove_cgroup r.cgroup_path ∷ acts

  abbrev pub poststop : Option Spec → Store.Container → List Act → List Act
  poststop none r acts = acts
  poststop (some spec) r acts = elim (spec.hooks) [
    | none ↦ acts
    | some hooks ↦ run_poststop hooks.poststop (to_oci r) ∷ acts
  ]

  abbrev pub record_removed : Result (Unit {0}) × Disk → List Act → Outcome
  record_removed (r, d) acts = (returned r, d, acts)

  abbrev pub delete_loaded : Bool → Result Store.Container → Disk → List Act → Outcome
  delete_loaded force (err e) d acts = (returned (err e), d, acts)
  delete_loaded force (ok r) d acts =
      if not (is_stopped r.status) && not force
      then (returned (err (msg "container is not stopped; stop it first or pass --force")), d, acts)
      else record_removed (Store.delete host c.id d)
          (poststop c.spec r (drop_cgroup r (stop_first r acts)))

  unfoldable pub delete : Bool → Disk → List Act → Outcome
  delete force d acts = delete_loaded force (Store.load host c.id d) d acts

abbrev shown : Result Store.Container → Result State
shown (err e) = err e
shown (ok r) = ok (to_oci r)

unfoldable pub state : Host → Handle → Disk → Result State
state host c d = shown (Store.load host c.id d)
