-- ===== src/Runtime/Lifecycle/Verbs.antt =====
-- Start and Delete: their guards, and what they leave behind.
use lightpod.Base.{
  ℕ, some, wrap, errno, Error, ◌≡◌, refl, ap, inl, inr, true, false, Bool-cases, none, Option-cases,
  List, ◌∷◌, Result, ok, err, Result-cases, msg, arith,
}
use lightpod.Base.Int.{is_pos}
use lightpod.Oci.Spec.{ContainerStatus, creating, created, running, stopped, other_status}
use lightpod.Store
use lightpod.Store.{Host, is_live}
use lightpod.Store.Directory.{Disk}
use lightpod.Runtime.Lifecycle.{
  Act, Outside, Handle, Finish, returned, panicked, is_created, start, open_fifo, saved_running,
  poststart,
}
use lightpod.Runtime.Lifecycle.Signals.{Loads, live-pid}

is_created-eq : (s : ContainerStatus) → is_created s ≡ true → s ≡ created
is_created-eq created h = refl
is_created-eq creating h = ground arith
is_created-eq running h = ground arith
is_created-eq stopped h = ground arith
is_created-eq (other_status s) h = ground arith

saved_running-ok :
    (host : Host) (outside : Outside) (c : Handle) (r : Store.Container)
    (x : Result (Unit {0}) × Disk) (acts : List Act) (d' : Disk) (acts' : List Act)
    → saved_running host outside c r x acts ≡ (returned (ok tt), d', acts')
    → (x ≡ (ok tt, d')) × ((poststart host outside c c.spec r acts).1 ≡ acts')
saved_running-ok host outside c r (err e, d) acts d' acts' h = absurd (ground arith)
saved_running-ok host outside c r (ok u, d) acts d' acts' h =
    (ap (λ o. (ok tt, o.1)) h, ap (λ o. o.2) h)

result_of : Finish → Result (Unit {0})
result_of (returned r) = r
result_of panicked = err (msg "panic")

module _ (host : Host) (outside : Outside) (c : Handle) (d : Disk) (acts : List Act) where
  abbrev now_running : Store.Container → Store.Container
  now_running r = record r { status = running }

  -- What a start that went through has done.
  pub record Started (d' : Disk) (acts' : List Act) : Type 0 where
    pub before : Store.Container
    pub loads : Loads host outside c d acts before
    pub was_created : before.status ≡ created
    pub alive : is_pos before.pid ≡ true
    pub opened : outside.fifo acts c.id ≡ none
    pub recorded : Store.save host (now_running before) d ≡ (ok tt, d')
    pub released :
        (poststart host outside c c.spec (now_running before) (open_fifo c.id ∷ acts)).1 ≡ acts'

  -- What `start` does where it succeeds, on a record in another state, where the FIFO does not open,
  -- and for a handle without a spec.
  pub record Starts : Type 0 where
    pub success :
        (d' : Disk) (acts' : List Act)
        → start host outside c d acts ≡ (returned (ok tt), d', acts')
        → Started d' acts'
    pub guarded :
        (r : Store.Container)
        → Loads host outside c d acts r
        → is_created r.status ≡ false
        → start host outside c d acts
          ≡ (returned (err (msg "cannot start container in this state")), d, acts)
    pub closed :
        (r : Store.Container) (n : ℕ)
        → Loads host outside c d acts r
        → is_created r.status ≡ true
        → outside.fifo acts c.id ≡ some n
        → (e : Error) × (start host outside c d acts ≡ (returned (err e), d, acts))
    pub adopted :
        (r : Store.Container) (d' : Disk)
        → Loads host outside c d acts r
        → is_created r.status ≡ true
        → outside.fifo acts c.id ≡ none
        → Store.save host (now_running r) d ≡ (ok tt, d')
        → c.spec ≡ none
        → start host outside c d acts ≡ (panicked, d', open_fifo c.id ∷ acts)

  start-success :
      (d' : Disk) (acts' : List Act)
      → start host outside c d acts ≡ (returned (ok tt), d', acts')
      → Started d' acts'
  unfolding start
  start-success d' acts' h = elim (Result-cases (Store.load host c.id d)) [
    | inr (e, failed) ↦ absurd (ground (arith, failed))
    | inl (r, there) ↦ elim (Bool-cases (is_created r.status)) [
      | inr other ↦ absurd (ground (arith, there, other))
      | inl was ↦ elim (Option-cases (outside.fifo acts c.id)) [
        | inr (n, closed) ↦ absurd (ground (arith, there, was, closed))
        | inl opens ↦
            let e : r.status ≡ created = is_created-eq r.status was in
            let rest : saved_running host outside c (now_running r)
                  (Store.save host (now_running r) d) (open_fifo c.id ∷ acts)
                ≡ (returned (ok tt), d', acts') =
              ground (arith, there, was, opens) in
            let (was_saved, hooks_run) =
              saved_running-ok host outside c (now_running r) (Store.save host (now_running r) d)
                (open_fifo c.id ∷ acts) d' acts' rest in
            record {
              before = r;
              loads = there;
              was_created = e;
              alive = live-pid host outside c d acts r there (ap is_live e);
              opened = opens;
              recorded = was_saved;
              released = hooks_run;
            }
      ]
    ]
  ]

  -- A start that succeeds found the record created, with a positive pid whose process exists, opened
  -- the FIFO that the container waits at, and then recorded it as running, with the same pid, before
  -- any poststart hook. A record in any other state is refused, and nothing is opened or written;
  -- where the FIFO does not open, the start fails, no hook runs and the disk is as before: the record
  -- still says created. A handle without a spec panics behind the point where the container runs and is recorded.
  pub start-Starts : Starts
  unfolding start
  start-Starts = record {
    success = start-success;
    guarded = λ r there other. ground (arith, there, other);
    closed =
        λ r n there was fails. (wrap "opening start FIFO" (errno n), rw (there, was, fails) refl);
    adopted = λ r d' there was opens was_saved none_spec.
        rw (there, was, opens, was_saved, none_spec) refl;
  }
