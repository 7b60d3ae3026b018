-- ===== src/Runtime/Lifecycle/Signals.antt =====
-- Kill of pkg/runtime/container.go: which signal goes where.
use lightpod.Base.{
  ℕ, ◌≡◌, inl, inr, true, false, Bool-cases, List, ◌∷◌, ok, err, Error, Result-cases, msg, arith,
}
use lightpod.Base.Int.{is_pos}
use lightpod.Store
use lightpod.Store.{Host, is_live}
use lightpod.Store.Directory.{Disk}
use lightpod.Store.Loading.{load-Reconciled}
use lightpod.Runtime.Lifecycle.{Act, Outside, Handle, returned, is_stopped, kill, signal}

module _ (host : Host) (outside : Outside) (c : Handle) (d : Disk) (acts : List Act) where
  -- The record of the handle, as it loads.
  abbrev pub Loads : Store.Container → Type 0
  Loads r = Store.load host c.id d ≡ ok r

  -- A live record has a positive pid.
  pub live-pid : (r : Store.Container) → Loads r → is_live r.status ≡ true → is_pos r.pid ≡ true
  live-pid r h live = ((load-Reconciled host c.id d r h).live live).2

  -- What `kill` sends for each kind of record.
  pub record Killed (sig : ℕ) : Type 0 where
    pub sent :
        (r : Store.Container)
        → Loads r
        → is_stopped r.status ≡ false
        → ((kill host outside c sig d acts).2 ≡ signal r.pid sig ∷ acts)
          × (is_live r.status ≡ true → is_pos r.pid ≡ true)
    pub spared :
        (r : Store.Container)
        → Loads r
        → is_stopped r.status ≡ true
        → kill host outside c sig d acts
          ≡ (returned (err (msg "container is not running")), d, acts)
    pub missing :
        (e : Error)
        → Store.load host c.id d ≡ err e
        → kill host outside c sig d acts ≡ (returned (err e), d, acts)
    pub kept : (kill host outside c sig d acts).1 ≡ d

  kill-kept : (sig : ℕ) → (kill host outside c sig d acts).1 ≡ d
  unfolding kill
  kill-kept sig = elim (Result-cases (Store.load host c.id d)) [
    | inr (e, failed) ↦ ground (arith, failed)
    | inl (r, there) ↦ elim (Bool-cases (is_stopped r.status)) [
      | inl over ↦ ground (arith, there, over)
      | inr live ↦ ground (arith, there, live)
    ]
  ]

  -- A kill sends at most the one signal, to the pid of the record that loads, which is not stopped;
  -- that pid is positive if the record is created or running. Nothing is written. It sends none if no
  -- record loads or if it is stopped, and fails.
  pub kill-Killed : (sig : ℕ) → Killed sig
  unfolding kill
  kill-Killed sig = record {
    sent = λ r there live. (ground (arith, there, live), live-pid r there);
    spared = λ r there over. ground (arith, there, over);
    missing = λ e failed. ground (arith, failed);
    kept = kill-kept sig;
  }
