-- ===== src/Runtime/Lifecycle/Deletion.antt =====
-- Delete of the host side: whom it kills, and what is left.
use lightpod.Base.{
  ◌≡◌, ◌≢◌, refl, sym, ap, ◌∙◌, Bool, true, false, Bool-cases, not, ◌&&◌, inl, inr, Option, none,
  some, Option-cases, List, [], ◌∷◌, ◌++◌, append_assoc, All, All-append, Result, ok, err, msg,
  arith,
}
use lightpod.Base.Int.{is_pos}
use lightpod.Base.Text.{same}
use lightpod.Oci.Spec.{Spec, ContainerStatus, creating, created, running, stopped, other_status}
use lightpod.Store
use lightpod.Store.{Host, validate_id}
use lightpod.Store.Directory.{Disk, file}
use lightpod.Store.Listing.{delete-Removed}
use lightpod.Runtime.Lifecycle.{
  Act, Outside, Handle, Finish, returned, panicked, is_stopped, sigkill, delete, signal,
  wait_for_exit, remove_cgroup, poststop, drop_cgroup,
}
use lightpod.Runtime.Lifecycle.Signals.{Loads}

-- The act sends no signal.
abbrev pub IsQuiet : Act → Type 0
IsQuiet (signal pid sig) = ⊥
IsQuiet act = Unit {0}

result_of : Finish → Result (Unit {0})
result_of (returned r) = r
result_of panicked = err (msg "panic")

is_stopped-eq : (s : ContainerStatus) → is_stopped s ≡ true → s ≡ stopped
is_stopped-eq stopped h = refl
is_stopped-eq creating h = absurd cc
is_stopped-eq created h = absurd cc
is_stopped-eq running h = absurd cc
is_stopped-eq (other_status s) h = absurd cc

not_stopped : (s : ContainerStatus) → s ≢ stopped → is_stopped s ≡ false
not_stopped s h = elim (Bool-cases (is_stopped s)) [
  | inl over ↦ absurd (h (is_stopped-eq s over))
  | inr live ↦ live
]

module _ (host : Host) (outside : Outside) (c : Handle) where
  -- These acts came after the others, and none of them sends a signal.
  abbrev pub Cleaned : List Act → List Act → Type 0
  Cleaned acts acts' = (later : List Act) × (acts' ≡ later ++ acts) × All IsQuiet later

  drop-Cleaned :
      (r : Store.Container) (acts : List Act) → Cleaned acts (drop_cgroup host outside c r acts)
  drop-Cleaned r acts = elim (Bool-cases (same r.cgroup_path [])) [
    | inl no_cgroup ↦ rw no_cgroup ([], refl, tt)
    | inr has_cgroup ↦ rw has_cgroup (remove_cgroup r.cgroup_path ∷ [], refl, (tt, tt))
  ]

  poststop-Cleaned :
      (o : Option Spec) (r : Store.Container) (acts : List Act)
      → Cleaned acts (poststop host outside c o r acts)
  poststop-Cleaned none r acts = ([], refl, tt)
  poststop-Cleaned (some spec) r acts = elim (Option-cases spec.hooks) [
    | inl no_hooks ↦ rw no_hooks ([], refl, tt)
    | inr (hooks, has_hooks) ↦ rw has_hooks (_ ∷ [], refl, (tt, tt))
  ]

  cleanup-Cleaned :
      (r : Store.Container) (acts : List Act)
      → Cleaned acts (poststop host outside c c.spec r (drop_cgroup host outside c r acts))
  cleanup-Cleaned r acts =
      let (dropped, e, quiet) = drop-Cleaned r acts in
      let (ran, e', quiet') = poststop-Cleaned c.spec r (drop_cgroup host outside c r acts) in
      (
        ran ++ dropped,
        e' ∙ ap (λ x. ran ++ x) e ∙ sym (append_assoc ran dropped acts),
        All-append IsQuiet ran dropped quiet' quiet,
      )

  -- What `delete` does to a record that is loaded.
  pub record Deletes (force : Bool) (d : Disk) (acts : List Act) (r : Store.Container)
      : Type 0 where
    pub spared :
        r.status ≢ stopped
        → force ≡ false
        → ((delete host outside c force d acts).0 ≢ returned (ok tt))
          × ((delete host outside c force d acts).1 ≡ d)
          × ((delete host outside c force d acts).2 ≡ acts)
    pub killed :
        r.status ≢ stopped
        → force ≡ true
        → is_pos r.pid ≡ true
        → Cleaned
            (wait_for_exit r.pid ∷ signal r.pid 9 ∷ acts)
            (delete host outside c force d acts).2
    pub no_process : is_pos r.pid ≡ false → Cleaned acts (delete host outside c force d acts).2
    pub was_over : r.status ≡ stopped → Cleaned acts (delete host outside c force d acts).2
    pub gone :
        (delete host outside c force d acts).0 ≡ returned (ok tt)
        → (validate_id c.id ≡ ok tt) × (file c.id (delete host outside c force d acts).1 ≡ none)

  delete-gone :
      (force : Bool) (d : Disk) (acts : List Act) (r : Store.Container)
      → Loads host outside c d acts r
      → (delete host outside c force d acts).0 ≡ returned (ok tt)
      → (validate_id c.id ≡ ok tt) × (file c.id (delete host outside c force d acts).1 ≡ none)
  unfolding delete result_of
  delete-gone force d acts r there h = elim (Bool-cases (not (is_stopped r.status) && not force)) [
    | inl refused ↦ absurd (ground (arith, there, refused))
    | inr allowed ↦
        let finish : returned (Store.delete host c.id d).0 ≡ returned (ok tt) =
          ground (arith, there, allowed) in
        let done : (Store.delete host c.id d).0 ≡ ok tt = ap result_of finish in
        let (valid, missing, _) = (delete-Removed host c.id d).gone done in
        rw (there, allowed) (valid, missing)
  ]

  delete-no_process :
      (force : Bool) (d : Disk) (acts : List Act) (r : Store.Container)
      → Loads host outside c d acts r
      → is_pos r.pid ≡ false
      → Cleaned acts (delete host outside c force d acts).2
  unfolding delete
  delete-no_process force d acts r there no_pid =
      elim (Bool-cases (not (is_stopped r.status) && not force)) [
        | inl refused ↦ rw (there, refused) ([], refl, tt)
        | inr allowed ↦ elim (Bool-cases (is_stopped r.status)) [
          | inl over ↦ rw (there, over) (cleanup-Cleaned r acts)
          | inr live ↦
              let forced : not force ≡ false = ground (arith, allowed, live) in
              rw (there, live, forced, no_pid) (cleanup-Cleaned r acts)
        ]
      ]

  -- Of a record that loads and is not stopped, Delete without force fails and changes and does nothing.
  -- With force and a positive pid it first sends SIGKILL to that pid and waits for its exit, which it
  -- gives up after 5 seconds; all that it does then sends no signal. To a record that is stopped, or
  -- whose pid is not positive, it sends no signal at all. Where it succeeds, the id was valid and no
  -- record of it is left.
  pub delete-Deletes :
      (force : Bool) (d : Disk) (acts : List Act) (r : Store.Container)
      → Loads host outside c d acts r
      → Deletes force d acts r
  unfolding delete
  delete-Deletes force d acts r there = record {
    spared = λ live weak.
        let alive = not_stopped r.status live in
        rw (there, alive, weak) ((λ e. ground arith), refl, refl);
    killed = λ live strong has_pid.
        let alive = not_stopped r.status live in
        rw (there, alive, strong, has_pid)
          (cleanup-Cleaned r (wait_for_exit r.pid ∷ signal r.pid sigkill ∷ acts));
    no_process = delete-no_process force d acts r there;
    was_over = λ over.
        let stops : is_stopped r.status ≡ true = ap is_stopped over in
        rw (there, stops) (cleanup-Cleaned r acts);
    gone = delete-gone force d acts r there;
  }
