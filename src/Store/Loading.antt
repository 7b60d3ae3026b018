-- ===== src/Store/Loading.antt =====
-- Reading back a record: Load behind Save, and against what is stored.
use lightpod.Base.{
  ◌==◌, ◌≡◌, refl, sym, ap, ◌∙◌, ◌≢◌, ◌⊎◌, inl, inr, Bool, true, false, not, ◌&&◌, Bool-cases, none,
  some, Option-cases, ◌++◌, ok, err, Error, Result-cases, arith,
}
use lightpod.Base.Int.{ℤ, is_pos, pos}
use lightpod.Base.Text.{Bytes, same_refl}
use lightpod.Oci.Spec.{ContainerStatus, creating, created, running, stopped, other_status}
use lightpod.Store.{
  Container, Host, stamped, newline, is_live, is_newer, validate_id, save, load, decoded, reconcile,
  process_alive,
}
use lightpod.Store.Directory.{Disk, file}
use lightpod.Store.Saving.{save-Written}

-- The record says that its process is there.
abbrev pub IsLive : ContainerStatus → Type 0
IsLive status = (status ≡ running) ⊎ (status ≡ created)

-- The pid is positive, and signal 0 reaches its process or is forbidden to.
abbrev pub Exists : Host → ℤ → Type 0
Exists host pid = (is_pos pid ≡ true) × ((host.probe pid ≡ none) ⊎ (host.probe pid ≡ some 1))

is_live-IsLive : (status : ContainerStatus) → is_live status ≡ true → IsLive status
is_live-IsLive running h = inl refl
is_live-IsLive created h = inr refl
is_live-IsLive creating h = absurd cc
is_live-IsLive stopped h = absurd cc
is_live-IsLive (other_status s) h = absurd cc

IsLive-is_live : (status : ContainerStatus) → IsLive status → is_live status ≡ true
IsLive-is_live status (inl e) = ap is_live e
IsLive-is_live status (inr e) = ap is_live e

over-IsLive : (status : ContainerStatus) → is_live status ≡ false → ¬ IsLive status
over-IsLive status over live = cc (IsLive-is_live status live, over)

process_alive-Exists : (host : Host) (pid : ℤ) → process_alive host pid ≡ true → Exists host pid
unfolding process_alive
process_alive-Exists host pid h = elim (Option-cases (host.probe pid)) [
  | inl reached ↦ (ground arith, inl reached)
  | inr (e, failed) ↦
      let forbidden : (e == 1) ≡ true = ground (arith, failed) in
      let known : e ≡ 1 = ground (arith, forbidden) in (ground arith, inr (failed ∙ ap some known))
]

Exists-process_alive : (host : Host) (pid : ℤ) → Exists host pid → process_alive host pid ≡ true
unfolding process_alive
Exists-process_alive host pid (positive_pid, inl reached) = rw (positive_pid, reached) refl
Exists-process_alive host pid (positive_pid, inr forbidden) = rw (positive_pid, forbidden) refl

dead-Exists : (host : Host) (pid : ℤ) → process_alive host pid ≡ false → ¬ Exists host pid
dead-Exists host pid dead there = cc (Exists-process_alive host pid there, dead)

not_live : (status : ContainerStatus) → ¬ IsLive status → is_live status ≡ false
not_live status h = elim (Bool-cases (is_live status)) [
  | inl live ↦ absurd (h (is_live-IsLive status live))
  | inr over ↦ over
]

not_alive : (host : Host) (pid : ℤ) → ¬ Exists host pid → process_alive host pid ≡ false
not_alive host pid h = elim (Bool-cases (process_alive host pid)) [
  | inl alive ↦ absurd (h (process_alive-Exists host pid alive))
  | inr dead ↦ dead
]

save-invalid :
    (host : Host) (c : Container) (d : Disk) (e : Error)
    → validate_id c.id ≡ err e
    → (save host c d).0 ≢ ok tt
unfolding save
save-invalid host c d e invalid h = ground (arith, invalid)

-- A record that was saved, that survives its encoding and that can be read, loads as it was saved,
-- with the schema of this build, and its status is stopped and its pid 0 in place of the saved ones
-- exactly if it says running or created and its process does not exist.
pub load-save :
    (host : Host) (c : Container) (d d' : Disk)
    → save host c d ≡ (ok tt, d')
    → ((content : Bytes)
        → host.encode (stamped c) ≡ some content
        → host.decode (content ++ newline) ≡ some (stamped c))
    → host.read d' c.id ≡ none
    → (IsLive c.status
        × (¬ Exists host c.pid)
        × (load host c.id d' ≡ ok (record (stamped c) { status = stopped; pid = pos 0 })))
      ⊎ (((¬ IsLive c.status) ⊎ Exists host c.pid) × (load host c.id d' ≡ ok (stamped c)))
unfolding load reconcile
load-save host c d d' h survives readable =
    let done : (save host c d).0 ≡ ok tt = ap (λ x. x.0) h in
    let after : (save host c d).1 ≡ d' = ap (λ x. x.1) h in
    elim (save-Written host c d c.id) [
      | inl (_, failed) ↦ absurd (failed (same_refl c.id) done)
      | inr w ↦
          let there : file c.id d' ≡ some (w.content ++ newline) =
            ap (file c.id) (sym after) ∙ w.stored in
          elim (Result-cases (validate_id c.id)) [
            | inl (_, valid) ↦ elim (Bool-cases (is_live c.status)) [
              | inr over ↦ inr (
                inl (over-IsLive c.status over),
                rw (valid, readable, there, survives w.content w.complete, over) refl,
              )
              | inl live ↦ elim (Bool-cases (process_alive host c.pid)) [
                | inl alive ↦ inr (
                  inr (process_alive-Exists host c.pid alive),
                  rw (valid, readable, there, survives w.content w.complete, live, alive) refl,
                )
                | inr dead ↦ inl (
                  is_live-IsLive c.status live,
                  dead-Exists host c.pid dead,
                  rw (valid, readable, there, survives w.content w.complete, live, dead) refl,
                )
              ]
            ]
            | inr (e, invalid) ↦ absurd (save-invalid host c d e invalid done)
          ]
    ]

-- A loaded record `c` against the one that is stored under the id.
pub record Reconciled (host : Host) (id : Bytes) (d : Disk) (c : Container) : Type 0 where
  pub stored : Container
  pub content : Bytes
  pub valid : validate_id id ≡ ok tt
  pub on_disk : file id d ≡ some content
  pub parsed : host.decode content ≡ some stored
  pub known_schema : is_newer c.schema_version ≡ false
  pub same_id : c.id ≡ stored.id
  pub live :
      is_live c.status ≡ true
      → (c ≡ stored) × (process_alive host c.pid ≡ true) × (is_pos c.pid ≡ true)
  pub live_exists : IsLive c.status → (c ≡ stored) × Exists host c.pid
  pub alive_kept : Exists host stored.pid → c ≡ stored
  pub over_kept : (¬ IsLive stored.status) → c ≡ stored
  pub dead_stopped :
      IsLive stored.status
      → ¬ Exists host stored.pid
      → c ≡ record stored { status = stopped; pid = pos 0 }

live_alive : (live alive : Bool) → (live && not alive) ≡ false → live ≡ true → alive ≡ true
live_alive live true h l = refl
live_alive true false h l = sym h
live_alive false false h l = l

gone_dead : (live alive : Bool) → (live && not alive) ≡ true → alive ≡ false
gone_dead true false h = refl
gone_dead live true h = ground arith
gone_dead false false h = refl

positive : (host : Host) (pid : ℤ) → process_alive host pid ≡ true → is_pos pid ≡ true
unfolding process_alive
positive host pid h = ground arith

reconciled :
    (host : Host) (stored c : Container)
    → decoded host (some stored) ≡ ok c
    → (is_newer c.schema_version ≡ false)
      × (c.id ≡ stored.id)
      × (is_live c.status ≡ true
          → (c ≡ stored) × (process_alive host c.pid ≡ true) × (is_pos c.pid ≡ true))
      × (process_alive host stored.pid ≡ true → c ≡ stored)
      × (is_live stored.status ≡ false → c ≡ stored)
      × (is_live stored.status ≡ true
          → process_alive host stored.pid ≡ false
          → c ≡ record stored { status = stopped; pid = pos 0 })
unfolding reconcile
reconciled host stored c h = elim (Bool-cases (is_newer stored.schema_version)) [
  | inl newer ↦ absurd (ground (arith, newer))
  | inr known ↦ elim (Bool-cases (is_live stored.status && not (process_alive host stored.pid))) [
    | inl gone ↦
        let e : record stored { status = stopped; pid = pos 0 } ≡ c = ground (arith, known, gone) in
        (
          ground (arith, known),
          ground arith,
          λ live.
              let f : is_live c.status ≡ false = ap (λ x. is_live x.status) (sym e) in
              absurd (cc (f, live)),
          λ alive.
              absurd (
                cc (gone_dead (is_live stored.status) (process_alive host stored.pid) gone, alive)),
          λ over. absurd (ground (arith, gone, over)),
          λ live dead. sym e,
        )
    | inr kept ↦
        let e : stored ≡ c = ground (arith, known, kept) in
        (
          ground (arith, known),
          ground arith,
          λ live.
              let alive : process_alive host stored.pid ≡ true =
                live_alive (is_live stored.status) (process_alive host stored.pid) kept
                  (ap (λ x. is_live x.status) e ∙ live) in
              let alive' : process_alive host c.pid ≡ true =
                ap (λ x. process_alive host x.pid) (sym e) ∙ alive in
              (sym e, alive', positive host c.pid alive'),
          λ alive. sym e,
          λ over. sym e,
          λ live dead. absurd (ground (arith, kept, live, dead)),
        )
  ]
]

-- A record that loads was stored under a valid id and is not of a newer schema, and it is the stored
-- one if that is not live or its process is alive, and else the stored one as stopped with pid 0. So
-- a loaded record that says running or created has a positive pid whose process exists.
pub load-Reconciled :
    (host : Host) (id : Bytes) (d : Disk) (c : Container)
    → load host id d ≡ ok c
    → Reconciled host id d c
unfolding load
load-Reconciled host id d c h = elim (Result-cases (validate_id id)) [
  | inr (e, invalid) ↦ absurd (ground (arith, invalid))
  | inl (_, valid) ↦ elim (Option-cases (host.read d id)) [
    | inr (e, failed) ↦ absurd (ground (arith, valid, failed))
    | inl readable ↦ elim (Option-cases (file id d)) [
      | inl missing ↦ absurd (ground (arith, valid, readable, missing))
      | inr (content, there) ↦ elim (Option-cases (host.decode content)) [
        | inl bad ↦ absurd (ground (arith, valid, readable, there, bad))
        | inr (stored, parsed) ↦
            let facts = reconciled host stored c (ground (arith, valid, readable, there, parsed)) in
            record {
              stored = stored;
              content = content;
              valid = valid;
              on_disk = there;
              parsed = parsed;
              known_schema = facts.0;
              same_id = facts.1;
              live = facts.2;
              live_exists = λ live.
                  let (kept, alive, _) = facts.2 (IsLive-is_live c.status live) in
                  (kept, process_alive-Exists host c.pid alive);
              alive_kept = λ there. facts.3 (Exists-process_alive host stored.pid there);
              over_kept = λ over. facts.4 (not_live stored.status over);
              dead_stopped = λ live dead.
                  facts.5 (IsLive-is_live stored.status live) (not_alive host stored.pid dead);
            }
      ]
    ]
  ]
]
