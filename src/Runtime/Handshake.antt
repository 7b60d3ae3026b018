-- ===== src/Runtime/Handshake.antt =====
-- The handshake of Create and the init process: pkg/runtime/sync.go, with the steps of Create in
-- container.go and of InitStage1, InitStage2 and initSetup in init.go between which it stands. Both
-- sides run at once; the socket pair carries messages both ways, and the config goes through a pipe
-- of bounded capacity, whose writer blocks while it is full.
pub mod Agree
pub mod Invariant
pub mod Progress
pub mod Oversized
pub mod Positions
pub mod Counts
pub mod Starved
pub mod Window
mod Examples
use lightpod.Base.{ℕ, zero, suc, ◌<◌, ◌≡◌, Bool, true, false, if◌then◌else◌, List, [], ◌∷◌, ◌++◌}

pub data SyncType : Type 0 where
  ns_ready maps_ready hook_point hooks_done proc_ready : SyncType

-- A line of the handshake: a step marker, or syncError with a text.
pub data Message : Type 0 where
  marker : SyncType → Message
  failure : Message

-- What either side does between its messages; any of it may fail. Where the config does not ask for a
-- step, the step does nothing.
pub data Work : Type 0 where
  write_id_maps new_cgroup apply_cgroup set_resources prestart_hooks create_runtime_hooks
        save_record :
      Work
  exec_stage_two join_namespaces set_hostname prepare_mounts create_container_hooks finalize_root :
      Work

pub data Op : Type 0 where
  send_sync : SyncType → Op
  await_sync : SyncType → Op
  work : Work → Op
  put_config : Op
  get_config : Op

-- Create, from the config that it encodes to the record that it saves
unfoldable pub host_script : List Op
host_script =
    put_config
    ∷ await_sync ns_ready
    ∷ work write_id_maps
    ∷ work new_cgroup
    ∷ work apply_cgroup
    ∷ work set_resources
    ∷ send_sync maps_ready
    ∷ await_sync hook_point
    ∷ work prestart_hooks
    ∷ work create_runtime_hooks
    ∷ send_sync hooks_done
    ∷ await_sync proc_ready
    ∷ work save_record
    ∷ []

-- InitStage1, InitStage2 and initSetup, to the message that precedes the start FIFO
unfoldable pub init_script : List Op
init_script =
    send_sync ns_ready
    ∷ await_sync maps_ready
    ∷ work exec_stage_two
    ∷ get_config
    ∷ work join_namespaces
    ∷ work set_hostname
    ∷ work prepare_mounts
    ∷ send_sync hook_point
    ∷ await_sync hooks_done
    ∷ work create_container_hooks
    ∷ work finalize_root
    ∷ send_sync proc_ready
    ∷ []

-- Whether an error at this step is passed on by sendError: the hooks of Create, the exec of stage 1,
-- and all of initSetup.
abbrev pub work_reports : Work → Bool
work_reports write_id_maps = false
work_reports new_cgroup = false
work_reports apply_cgroup = false
work_reports set_resources = false
work_reports save_record = false
work_reports w = true

abbrev pub reports : Op → Bool
reports (work w) = work_reports w
reports (send_sync hook_point) = true
reports (send_sync proc_ready) = true
reports (await_sync hooks_done) = true
reports op = false

abbrev pub with_report : Op → List Message → List Message
with_report op outbox = if reports op then outbox ++ failure ∷ [] else outbox

abbrev pub same_sync : SyncType → SyncType → Bool
same_sync ns_ready ns_ready = true
same_sync maps_ready maps_ready = true
same_sync hook_point hook_point = true
same_sync hooks_done hooks_done = true
same_sync proc_ready proc_ready = true
same_sync t u = false

-- case expect
abbrev pub expected : SyncType → Message → Bool
expected t (marker u) = same_sync u t
expected t failure = false

-- A side with the steps that it has left, or one that returned an error or was killed.
pub data Side : Type 0 where
  active : List Op → Side
  gone : Side

abbrev pub ended : Side → Bool
ended gone = true
ended (active []) = true
ended (active (op ∷ ops)) = false

-- One side's move, with its inbox and its outbox, where it can see that the other side has ended, or
-- not. An await does not fail but by what it receives, or by the end of the other side.
pub data Moves (peer_ended : Bool)
    : Side → List Message → List Message → Side → List Message → List Message → Type 0 where
  sends :
      {t : SyncType} {ops : List Op} {inbox outbox : List Message}
      → Moves peer_ended
          (active (send_sync t ∷ ops))
          inbox
          outbox
          (active ops)
          inbox
          (outbox ++ marker t ∷ [])
  send_fails :
      {t : SyncType} {ops : List Op} {inbox outbox : List Message}
      → Moves peer_ended
          (active (send_sync t ∷ ops))
          inbox
          outbox
          gone
          inbox
          (with_report (send_sync t) outbox)
  receives :
      {t : SyncType} {m : Message} {ops : List Op} {inbox outbox : List Message}
      → expected t m ≡ true
      → Moves peer_ended (active (await_sync t ∷ ops)) (m ∷ inbox) outbox (active ops) inbox outbox
  rejects :
      {t : SyncType} {m : Message} {ops : List Op} {inbox outbox : List Message}
      → expected t m ≡ false
      → Moves peer_ended
          (active (await_sync t ∷ ops))
          (m ∷ inbox)
          outbox
          gone
          inbox
          (with_report (await_sync t) outbox)
  sees_end :
      {t : SyncType} {ops : List Op} {outbox : List Message}
      → peer_ended ≡ true
      → Moves peer_ended
          (active (await_sync t ∷ ops))
          []
          outbox
          gone
          []
          (with_report (await_sync t) outbox)
  works :
      {w : Work} {ops : List Op} {inbox outbox : List Message}
      → Moves peer_ended (active (work w ∷ ops)) inbox outbox (active ops) inbox outbox
  work_fails :
      {w : Work} {ops : List Op} {inbox outbox : List Message}
      → Moves peer_ended
          (active (work w ∷ ops))
          inbox
          outbox
          gone
          inbox
          (with_report (work w) outbox)

-- Both sides, the messages to the host and to init, and the bytes of the config that the host has not
-- written and that init has not read.
pub data Talk : Type 0 where
  talk : Side → Side → List Message → List Message → ℕ → ℕ → Talk

module _ (capacity : ℕ) where
  -- A step of the program. Create holds both ends of the socket pair until it returns, so its awaits do
  -- not see the end of init. Init returns from a config that it cannot decode without a message.
  pub data Step : Talk → Talk → Type 0 where
    host_moves :
        {host init host' : Side} {to_host to_init to_host' to_init' : List Message}
        {unwritten unread : ℕ}
        → Moves false host to_host to_init host' to_host' to_init'
        → Step
            (talk host init to_host to_init unwritten unread)
            (talk host' init to_host' to_init' unwritten unread)
    init_moves :
        {host init init' : Side} {to_host to_init to_host' to_init' : List Message}
        {unwritten unread : ℕ}
        → Moves (ended host) init to_init to_host init' to_init' to_host'
        → Step
            (talk host init to_host to_init unwritten unread)
            (talk host init' to_host' to_init' unwritten unread)
    writes_byte :
        {ops : List Op} {init : Side} {to_host to_init : List Message} {unwritten unread : ℕ}
        → unread < capacity
        → Step
            (talk (active (put_config ∷ ops)) init to_host to_init (suc unwritten) unread)
            (talk (active (put_config ∷ ops)) init to_host to_init unwritten (suc unread))
    written :
        {ops : List Op} {init : Side} {to_host to_init : List Message} {unread : ℕ}
        → Step
            (talk (active (put_config ∷ ops)) init to_host to_init zero unread)
            (talk (active ops) init to_host to_init zero unread)
    reads_byte :
        {ops : List Op} {host : Side} {to_host to_init : List Message} {unwritten unread : ℕ}
        → Step
            (talk host (active (get_config ∷ ops)) to_host to_init unwritten (suc unread))
            (talk host (active (get_config ∷ ops)) to_host to_init unwritten unread)
    config_read :
        {ops : List Op} {host : Side} {to_host to_init : List Message}
        → Step
            (talk host (active (get_config ∷ ops)) to_host to_init zero zero)
            (talk host (active ops) to_host to_init zero zero)
    byte_refused :
        {ops : List Op} {host : Side} {to_host to_init : List Message} {unwritten unread : ℕ}
        → Step
            (talk host (active (get_config ∷ ops)) to_host to_init unwritten (suc unread))
            (talk host gone to_host to_init unwritten unread)
    config_refused :
        {ops : List Op} {host : Side} {to_host to_init : List Message}
        → Step
            (talk host (active (get_config ∷ ops)) to_host to_init zero zero)
            (talk host gone to_host to_init zero zero)
    killed :
        {op : Op} {ops : List Op} {to_host to_init : List Message} {unwritten unread : ℕ}
        → Step
            (talk gone (active (op ∷ ops)) to_host to_init unwritten unread)
            (talk gone gone to_host to_init unwritten unread)

  -- The states of a Create whose config has `size` bytes. Init can also die from outside at any time,
  -- by a signal or for want of memory.
  pub data Reachable (size : ℕ) : Talk → Type 0 where
    started : Reachable size (talk (active host_script) (active init_script) [] [] size zero)
    stepped : {s s' : Talk} → Reachable size s → Step s s' → Reachable size s'
    died :
        {host : Side} {op : Op} {ops : List Op} {to_host to_init : List Message}
        {unwritten unread : ℕ}
        → Reachable size (talk host (active (op ∷ ops)) to_host to_init unwritten unread)
        → Reachable size (talk host gone to_host to_init unwritten unread)
