-- ===== src/Runtime/Handshake/Examples.antt =====
-- A handshake that runs through, and one whose config does not fit.
use lightpod.Base.{◌≡◌, refl, arith, ◌⊎◌, List, [], ◌∷◌}
use lightpod.Runtime.Handshake.{
  maps_ready, hook_point, hooks_done, proc_ready, Op, send_sync, await_sync, work, get_config,
  prestart_hooks, create_runtime_hooks, save_record, exec_stage_two, join_namespaces, set_hostname,
  prepare_mounts, active, gone, sends, receives, works, talk, host_moves, init_moves, writes_byte,
  written, reads_byte, config_read, Reachable, started, stepped, died, Talk, ns_ready,
  write_id_maps, new_cgroup, apply_cgroup, set_resources, host_script, init_script,
}
use lightpod.Runtime.Handshake.Progress.{Finished, CanStep, Orphaned, handshake-progress}
use lightpod.Runtime.Handshake.Oversized.{StillWriting, handshake-oversized}
use lightpod.Runtime.Handshake.Window.{after_mounts, hooks-window, create_complete}

abbrev hooks_left : List Op
hooks_left =
    work prestart_hooks
    ∷ work create_runtime_hooks
    ∷ send_sync hooks_done
    ∷ await_sync proc_ready
    ∷ work save_record
    ∷ []

one_byte_written : Reachable 4 1 (talk (active host_script) (active init_script) [] [] 0 1)
unfolding host_script init_script
one_byte_written = stepped started (writes_byte (omega arith))

maps_awaited : Reachable 4 1 (
    talk
      (active (send_sync maps_ready ∷ await_sync hook_point ∷ hooks_left))
      (active (
        await_sync maps_ready
        ∷ work exec_stage_two
        ∷ get_config
        ∷ work join_namespaces
        ∷ work set_hostname
        ∷ work prepare_mounts
        ∷ send_sync hook_point
        ∷ after_mounts))
      []
      []
      0
      1)
unfolding host_script init_script
maps_awaited =
    stepped
      (stepped
        (stepped
          (stepped
            (stepped (stepped (stepped one_byte_written written) (init_moves sends))
              (host_moves (receives refl)))
            (host_moves works))
          (host_moves works))
        (host_moves works))
      (host_moves works)

hooks_reached : Reachable 4 1 (talk (active hooks_left) (active after_mounts) [] [] 0 0)
hooks_reached =
    stepped
      (stepped
        (stepped
          (stepped
            (stepped
              (stepped
                (stepped
                  (stepped
                    (stepped (stepped maps_awaited (host_moves sends)) (init_moves (receives refl)))
                    (init_moves works))
                  reads_byte)
                config_read)
              (init_moves works))
            (init_moves works))
          (init_moves works))
        (init_moves sends))
      (host_moves (receives refl))

all_done_reached : Reachable 4 1 (talk (active []) (active []) [] [] 0 0)
all_done_reached =
    stepped
      (stepped
        (stepped
          (stepped
            (stepped
              (stepped
                (stepped (stepped (stepped hooks_reached (host_moves works)) (host_moves works))
                  (host_moves sends))
                (init_moves (receives refl)))
              (init_moves works))
            (init_moves works))
          (init_moves sends))
        (host_moves (receives refl)))
      (host_moves works)

-- Init is killed before its first message, and the host writes its config and waits for it.
abbrev init_lost : Talk
unfolding host_script
init_lost =
    talk
      (active (
        await_sync ns_ready
        ∷ work write_id_maps
        ∷ work new_cgroup
        ∷ work apply_cgroup
        ∷ work set_resources
        ∷ send_sync maps_ready
        ∷ await_sync hook_point
        ∷ hooks_left))
      gone [] [] 0 1

init_lost_reached : Reachable 4 1 init_lost
unfolding host_script init_script
init_lost_reached = stepped (died one_byte_written) written

handshake-progress_example :
    Finished init_lost ⊎ (CanStep 4 init_lost ⊎ (Orphaned init_lost × (¬ CanStep 4 init_lost)))
handshake-progress_example = handshake-progress 4 1 (omega arith) init_lost init_lost_reached

full_pipe : Reachable 1 2 (talk (active host_script) (active init_script) [] [] 1 1)
unfolding host_script init_script
full_pipe = stepped started (writes_byte (omega arith))

handshake-oversized_example :
    StillWriting (talk (active host_script) (active init_script) [] [] 1 1)
handshake-oversized_example =
    handshake-oversized 1 2 (omega arith) (talk (active host_script) (active init_script) [] [] 1 1)
      full_pipe

hooks-window_example : (active after_mounts ≡ active after_mounts) ⊎ (active after_mounts ≡ gone)
hooks-window_example =
    hooks-window 4 1 (omega arith) (active hooks_left) (active after_mounts) [] [] 0 0 hooks_reached
      tt

create_complete_example : active [] ≡ active []
create_complete_example = create_complete 4 1 (omega arith) (active []) [] [] 0 0 all_done_reached
