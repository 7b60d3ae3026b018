-- ===== src/Runtime/Handshake/Window.antt =====
-- Where init is while the host runs its hooks, and when Create succeeds.
use lightpod.Base.{ℕ, ◌≤◌, ◌<◌, ◌≡◌, refl, ap, arith, ◌⊎◌, inl, inr, List, [], ◌∷◌}
use lightpod.Runtime.Handshake.{
  hooks_done, proc_ready, Message, Op, send_sync, await_sync, work, Side, active, gone, talk,
  Reachable, host_script, init_script, create_container_hooks, finalize_root, create_runtime_hooks,
  prestart_hooks,
}
use lightpod.Runtime.Handshake.Agree.{Agree}
use lightpod.Runtime.Handshake.Invariant.{Reachable-Inv}
use lightpod.Runtime.Handshake.Positions.{rests, Rest-All, At, Reachable-Placed}
use lightpod.Runtime.Handshake.Counts.{sending, awaiting, Agree-counts}
use lightpod.Runtime.Handshake.Starved.{markers, Reachable-Fed, Sends, rest-Sends}

-- The steps that init has left when its mounts are done and the pivot is not.
abbrev pub after_mounts : List Op
after_mounts =
    await_sync hooks_done
    ∷ work create_container_hooks
    ∷ work finalize_root
    ∷ send_sync proc_ready
    ∷ []

-- The host is about to run a list of its hooks.
abbrev pub AtHooks : Side → Type 0
AtHooks (active (work prestart_hooks ∷ ops)) = Unit
AtHooks (active (work create_runtime_hooks ∷ ops)) = Unit
AtHooks s = ⊥

abbrev HookCounts : List Op → Type 0
HookCounts ops = AtHooks (active ops) → (sending ops ≡ 1) × (awaiting ops ≡ 1)

hook_counts : (ops : List Op) → At host_script (active ops) → HookCounts ops
unfolding rests host_script
hook_counts ops r =
    Rest-All HookCounts ops (rests host_script)
      (
        λ h. elim h [ ],
        (
          λ h. elim h [ ],
          (
            λ h. elim h [ ],
            (
              λ h. elim h [ ],
              (
                λ h. elim h [ ],
                (
                  λ h. elim h [ ],
                  (
                    λ h. elim h [ ],
                    (
                      λ h. elim h [ ],
                      (
                        λ h. (refl, refl),
                        (
                          λ h. (refl, refl),
                          (
                            λ h. elim h [ ],
                            (λ h. elim h [ ], (λ h. elim h [ ], (λ h. elim h [ ], tt))),
                          ),
                        ),
                      ),
                    ),
                  ),
                ),
              ),
            ),
          ),
        ),
      )
      r

abbrev WindowCounts : List Op → Type 0
WindowCounts ops = sending ops ≤ 1 → 1 ≤ awaiting ops → ops ≡ after_mounts

window_counts : (ops : List Op) → At init_script (active ops) → WindowCounts ops
unfolding rests init_script
window_counts ops r =
    Rest-All WindowCounts ops (rests init_script)
      (
        λ a b. absurd (omega arith),
        (
          λ a b. absurd (omega arith),
          (
            λ a b. absurd (omega arith),
            (
              λ a b. absurd (omega arith),
              (
                λ a b. absurd (omega arith),
                (
                  λ a b. absurd (omega arith),
                  (
                    λ a b. absurd (omega arith),
                    (
                      λ a b. absurd (omega arith),
                      (
                        λ a b. refl,
                        (
                          λ a b. absurd (omega arith),
                          (
                            λ a b. absurd (omega arith),
                            (λ a b. absurd (omega arith), (λ a b. absurd (omega arith), tt)),
                          ),
                        ),
                      ),
                    ),
                  ),
                ),
              ),
            ),
          ),
        ),
      )
      r

in_window :
    (h i : List Op) (th ti : List Message)
    → HookCounts h
    → WindowCounts i
    → AtHooks (active h)
    → Agree h i th ti
    → i ≡ after_mounts
in_window h i th ti host_counts init_counts hooks a =
    let (x, y) = Agree-counts a in
    let (sent, awaited) = host_counts hooks in init_counts (omega arith) (omega arith)

-- Where the config fits in the pipe, and in every state that can be reached: while the host runs its
-- prestart or createRuntime hooks, init waits for their end, with the mounts made and the root not yet
-- changed; or it is gone.
pub hooks-window :
    (capacity size : ℕ)
    → size ≤ capacity
    → (host init : Side) (th ti : List Message) (w u : ℕ)
    → Reachable capacity size (talk host init th ti w u)
    → AtHooks host
    → (init ≡ active after_mounts) ⊎ (init ≡ gone)
hooks-window capacity size fits host gone th ti w u r hooks = inr refl
hooks-window capacity size fits gone (active i) th ti w u r hooks = elim hooks [ ]
hooks-window capacity size fits (active h) (active i) th ti w u r hooks =
    let (_, _, _, _, a) = Reachable-Inv fits r in
    let (at_h, at_i) = Reachable-Placed r in
    inl (ap active (in_window h i th ti (hook_counts h at_h) (window_counts i at_i) hooks a))

-- A rest of init's script that sends nothing more is empty.
all_sent : (ops : List Op) → Sends ops → sending ops ≡ 0 → ops ≡ []
all_sent [] h e = refl
all_sent (op ∷ ops) h e = absurd (omega arith)

-- Where the config fits in the pipe: when Create has got through its handshake and saved the record,
-- init has made every step of its own, the mounts, the hooks of the container and the change of the
-- root among them.
pub create_complete :
    (capacity size : ℕ)
    → size ≤ capacity
    → (init : Side) (th ti : List Message) (w u : ℕ)
    → Reachable capacity size (talk (active []) init th ti w u)
    → init ≡ active []
create_complete capacity size fits gone th ti w u r =
    let starving : markers th < 0 = Reachable-Fed fits r in absurd (omega arith)
create_complete capacity size fits (active i) th ti w u r =
    let (_, _, _, _, a) = Reachable-Inv fits r in
    let (_, at_i) = Reachable-Placed r in
    let (counts, _) = Agree-counts a in ap active (all_sent i (rest-Sends i at_i) (omega arith))
