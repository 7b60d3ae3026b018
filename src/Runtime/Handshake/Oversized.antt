-- ===== src/Runtime/Handshake/Oversized.antt =====
-- A config that does not fit in the pipe.
use lightpod.Base.{ℕ, ◌+◌, ◌≤◌, ◌<◌, ◌≡◌, refl, ap, arith, List, [], ◌∷◌}
use lightpod.Runtime.Handshake.{
  ns_ready, maps_ready, Message, Op, send_sync, await_sync, put_config, Side, active, gone, sends,
  send_fails, receives, rejects, sees_end, works, work_fails, Talk, talk, Step, host_moves,
  init_moves, writes_byte, written, reads_byte, config_read, byte_refused, config_refused, killed,
  Reachable, started, stepped, died, host_script, init_script,
}

-- Both sides at the start: the host writes its config, and init sends its first message, waits for the
-- answer, or has died.
data Early (capacity size : ℕ) (hs is : List Op) : Talk → Type 0 where
  fresh :
      {w u : ℕ}
      → w + u ≡ size
      → u ≤ capacity
      → Early capacity size hs is (
          talk
            (active (put_config ∷ hs))
            (active (send_sync ns_ready ∷ await_sync maps_ready ∷ is))
            []
            []
            w
            u)
  waiting :
      {th : List Message} {w u : ℕ}
      → w + u ≡ size
      → u ≤ capacity
      → Early capacity size hs is
          (talk (active (put_config ∷ hs)) (active (await_sync maps_ready ∷ is)) th [] w u)
  lost :
      {th ti : List Message} {w u : ℕ}
      → w + u ≡ size
      → u ≤ capacity
      → Early capacity size hs is (talk (active (put_config ∷ hs)) gone th ti w u)

step-Early :
    {capacity size : ℕ} {hs is : List Op} {s s' : Talk}
    → capacity < size
    → Step capacity s s'
    → Early capacity size hs is s
    → Early capacity size hs is s'
step-Early h (init_moves sends) (fresh e f) = waiting e f
step-Early h (init_moves send_fails) (fresh e f) = lost e f
step-Early h (init_moves (sees_end end)) (waiting e f) = absurd cc
step-Early h (writes_byte room) (fresh e f) = fresh (omega arith) (omega arith)
step-Early h (writes_byte room) (waiting e f) = waiting (omega arith) (omega arith)
step-Early h (writes_byte room) (lost e f) = lost (omega arith) (omega arith)
step-Early h written (fresh e f) = absurd (omega arith)
step-Early h written (waiting e f) = absurd (omega arith)
step-Early h written (lost e f) = absurd (omega arith)
step-Early h (host_moves m) (fresh e f) = elim m [ ]
step-Early h (host_moves m) (waiting e f) = elim m [ ]
step-Early h (host_moves m) (lost e f) = elim m [ ]
step-Early h (init_moves (receives e)) x = elim x [ ]
step-Early h (init_moves (rejects e)) x = elim x [ ]
step-Early h (init_moves works) x = elim x [ ]
step-Early h (init_moves work_fails) x = elim x [ ]
step-Early h reads_byte x = elim x [ ]
step-Early h config_read x = elim x [ ]
step-Early h byte_refused x = elim x [ ]
step-Early h config_refused x = elim x [ ]
step-Early h killed x = elim x [ ]

init_died-Early :
    {capacity size : ℕ} {hs is ops : List Op} {op : Op} {host : Side} {th ti : List Message}
    {w u : ℕ}
    → Early capacity size hs is (talk host (active (op ∷ ops)) th ti w u)
    → Early capacity size hs is (talk host gone th ti w u)
init_died-Early (fresh e f) = lost e f
init_died-Early (waiting e f) = lost e f

-- The host is at its first step, with bytes of the config left to write.
abbrev pub StillWriting : Talk → Type 0
StillWriting (talk host init th ti unwritten unread) = (host ≡ active host_script) × (0 < unwritten)

Reachable-Early :
    {capacity size : ℕ} {s : Talk}
    → capacity < size
    → Reachable capacity size s
    → (hs : List Op) × (is : List Op) × (put_config ∷ hs ≡ host_script)
      × Early capacity size hs is s
unfolding host_script init_script
Reachable-Early h started = (_, _, refl, fresh (omega arith) (omega arith))
Reachable-Early h (died r) =
    let (hs, is, e, early) = Reachable-Early h r in (hs, is, e, init_died-Early early)
Reachable-Early h (stepped r step) =
    let (hs, is, e, early) = Reachable-Early h r in (hs, is, e, step-Early h step early)

Early-StillWriting :
    {capacity size : ℕ} {hs is : List Op} {s : Talk}
    → capacity < size
    → put_config ∷ hs ≡ host_script
    → Early capacity size hs is s
    → StillWriting s
Early-StillWriting h e (fresh f g) = (ap active e, omega arith)
Early-StillWriting h e (waiting f g) = (ap active e, omega arith)
Early-StillWriting h e (lost f g) = (ap active e, omega arith)

-- Where the config does not fit in the pipe, Create never gets past writing it: in every state that
-- can be reached the host is at that step, with bytes left to write, since init reads the config only
-- behind a message that the host sends after it.
pub handshake-oversized :
    (capacity size : ℕ) → capacity < size → (s : Talk) → Reachable capacity size s → StillWriting s
handshake-oversized capacity size h s r =
    let (hs, is, e, early) = Reachable-Early h r in Early-StillWriting h e early
