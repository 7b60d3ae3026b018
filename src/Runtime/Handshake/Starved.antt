-- ===== src/Runtime/Handshake/Starved.antt =====
-- An init that ended early: the host can no longer succeed.
use lightpod.Base.{
  ℕ, suc, ◌≤◌, ◌<◌, ◌≡◌, refl, ap, arith, inl, inr, Bool, true, Bool-cases, List, [], ◌∷◌, ◌++◌,
  length,
}
use lightpod.Runtime.Handshake.{
  SyncType, Message, marker, failure, Op, send_sync, await_sync, work, put_config, get_config, Side,
  active, gone, with_report, reports, expected, Moves, sends, send_fails, receives, rejects,
  sees_end, works, work_fails, Talk, talk, Step, host_moves, init_moves, writes_byte, written,
  reads_byte, config_read, byte_refused, config_refused, killed, Reachable, started, stepped, died,
  init_script,
}
use lightpod.Runtime.Handshake.Agree.{Agree}
use lightpod.Runtime.Handshake.Invariant.{InStep, Reachable-Inv}
use lightpod.Runtime.Handshake.Positions.{rests, Rest-All, At, Placed, Reachable-Placed}
use lightpod.Runtime.Handshake.Counts.{sending, awaiting, Agree-counts}

-- An init that ended early leaves an await of the host unanswered.
abbrev pub markers : List Message → ℕ
markers [] = 0
markers (marker t ∷ th) = suc (markers th)
markers (failure ∷ th) = markers th

abbrev pub Starved : Side → Side → List Message → Type 0
Starved (active i) host th = Unit
Starved gone gone th = Unit
Starved gone (active h) th = markers th < awaiting h

markers-le : (th : List Message) → markers th ≤ length th
markers-le [] = omega arith
markers-le (marker t ∷ th) = omega (arith, markers-le th)
markers-le (failure ∷ th) = omega (arith, markers-le th)

-- Every rest of init's script but the empty one ends in a message to the host.
abbrev pub Sends : List Op → Type 0
Sends [] = Unit
Sends (op ∷ ops) = 0 < sending (op ∷ ops)

markers-failure : (th : List Message) → markers (th ++ failure ∷ []) ≡ markers th
markers-failure [] = refl
markers-failure (marker t ∷ th) = ap suc (markers-failure th)
markers-failure (failure ∷ th) = markers-failure th

pub rest-Sends : (ops : List Op) → At init_script (active ops) → Sends ops
unfolding rests init_script
rest-Sends ops r = Rest-All Sends ops (rests init_script) (ground arith) r

markers-report : (op : Op) (th : List Message) → markers (with_report op th) ≤ markers th
markers-report op th = elim (Bool-cases (reports op)) [
  | inl e ↦ rw e (omega (arith, markers-failure th))
  | inr e ↦ rw e (omega arith)
]

gone_host : (s : Side) (th : List Message) → Starved s gone th
gone_host gone th = tt
gone_host (active i) th = tt

-- Init ends at a step, for whatever reason.
stops-Starved :
    (op : Op) (ops h : List Op) (th ti : List Message)
    → At init_script (active (op ∷ ops))
    → Agree h (op ∷ ops) th ti
    → markers (with_report op th) < awaiting h
stops-Starved op ops h th ti r a =
    let (x, y) = Agree-counts a in
    omega (arith, rest-Sends (op ∷ ops) r, markers-le th, markers-report op th)

-- Init ends without a message.
lost-Starved :
    (op : Op) (ops : List Op) (host : Side) (th ti : List Message)
    → At init_script (active (op ∷ ops))
    → InStep host (active (op ∷ ops)) th ti
    → Starved gone host th
lost-Starved op ops gone th ti r a = tt
lost-Starved op ops (active h) th ti r a =
    let (x, y) = Agree-counts a in omega (arith, rest-Sends (op ∷ ops) r, markers-le th)

init-Moves-Starved :
    {b : Bool} {s s' : Side} {th ti th' ti' : List Message} (host : Side)
    → Moves b s ti th s' ti' th'
    → At init_script s
    → InStep host s th ti
    → Starved s' host th'
init-Moves-Starved {s'} gone m r a = gone_host s' _
init-Moves-Starved (active h) sends r a = tt
init-Moves-Starved (active h) (send_fails {t} {ops} {outbox}) r a =
    stops-Starved (send_sync t) ops h outbox _ r a
init-Moves-Starved (active h) (receives e) r a = tt
init-Moves-Starved (active h) (rejects {t} {ops} {outbox} e) r a =
    stops-Starved (await_sync t) ops h outbox _ r a
init-Moves-Starved (active h) (sees_end {t} {ops} {outbox} e) r a =
    stops-Starved (await_sync t) ops h outbox _ r a
init-Moves-Starved (active h) works r a = tt
init-Moves-Starved (active h) (work_fails {w} {ops} {outbox}) r a =
    stops-Starved (work w) ops h outbox _ r a

expected-markers :
    (t : SyncType) (m : Message) (th : List Message)
    → expected t m ≡ true
    → markers (m ∷ th) ≡ suc (markers th)
expected-markers t (marker u) th e = refl
expected-markers t failure th e = absurd cc

host-Moves-Starved :
    {b : Bool} {s s' : Side} {th ti th' ti' : List Message} (init : Side)
    → Moves b s th ti s' th' ti'
    → Starved init s th
    → Starved init s' th'
host-Moves-Starved (active i) m h = tt
host-Moves-Starved gone sends h = h
host-Moves-Starved gone send_fails h = tt
host-Moves-Starved gone (receives {t} {m} {ops} {inbox} e) h =
    omega (arith, expected-markers t m inbox e)
host-Moves-Starved gone (rejects e) h = tt
host-Moves-Starved gone (sees_end e) h = tt
host-Moves-Starved gone works h = h
host-Moves-Starved gone work_fails h = tt

written_host :
    (init : Side) (ops : List Op) (th : List Message)
    → Starved init (active (put_config ∷ ops)) th
    → Starved init (active ops) th
written_host gone ops th h = h
written_host (active i) ops th h = tt

step-Starved :
    {capacity : ℕ} {host init host' init' : Side} {th ti th' ti' : List Message} {w u w' u' : ℕ}
    → Step capacity (talk host init th ti w u) (talk host' init' th' ti' w' u')
    → Placed (talk host init th ti w u)
    → InStep host init th ti
    → Starved init host th
    → Starved init' host' th'
step-Starved (host_moves {init} m) r a h = host-Moves-Starved init m h
step-Starved (init_moves {host} m) (_, r) a h = init-Moves-Starved host m r a
step-Starved (writes_byte {init} e) r a h = h
step-Starved (written {ops} {init}) r a h = written_host init ops _ h
step-Starved reads_byte r a h = tt
step-Starved config_read r a h = tt
step-Starved (byte_refused {ops} {host} {to_host} {to_init}) (_, r) a h =
    lost-Starved get_config ops host to_host to_init r a
step-Starved (config_refused {ops} {host} {to_host} {to_init}) (_, r) a h =
    lost-Starved get_config ops host to_host to_init r a
step-Starved killed r a h = tt

abbrev pub Fed : Talk → Type 0
Fed (talk host init th ti w u) = Starved init host th

pub Reachable-Fed :
    {capacity size : ℕ} {s : Talk} → size ≤ capacity → Reachable capacity size s → Fed s
Reachable-Fed h started = tt
Reachable-Fed h (died {host} {op} {ops} {to_host} {to_init} r) =
    let (_, _, _, _, a) = Reachable-Inv h r in
    let (_, i) = Reachable-Placed r in lost-Starved op ops host to_host to_init i a
Reachable-Fed h
      (stepped {s = talk host init th ti w u} {s' = talk host' init' th' ti' w' u'} r step) =
    let (_, _, _, _, a) = Reachable-Inv h r in
    step-Starved step (Reachable-Placed r) a (Reachable-Fed h r)
