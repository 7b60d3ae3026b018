-- ===== src/Runtime/Handshake/Positions.antt =====
-- Where the two sides are in their scripts.
use lightpod.Base.{ℕ, All, Bool, List, [], ◌∷◌}
use lightpod.Runtime.Handshake.{
  Message, Op, put_config, get_config, Side, active, gone, Moves, sends, send_fails, receives,
  rejects, sees_end, works, work_fails, Talk, talk, Step, host_moves, init_moves, writes_byte,
  written, reads_byte, config_read, byte_refused, config_refused, killed, Reachable, started,
  stepped, died, host_script, init_script,
}

-- The rests of a script, itself and the empty one included
unfoldable pub rests : List Op → List (List Op)
rests [] = [] ∷ []
rests (op ∷ ops) = (op ∷ ops) ∷ rests ops

pub data Rest (ops : List Op) : List (List Op) → Type 0 where
  this : {xss : List (List Op)} → Rest ops (ops ∷ xss)
  later : {xs : List Op} {xss : List (List Op)} → Rest ops xss → Rest ops (xs ∷ xss)

Rest-whole : (ops : List Op) → Rest ops (rests ops)
unfolding rests
Rest-whole [] = this
Rest-whole (op ∷ ops) = this

Rest-tail :
    (op : Op) (ops script : List Op) → Rest (op ∷ ops) (rests script) → Rest ops (rests script)
unfolding rests
Rest-tail op ops [] (later r) = elim r [ ]
Rest-tail op ops (x ∷ script) this = later (Rest-whole ops)
Rest-tail op ops (x ∷ script) (later r) = later (Rest-tail op ops script r)

pub Rest-All :
    (P : List Op → Type 0) (ops : List Op) (xss : List (List Op)) → All P xss → Rest ops xss → P ops
Rest-All P ops [] h r = elim r [ ]
Rest-All P ops (xs ∷ xss) (h, hs) this = h
Rest-All P ops (xs ∷ xss) (h, hs) (later r) = Rest-All P ops xss hs r

abbrev pub At : List Op → Side → Type 0
At script gone = Unit
At script (active ops) = Rest ops (rests script)

abbrev pub Placed : Talk → Type 0
Placed (talk host init th ti w u) = At host_script host × At init_script init

Moves-At :
    {b : Bool} {s s' : Side} {i o i' o' : List Message} (script : List Op)
    → Moves b s i o s' i' o'
    → At script s
    → At script s'
Moves-At script (sends {ops}) r = Rest-tail _ ops script r
Moves-At script send_fails r = tt
Moves-At script (receives {ops} e) r = Rest-tail _ ops script r
Moves-At script (rejects e) r = tt
Moves-At script (sees_end e) r = tt
Moves-At script (works {ops}) r = Rest-tail _ ops script r
Moves-At script work_fails r = tt

step-Placed : {capacity : ℕ} {s s' : Talk} → Step capacity s s' → Placed s → Placed s'
step-Placed (host_moves m) (h, i) = (Moves-At host_script m h, i)
step-Placed (init_moves m) (h, i) = (h, Moves-At init_script m i)
step-Placed (writes_byte e) (h, i) = (h, i)
step-Placed (written {ops}) (h, i) = (Rest-tail put_config ops host_script h, i)
step-Placed reads_byte (h, i) = (h, i)
step-Placed (config_read {ops}) (h, i) = (h, Rest-tail get_config ops init_script i)
step-Placed byte_refused (h, i) = (h, tt)
step-Placed config_refused (h, i) = (h, tt)
step-Placed killed (h, i) = (h, tt)

pub Reachable-Placed : {capacity size : ℕ} {s : Talk} → Reachable capacity size s → Placed s
Reachable-Placed started = (Rest-whole host_script, Rest-whole init_script)
Reachable-Placed (stepped r step) = step-Placed step (Reachable-Placed r)
Reachable-Placed (died r) = let (h, i) = Reachable-Placed r in (h, tt)
