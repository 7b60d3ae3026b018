-- ===== src/Runtime/Handshake/Counts.antt =====
-- The messages that two agreeing scripts still exchange.
use lightpod.Base.{ℕ, suc, ◌+◌, ◌≡◌, refl, arith, ◌⊎◌, inl, inr, true, List, [], ◌∷◌, length}
use lightpod.Runtime.Handshake.{Message, Op, send_sync, await_sync, work, put_config, get_config}
use lightpod.Runtime.Handshake.Agree.{
  Agree, all_done, host_local, init_local, init_sends, host_sends, flight_to_host, flight_to_init,
  is_host_local, is_init_local,
}

-- How many messages a script sends and awaits
abbrev pub sending : List Op → ℕ
sending [] = 0
sending (send_sync t ∷ ops) = suc (sending ops)
sending (await_sync t ∷ ops) = sending ops
sending (work w ∷ ops) = sending ops
sending (put_config ∷ ops) = sending ops
sending (get_config ∷ ops) = sending ops

abbrev pub awaiting : List Op → ℕ
awaiting [] = 0
awaiting (send_sync t ∷ ops) = awaiting ops
awaiting (await_sync t ∷ ops) = suc (awaiting ops)
awaiting (work w ∷ ops) = awaiting ops
awaiting (put_config ∷ ops) = awaiting ops
awaiting (get_config ∷ ops) = awaiting ops

local_counts :
    (op : Op) (ops : List Op)
    → (is_host_local op ≡ true) ⊎ (is_init_local op ≡ true)
    → (sending (op ∷ ops) ≡ sending ops) × (awaiting (op ∷ ops) ≡ awaiting ops)
local_counts (work w) ops h = (refl, refl)
local_counts put_config ops h = (refl, refl)
local_counts get_config ops h = (refl, refl)
local_counts (send_sync t) ops (inl e) = absurd cc
local_counts (send_sync t) ops (inr e) = absurd cc
local_counts (await_sync t) ops (inl e) = absurd cc
local_counts (await_sync t) ops (inr e) = absurd cc

-- Every message that one side awaits is under way or will be sent.
pub Agree-counts :
    {h i : List Op} {th ti : List Message}
    → Agree h i th ti
    → (awaiting h ≡ sending i + length th) × (awaiting i ≡ sending h + length ti)
Agree-counts all_done = (omega arith, omega arith)
Agree-counts (host_local {op} {h} e a) =
    let (x, y) = Agree-counts a in
    let (s, w) = local_counts op h (inl e) in (omega arith, omega arith)
Agree-counts (init_local {op} {h} {i} e a) =
    let (x, y) = Agree-counts a in
    let (s, w) = local_counts op i (inr e) in (omega arith, omega arith)
Agree-counts (init_sends a) = let (x, y) = Agree-counts a in (omega arith, omega arith)
Agree-counts (host_sends a) = let (x, y) = Agree-counts a in (omega arith, omega arith)
Agree-counts (flight_to_host a) = let (x, y) = Agree-counts a in (omega arith, omega arith)
Agree-counts (flight_to_init a) = let (x, y) = Agree-counts a in (omega arith, omega arith)
