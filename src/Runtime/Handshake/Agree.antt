-- ===== src/Runtime/Handshake/Agree.antt =====
-- Two scripts that agree with the messages under way: each await has its message ahead, in flight or
-- still to be sent by the other side, and each message its await.
use lightpod.Base.{◌≡◌, refl, Bool, true, false, List, [], ◌∷◌, ◌++◌}
use lightpod.Runtime.Handshake.{
  SyncType, Message, marker, Op, send_sync, await_sync, work, put_config, get_config,
}

-- The steps of one side alone
abbrev pub is_host_local : Op → Bool
is_host_local (work w) = true
is_host_local put_config = true
is_host_local op = false

abbrev pub is_init_local : Op → Bool
is_init_local (work w) = true
is_init_local get_config = true
is_init_local op = false

pub data Agree : List Op → List Op → List Message → List Message → Type 0 where
  all_done : Agree [] [] [] []
  host_local :
      {op : Op} {h i : List Op} {th ti : List Message}
      → is_host_local op ≡ true
      → Agree h i th ti
      → Agree (op ∷ h) i th ti
  init_local :
      {op : Op} {h i : List Op} {th ti : List Message}
      → is_init_local op ≡ true
      → Agree h i th ti
      → Agree h (op ∷ i) th ti
  init_sends :
      {t : SyncType} {h i : List Op} {ti : List Message}
      → Agree h i [] ti
      → Agree (await_sync t ∷ h) (send_sync t ∷ i) [] ti
  host_sends :
      {t : SyncType} {h i : List Op} {th : List Message}
      → Agree h i th []
      → Agree (send_sync t ∷ h) (await_sync t ∷ i) th []
  flight_to_host :
      {t : SyncType} {h i : List Op} {th ti : List Message}
      → Agree h i th ti
      → Agree (await_sync t ∷ h) i (marker t ∷ th) ti
  flight_to_init :
      {t : SyncType} {h i : List Op} {th ti : List Message}
      → Agree h i th ti
      → Agree h (await_sync t ∷ i) th (marker t ∷ ti)

pub Agree-host_local :
    {op : Op} {h i : List Op} {th ti : List Message}
    → is_host_local op ≡ true
    → Agree (op ∷ h) i th ti
    → Agree h i th ti
Agree-host_local e (host_local e' a) = a
Agree-host_local e (init_local e' a) = init_local e' (Agree-host_local e a)
Agree-host_local e (flight_to_init a) = flight_to_init (Agree-host_local e a)
Agree-host_local e (init_sends a) = absurd cc
Agree-host_local e (host_sends a) = absurd cc
Agree-host_local e (flight_to_host a) = absurd cc

pub Agree-init_local :
    {op : Op} {h i : List Op} {th ti : List Message}
    → is_init_local op ≡ true
    → Agree h (op ∷ i) th ti
    → Agree h i th ti
Agree-init_local e (init_local e' a) = a
Agree-init_local e (host_local e' a) = host_local e' (Agree-init_local e a)
Agree-init_local e (flight_to_host a) = flight_to_host (Agree-init_local e a)
Agree-init_local e (init_sends a) = absurd cc
Agree-init_local e (host_sends a) = absurd cc
Agree-init_local e (flight_to_init a) = absurd cc

pub Agree-host_sends :
    {t : SyncType} {h i : List Op} {th ti : List Message}
    → Agree (send_sync t ∷ h) i th ti
    → Agree h i th (ti ++ marker t ∷ [])
Agree-host_sends (host_sends a) = flight_to_init a
Agree-host_sends (init_local e a) = init_local e (Agree-host_sends a)
Agree-host_sends (flight_to_init a) = flight_to_init (Agree-host_sends a)
Agree-host_sends (host_local e a) = absurd cc

pub Agree-init_sends :
    {t : SyncType} {h i : List Op} {th ti : List Message}
    → Agree h (send_sync t ∷ i) th ti
    → Agree h i (th ++ marker t ∷ []) ti
Agree-init_sends (init_sends a) = flight_to_host a
Agree-init_sends (host_local e a) = host_local e (Agree-init_sends a)
Agree-init_sends (flight_to_host a) = flight_to_host (Agree-init_sends a)
Agree-init_sends (init_local e a) = absurd cc

-- The first message is the one that is awaited.
pub Agree-host_awaits :
    {t : SyncType} {m : Message} {h i : List Op} {th ti : List Message}
    → Agree (await_sync t ∷ h) i (m ∷ th) ti
    → (m ≡ marker t) × Agree h i th ti
Agree-host_awaits (flight_to_host a) = (refl, a)
Agree-host_awaits (init_local e a) = let (em, a') = Agree-host_awaits a in (em, init_local e a')
Agree-host_awaits (flight_to_init a) = let (em, a') = Agree-host_awaits a in (em, flight_to_init a')
Agree-host_awaits (host_local e a) = absurd cc

pub Agree-init_awaits :
    {t : SyncType} {m : Message} {h i : List Op} {th ti : List Message}
    → Agree h (await_sync t ∷ i) th (m ∷ ti)
    → (m ≡ marker t) × Agree h i th ti
Agree-init_awaits (flight_to_init a) = (refl, a)
Agree-init_awaits (host_local e a) = let (em, a') = Agree-init_awaits a in (em, host_local e a')
Agree-init_awaits (flight_to_host a) = let (em, a') = Agree-init_awaits a in (em, flight_to_host a')
Agree-init_awaits (init_local e a) = absurd cc

-- Both sides never wait for each other.
pub Agree-waiting :
    {t u : SyncType} {h i : List Op} → Agree (await_sync t ∷ h) (await_sync u ∷ i) [] [] → ⊥
Agree-waiting (host_local e a) = cc
Agree-waiting (init_local e a) = cc
