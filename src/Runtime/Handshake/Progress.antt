-- ===== src/Runtime/Handshake/Progress.antt =====
-- No state of a handshake whose config fits in the pipe is stuck.
use mathlib.Core.Path.{subst}
use lightpod.Base.{
  ℕ, zero, suc, ◌+◌, ◌≤◌, ◌≡◌, refl, arith, ◌⊎◌, inl, inr, Bool-cases, true, List, [], ◌∷◌,
}
use lightpod.Runtime.Handshake.{
  SyncType, Message, Op, send_sync, await_sync, work, put_config, get_config, Side, active, gone,
  ended, expected, sends, receives, rejects, sees_end, works, Talk, talk, Step, host_moves,
  init_moves, writes_byte, written, reads_byte, config_read, killed, Reachable,
}
use lightpod.Runtime.Handshake.Agree.{Agree, Agree-waiting}
use lightpod.Runtime.Handshake.Counts.{Agree-counts}
use lightpod.Runtime.Handshake.Invariant.{Inv, Writes, is_host_op, is_init_op, Reachable-Inv}

-- Some step leads on.
abbrev pub CanStep : ℕ → Talk → Type 0
CanStep capacity s = (s' : Talk) × Step capacity s s'

abbrev pub Finished : Talk → Type 0
Finished (talk host init th ti unwritten unread) = (ended host ≡ true) × (ended init ≡ true)

-- Create awaits a message, there is none, and init, the only one to send it, is gone.
abbrev pub Orphaned : Talk → Type 0
Orphaned (talk host init th ti unwritten unread) =
    (init ≡ gone)
    × ((t : SyncType) × (ops : List Op) × (host ≡ active (await_sync t ∷ ops)))
    × (th ≡ [])

module _ (capacity : ℕ) where
  no_step :
      (t : SyncType) (ops : List Op) (ti : List Message) (w u : ℕ)
      → ¬ CanStep capacity (talk (active (await_sync t ∷ ops)) gone [] ti w u)
  no_step t ops ti w u (_, host_moves (sees_end e)) = absurd cc
  no_step t ops ti w u (_, init_moves m) = elim m [ ]

  host_receives :
      (t : SyncType) (m : Message) (ops : List Op) (init : Side) (th ti : List Message) (w u : ℕ)
      → CanStep capacity (talk (active (await_sync t ∷ ops)) init (m ∷ th) ti w u)
  host_receives t m ops init th ti w u = elim (Bool-cases (expected t m)) [
    | inl e ↦ (_, host_moves (receives e))
    | inr e ↦ (_, host_moves (rejects e))
  ]

  init_receives :
      (t : SyncType) (m : Message) (ops : List Op) (host : Side) (th ti : List Message) (w u : ℕ)
      → CanStep capacity (talk host (active (await_sync t ∷ ops)) th (m ∷ ti) w u)
  init_receives t m ops host th ti w u = elim (Bool-cases (expected t m)) [
    | inl e ↦ (_, init_moves (receives e))
    | inr e ↦ (_, init_moves (rejects e))
  ]

  writer_steps :
      (ops : List Op) (init : Side) (th ti : List Message) (w u : ℕ)
      → w + u ≤ capacity
      → CanStep capacity (talk (active (put_config ∷ ops)) init th ti w u)
  writer_steps ops init th ti zero u fits = (_, written)
  writer_steps ops init th ti (suc w) u fits = (_, writes_byte (omega arith))

  -- A host that is at no await can go on.
  host_steps :
      (op : Op) (ops : List Op) (init : Side) (th ti : List Message) (w u : ℕ)
      → w + u ≤ capacity
      → is_host_op op ≡ true
      → CanStep capacity (talk (active (op ∷ ops)) init th ti w u)
        ⊎ ((t : SyncType) × (op ≡ await_sync t) × (th ≡ []))
  host_steps (send_sync t) ops init th ti w u fits owned = inl (_, host_moves sends)
  host_steps (work x) ops init th ti w u fits owned = inl (_, host_moves works)
  host_steps put_config ops init th ti w u fits owned = inl (writer_steps ops init th ti w u fits)
  host_steps get_config ops init th ti w u fits owned = absurd cc
  host_steps (await_sync t) ops init (m ∷ th) ti w u fits owned =
      inl (host_receives t m ops init th ti w u)
  host_steps (await_sync t) ops init [] ti w u fits owned = inr (t, refl, refl)

  -- Init that has the whole config, or is not at it, can go on where it is at no await.
  init_steps :
      (op : Op) (ops : List Op) (host : Side) (th ti : List Message) (w u : ℕ)
      → w ≡ 0
      → is_init_op op ≡ true
      → CanStep capacity (talk host (active (op ∷ ops)) th ti w u)
        ⊎ ((t : SyncType) × (op ≡ await_sync t) × (ti ≡ []))
  init_steps (send_sync t) ops host th ti w u done owned = inl (_, init_moves sends)
  init_steps (work x) ops host th ti w u done owned = inl (_, init_moves works)
  init_steps put_config ops host th ti w u done owned = absurd cc
  init_steps get_config ops host th ti zero zero done owned = inl (_, config_read)
  init_steps get_config ops host th ti zero (suc u) done owned = inl (_, reads_byte)
  init_steps get_config ops host th ti (suc w) u done owned = absurd (omega arith)
  init_steps (await_sync t) ops host th (m ∷ ti) w u done owned =
      inl (init_receives t m ops host th ti w u)
  init_steps (await_sync t) ops host th [] w u done owned = inr (t, refl, refl)

  init_sees_end :
      (op : Op) (t : SyncType) (ops : List Op) (host : Side) (th ti : List Message) (w u : ℕ)
      → op ≡ await_sync t
      → ti ≡ []
      → ended host ≡ true
      → CanStep capacity (talk host (active (op ∷ ops)) th ti w u)
  init_sees_end op t ops host th ti w u e empty end = rw (e, empty) (_, init_moves (sees_end end))

  waiting_absurd :
      (o p : Op) (t q : SyncType) (h i : List Op) (th ti : List Message)
      → o ≡ await_sync t
      → th ≡ []
      → p ≡ await_sync q
      → ti ≡ []
      → Agree (o ∷ h) (p ∷ i) th ti
      → ⊥
  waiting_absurd o p t q h i th ti eo eth ep eti a =
      let at_awaits : Agree (await_sync t ∷ h) (await_sync q ∷ i) [] [] =
        rw (eo, ep, eth, eti) at a in
      Agree-waiting at_awaits

  behind_config :
      (o : Op) (t : SyncType) (h : List Op) (w : ℕ)
      → o ≡ await_sync t
      → Writes (active (o ∷ h)) w
      → w ≡ 0
  behind_config o t h w e writing = subst (λ x. Writes (active (x ∷ h)) w) e writing

  -- The messages that the host still awaits are not all there, and no other will come.
  all_sent_absurd :
      (o : Op) (t : SyncType) (h : List Op) (th ti : List Message)
      → o ≡ await_sync t
      → th ≡ []
      → Agree (o ∷ h) [] th ti
      → ⊥
  all_sent_absurd o t h th ti e empty a =
      let at_await : Agree (await_sync t ∷ h) [] [] ti = rw (e, empty) at a in
      let (counts, _) = Agree-counts at_await in absurd (omega arith)

  stuck :
      (o : Op) (t : SyncType) (h : List Op) (th ti : List Message) (w u : ℕ)
      → o ≡ await_sync t
      → th ≡ []
      → Orphaned (talk (active (o ∷ h)) gone th ti w u)
        × (¬ CanStep capacity (talk (active (o ∷ h)) gone th ti w u))
  stuck o t h th ti w u e empty = rw (e, empty) ((refl, (t, h, refl), refl), no_step t h ti w u)

  pub Inv-progress :
      (s : Talk)
      → Inv capacity s
      → Finished s ⊎ (CanStep capacity s ⊎ (Orphaned s × (¬ CanStep capacity s)))
  Inv-progress (talk gone gone th ti w u) inv = inl (refl, refl)
  Inv-progress (talk gone (active []) th ti w u) inv = inl (refl, refl)
  Inv-progress (talk gone (active (p ∷ i)) th ti w u) inv = inr (inl (_, killed))
  Inv-progress (talk (active []) gone th ti w u) inv = inl (refl, refl)
  Inv-progress (talk (active []) (active []) th ti w u) inv = inl (refl, refl)
  Inv-progress (talk (active []) (active (p ∷ i)) th ti w u) (fits, all_written, _, (own, _), _) =
      elim (init_steps p i (active []) th ti w u all_written own) [
        | inl step ↦ inr (inl step)
        | inr (t, e, empty) ↦ inr (inl (init_sees_end p t i (active []) th ti w u e empty refl))
      ]
  Inv-progress (talk (active (o ∷ h)) gone th ti w u) (fits, _, (own, _), _, _) =
      elim (host_steps o h gone th ti w u fits own) [
        | inl step ↦ inr (inl step)
        | inr (t, e, empty) ↦ inr (inr (stuck o t h th ti w u e empty))
      ]
  Inv-progress (talk (active (o ∷ h)) (active []) th ti w u) (fits, _, (own, _), _, a) =
      elim (host_steps o h (active []) th ti w u fits own) [
        | inl step ↦ inr (inl step)
        | inr (t, e, empty) ↦ absurd (all_sent_absurd o t h th ti e empty a)
      ]
  Inv-progress (talk (active (o ∷ h)) (active (p ∷ i)) th ti w u)
        (fits, writing, (own_h, _), (own_i, _), a) =
      elim (host_steps o h (active (p ∷ i)) th ti w u fits own_h) [
        | inl step ↦ inr (inl step)
        | inr (t, e, empty) ↦
            let behind : w ≡ 0 = behind_config o t h w e writing in
            elim (init_steps p i (active (o ∷ h)) th ti w u behind own_i) [
              | inl step ↦ inr (inl step)
              | inr (q, ep, empty_i) ↦
                  absurd (waiting_absurd o p t q h i th ti e empty ep empty_i a)
            ]
      ]

-- From every state that Create and its init process can reach, whatever fails on either side, also
-- where init is killed from outside, and in whatever order they run: where the config fits in the
-- pipe, both have ended, or some step of theirs leads on, or Create is stuck, exactly in this one way:
-- init is gone, no message of it is left, and Create awaits one. In particular the two never wait for
-- each other while both run.
pub handshake-progress :
    (capacity size : ℕ)
    → size ≤ capacity
    → (s : Talk) → Reachable capacity size s
    → Finished s ⊎ (CanStep capacity s ⊎ (Orphaned s × (¬ CanStep capacity s)))
handshake-progress capacity size h s r = Inv-progress capacity s (Reachable-Inv h r)
