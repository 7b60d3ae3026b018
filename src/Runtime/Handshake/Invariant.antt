-- ===== src/Runtime/Handshake/Invariant.antt =====
-- The invariant of a handshake whose config fits in the pipe.
use lightpod.Base.{ℕ, zero, ◌+◌, ◌≤◌, ◌≡◌, refl, arith, Bool, true, false, ◌&&◌, All, List, [], ◌∷◌}
use lightpod.Runtime.Handshake.{
  Message, Op, send_sync, await_sync, work, put_config, get_config, Side, active, gone, Moves,
  sends, send_fails, receives, rejects, sees_end, works, work_fails, Talk, talk, Step, host_moves,
  init_moves, writes_byte, written, reads_byte, config_read, byte_refused, config_refused, killed,
  Reachable, started, stepped, died, host_script, init_script,
}
use lightpod.Runtime.Handshake.Agree.{
  Agree, all_done, host_local, init_local, init_sends, host_sends, Agree-host_local,
  Agree-init_local, Agree-host_sends, Agree-init_sends, Agree-host_awaits, Agree-init_awaits,
}

-- Steps that the host or init can have
abbrev pub is_host_op : Op → Bool
is_host_op get_config = false
is_host_op op = true

abbrev pub is_init_op : Op → Bool
is_init_op put_config = false
is_init_op op = true

abbrev pub Owns : (Op → Bool) → Side → Type 0
Owns owned gone = Unit
Owns owned (active ops) = All (λ op. owned op ≡ true) ops

-- The scripts agree while both sides are active.
abbrev pub InStep : Side → Side → List Message → List Message → Type 0
InStep gone init th ti = Unit
InStep (active h) gone th ti = Unit
InStep (active h) (active i) th ti = Agree h i th ti

-- The host is behind its config only when all of it is written.
abbrev pub Writes : Side → ℕ → Type 0
Writes gone unwritten = Unit
Writes (active []) unwritten = unwritten ≡ 0
Writes (active (put_config ∷ ops)) unwritten = Unit
Writes (active (op ∷ ops)) unwritten = unwritten ≡ 0

abbrev pub Inv : ℕ → Talk → Type 0
Inv capacity (talk host init th ti unwritten unread) =
    (unwritten + unread ≤ capacity)
    × Writes host unwritten
    × Owns is_host_op host
    × Owns is_init_op init
    × InStep host init th ti

Writes-zero : (s : Side) → Writes s 0
Writes-zero gone = tt
Writes-zero (active []) = refl
Writes-zero (active (put_config ∷ ops)) = tt
Writes-zero (active (get_config ∷ ops)) = refl
Writes-zero (active (send_sync t ∷ ops)) = refl
Writes-zero (active (await_sync t ∷ ops)) = refl
Writes-zero (active (work x ∷ ops)) = refl

Writes-moved : (s : Side) (n : ℕ) → n ≡ 0 → Writes s n
Writes-moved s n e = rw e (Writes-zero s)

Moves-Writes :
    {b : Bool} {s s' : Side} {i o i' o' : List Message} (n : ℕ)
    → Moves b s i o s' i' o'
    → Writes s n
    → Writes s' n
Moves-Writes n (sends {ops}) h = Writes-moved (active ops) n h
Moves-Writes n send_fails h = tt
Moves-Writes n (receives {ops} e) h = Writes-moved (active ops) n h
Moves-Writes n (rejects e) h = tt
Moves-Writes n (sees_end e) h = tt
Moves-Writes n (works {ops}) h = Writes-moved (active ops) n h
Moves-Writes n work_fails h = tt

Moves-Owns :
    {b : Bool} {s s' : Side} {i o i' o' : List Message} (p : Op → Bool)
    → Moves b s i o s' i' o'
    → Owns p s
    → Owns p s'
Moves-Owns p sends (e, h) = h
Moves-Owns p send_fails h = tt
Moves-Owns p (receives x) (e, h) = h
Moves-Owns p (rejects x) h = tt
Moves-Owns p (sees_end x) h = tt
Moves-Owns p works (e, h) = h
Moves-Owns p work_fails h = tt

InStep-host_gone : (init : Side) (th ti : List Message) → InStep gone init th ti
InStep-host_gone init th ti = tt

InStep-init_gone : (host : Side) (th ti : List Message) → InStep host gone th ti
InStep-init_gone gone th ti = tt
InStep-init_gone (active h) th ti = tt

host-Moves-InStep :
    {b : Bool} {s s' : Side} {th ti th' ti' : List Message} (init : Side)
    → Moves b s th ti s' th' ti'
    → InStep s init th ti
    → InStep s' init th' ti'
host-Moves-InStep gone (sends) a = tt
host-Moves-InStep (active i) sends a = Agree-host_sends a
host-Moves-InStep init send_fails a = tt
host-Moves-InStep gone (receives e) a = tt
host-Moves-InStep (active i) (receives e) a = let (em, a') = Agree-host_awaits a in a'
host-Moves-InStep init (rejects e) a = tt
host-Moves-InStep init (sees_end e) a = tt
host-Moves-InStep gone works a = tt
host-Moves-InStep (active i) works a = Agree-host_local refl a
host-Moves-InStep init work_fails a = tt

init-Moves-InStep :
    {b : Bool} {s s' : Side} {th ti th' ti' : List Message} (host : Side)
    → Moves b s ti th s' ti' th'
    → InStep host s th ti
    → InStep host s' th' ti'
init-Moves-InStep gone m a = tt
init-Moves-InStep (active h) sends a = Agree-init_sends a
init-Moves-InStep (active h) send_fails a = tt
init-Moves-InStep (active h) (receives e) a = let (em, a') = Agree-init_awaits a in a'
init-Moves-InStep (active h) (rejects e) a = tt
init-Moves-InStep (active h) (sees_end e) a = tt
init-Moves-InStep (active h) works a = Agree-init_local refl a
init-Moves-InStep (active h) work_fails a = tt

host_local-InStep :
    (ops : List Op) (th ti : List Message) (init : Side)
    → InStep (active (put_config ∷ ops)) init th ti
    → InStep (active ops) init th ti
host_local-InStep ops th ti gone a = tt
host_local-InStep ops th ti (active i) a = Agree-host_local refl a

init_local-InStep :
    (ops : List Op) (th ti : List Message) (host : Side)
    → InStep host (active (get_config ∷ ops)) th ti
    → InStep host (active ops) th ti
init_local-InStep ops th ti gone a = tt
init_local-InStep ops th ti (active h) a = Agree-init_local refl a

pub step-Inv : {capacity : ℕ} {s s' : Talk} → Step capacity s s' → Inv capacity s → Inv capacity s'
step-Inv (host_moves {init} {unwritten} m) (fits, writing, owns_h, owns_i, a) = (
  fits,
  Moves-Writes unwritten m writing,
  Moves-Owns is_host_op m owns_h,
  owns_i,
  host-Moves-InStep init m a,
)
step-Inv (init_moves {host} m) (fits, writing, owns_h, owns_i, a) =
    (fits, writing, owns_h, Moves-Owns is_init_op m owns_i, init-Moves-InStep host m a)
step-Inv (writes_byte e) (fits, writing, owns_h, owns_i, a) = (omega arith, tt, owns_h, owns_i, a)
step-Inv (written {ops} {init} {to_host} {to_init}) (fits, writing, (e, owns_h), owns_i, a) =
    (fits, Writes-zero (active ops), owns_h, owns_i, host_local-InStep ops to_host to_init init a)
step-Inv reads_byte (fits, writing, owns_h, owns_i, a) = (omega arith, writing, owns_h, owns_i, a)
step-Inv (config_read {ops} {host} {to_host} {to_init}) (fits, writing, owns_h, (e, owns_i), a) =
    (fits, writing, owns_h, owns_i, init_local-InStep ops to_host to_init host a)
step-Inv (byte_refused {host} {to_host} {to_init}) (fits, writing, owns_h, owns_i, a) =
    (omega arith, writing, owns_h, tt, InStep-init_gone host to_host to_init)
step-Inv (config_refused {host} {to_host} {to_init}) (fits, writing, owns_h, owns_i, a) =
    (fits, writing, owns_h, tt, InStep-init_gone host to_host to_init)
step-Inv killed (fits, writing, owns_h, owns_i, a) = (fits, tt, tt, tt, tt)

scripts-Agree : Agree host_script init_script [] []
unfolding host_script init_script
scripts-Agree = host_local refl (
    init_sends (
      host_local refl (
        host_local refl (
          host_local refl (
            host_local refl (
              host_sends (
                init_local refl (
                  init_local refl (
                    init_local refl (
                      init_local refl (
                        init_local refl (
                          init_sends (
                            host_local refl (
                              host_local refl (
                                host_sends (
                                  init_local refl (
                                    init_local refl
                                      (init_sends (host_local refl all_done)))))))))))))))))))

abbrev every : (Op → Bool) → List Op → Bool
every p [] = true
every p (op ∷ ops) = p op && every p ops

every-Owns : (p : Op → Bool) (ops : List Op) → every p ops ≡ true → Owns p (active ops)
every-Owns p [] e = tt
every-Owns p (op ∷ ops) e = (ground arith, every-Owns p ops (ground arith))

pub started-Inv :
    (capacity size : ℕ)
    → size ≤ capacity
    → Inv capacity (talk (active host_script) (active init_script) [] [] size zero)
unfolding host_script init_script
started-Inv capacity size h = (
  omega arith,
  tt,
  every-Owns is_host_op host_script refl,
  every-Owns is_init_op init_script refl,
  scripts-Agree,
)

pub Reachable-Inv :
    {capacity size : ℕ} {s : Talk} → size ≤ capacity → Reachable capacity size s → Inv capacity s
Reachable-Inv {capacity} {size} h started = started-Inv capacity size h
Reachable-Inv h (stepped r step) = step-Inv step (Reachable-Inv h r)
Reachable-Inv h (died {host} {to_host} {to_init} r) =
    let (fits, writing, owns_h, _, _) = Reachable-Inv h r in
    (fits, writing, owns_h, tt, InStep-init_gone host to_host to_init)
