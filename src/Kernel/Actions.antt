-- ===== src/Kernel/Actions.antt =====
-- Actions that make system calls: they take the events so far, the newest first, and return the
-- result and the events after them.
use lightpod.Base.{
  ℕ, Option, none, some, List, ◌∷◌, Result, ok, err, msg, wrap, errno, String, ◌==◌, if◌then◌else◌,
}
use lightpod.Base.Text.{Bytes}
use lightpod.Kernel.{Call, Event, did, refused, Kernel, FileKind}

abbrev pub Os : Type 0 → Type 0
Os A = List Event → Result A × List Event

-- Go on with the value of a result, from the events that came with it.
abbrev pub proceed : {A B : Type 0} → (A → Os B) → Result A → List Event → Result B × List Event
proceed f (ok a) h = f a h
proceed f (err e) h = (err e, h)

infixl 5 ◌>>=◌ ◌>>◌
abbrev pub ◌>>=◌ : {A B : Type 0} → Os A → (A → Os B) → Os B
◌>>=◌ m f h = let (r, h') = m h in proceed f r h'

abbrev pub ◌>>◌ : {B : Type 0} → Os (Unit {0}) → Os B → Os B
m >> k = m >>= λ _. k

abbrev pub pure : {A : Type 0} → A → Os A
pure a h = (ok a, h)

abbrev pub lift : {A : Type 0} → Result A → Os A
lift r h = (r, h)

abbrev pub fail : {A : Type 0} → String → Os A
fail s h = (err (msg s), h)

abbrev pub with_wrap : {A : Type 0} → String → Result A → List Event → Result A × List Event
with_wrap s (ok a) h = (ok a, h)
with_wrap s (err e) h = (err (wrap s e), h)

-- `fmt.Errorf("...: %w", err)` around an action.
abbrev pub wrapped : {A : Type 0} → String → Os A → Os A
wrapped s m h = let (r, h') = m h in with_wrap s r h'

-- `_ = f()`: the error is dropped.
abbrev pub ignore : {A : Type 0} → Os A → Os (Unit {0})
ignore m h = let (r, h') = m h in (ok tt, h')

module _ (k : Kernel) where
  abbrev pub outcome : Call → Option ℕ → List Event → Result (Unit {0}) × List Event
  outcome c none h = (ok tt, did c ∷ h)
  outcome c (some e) h = (err (errno e), refused c e ∷ h)

  -- One system call.
  abbrev pub perform : Call → Os (Unit {0})
  perform c h = outcome c (k.answer h c) h

  -- A system call with an errno that the program takes for success.
  abbrev pub tolerated : Call → ℕ → Option ℕ → List Event → Result (Unit {0}) × List Event
  tolerated c e none h = (ok tt, did c ∷ h)
  tolerated c e (some e') h = ((if e' == e then ok tt else err (errno e')), refused c e' ∷ h)

  abbrev pub perform_unless : ℕ → Call → Os (Unit {0})
  perform_unless e c h = tolerated c e (k.answer h c) h

  abbrev pub read_bytes : Bytes → Os Bytes
  read_bytes path h = (k.read_file h path, h)

  abbrev pub stat_of : Bytes → Os FileKind
  stat_of path h = (k.stat h path, h)
