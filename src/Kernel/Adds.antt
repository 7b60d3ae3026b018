-- ===== src/Kernel/Adds.antt =====
-- Which calls an action makes: rules to show that it makes only calls of one kind, on every path, the
-- failing ones included.
use lightpod.Base.{
  ℕ, ◌≡◌, refl, Bool, true, false, if◌then◌else◌, Option, none, some, List, ◌∷◌, String, Result, ok,
  err,
}
use lightpod.Kernel.{Call, Event, did, refused, Kernel}
use lightpod.Kernel.Actions.{
  Os, proceed, ◌>>=◌, pure, lift, fail, wrapped, with_wrap, outcome, perform, tolerated,
  perform_unless,
}

abbrev pub call_of : Event → Call
call_of (did c) = c
call_of (refused c e) = c

-- `h` with events before it whose calls are all of the kind `C`.
pub data Grown (C : Call → Type 0) (h : List Event) : List Event → Type 0 where
  same_events : Grown C h h
  one_more : {e : Event} {h' : List Event} → C (call_of e) → Grown C h h' → Grown C h (e ∷ h')

pub Grown-trans :
    {C : Call → Type 0} {h₀ h₁ h₂ : List Event} → Grown C h₀ h₁ → Grown C h₁ h₂ → Grown C h₀ h₂
Grown-trans g same_events = g
Grown-trans g (one_more c g') = one_more c (Grown-trans g g')

-- The action makes no call but of this kind.
pub record Adds {A : Type 0} (C : Call → Type 0) (m : Os A) : Type 0 where
  pub grows : (h : List Event) → Grown C h (m h).1

module _ {C : Call → Type 0} where
  pub Adds-pure : {A : Type 0} (a : A) → Adds C (pure a)
  Adds-pure a = record { grows = λ h. same_events }

  pub Adds-fail : {A : Type 0} (s : String) → Adds C (fail {A = A} s)
  Adds-fail s = record { grows = λ h. same_events }

  pub Adds-lift : {A : Type 0} (r : Result A) → Adds C (lift r)
  Adds-lift r = record { grows = λ h. same_events }

  proceed-Grown :
      {A B : Type 0} (f : A → Os B) (r : Result A) (h : List Event)
      → ((a : A) → r ≡ ok a → Grown C h (f a h).1)
      → Grown C h (proceed f r h).1
  proceed-Grown f (ok a) h g = g a refl
  proceed-Grown f (err e) h g = same_events

  pub Adds-bind :
      {A B : Type 0} (m : Os A) (f : A → Os B)
      → Adds C m
      → ((a : A) → Adds C (f a))
      → Adds C (m >>= f)
  Adds-bind m f am af = record {
    grows = λ h.
        let (r, h₁) = m h in
        Grown-trans (am.grows h) (proceed-Grown f r h₁ (λ a _. (af a).grows h₁));
  }

  -- An action that only looks, whose result the rest may use
  pub Adds-bind_reads :
      {A B : Type 0} (r : List Event → Result A) (f : A → Os B)
      → ((h : List Event) (a : A) → r h ≡ ok a → Adds C (f a))
      → Adds C ((λ h. (r h, h)) >>= f)
  Adds-bind_reads r f af = record {
    grows = λ h. proceed-Grown f (r h) h (λ a e. (af h a e).grows h);
  }

  pub Adds-reads : {A : Type 0} (r : List Event → Result A) → Adds C (λ h. (r h, h))
  Adds-reads r = record { grows = λ h. same_events }

  -- An action that depends on the events so far
  pub Adds-now :
      {A : Type 0} (f : List Event → Os A) → ((h : List Event) → Adds C (f h)) → Adds C (λ h. f h h)
  Adds-now f af = record { grows = λ h. (af h).grows h }

  wrap-Grown :
      {A : Type 0} (s : String) (r : Result A) (h h₁ : List Event)
      → Grown C h h₁
      → Grown C h (with_wrap s r h₁).1
  wrap-Grown s (ok a) h h₁ g = g
  wrap-Grown s (err e) h h₁ g = g

  pub Adds-wrapped : {A : Type 0} (s : String) (m : Os A) → Adds C m → Adds C (wrapped s m)
  Adds-wrapped s m am = record {
    grows = λ h. let (r, h₁) = m h in wrap-Grown s r h h₁ (am.grows h);
  }

  pub Adds-if :
      {A : Type 0} (b : Bool) (m n : Os A)
      → (b ≡ true → Adds C m)
      → (b ≡ false → Adds C n)
      → Adds C (if b then m else n)
  Adds-if true m n am an = am refl
  Adds-if false m n am an = an refl

  outcome-Grown :
      (k : Kernel) (c : Call) (o : Option ℕ) (h : List Event) → C c → Grown C h (outcome k c o h).1
  outcome-Grown k c none h g = one_more g same_events
  outcome-Grown k c (some e) h g = one_more g same_events

  pub Adds-perform : (k : Kernel) (c : Call) → C c → Adds C (perform k c)
  Adds-perform k c g = record { grows = λ h. outcome-Grown k c (k.answer h c) h g }

  tolerated-Grown :
      (k : Kernel) (c : Call) (n : ℕ) (o : Option ℕ) (h : List Event)
      → C c
      → Grown C h (tolerated k c n o h).1
  tolerated-Grown k c n none h g = one_more g same_events
  tolerated-Grown k c n (some e) h g = one_more g same_events

  pub Adds-perform_unless : (k : Kernel) (n : ℕ) (c : Call) → C c → Adds C (perform_unless k n c)
  Adds-perform_unless k n c g = record { grows = λ h. tolerated-Grown k c n (k.answer h c) h g }
