-- ===== src/Kernel/Does.antt =====
-- Which calls an action has made where it succeeded, in which order: rules for the parts of a block.
use lightpod.Base.{◌≡◌, refl, ap, ◌∙◌, List, [], ◌∷◌, ◌++◌, arith, String, ok}
use lightpod.Kernel.{Call, Event, did, Kernel}
use lightpod.Kernel.Actions.{Os, ◌>>◌, perform, wrapped, pure}
use lightpod.Kernel.Laws.{>>=-ok, perform-ok, wrapped-ok}

-- The events behind these calls, made in this order and all granted.
unfoldable pub after : List Call → List Event → List Event
after [] h = h
after (c ∷ calls) h = after calls (did c ∷ h)

pub after-append : (xs ys : List Call) (h : List Event) → after ys (after xs h) ≡ after (xs ++ ys) h
unfolding after
after-append [] ys h = refl
after-append (c ∷ xs) ys h = after-append xs ys (did c ∷ h)

-- Where it succeeds, the action has made these calls and no other.
pub record Does (m : Os (Unit {0})) (calls : List Call) : Type 0 where
  pub made : (h h' : List Event) → m h ≡ (ok tt, h') → h' ≡ after calls h

pub Does-pure : Does (pure tt) []
unfolding after
Does-pure = record { made = λ h h' e. ground arith }

pub Does-then :
    (first second : Os (Unit {0})) (xs ys : List Call)
    → Does first xs
    → Does second ys
    → Does (first >> second) (xs ++ ys)
Does-then first second xs ys dx dy = record {
  made = λ h h' e.
      let (_, h₁, e₁, e₂) = >>=-ok first (λ _. second) h e in
      dy.made h₁ h' e₂ ∙ ap (after ys) (dx.made h h₁ e₁) ∙ after-append xs ys h;
}

pub Does-perform : (k : Kernel) (c : Call) → Does (perform k c) (c ∷ [])
unfolding after
Does-perform k c = record { made = λ h h' e. perform-ok k c h e }

pub Does-wrapped :
    (s : String) (m : Os (Unit {0})) (calls : List Call) → Does m calls → Does (wrapped s m) calls
Does-wrapped s m calls d = record { made = λ h h' e. d.made h h' (wrapped-ok s m h e) }

pub Does-wrapped-perform :
    (k : Kernel) (s : String) (c : Call) → Does (wrapped s (perform k c)) (c ∷ [])
Does-wrapped-perform k s c = Does-wrapped s (perform k c) (c ∷ []) (Does-perform k c)

-- A call that cannot fail.
abbrev pub always : Call → Os (Unit {0})
always c h = (ok tt, did c ∷ h)

pub Does-always : (c : Call) → Does (always c) (c ∷ [])
unfolding after
Does-always c = record { made = λ h h' e. ground arith }
