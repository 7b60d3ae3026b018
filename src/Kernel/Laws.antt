-- ===== src/Kernel/Laws.antt =====
-- Inversion of actions that succeeded.
use lightpod.Base.{◌≡◌, refl, List, ◌∷◌, arith, String, Result, ok, err}
use lightpod.Kernel.{Call, Event, did, Kernel}
use lightpod.Kernel.Actions.{Os, proceed, ◌>>=◌, perform, wrapped, with_wrap}

proceed-ok :
    {A B : Type 0} (f : A → Os B) (r : Result A) (h₁ : List Event) {b : B} {h' : List Event}
    → proceed f r h₁ ≡ (ok b, h')
    → (a : A) × (r ≡ ok a) × (f a h₁ ≡ (ok b, h'))
proceed-ok f (ok a) h₁ e = (a, refl, e)
proceed-ok f (err x) h₁ e = absurd (ground arith)

-- A block that succeeded is a first action that succeeded, and a rest that did.
pub >>=-ok :
    {A B : Type 0} (m : Os A) (f : A → Os B) (h : List Event) {b : B} {h' : List Event}
    → (m >>= f) h ≡ (ok b, h')
    → (a : A) × (h₁ : List Event) × (m h ≡ (ok a, h₁)) × (f a h₁ ≡ (ok b, h'))
>>=-ok m f h e =
    let (r, h₁) = m h in
    let (a, ok_a, rest) = proceed-ok f r h₁ e in (a, h₁, λ i. (ok_a i, h₁), rest)

pub perform-ok :
    (k : Kernel) (c : Call) (h : List Event) {h' : List Event}
    → perform k c h ≡ (ok tt, h')
    → h' ≡ did c ∷ h
perform-ok k c h e = ground arith

with_wrap-ok :
    {A : Type 0} (s : String) (r : Result A) (h₁ : List Event) {a : A} {h' : List Event}
    → with_wrap s r h₁ ≡ (ok a, h')
    → (r ≡ ok a) × (h₁ ≡ h')
with_wrap-ok s (ok a) h₁ e = ground arith
with_wrap-ok s (err x) h₁ e = absurd (ground arith)

-- Wrapping the message changes nothing of a success.
pub wrapped-ok :
    {A : Type 0} (s : String) (m : Os A) (h : List Event) {a : A} {h' : List Event}
    → wrapped s m h ≡ (ok a, h')
    → m h ≡ (ok a, h')
wrapped-ok s m h e =
    let (r, h₁) = m h in
    let (ok_a, same_events) = with_wrap-ok s r h₁ e in λ i. (ok_a i, same_events i)

pub perform-wrapped-ok :
    (k : Kernel) (s : String) (c : Call) (h : List Event) {h' : List Event}
    → wrapped s (perform k c) h ≡ (ok tt, h')
    → h' ≡ did c ∷ h
perform-wrapped-ok k s c h e = perform-ok k c h (wrapped-ok s (perform k c) h e)
