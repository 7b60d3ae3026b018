-- ===== src/Runtime/Cgroups/Controllers.antt =====
-- checkControllers of pkg/runtime/cgroups.go, and what a request needs.
use mathlib.Core.Path.{subst}
use lightpod.Base.{
  ◌≡◌, refl, ◌↔◌, ◌⊎◌, sym, ◌++◌, append-nil, String, Option, inl, inr, true, Bool-cases, is_empty,
  none, some, List, [], ◌∷◌, All, arith, ok, err, Error,
}
use lightpod.Base.Text.{Bytes, text, fields, mem}
use lightpod.Oci.Spec.{LinuxResources}
use lightpod.Runtime.Cgroups.{ControllerFiles, check_controllers, needs, needed, missing}

abbrev pub IsAvailable : Bytes → Bytes → Type 0
IsAvailable content c = mem c (fields content) ≡ true

missing-none :
    (content : Bytes) (cs : List Bytes)
    → is_empty (missing (fields content) cs) ≡ true
    → All (IsAvailable content) cs
unfolding missing
missing-none content [] h = tt
missing-none content (c ∷ cs) h = elim (Bool-cases (mem c (fields content))) [
  | inl there ↦ (there, missing-none content cs (ground (arith, there)))
  | inr absent ↦ absurd (ground (arith, absent))
]

none-missing :
    (content : Bytes) (cs : List Bytes)
    → All (IsAvailable content) cs
    → is_empty (missing (fields content) cs) ≡ true
unfolding missing
none-missing content [] h = refl
none-missing content (c ∷ cs) (there, h) = ground (arith, there, none-missing content cs h)

nothing_missing :
    (content : Bytes) (cs : List Bytes)
    → is_empty cs ≡ true
    → is_empty (missing (fields content) cs) ≡ true
unfolding missing
nothing_missing content [] h = refl
nothing_missing content (c ∷ cs) h = absurd (ground arith)

-- What a request sets must be controlled: cpu, memory and pids, each by the controller of its name.
pub record IsServed (content : Bytes) (r : LinuxResources) : Type 0 where
  pub by_cpu : (r.cpu ≡ none) ⊎ IsAvailable content (text "cpu")
  pub by_memory : (r.memory ≡ none) ⊎ IsAvailable content (text "memory")
  pub by_pids : (r.pids ≡ none) ⊎ IsAvailable content (text "pids")

-- The request sets none of the three.
abbrev pub AsksNothing : LinuxResources → Type 0
AsksNothing r = (r.cpu ≡ none) × (r.memory ≡ none) × (r.pids ≡ none)

needs-All :
    {A : Type 0} (P : Bytes → Type 0) (name : String) (o : Option A) (cs : List Bytes)
    → All P (needs name o ++ cs)
    → ((o ≡ none) ⊎ P (text name)) × All P cs
needs-All P name none cs h = (inl refl, h)
needs-All P name (some a) cs (first, h) = (inr first, h)

All-needs :
    {A : Type 0} (P : Bytes → Type 0) (name : String) (o : Option A) (cs : List Bytes)
    → (o ≡ none) ⊎ P (text name)
    → All P cs
    → All P (needs name o ++ cs)
All-needs P name none cs h hs = hs
All-needs P name (some a) cs (inl e) hs = absurd cc
All-needs P name (some a) cs (inr h) hs = (h, hs)

IsServed-needed :
    (content : Bytes) (r : LinuxResources)
    → IsServed content r
    → All (IsAvailable content) (needed r)
unfolding needed
IsServed-needed content r served = All-needs (IsAvailable content) "cpu" r.cpu _ served.by_cpu (
    All-needs (IsAvailable content) "memory" r.memory _ served.by_memory (
      subst (All (IsAvailable content)) (append-nil (needs "pids" r.pids))
        (All-needs (IsAvailable content) "pids" r.pids [] served.by_pids tt)))

needed-IsServed :
    (content : Bytes) (r : LinuxResources)
    → All (IsAvailable content) (needed r)
    → IsServed content r
unfolding needed
needed-IsServed content r h =
    let (cpu, rest) = needs-All (IsAvailable content) "cpu" r.cpu _ h in
    let (memory, last) = needs-All (IsAvailable content) "memory" r.memory _ rest in
    let (pids, _) =
      needs-All (IsAvailable content) "pids" r.pids []
        (subst (All (IsAvailable content)) (sym (append-nil (needs "pids" r.pids))) last) in
    record { by_cpu = cpu; by_memory = memory; by_pids = pids }

needs-none : {A : Type 0} (name : String) (o : Option A) → is_empty (needs name o) ≡ true → o ≡ none
needs-none name none h = refl
needs-none name (some a) h = absurd cc

append-is_empty :
    (xs ys : List Bytes) → is_empty (xs ++ ys) ≡ true → (is_empty xs ≡ true) × (is_empty ys ≡ true)
append-is_empty [] ys h = (refl, h)
append-is_empty (x ∷ xs) ys h = absurd cc

needed-none : (r : LinuxResources) → is_empty (needed r) ≡ true → AsksNothing r
unfolding needed
needed-none r h =
    let (cpu, rest) = append-is_empty (needs "cpu" r.cpu) _ h in
    let (memory, pids) = append-is_empty (needs "memory" r.memory) _ rest in
    (needs-none "cpu" r.cpu cpu, needs-none "memory" r.memory memory, needs-none "pids" r.pids pids)

none-needed : (r : LinuxResources) → AsksNothing r → is_empty (needed r) ≡ true
unfolding needed
none-needed r (cpu, memory, pids) = rw (cpu, memory, pids) refl

-- Where the list of controllers can be read, a request passes exactly if it has `cpu` where the
-- request sets the CPU, `memory` where it sets the memory and `pids` where it sets the processes;
-- where the list cannot be read, a request passes exactly if it sets none of the three. No request at
-- all passes.
pub check_controllers_iff :
    (files : ControllerFiles) (r : LinuxResources)
    → ((content : Bytes)
        → files.here ≡ ok content
        → (check_controllers files (some r) ≡ ok tt) ↔ IsServed content r)
      × ((e : Error)
          → files.here ≡ err e
          → (check_controllers files (some r) ≡ ok tt) ↔ AsksNothing r)
      × (check_controllers files none ≡ ok tt)
unfolding check_controllers
check_controllers_iff files r = (
  λ content readable. (
    λ h. needed-IsServed content r (passes content readable h),
    λ served. accepted content readable (IsServed-needed content r served),
  ),
  λ e failed. (
    λ h. needed-none r (ground (arith, failed)),
    λ nothing. ground (arith, failed, none-needed r nothing),
  ),
  refl,
)
  where
    passes :
        (content : Bytes)
        → files.here ≡ ok content
        → check_controllers files (some r) ≡ ok tt
        → All (IsAvailable content) (needed r)
    passes content readable h = elim (Bool-cases (is_empty (needed r))) [
      | inl nothing ↦ missing-none content (needed r) (nothing_missing content (needed r) nothing)
      | inr some_needed ↦ missing-none content (needed r) (ground (arith, readable, some_needed))
    ]

    accepted :
        (content : Bytes)
        → files.here ≡ ok content
        → All (IsAvailable content) (needed r)
        → check_controllers files (some r) ≡ ok tt
    accepted content readable h = ground (arith, readable, none-missing content (needed r) h)
