-- ===== src/Security/Seccomp/Support.antt =====
-- Which profiles the seccomp compiler accepts, and the size of what it emits.
use lightpod.Base.{
  ℕ, ◌||◌, ◌+◌, ◌≡◌, ◌≢◌, refl, Bool, true, false, if◌then◌else◌, Option, none, some, List, [], ◌∷◌,
  ◌++◌, arith, ok, inl, inr, Result-cases, length, length-append, is_empty, All, ◌≤◌, ◌↔◌,
}
use lightpod.Base.Text.{Bytes, texts, same, lookup}
use lightpod.Oci.Spec.{LinuxSeccomp, LinuxSyscall}
use lightpod.Security.Syscalls.Arch.{Arch}
use lightpod.Security.Seccomp.{
  SockFilter, action_value, arch_check, x32_check, compile_names, compile_rules, compile_seccomp,
  return_value, test_name, max_filter_instructions,
}

-- The actions of the spec that a filter can carry out.
abbrev pub known_actions : List Bytes
known_actions = texts (
    "SCMP_ACT_ALLOW" ∷ "SCMP_ACT_ERRNO" ∷ "SCMP_ACT_KILL" ∷ "SCMP_ACT_KILL_PROCESS" ∷ "SCMP_ACT_LOG"
    ∷ "SCMP_ACT_TRACE" ∷ "SCMP_ACT_TRAP" ∷ [])

unfoldable pub is_among : Bytes → List Bytes → Bool
is_among name [] = false
is_among name (known ∷ names) = same name known || is_among name names

-- The action is one of these seven.
abbrev pub IsKnown : Bytes → Type 0
IsKnown action = is_among action known_actions ≡ true

action_value-IsKnown :
    (action : Bytes) (errno_ret : Option ℕ)
    → IsKnown action
    → (v : ℕ) × (action_value action errno_ret ≡ ok v)
unfolding action_value same is_among
action_value-IsKnown action errno_ret h = elim (Result-cases (action_value action errno_ret)) [
  | inl r ↦ r
  | inr (e, unknown) ↦ absurd (ground arith)
]

IsKnown-action_value :
    (action : Bytes) (errno_ret : Option ℕ) (v : ℕ)
    → action_value action errno_ret ≡ ok v
    → IsKnown action
unfolding action_value same is_among
IsKnown-action_value action errno_ret v h = ground arith

-- A rule without argument conditions and with a known action.
abbrev pub IsPlain : LinuxSyscall → Type 0
IsPlain rule = (is_empty rule.args ≡ true) × IsKnown rule.action

module _ (a : Arch) where
  abbrev weight : Option ℕ → ℕ
  weight none = 0
  weight (some nr) = 2

  -- Two instructions for each name that exists on the architecture.
  unfoldable pub names_size : List Bytes → ℕ
  names_size [] = 0
  names_size (name ∷ names) = weight (lookup name a.syscall_numbers) + names_size names

  unfoldable pub rules_size : List LinuxSyscall → ℕ
  rules_size [] = 0
  rules_size (rule ∷ rules) = names_size rule.names + rules_size rules

  unfoldable pub filter_size : LinuxSeccomp → ℕ
  filter_size p = 4 + ((if a.guard_x32 then 2 else 0) + (rules_size p.syscalls + 1))

  length-compile_names :
      (names : List Bytes) (v : ℕ) → length (compile_names a names v) ≡ names_size names
  unfolding compile_names names_size
  length-compile_names [] v = refl
  length-compile_names (name ∷ names) v = ground (
    arith,
    length-append (test_name a (lookup name a.syscall_numbers) v) (compile_names a names v),
    length-compile_names names v,
  )

  compile_rules-plain :
      (rules : List LinuxSyscall)
      → All IsPlain rules
      → (fs : List SockFilter) × (compile_rules a rules ≡ ok fs) × (length fs ≡ rules_size rules)
  unfolding compile_rules rules_size
  compile_rules-plain [] h = ([], refl, refl)
  compile_rules-plain (rule ∷ rules) ((no_args, is_known), h) =
      let (v, known) = action_value-IsKnown rule.action rule.errno_ret is_known in
      let (fs, compiled, size) = compile_rules-plain rules h in
      (
        compile_names a rule.names v ++ fs,
        rw (no_args, known, compiled) refl,
        omega (
          arith,
          length-append (compile_names a rule.names v) fs,
          length-compile_names rule.names v,
        ),
      )

  compile_rules-ok :
      (rules : List LinuxSyscall) {fs : List SockFilter}
      → compile_rules a rules ≡ ok fs
      → All IsPlain rules
  unfolding compile_rules
  compile_rules-ok [] h = tt
  compile_rules-ok (rule ∷ rules) h =
      elim (Result-cases (action_value rule.action rule.errno_ret)) [
        | inl (v, known) ↦ elim (Result-cases (compile_rules a rules)) [
          | inl (fs, compiled) ↦ (
            (
              ground (arith, known, compiled),
              IsKnown-action_value rule.action rule.errno_ret v known,
            ),
            compile_rules-ok rules compiled,
          )
          | inr (e, failed) ↦ ground (arith, known, failed)
        ]
        | inr (e, unknown) ↦ ground (arith, unknown)
      ]

  length-arch_check : (n : ℕ) → length (arch_check n) ≡ 4
  unfolding arch_check
  length-arch_check n = refl

  length-x32_check : (b : Bool) → length (x32_check b) ≡ (if b then 2 else 0)
  unfolding x32_check
  length-x32_check true = refl
  length-x32_check false = refl

  length-program :
      (fs : List SockFilter) (v : ℕ)
      → length (arch_check a.audit_arch ++ (x32_check a.guard_x32 ++ (fs ++ return_value v ∷ [])))
        ≡ 4 + ((if a.guard_x32 then 2 else 0) + (length fs + 1))
  length-program fs v = omega (
    arith,
    length-append (arch_check a.audit_arch) (x32_check a.guard_x32 ++ (fs ++ return_value v ∷ [])),
    length-append (x32_check a.guard_x32) (fs ++ return_value v ∷ []),
    length-append fs (return_value v ∷ []),
    length-arch_check a.audit_arch,
    length-x32_check a.guard_x32,
  )

  -- What a profile must be for a filter to be built.
  pub record IsSupported (p : LinuxSeccomp) : Type 0 where
    pub ported : a.audit_arch ≢ 0
    pub known_default : IsKnown p.default_action
    pub plain_rules : All IsPlain p.syscalls
    pub fits : filter_size p ≤ max_filter_instructions

  accepted :
      (p : LinuxSeccomp) → IsSupported p → (f : List SockFilter) × (compile_seccomp a p ≡ ok f)
  unfolding compile_seccomp filter_size
  accepted p s =
      let (fs, compiled, size) = compile_rules-plain p.syscalls s.plain_rules in
      let (v, known) = action_value-IsKnown p.default_action p.default_errno_ret s.known_default in
      (
        arch_check a.audit_arch ++ (x32_check a.guard_x32 ++ (fs ++ return_value v ∷ [])),
        ground (arith, compiled, known, size, length-program fs v),
      )

  supported : (p : LinuxSeccomp) {f : List SockFilter} → compile_seccomp a p ≡ ok f → IsSupported p
  unfolding compile_seccomp filter_size
  supported p h = elim (Result-cases (action_value p.default_action p.default_errno_ret)) [
    | inl (v, known) ↦ elim (Result-cases (compile_rules a p.syscalls)) [
      | inl (fs, compiled) ↦ record {
        ported = ground (arith, known, compiled);
        known_default = IsKnown-action_value p.default_action p.default_errno_ret v known;
        plain_rules = compile_rules-ok p.syscalls compiled;
        fits =
            let (fs', compiled', size) =
              compile_rules-plain p.syscalls (compile_rules-ok p.syscalls compiled) in
            ground (arith, known, compiled, compiled', size, length-program fs v);
      }
      | inr (e, failed) ↦ ground (arith, known, failed)
    ]
    | inr (e, unknown) ↦ ground (arith, unknown)
  ]

  -- A filter is built exactly for the profiles whose actions are all among the seven
  -- of the spec, that have no rule with
  -- argument conditions, and whose program of two instructions for each name that exists here fits
  -- the kernel limit, on an architecture that is ported. Every other profile is an error.
  pub compile_seccomp_iff :
      (p : LinuxSeccomp) → ((f : List SockFilter) × (compile_seccomp a p ≡ ok f)) ↔ IsSupported p
  compile_seccomp_iff p = ((λ r. supported p r.1), accepted p)
