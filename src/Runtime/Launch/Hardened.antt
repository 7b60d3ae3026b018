-- ===== src/Runtime/Launch/Hardened.antt =====
-- What a successful execUserProcess has done.
use lightpod.Base.{
  Bool, true, false, ◌&&◌, ◌==◌, Bool-cases, inl, inr, if◌then◌else◌, ◌≡◌, refl, sym, ap, ◌∙◌, ◌++◌,
  Option, List, [], ◌∷◌, String, Result, ok, err, wrapping, arith,
}
use lightpod.Base.Text.{Bytes, text, same, cut, has_prefix, drop_prefix, contains_any}
use lightpod.Oci.Spec.{Process, Linux}
use lightpod.Security.Capabilities.{CapabilityPolicy, resolve_capabilities}
use lightpod.Security.Capabilities.Apply.{
  apply_capabilities, apply_capabilities-Reduced, last_capability, Reduced,
}
use lightpod.Security.Install.{apply_seccomp}
use lightpod.Security.Syscalls.Arch.{Arch}
use lightpod.Kernel.{Kernel, Event, did, exec}
use lightpod.Kernel.Laws.{>>=-ok, perform-wrapped-ok}
use lightpod.Kernel.Does.{after}
use lightpod.Runtime.Launch.{
  Surroundings, env_or, search_path, path_in, apply_process_limits, setup_user, forbid_new_privs,
  seccomp_of, program_name, find_program, exec_user_process,
}
use lightpod.Runtime.Launch.Calls.{
  limit_calls, oom_calls, umask_calls, user_calls, nnp_calls, limits-Does, user-Does, nnp-Does,
  Filtered, apply_seccomp-Filtered,
}

-- What stands behind `PATH=` in the first entry that begins so, and else the PATH of the caller
unfoldable pub first_path : List Bytes → Bytes → Bytes
first_path [] own = own
first_path (kv ∷ env) own =
    let rest = first_path env own in
    if has_prefix kv (text "PATH=") then drop_prefix kv (text "PATH=") else rest

abbrev picked : Bytes → Bytes × Bytes × Bool → Bytes → Bytes
picked key (name, value, found) rest = if found && same name key then value else rest

never : (found : Bool) (s t : Bytes) → (if found && false then s else t) ≡ t
never true s t = refl
never false s t = refl

cut-has_prefix :
    (key kv rest : Bytes)
    → contains_any (λ c. c == b'=') key ≡ false
    → picked key (cut kv b'=') rest
      ≡ (if has_prefix kv (key ++ b'=' ∷ []) then drop_prefix kv (key ++ b'=' ∷ []) else rest)
unfolding cut has_prefix drop_prefix contains_any same
cut-has_prefix [] [] rest h = refl
cut-has_prefix (k ∷ key) [] rest h = refl
cut-has_prefix [] (c ∷ kv) rest h = elim (Bool-cases (c == b'=')) [
  | inl ends ↦ rw ends refl
  | inr goes ↦ rw goes (never (cut kv b'=').2 _ rest)
]
cut-has_prefix (k ∷ key) (c ∷ kv) rest h = elim (Bool-cases (c == b'=')) [
  | inl ends ↦ ground (arith, ends)
  | inr goes ↦ elim (Bool-cases (c == k)) [
    | inl same_byte ↦ rw (goes, same_byte) (cut-has_prefix key kv rest (ground arith))
    | inr other ↦ rw (goes, other) (never (cut kv b'=').2 _ rest)
  ]
]

search_path-first_path : (env : List Bytes) (own : Bytes) → search_path env own ≡ first_path env own
unfolding search_path first_path
search_path-first_path [] own = refl
search_path-first_path (kv ∷ env) own =
    ap (λ rest. path_in (cut kv b'=') rest) (search_path-first_path env own)
    ∙ cut-has_prefix (text "PATH") kv (first_path env own) (unfold contains_any in refl)

wrapping-ok : (s : String) (r : Result Bytes) (b : Bytes) → wrapping s r ≡ ok b → r ≡ ok b
wrapping-ok s (ok x) b e = e
wrapping-ok s (err x) b e = absurd (ground arith)

module _ (k : Kernel) (a : Arch) (s : Surroundings) where
  -- The events of a start, oldest part first: limits, user, capabilities, no_new_privs, filter, exec.
  pub record Launched (process : Process) (linux : Option Linux) (h h' : List Event) : Type 0 where
    pub binary : Bytes
    pub name : Bytes
    pub others : List Bytes
    pub args : process.args ≡ name ∷ others
    pub found :
        s.look_path h (first_path (env_or process.env s.environ) s.own_path) name ≡ ok binary
    pub limited : List Event
    pub limits :
        limited
        ≡ after
            (limit_calls process.rlimits
              ++ (oom_calls process.oom_score_adj ++ umask_calls process.user.umask))
            h
    pub switched : List Event
    pub user : switched ≡ after (user_calls process.user) limited
    pub want : CapabilityPolicy
    pub resolved : resolve_capabilities process.capabilities ≡ ok want
    pub reduced : List Event
    pub reduces : Reduced k want (last_capability k switched) switched reduced
    pub settled : List Event
    pub privileges : settled ≡ after (nnp_calls process.no_new_privileges) reduced
    pub filtered : List Event
    pub filters : Filtered a settled (seccomp_of linux) filtered
    pub started : h' ≡ did (exec binary process.args (env_or process.env s.environ)) ∷ filtered

  program-ok :
      (process : Process) (args : List Bytes) (binary : Bytes) (h h' : List Event)
      → find_program s process (program_name args) h ≡ (ok binary, h')
      → (name : Bytes) × (others : List Bytes) × (args ≡ name ∷ others)
        × (s.look_path h (first_path (env_or process.env s.environ) s.own_path) name ≡ ok binary)
        × (h ≡ h')
  program-ok process [] binary h h' e = absurd (ground arith)
  program-ok process (name ∷ others) binary h h' e = (
    name,
    others,
    refl,
    ap (λ t. s.look_path h t name)
          (sym (search_path-first_path (env_or process.env s.environ) s.own_path))
        ∙ wrapping-ok "resolving inside the container" _ binary (ap (λ x. x.0) e),
    ap (λ x. x.1) e,
  )

  -- Where execUserProcess reaches the user's command, its first argument was looked up as a program
  -- before anything else was done, on the first `PATH=` of its environment, or else on the PATH of the
  -- caller, and then, in this order and with nothing between: every limit was set; unless the process
  -- is root without further groups, the supplementary groups, the group and the user were set, in this order, between
  -- the two changes of KEEPCAPS; the capability sets were reduced to the policy of the config;
  -- no_new_privs was set where the config asks for it; the filter that the profile compiles to was
  -- installed, where there is a profile; and nothing but the exec of that program came after.
  pub exec_user_process-Launched :
      (process : Process) (linux : Option Linux) (h h' : List Event)
      → exec_user_process k a s process linux h ≡ (ok tt, h')
      → Launched process linux h h'
  unfolding exec_user_process
  exec_user_process-Launched process linux h h' e =
      let (binary, h₀, found, e₀) =
        >>=-ok (find_program s process (program_name process.args)) _ h e in
      let (name, others, args, looked_up, start) =
        program-ok process process.args binary h h₀ found in
      let (_, h₁, limits, e₁) = >>=-ok (apply_process_limits k process) _ h₀ e₀ in
      let (_, h₂, user, e₂) = >>=-ok (setup_user k process.user) _ h₁ e₁ in
      let (_, h₃, capabilities, e₃) = >>=-ok (apply_capabilities k process.capabilities) _ h₂ e₂ in
      let (_, h₄, privileges, e₄) = >>=-ok (forbid_new_privs k process.no_new_privileges) _ h₃ e₃ in
      let (_, h₅, filter, e₅) = >>=-ok (apply_seccomp k a (seccomp_of linux)) _ h₄ e₄ in
      let (want, resolved, reduces) =
        apply_capabilities-Reduced k process.capabilities h₂ h₃ capabilities in
      record {
        binary = binary;
        name = name;
        others = others;
        args = args;
        found = looked_up;
        limited = h₁;
        limits = (limits-Does k process).made h₀ h₁ limits ∙ ap (after _) (sym start);
        switched = h₂;
        user = (user-Does k process.user).made h₁ h₂ user;
        want = want;
        resolved = resolved;
        reduced = h₃;
        reduces = reduces;
        settled = h₄;
        privileges = (nnp-Does k process.no_new_privileges).made h₃ h₄ privileges;
        filtered = h₅;
        filters = apply_seccomp-Filtered k a (seccomp_of linux) h₄ h₅ filter;
        started = perform-wrapped-ok k "executing" _ h₅ e₅;
      }
