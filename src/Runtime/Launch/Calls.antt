-- ===== src/Runtime/Launch/Calls.antt =====
-- The calls that the parts of execUserProcess make where they succeed.
use mathlib.Core.Path.{subst}
use lightpod.Base.{
  ℕ, ◌≡◌, sym, ap, ◌∙◌, Bool, true, false, Bool-cases, inl, inr, if◌then◌else◌, Option, none, some,
  List, [], ◌∷◌, ◌++◌, ok, arith,
}
use lightpod.Base.Int.{ℤ, signed_decimal}
use lightpod.Base.Text.{text, to_upper, lookup}
use lightpod.Oci.Spec.{Process, User, PosixRlimit, LinuxSeccomp}
use lightpod.Security.Seccomp.{SockFilter, compile_seccomp}
use lightpod.Security.Syscalls.Arch.{Arch}
use lightpod.Security.Install.{
  set_no_new_privs, set_keep_caps, apply_seccomp, set_keep_caps_option, set_no_new_privs_option,
}
use lightpod.Kernel.{
  Kernel, Call, Event, prctl, setrlimit, write_file, umask, setgroups, setgid, setuid,
  seccomp_filter,
}
use lightpod.Kernel.Actions.{lift}
use lightpod.Kernel.Laws.{>>=-ok}
use lightpod.Kernel.Does.{after, Does, Does-pure, Does-then, Does-wrapped-perform, Does-always}
use lightpod.Runtime.Launch.{
  rlimit_resources, set_limit, set_limits, set_oom_score, set_umask, apply_process_limits,
  set_groups, switch_user, is_root, setup_user, forbid_new_privs,
}

abbrev limit_call : PosixRlimit → Option ℕ → List Call
limit_call limit none = []
limit_call limit (some resource) = setrlimit resource limit.soft limit.hard ∷ []

unfoldable pub limit_calls : List PosixRlimit → List Call
limit_calls [] = []
limit_calls (limit ∷ limits) =
    limit_call limit (lookup (to_upper limit.type) rlimit_resources) ++ limit_calls limits

abbrev pub oom_calls : Option ℤ → List Call
oom_calls none = []
oom_calls (some value) = write_file (text "/proc/self/oom_score_adj") (signed_decimal value) ∷ []

abbrev pub umask_calls : Option ℕ → List Call
umask_calls none = []
umask_calls (some mask) = umask mask ∷ []

abbrev pub group_calls : List ℕ → List Call
group_calls [] = []
group_calls (g ∷ gids) = setgroups (g ∷ gids) ∷ []

-- Capabilities are kept over the change of the user, and the group goes before the user.
abbrev pub user_calls : User → List Call
user_calls user =
    if is_root user
    then []
    else prctl set_keep_caps_option 1
      ∷ (group_calls user.additional_gids
          ++ (setgid user.gid ∷ setuid user.uid ∷ prctl set_keep_caps_option 0 ∷ []))

abbrev pub nnp_calls : Bool → List Call
nnp_calls false = []
nnp_calls true = prctl set_no_new_privs_option 1 ∷ []

-- The events behind the installation of a profile: none without one, and else its filter.
pub data Filtered (a : Arch) (h : List Event) : Option LinuxSeccomp → List Event → Type 0 where
  unfiltered : Filtered a h none h
  filtered :
      {profile : LinuxSeccomp} {f : List SockFilter} {h' : List Event}
      → compile_seccomp a profile ≡ ok f
      → h' ≡ after (seccomp_filter f ∷ []) h
      → Filtered a h (some profile) h'

module _ (k : Kernel) where
  limit-Does :
      (limit : PosixRlimit) (o : Option ℕ) → Does (set_limit k limit o) (limit_call limit o)
  limit-Does limit none = record { made = λ h h' e. absurd (ground arith) }
  limit-Does limit (some resource) =
      Does-wrapped-perform k "setting rlimit" (setrlimit resource limit.soft limit.hard)

  set_limits-Does : (limits : List PosixRlimit) → Does (set_limits k limits) (limit_calls limits)
  unfolding set_limits limit_calls
  set_limits-Does [] = Does-pure
  set_limits-Does (limit ∷ limits) =
      let found = lookup (to_upper limit.type) rlimit_resources in
      Does-then (set_limit k limit found) (set_limits k limits) (limit_call limit found)
        (limit_calls limits) (limit-Does limit found) (set_limits-Does limits)

  oom-Does : (o : Option ℤ) → Does (set_oom_score k o) (oom_calls o)
  oom-Does none = Does-pure
  oom-Does (some value) = Does-wrapped-perform k "setting oom_score_adj" _

  umask-Does : (o : Option ℕ) → Does (set_umask k o) (umask_calls o)
  umask-Does none = Does-pure
  umask-Does (some mask) = Does-always (umask mask)

  pub limits-Does :
      (process : Process)
      → Does (apply_process_limits k process) (
          limit_calls process.rlimits
          ++ (oom_calls process.oom_score_adj ++ umask_calls process.user.umask))
  unfolding apply_process_limits
  limits-Does process =
      Does-then _ _ _ _ (set_limits-Does process.rlimits)
        (Does-then _ _ _ _ (oom-Does process.oom_score_adj) (umask-Does process.user.umask))

  groups-Does : (gids : List ℕ) → Does (set_groups k gids) (group_calls gids)
  groups-Does [] = Does-pure
  groups-Does (g ∷ gids) =
      Does-wrapped-perform k "setting supplementary groups" (setgroups (g ∷ gids))

  keep_caps-Does :
      (keep : Bool)
      → Does (set_keep_caps k keep) (prctl set_keep_caps_option (if keep then 1 else 0) ∷ [])
  unfolding set_keep_caps
  keep_caps-Does keep = Does-wrapped-perform k "prctl(PR_SET_KEEPCAPS)" _

  switch-Does :
      (user : User)
      → Does (switch_user k user) (
          prctl set_keep_caps_option 1
          ∷ (group_calls user.additional_gids
              ++ (setgid user.gid ∷ setuid user.uid ∷ prctl set_keep_caps_option 0 ∷ [])))
  switch-Does user = Does-then _ _ (prctl set_keep_caps_option 1 ∷ []) _ (keep_caps-Does true) (
      Does-then _ _ (group_calls user.additional_gids) _ (groups-Does user.additional_gids) (
        Does-then _ _ (setgid user.gid ∷ []) _
          (Does-wrapped-perform k "setting gid" (setgid user.gid))
          (Does-then _ _ (setuid user.uid ∷ []) (prctl set_keep_caps_option 0 ∷ [])
            (Does-wrapped-perform k "setting uid" (setuid user.uid)) (keep_caps-Does false))))

  pub user-Does : (user : User) → Does (setup_user k user) (user_calls user)
  unfolding setup_user
  user-Does user = elim (Bool-cases (is_root user)) [
    | inl root ↦ rw root Does-pure
    | inr other ↦ rw other (switch-Does user)
  ]

  pub nnp-Does : (b : Bool) → Does (forbid_new_privs k b) (nnp_calls b)
  unfolding set_no_new_privs
  nnp-Does false = Does-pure
  nnp-Does true =
      Does-wrapped-perform k "prctl(PR_SET_NO_NEW_PRIVS)" (prctl set_no_new_privs_option 1)

  pub apply_seccomp-Filtered :
      (a : Arch) (profile : Option LinuxSeccomp) (h h' : List Event)
      → apply_seccomp k a profile h ≡ (ok tt, h')
      → Filtered a h profile h'
  unfolding apply_seccomp
  apply_seccomp-Filtered a none h h' e =
      let same_history : h ≡ h' = ground arith in subst (Filtered a h none) same_history unfiltered
  apply_seccomp-Filtered a (some profile) h h' e =
      let (f, h₁, compiled, rest) = >>=-ok (lift (compile_seccomp a profile)) _ h e in
      let start : h ≡ h₁ = ground arith in
      filtered (ground arith) (
        (Does-wrapped-perform k "installing seccomp filter" (seccomp_filter f)).made h₁ h' rest
        ∙ ap (after (seccomp_filter f ∷ [])) (sym start))
