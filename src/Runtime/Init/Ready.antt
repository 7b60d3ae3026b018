-- ===== src/Runtime/Init/Ready.antt =====
-- What the init process has done where it reaches the user's command.
use lightpod.Base.{
  ◌≡◌, refl, ap, ◌∙◌, arith, ◌&&◌, ◌||◌, Bool, false, not, Bool-cases, inl, inr, if◌then◌else◌,
  Option, none, some, List, [], ◌∷◌, ◌++◌, ok,
}
use lightpod.Base.Text.{Bytes, text, same}
use lightpod.Oci.Spec.{Spec, Process, Linux, LinuxNamespace, Hook, State, uts_namespace}
use lightpod.Security.Syscalls.Arch.{Arch}
use lightpod.Kernel.{
  Kernel, Call, Event, setns, sethostname, run_hook, chdir, send_message, await_message,
  pass_start_fifo,
}
use lightpod.Kernel.Actions.{wrapped, perform}
use lightpod.Kernel.Laws.{>>=-ok}
use lightpod.Kernel.Does.{after, Does, Does-pure, Does-then, Does-wrapped-perform}
use lightpod.Runtime.SecureJoin.{Tree}
use lightpod.Runtime.Namespaces.{namespaces_of}
use lightpod.Runtime.Handshake.{hook_point, hooks_done, proc_ready}
use lightpod.Runtime.Mounts.Prepare.{InitConfig, prepare_rootfs, finalize_rootfs, cwd_of}
use lightpod.Runtime.Mounts.Made.{pivot_calls, readonly_root_calls, finalize_rootfs-Does}
use lightpod.Runtime.Launch.{Surroundings}
use lightpod.Runtime.Launch.Hardened.{Launched, exec_user_process-Launched}
use lightpod.Runtime.Init.{
  lists_type, has_namespace, create_container_of, start_container_of, container_state, start_state,
  join_namespaces, set_hostname, run_hooks, launch, init_setup,
}

abbrev join_call : LinuxNamespace → List Call
join_call ns = if same ns.path [] then [] else setns ns.path ∷ []

unfoldable pub join_calls : List LinuxNamespace → List Call
join_calls [] = []
join_calls (ns ∷ namespaces) = join_call ns ++ join_calls namespaces

-- Some namespace of the config is of this type.
unfoldable pub of_type : Bytes → List LinuxNamespace → Bool
of_type type [] = false
of_type type (ns ∷ namespaces) = same ns.type type || of_type type namespaces

lists_type-of_type :
    (type : Bytes) (namespaces : List LinuxNamespace)
    → lists_type type namespaces ≡ of_type type namespaces
unfolding lists_type of_type
lists_type-of_type type [] = refl
lists_type-of_type type (ns ∷ namespaces) = ground (arith, lists_type-of_type type namespaces)

has_namespace-of_type :
    (spec : Spec) (type : Bytes) → has_namespace spec type ≡ of_type type (namespaces_of spec.linux)
unfolding has_namespace
has_namespace-of_type spec type = lists_type-of_type type (namespaces_of spec.linux)

abbrev pub hostname_calls : Spec → List Call
hostname_calls spec =
    if not (same spec.hostname []) && of_type (text "uts") (namespaces_of spec.linux)
    then sethostname spec.hostname ∷ []
    else []

unfoldable pub hook_calls : List Hook → State → List Call
hook_calls [] state = []
hook_calls (hook ∷ hooks) state = run_hook hook state ∷ hook_calls hooks state

-- The change of the root and what follows it, as finalizeRootfs makes it
abbrev pub root_calls : InitConfig → List Call
root_calls cfg =
    pivot_calls cfg.rootfs
    ++ (readonly_root_calls cfg.spec.root ++ (chdir (cwd_of cfg.spec.process) ∷ []))

module _ (k : Kernel) where
  join-Does :
      (namespaces : List LinuxNamespace)
      → Does (join_namespaces k namespaces) (join_calls namespaces)
  unfolding join_namespaces join_calls
  join-Does [] = Does-pure
  join-Does (ns ∷ namespaces) = elim (Bool-cases (same ns.path [])) [
    | inl cloned ↦
        rw cloned (Does-then _ _ [] (join_calls namespaces) Does-pure (join-Does namespaces))
    | inr joined ↦ rw joined (
        Does-then _ _ (setns ns.path ∷ []) (join_calls namespaces)
          (Does-wrapped-perform k "joining namespace" (setns ns.path)) (join-Does namespaces))
  ]

  hostname-Does : (spec : Spec) → Does (set_hostname k spec) (hostname_calls spec)
  unfolding set_hostname
  hostname-Does spec =
      rw (has_namespace-of_type spec uts_namespace)
        (elim (Bool-cases
          (not (same spec.hostname []) && of_type uts_namespace (namespaces_of spec.linux))) [
            | inl own ↦
                rw own (Does-wrapped-perform k "setting hostname" (sethostname spec.hostname))
            | inr shared ↦ rw shared Does-pure
          ])

  hooks-Does :
      (hooks : List Hook) (state : State) → Does (run_hooks k hooks state) (hook_calls hooks state)
  unfolding run_hooks hook_calls
  hooks-Does [] state = Does-pure
  hooks-Does (hook ∷ hooks) state =
      Does-then _ _ (run_hook hook state ∷ []) (hook_calls hooks state)
        (Does-wrapped-perform k "hook" (run_hook hook state)) (hooks-Does hooks state)

  module _ (a : Arch) (s : Surroundings) (tree : List Event → Tree) where
    -- The events of an init process from its start to the user's command.
    pub record Ready (cfg : InitConfig) (h h' : List Event) : Type 0 where
      pub named : List Event
      pub names :
          named
          ≡ after (hostname_calls cfg.spec) (after (join_calls (namespaces_of cfg.spec.linux)) h)
      pub mounted : List Event
      pub mounts : prepare_rootfs k tree cfg named ≡ (ok tt, mounted)
      pub answered : List Event
      pub host_hooks :
          answered
          ≡ after (await_message hooks_done ∷ []) (after (send_message hook_point ∷ []) mounted)
      pub changed : List Event
      pub changes :
          changed
          ≡ after (root_calls cfg) (
              after
                (hook_calls (create_container_of cfg.spec.hooks) (container_state cfg))
                answered)
      pub released : List Event
      pub release :
          released ≡ after (pass_start_fifo ∷ []) (after (send_message proc_ready ∷ []) changed)
      pub process : Process
      pub asked : cfg.spec.process ≡ some process
      pub hooked : List Event
      pub hooks :
          hooked ≡ after (hook_calls (start_container_of cfg.spec.hooks) (start_state cfg)) released
      pub launched : Launched k a s process cfg.spec.linux hooked h'

    launch-Launched :
        (linux : Option Linux) (o : Option Process) (h h' : List Event)
        → launch k a s linux o h ≡ (ok tt, h')
        → (process : Process) × (o ≡ some process) × Launched k a s process linux h h'
    launch-Launched linux none h h' e = absurd (ground arith)
    launch-Launched linux (some process) h h' e =
        (process, refl, exec_user_process-Launched k a s process linux h h' e)

    -- An init process that reaches the user's command has, in this order and with no other call between:
    -- joined every namespace that the config names by path; set the hostname, where there is one and a
    -- UTS namespace; made the mounts; told the host, and been told that the host's hooks are done; run
    -- the createContainer hooks in their order; changed the root; told the host that it is ready, and
    -- been let through the start FIFO; run the startContainer hooks; and started the process of the
    -- config with its limits, user, capabilities and filter.
    pub init_setup-Ready :
        (cfg : InitConfig) (h h' : List Event)
        → init_setup k a s tree cfg h ≡ (ok tt, h')
        → Ready cfg h h'
    unfolding init_setup
    init_setup-Ready cfg h h' e =
        let (_, h₁, joined, e₁) = >>=-ok (join_namespaces k (namespaces_of cfg.spec.linux)) _ h e in
        let (_, h₂, named, e₂) = >>=-ok (set_hostname k cfg.spec) _ h₁ e₁ in
        let (_, h₃, mounted, e₃) = >>=-ok (prepare_rootfs k tree cfg) _ h₂ e₂ in
        let (_, h₄, told, e₄) =
          >>=-ok (wrapped "sending" (perform k (send_message hook_point))) _ h₃ e₃ in
        let (_, h₅, heard, e₅) =
          >>=-ok (wrapped "awaiting" (perform k (await_message hooks_done))) _ h₄ e₄ in
        let (_, h₆, hooked, e₆) =
          >>=-ok (run_hooks k (create_container_of cfg.spec.hooks) (container_state cfg)) _ h₅ e₅ in
        let (_, h₇, changed, e₇) = >>=-ok (finalize_rootfs k cfg) _ h₆ e₆ in
        let (_, h₈, ready, e₈) =
          >>=-ok (wrapped "sending" (perform k (send_message proc_ready))) _ h₇ e₇ in
        let (_, h₉, let_through, e₉) =
          >>=-ok (wrapped "start fifo" (perform k pass_start_fifo)) _ h₈ e₈ in
        let (_, h₁₀, started, e₁₀) =
          >>=-ok (run_hooks k (start_container_of cfg.spec.hooks) (start_state cfg)) _ h₉ e₉ in
        let (process, asked, launched) =
          launch-Launched cfg.spec.linux cfg.spec.process h₁₀ h' e₁₀ in
        record {
          named = h₂;
          names =
              (hostname-Does cfg.spec).made h₁ h₂ named
              ∙ ap (after _) ((join-Does (namespaces_of cfg.spec.linux)).made h h₁ joined);
          mounted = h₃;
          mounts = mounted;
          answered = h₅;
          host_hooks =
              (Does-wrapped-perform k "awaiting" (await_message hooks_done)).made h₄ h₅ heard
              ∙ ap (after _)
                  ((Does-wrapped-perform k "sending" (send_message hook_point)).made h₃ h₄ told);
          changed = h₇;
          changes =
              finalize_rootfs-Does k cfg h₆ h₇ changed
              ∙ ap (after (root_calls cfg)) (
                  (hooks-Does (create_container_of cfg.spec.hooks) (container_state cfg)).made h₅ h₆
                    hooked);
          released = h₉;
          release =
              (Does-wrapped-perform k "start fifo" pass_start_fifo).made h₈ h₉ let_through
              ∙ ap (after _)
                  ((Does-wrapped-perform k "sending" (send_message proc_ready)).made h₇ h₈ ready);
          process = process;
          asked = asked;
          hooked = h₁₀;
          hooks =
              (hooks-Does (start_container_of cfg.spec.hooks) (start_state cfg)).made h₉ h₁₀
                started;
          launched = launched;
        }
