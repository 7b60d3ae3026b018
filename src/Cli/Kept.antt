-- ===== src/Cli/Kept.antt =====
-- The protections of a config that no flag takes away, but for --seccomp=unconfined.
use mathlib.Core.Path.{subst}
use lightpod.Base.{
  ◌≡◌, refl, sym, ap, ◌∙◌, arith, Bool, Bool-cases, inl, inr, if◌then◌else◌, Option, none, some,
  List, [], ◌∷◌, Result, ok, wrapping, >>=-eq-ok, >>-eq-ok,
}
use lightpod.Base.Int.{ℤ, is_pos}
use lightpod.Base.Text.{Bytes, text, same}
use lightpod.Oci.Spec.{Spec, Process, LinuxResources}
use lightpod.Device.Raw.{FileInfo}
use lightpod.Device.Nvidia.{nvidia_env, nvidia_process, with_process, set_nvidia_env}
use lightpod.Cli.Values.{parse_size}
use lightpod.Cli.Flags.{
  RunFlags, linux_or, on_linux, on_resources, flagged_process, process_flags, apply_process_flags,
  apply_workdir, apply_user, add_volumes, apply_shm_size, apply_ipc, apply_mount_flags, share_ipc,
  checked_path, add_devices, apply_gpu_flag, apply_device_flags, apply_memory, limit_memory,
  limit_cpus, limit_pids, apply_cpus, apply_pids, apply_seccomp_flag, apply_names, refuse_tty,
  apply_run_flags,
}

abbrev pub forbids : Option Process → Option Bool
forbids none = none
forbids (some process) = some process.no_new_privileges

-- The second config has the no_new_privileges, the seccomp profile and the paths of the first.
pub record Kept (spec spec' : Spec) : Type 0 where
  pub privileges : forbids spec'.process ≡ forbids spec.process
  pub profile : (linux_or spec'.linux).seccomp ≡ (linux_or spec.linux).seccomp
  pub masked : (linux_or spec'.linux).masked_paths ≡ (linux_or spec.linux).masked_paths
  pub protected : (linux_or spec'.linux).readonly_paths ≡ (linux_or spec.linux).readonly_paths

Kept-refl : (spec : Spec) → Kept spec spec
Kept-refl spec = record { privileges = refl; profile = refl; masked = refl; protected = refl }

Kept-trans : (s t u : Spec) → Kept s t → Kept t u → Kept s u
Kept-trans s t u a b = record {
  privileges = b.privileges ∙ a.privileges;
  profile = b.profile ∙ a.profile;
  masked = b.masked ∙ a.masked;
  protected = b.protected ∙ a.protected;
}

resources-Kept :
    (f : LinuxResources → LinuxResources) (spec : Spec) → Kept spec (on_resources f spec)
resources-Kept f spec = record {
  privileges = refl;
  profile = refl;
  masked = refl;
  protected = refl;
}

names-Kept : (rf : RunFlags) (spec : Spec) → Kept spec (apply_names rf spec)
unfolding apply_names
names-Kept rf spec = record { privileges = refl; profile = refl; masked = refl; protected = refl }

process_flags-forbids :
    (rf : RunFlags) (process process' : Process)
    → process_flags rf process ≡ ok process'
    → process'.no_new_privileges ≡ process.no_new_privileges
unfolding process_flags
process_flags-forbids rf process process' e =
    let (cwd, _, e₁) = >>=-eq-ok (apply_workdir rf.workdir process.cwd) _ e in
    let (user, _, e₂) = >>=-eq-ok (apply_user rf.user process.user) _ e₁ in ground arith

flagged-forbids :
    (rf : RunFlags) (o : Option Process) (process : Process)
    → flagged_process rf o ≡ ok process
    → some process.no_new_privileges ≡ forbids o
flagged-forbids rf none process e = absurd (ground arith)
flagged-forbids rf (some p) process e = ap some (process_flags-forbids rf p process e)

process-Kept :
    (rf : RunFlags) (spec spec' : Spec) → apply_process_flags rf spec ≡ ok spec' → Kept spec spec'
unfolding apply_process_flags
process-Kept rf spec spec' e =
    let (process, found, e₁) = >>=-eq-ok (flagged_process rf spec.process) _ e in
    let flagged : record spec { process = some process } ≡ spec' = ground arith in
    subst (Kept spec) flagged (record {
      privileges = flagged-forbids rf spec.process process found;
      profile = refl;
      masked = refl;
      protected = refl;
    })

ipc-Kept : (ipc : Bytes) (spec spec' : Spec) → apply_ipc ipc spec ≡ ok spec' → Kept spec spec'
unfolding apply_ipc
ipc-Kept ipc spec spec' e = elim (Bool-cases (same ipc [])) [
  | inl unset ↦
      let unchanged : spec ≡ spec' = ground arith in subst (Kept spec) unchanged (Kept-refl spec)
  | inr set ↦ elim (Bool-cases (same ipc (text "host"))) [
    | inl host ↦
        let shared : on_linux share_ipc spec ≡ spec' = ground arith in
        subst (Kept spec) shared
          (record { privileges = refl; profile = refl; masked = refl; protected = refl })
    | inr other ↦ absurd (ground arith)
  ]
]

mount-Kept :
    (rf : RunFlags) (spec spec' : Spec) → apply_mount_flags rf spec ≡ ok spec' → Kept spec spec'
unfolding apply_mount_flags
mount-Kept rf spec spec' e =
    let (with_volumes, _, e₁) = >>=-eq-ok (add_volumes rf.volumes spec.mounts) _ e in
    let (mounts, _, e₂) = >>=-eq-ok (apply_shm_size rf.shm_size with_volumes) _ e₁ in
    let moved = ipc-Kept rf.ipc (record spec { mounts = mounts }) spec' e₂ in
    record {
      privileges = moved.privileges;
      profile = moved.profile;
      masked = moved.masked;
      protected = moved.protected;
    }

nvidia-Kept :
    (gpu : Bytes) (spec spec' : Spec) (o : Option Process)
    → spec.process ≡ o
    → with_process spec (nvidia_process gpu o) ≡ ok spec'
    → Kept spec spec'
nvidia-Kept gpu spec spec' none eo e = absurd (ground arith)
nvidia-Kept gpu spec spec' (some p) eo e =
    let asked : record spec { process = some (record p { env = nvidia_env gpu p.env }) } ≡ spec' =
      ground arith in
    subst (Kept spec) asked
      (record { privileges = ap forbids (sym eo); profile = refl; masked = refl; protected = refl })

memory-Kept :
    (value : Bytes) (spec spec' : Spec) → apply_memory value spec ≡ ok spec' → Kept spec spec'
unfolding apply_memory
memory-Kept [] spec spec' e =
    let unchanged : spec ≡ spec' = ground arith in subst (Kept spec) unchanged (Kept-refl spec)
memory-Kept (c ∷ value) spec spec' e =
    let (limit, _, e₁) = >>=-eq-ok (wrapping "--memory" (parse_size (c ∷ value))) _ e in
    let limited : on_resources (limit_memory limit) spec ≡ spec' = ground arith in
    subst (Kept spec) limited (resources-Kept (limit_memory limit) spec)

cpus-Kept : (quota : Option ℤ) (spec : Spec) → Kept spec (apply_cpus quota spec)
cpus-Kept none spec = Kept-refl spec
cpus-Kept (some quota) spec = resources-Kept (limit_cpus quota) spec

pids-Kept : (limit : ℤ) (spec : Spec) → Kept spec (apply_pids limit spec)
pids-Kept limit spec = elim (Bool-cases (is_pos limit)) [
  | inl positive ↦ rw positive (resources-Kept (limit_pids limit) spec)
  | inr unlimited ↦ rw unlimited (Kept-refl spec)
]

-- As Kept, with the profile taken away where a flag says so.
pub record Flagged (unconfined : Bool) (spec spec' : Spec) : Type 0 where
  pub privileges : forbids spec'.process ≡ forbids spec.process
  pub profile :
      (linux_or spec'.linux).seccomp ≡ (if unconfined then none else (linux_or spec.linux).seccomp)
  pub masked : (linux_or spec'.linux).masked_paths ≡ (linux_or spec.linux).masked_paths
  pub protected : (linux_or spec'.linux).readonly_paths ≡ (linux_or spec.linux).readonly_paths

seccomp-Flagged :
    (mode : Bytes) (spec spec' : Spec)
    → Kept spec spec'
    → Flagged (same mode (text "unconfined")) spec (apply_seccomp_flag mode spec')
unfolding apply_seccomp_flag
seccomp-Flagged mode spec spec' kept = elim (Bool-cases (same mode (text "unconfined"))) [
  | inl off ↦ rw off (record {
    privileges = kept.privileges;
    profile = refl;
    masked = kept.masked;
    protected = kept.protected;
  })
  | inr on ↦ rw on (record {
    privileges = kept.privileges;
    profile = kept.profile;
    masked = kept.masked;
    protected = kept.protected;
  })
]

module _ (stat : Bytes → Result FileInfo) where
  devices-Kept :
      (values : List Bytes) (spec spec' : Spec)
      → add_devices stat values spec ≡ ok spec'
      → Kept spec spec'
  unfolding add_devices
  devices-Kept [] spec spec' e =
      let unchanged : spec ≡ spec' = ground arith in subst (Kept spec) unchanged (Kept-refl spec)
  devices-Kept (value ∷ values) spec spec' e =
      let (dev, _, e₁) = >>=-eq-ok (checked_path stat value) _ e in
      let rest = devices-Kept values _ spec' e₁ in
      record {
        privileges = rest.privileges;
        profile = rest.profile;
        masked = rest.masked;
        protected = rest.protected;
      }

  gpu-Kept :
      (gpu : Bytes) (spec spec' : Spec) → apply_gpu_flag stat gpu spec ≡ ok spec' → Kept spec spec'
  unfolding apply_gpu_flag set_nvidia_env
  gpu-Kept [] spec spec' e =
      let unchanged : spec ≡ spec' = ground arith in subst (Kept spec) unchanged (Kept-refl spec)
  gpu-Kept (c ∷ gpu) spec spec' e = nvidia-Kept (c ∷ gpu) spec spec' spec.process refl e

  device-Kept :
      (rf : RunFlags) (spec spec' : Spec)
      → apply_device_flags stat rf spec ≡ ok spec'
      → Kept spec spec'
  unfolding apply_device_flags
  device-Kept rf spec spec' e =
      let (t, with_devices, e₁) = >>=-eq-ok (add_devices stat rf.devices spec) _ e in
      Kept-trans spec t spec' (devices-Kept rf.devices spec t with_devices)
        (gpu-Kept rf.gpu t spec' e₁)

  -- Where applyRunFlags accepts the flags, the config that it returns forbids new privileges exactly as
  -- the one that it got, masks and protects the same paths, and has the same seccomp profile, or none
  -- where --seccomp is `unconfined`.
  pub apply_run_flags-Flagged :
      (rf : RunFlags) (spec spec' : Spec)
      → apply_run_flags stat rf spec ≡ ok spec'
      → Flagged (same rf.seccomp (text "unconfined")) spec spec'
  unfolding apply_run_flags
  apply_run_flags-Flagged rf spec spec' e =
      let (_, e₀) = >>-eq-ok (refuse_tty rf.tty) _ e in
      let start = on_resources (λ resources. resources) spec in
      let named = apply_names rf start in
      let (t, processed, e₁) = >>=-eq-ok (apply_process_flags rf named) _ e₀ in
      let (u, mounted, e₂) = >>=-eq-ok (apply_mount_flags rf t) _ e₁ in
      let (v, granted, e₃) = >>=-eq-ok (apply_device_flags stat rf u) _ e₂ in
      let (x, limited, e₄) = >>=-eq-ok (apply_memory rf.memory v) _ e₃ in
      let counted = apply_cpus rf.cpu_quota x in
      let bounded = apply_pids rf.pids counted in
      let done : apply_seccomp_flag rf.seccomp bounded ≡ spec' = ground arith in
      let kept : Kept spec bounded =
        Kept-trans spec named bounded
          (Kept-trans spec start named (resources-Kept (λ resources. resources) spec)
            (names-Kept rf start))
          (Kept-trans named t bounded (process-Kept rf named t processed) (
            Kept-trans t u bounded (mount-Kept rf t u mounted) (
              Kept-trans u v bounded (device-Kept rf u v granted) (
                Kept-trans v x bounded (memory-Kept rf.memory v x limited) (
                  Kept-trans x counted bounded (cpus-Kept rf.cpu_quota x)
                    (pids-Kept rf.pids counted)))))) in
      subst (Flagged (same rf.seccomp (text "unconfined")) spec) done
        (seccomp-Flagged rf.seccomp spec bounded kept)
