-- ===== src/Security/Seccomp/Examples.antt =====
-- The seccomp compiler at a small profile.
use lightpod.Base.{
  ℕ, ◌≡◌, ◌≤◌, ◌↔◌, refl, Option, none, some, List, [], ◌∷◌, Result, ok, length, true, false,
  if◌then◌else◌, arith,
}
use lightpod.Base.Text.{text, texts}
use lightpod.Oci.Spec.{LinuxSeccomp, act_allow, act_errno}
use lightpod.Oci.Profile.{default_seccomp_profile, default_allowed_syscalls}
use lightpod.Security.Syscalls.Amd64.{amd64}
use lightpod.Security.Seccomp.{SockFilter, compile_seccomp, max_filter_instructions, ret_allow}
use lightpod.Security.Seccomp.Bpf.{SeccompData, run}
use lightpod.Security.Seccomp.Verdict.{verdict, covers, run-compile_seccomp}
use lightpod.Security.Seccomp.Support.{IsSupported, compile_seccomp_iff}
use lightpod.Security.Seccomp.Defaults.{
  on_amd64, IsNative, eperm_answer, left_out, run-default_seccomp_profile,
}

abbrev small : LinuxSeccomp
small = record {
  default_action = act_errno;
  default_errno_ret = none;
  architectures = [];
  flags = [];
  syscalls =
      record {
        names = texts ("read" ∷ "no_such_call" ∷ []);
        action = act_allow;
        errno_ret = none;
        args = [];
      }
      ∷ [];
}

-- mount(2) on amd64
abbrev mount_call : SeccompData
mount_call = record { nr = 165; arch = 0xc000003e }

abbrev compiled : Result (List SockFilter) → List SockFilter
compiled (ok f) = f
compiled r = []

abbrev small_filter : List SockFilter
unfolding compile_seccomp amd64
small_filter = compiled (compile_seccomp amd64 small)

small_size : length small_filter ≡ 9
unfolding small_filter lightpod.Security.Seccomp.action_value
    lightpod.Security.Seccomp.compile_rules lightpod.Security.Seccomp.arch_check
    lightpod.Security.Seccomp.x32_check lightpod.Security.Seccomp.compile_names
    lightpod.Base.Text.lookup
small_size = refl

small_compiles : compile_seccomp amd64 small ≡ ok small_filter
unfolding compile_seccomp amd64 lightpod.Security.Seccomp.action_value
    lightpod.Security.Seccomp.compile_rules lightpod.Security.Seccomp.arch_check
    lightpod.Security.Seccomp.x32_check lightpod.Security.Seccomp.compile_names
    lightpod.Base.Text.lookup
small_compiles = refl

run-compile_seccomp_example :
    (v : ℕ) × (run small_filter 0 0 mount_call ≡ some v)
    × (verdict amd64 small mount_call ≡ some v)
    × (length small_filter ≤ max_filter_instructions)
run-compile_seccomp_example = run-compile_seccomp amd64 mount_call small small_filter small_compiles

compile_seccomp_iff_example :
    ((f : List SockFilter) × (compile_seccomp amd64 small ≡ ok f)) ↔ IsSupported amd64 small
compile_seccomp_iff_example = compile_seccomp_iff amd64 small

mount_call-IsNative : IsNative amd64 mount_call
unfolding amd64
mount_call-IsNative = (refl, refl)

run-default_seccomp_profile_example :
    (f : List SockFilter) × (compile_seccomp amd64 default_seccomp_profile ≡ ok f)
    × (run f 0 0 mount_call
        ≡ some (if covers amd64 default_allowed_syscalls 165 then ret_allow else eperm_answer))
    × (covers amd64 left_out 165 ≡ true → run f 0 0 mount_call ≡ some eperm_answer)
run-default_seccomp_profile_example =
    run-default_seccomp_profile amd64 mount_call on_amd64 mount_call-IsNative
