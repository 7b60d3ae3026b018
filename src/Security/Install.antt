-- ===== src/Security/Install.antt =====
-- The calls around the policies of pkg/security: ApplySeccomp, SetNoNewPrivs and SetKeepCaps.
use lightpod.Base.{ℕ, Bool, if◌then◌else◌, Option, none, some}
use lightpod.Oci.Spec.{LinuxSeccomp}
use lightpod.Kernel.{Kernel, prctl, seccomp_filter}
use lightpod.Kernel.Actions.{Os, ◌>>=◌, pure, lift, wrapped, perform}
use lightpod.Security.Seccomp.{compile_seccomp}
use lightpod.Security.Syscalls.Arch.{Arch}

abbrev pub set_keep_caps_option : ℕ
set_keep_caps_option = 8

abbrev pub set_no_new_privs_option : ℕ
set_no_new_privs_option = 38

module _ (k : Kernel) where
  unfoldable pub set_no_new_privs : Os (Unit {0})
  set_no_new_privs =
      wrapped "prctl(PR_SET_NO_NEW_PRIVS)" (perform k (prctl set_no_new_privs_option 1))

  unfoldable pub set_keep_caps : Bool → Os (Unit {0})
  set_keep_caps keep =
      wrapped "prctl(PR_SET_KEEPCAPS)"
        (perform k (prctl set_keep_caps_option (if keep then 1 else 0)))

  unfoldable pub apply_seccomp : Arch → Option LinuxSeccomp → Os (Unit {0})
  apply_seccomp a none = pure tt
  apply_seccomp a (some profile) = do
    filter ← lift (compile_seccomp a profile)
    wrapped "installing seccomp filter" (perform k (seccomp_filter filter))
