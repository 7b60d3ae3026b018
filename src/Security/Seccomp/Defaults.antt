-- ===== src/Security/Seccomp/Defaults.antt =====
-- The default profile of pkg/oci/seccomp_profile.go under the compiler, on the ported architectures.
use lightpod.Base.{
  ℕ, ◌%◌, ◌^◌, ◌≡◌, refl, sym, ◌∙◌, Bool, true, false, leb, ◌==◌, ◌&&◌, ◌||◌, not, if◌then◌else◌,
  Option, none, some, List, [], ◌∷◌, arith, ok,
}
use lightpod.Base.Text.{Bytes, texts, same, lookup}
use lightpod.Oci.Profile.{default_seccomp_profile, default_allowed_syscalls}
use lightpod.Security.Syscalls.Arch.{Arch}
use lightpod.Security.Syscalls.Amd64.{amd64}
use lightpod.Security.Syscalls.Arm64.{arm64}
use lightpod.Security.Syscalls.Arm.{arm}
use lightpod.Security.Seccomp.{
  SockFilter, action_value, compile_seccomp, ret_allow, x32_syscall_bit,
}
use lightpod.Security.Seccomp.Bpf.{SeccompData, run}
use lightpod.Security.Seccomp.Support.{
  is_among, IsSupported, filter_size, rules_size, names_size, compile_seccomp_iff,
}
use lightpod.Security.Seccomp.Verdict.{covers, rule_verdict, verdict, run-compile_seccomp}

-- errno EPERM
abbrev pub eperm_answer : ℕ
eperm_answer = 0x00050001

-- The calls that the comment above the list of allowed names says are left out on purpose.
unfoldable pub left_out : List Bytes
left_out = texts (
    "mount" ∷ "umount2" ∷ "pivot_root" ∷ "chroot" ∷ "init_module" ∷ "finit_module" ∷ "delete_module"
    ∷ "kexec_load" ∷ "kexec_file_load" ∷ "ptrace" ∷ "process_vm_readv" ∷ "process_vm_writev" ∷ "bpf"
    ∷ "perf_event_open" ∷ "setns" ∷ "unshare" ∷ "add_key" ∷ "request_key" ∷ "keyctl" ∷ "userfaultfd"
    ∷ "io_uring_setup" ∷ "io_uring_enter" ∷ "io_uring_register" ∷ "swapon" ∷ "swapoff" ∷ "quotactl"
    ∷ "acct" ∷ [])

elem : ℕ → List ℕ → Bool
elem n [] = false
elem n (m ∷ ms) = n == m || elem n ms

disjoint : List ℕ → List ℕ → Bool
disjoint [] ms = true
disjoint (n ∷ ns) ms = not (elem n ms) && disjoint ns ms

disjoint-elem :
    (n : ℕ) (ns ms : List ℕ) → disjoint ns ms ≡ true → elem n ns ≡ true → elem n ms ≡ false
unfolding disjoint elem
disjoint-elem n [] ms h e = cc
disjoint-elem n (m ∷ ns) ms h e = ground (arith, disjoint-elem n ns ms)

module _ (a : Arch) where
  abbrev add_number : Option ℕ → List ℕ → List ℕ
  add_number none ns = ns
  add_number (some nr) ns = nr % 2 ^ 32 ∷ ns

  -- The numbers that the names stand for.
  numbers : List Bytes → List ℕ
  numbers [] = []
  numbers (name ∷ names) = add_number (lookup name a.syscall_numbers) (numbers names)

  covers-numbers : (names : List Bytes) (nr : ℕ) → covers a names nr ≡ elem nr (numbers names)
  unfolding covers numbers elem
  covers-numbers [] nr = refl
  covers-numbers (name ∷ names) nr = ground (arith, covers-numbers names nr)

-- A call of the native ABI: the architecture of the build, and no x32 number where those exist.
abbrev pub IsNative : Arch → SeccompData → Type 0
IsNative a d = (d.arch ≡ a.audit_arch) × ((a.guard_x32 && leb x32_syscall_bit d.nr) ≡ false)

pub data Ported : Arch → Type 0 where
  on_amd64 : Ported amd64
  on_arm64 : Ported arm64
  on_arm : Ported arm

verdict-default :
    (a : Arch) (d : SeccompData)
    → IsNative a d
    → verdict a default_seccomp_profile d
      ≡ some (if covers a default_allowed_syscalls d.nr then ret_allow else eperm_answer)
unfolding verdict rule_verdict action_value default_seccomp_profile same
verdict-default a d h = ground arith

-- On the ported architectures no number is both allowed and left out.
Ported-disjoint :
    {a : Arch}
    → Ported a
    → disjoint (numbers a left_out) (numbers a default_allowed_syscalls) ≡ true
unfolding disjoint numbers elem lookup same left_out default_allowed_syscalls amd64 arm64 arm
Ported-disjoint on_amd64 = refl
Ported-disjoint on_arm64 = refl
Ported-disjoint on_arm = refl

Ported-IsSupported : {a : Arch} → Ported a → IsSupported a default_seccomp_profile
unfolding filter_size rules_size names_size lookup same is_among default_seccomp_profile
    default_allowed_syscalls amd64 arm64 arm
Ported-IsSupported on_amd64 = record {
  ported = omega arith;
  known_default = refl;
  plain_rules = ((refl, refl), tt);
  fits = omega arith;
}
Ported-IsSupported on_arm64 = record {
  ported = omega arith;
  known_default = refl;
  plain_rules = ((refl, refl), tt);
  fits = omega arith;
}
Ported-IsSupported on_arm = record {
  ported = omega arith;
  known_default = refl;
  plain_rules = ((refl, refl), tt);
  fits = omega arith;
}

-- On amd64, arm64 and arm the default profile compiles, and its filter answers a native call with
-- "allow" if a listed name has the number of the call, and with EPERM otherwise. In particular every
-- call that the source leaves out on purpose (mounts, modules, kexec, ptrace, bpf, namespaces,
-- keyrings, io_uring and the rest) gets EPERM.
pub run-default_seccomp_profile :
    (a : Arch) (d : SeccompData)
    → Ported a
    → IsNative a d
    → (f : List SockFilter) × (compile_seccomp a default_seccomp_profile ≡ ok f)
      × (run f 0 0 d
          ≡ some (if covers a default_allowed_syscalls d.nr then ret_allow else eperm_answer))
      × (covers a left_out d.nr ≡ true → run f 0 0 d ≡ some eperm_answer)
run-default_seccomp_profile a d h native =
    let (f, compiled) = (compile_seccomp_iff a default_seccomp_profile).1 (Ported-IsSupported h) in
    let (v, runs, means, short) = run-compile_seccomp a d default_seccomp_profile f compiled in
    let answer = runs ∙ sym means ∙ verdict-default a d native in
    (f, compiled, answer, λ out. answer ∙ denied out)
  where
    denied :
        covers a left_out d.nr ≡ true
        → some (if covers a default_allowed_syscalls d.nr then ret_allow else eperm_answer)
          ≡ some eperm_answer
    denied out = ground (
      arith,
      covers-numbers a left_out d.nr,
      covers-numbers a default_allowed_syscalls d.nr,
      disjoint-elem d.nr (numbers a left_out) (numbers a default_allowed_syscalls)
          (Ported-disjoint h),
    )
