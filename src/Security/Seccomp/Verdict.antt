-- ===== src/Security/Seccomp/Verdict.antt =====
-- The programs of the seccomp compiler against the meaning of a profile.
use lightpod.Base.{
  ℕ, ◌%◌, ◌^◌, ◌≡◌, refl, Bool, true, false, leb, ◌==◌, ◌&&◌, ◌||◌, not, if◌then◌else◌, Option,
  none, some, List, [], ◌∷◌, ◌++◌, arith, append_assoc, Result, ok, err, length, ◌≤◌,
}
use lightpod.Base.Text.{Bytes, lookup}
use lightpod.Oci.Spec.{LinuxSeccomp, LinuxSyscall}
use lightpod.Security.Syscalls.Arch.{Arch}
use lightpod.Security.Seccomp.{
  SockFilter, action_value, arch_check, x32_check, compile_names, compile_rules, compile_seccomp,
  return_value, test_number, test_name, ret_kill_process, x32_syscall_bit, max_filter_instructions,
}
use lightpod.Security.Seccomp.Bpf.{SeccompData, run}

abbrev pub to_option : Result ℕ → Option ℕ
to_option (ok v) = some v
to_option (err e) = none

module _ (a : Arch) where
  abbrev has_number : Option ℕ → ℕ → Bool
  has_number none nr = false
  has_number (some n) nr = nr == n % 2 ^ 32

  -- One of the names stands for the number on this architecture.
  unfoldable pub covers : List Bytes → ℕ → Bool
  covers [] nr = false
  covers (name ∷ names) nr = has_number (lookup name a.syscall_numbers) nr || covers names nr

  -- The action of the first rule that covers the number, and else the default.
  unfoldable pub rule_verdict : List LinuxSyscall → Option ℕ → ℕ → Option ℕ
  unfolding covers
  rule_verdict [] default_action nr = default_action
  rule_verdict (rule ∷ rules) default_action nr =
      if covers rule.names nr
      then to_option (action_value rule.action rule.errno_ret)
      else rule_verdict rules default_action nr

  -- What a profile means for one system call.
  unfoldable pub verdict : LinuxSeccomp → SeccompData → Option ℕ
  unfolding rule_verdict
  verdict p d =
      if not (d.arch == a.audit_arch) || (a.guard_x32 && leb x32_syscall_bit d.nr)
      then some ret_kill_process
      else rule_verdict p.syscalls (to_option (action_value p.default_action p.default_errno_ret))
          d.nr

run-arch_check :
    (audit acc : ℕ) (rest : List SockFilter) (d : SeccompData)
    → run (arch_check audit ++ rest) 0 acc d
      ≡ (if d.arch == audit then run rest 0 d.nr d else some ret_kill_process)
unfolding run arch_check
run-arch_check audit acc rest d = ground arith

run-x32_check :
    (guard : Bool) (acc : ℕ) (rest : List SockFilter) (d : SeccompData)
    → run (x32_check guard ++ rest) 0 acc d
      ≡ (if guard && leb x32_syscall_bit acc then some ret_kill_process else run rest 0 acc d)
unfolding run x32_check
run-x32_check true acc rest d = ground arith
run-x32_check false acc rest d = refl

run-test_number :
    (nr v acc : ℕ) (rest : List SockFilter) (d : SeccompData)
    → run (test_number nr v ++ rest) 0 acc d
      ≡ (if acc == nr % 2 ^ 32 then some v else run rest 0 acc d)
unfolding run
run-test_number nr v acc rest d = ground arith

module _ (a : Arch) (d : SeccompData) where
  run-test_name :
      (o : Option ℕ) (v acc : ℕ) (rest : List SockFilter)
      → run (test_name a o v ++ rest) 0 acc d
        ≡ (if has_number a o acc then some v else run rest 0 acc d)
  run-test_name none v acc rest = refl
  run-test_name (some nr) v acc rest = run-test_number nr v acc rest d

  run-compile_names :
      (names : List Bytes) (v acc : ℕ) (rest : List SockFilter)
      → run (compile_names a names v ++ rest) 0 acc d
        ≡ (if covers a names acc then some v else run rest 0 acc d)
  unfolding compile_names covers
  run-compile_names [] v acc rest = refl
  run-compile_names (name ∷ names) v acc rest = ground (
    arith,
    append_assoc (test_name a (lookup name a.syscall_numbers) v) (compile_names a names v) rest,
    run-test_name (lookup name a.syscall_numbers) v acc (compile_names a names v ++ rest),
    run-compile_names names v acc rest,
  )

  -- What a compiled list of rules was made of.
  compile_rules-cons :
      (rule : LinuxSyscall) (rules : List LinuxSyscall) {fs : List SockFilter}
      → compile_rules a (rule ∷ rules) ≡ ok fs
      → (v : ℕ) × (rest : List SockFilter) × (action_value rule.action rule.errno_ret ≡ ok v)
        × (compile_rules a rules ≡ ok rest)
        × (fs ≡ compile_names a rule.names v ++ rest)
  unfolding compile_rules
  compile_rules-cons rule rules h = ground arith

  run-compile_rules :
      (rules : List LinuxSyscall) (fs : List SockFilter) (v acc : ℕ)
      → compile_rules a rules ≡ ok fs
      → run (fs ++ return_value v ∷ []) 0 acc d ≡ rule_verdict a rules (some v) acc
  unfolding rule_verdict
  run-compile_rules [] fs v acc h = unfold run compile_rules in ground arith
  run-compile_rules (rule ∷ rules) fs v acc h =
      let (v', rest, action, compiled, made) = compile_rules-cons rule rules h in
      ground (
        arith,
        action,
        made,
        append_assoc (compile_names a rule.names v') rest (return_value v ∷ []),
        run-compile_names rule.names v' acc (rest ++ return_value v ∷ []),
        run-compile_rules rules rest v acc compiled,
      )

  compile_seccomp-ok :
      (p : LinuxSeccomp) {f : List SockFilter}
      → compile_seccomp a p ≡ ok f
      → (v : ℕ) × (rules : List SockFilter) × (action_value p.default_action p.default_errno_ret
          ≡ ok v)
        × (compile_rules a p.syscalls ≡ ok rules)
        × (f ≡ arch_check a.audit_arch ++ (x32_check a.guard_x32 ++ (rules ++ return_value v ∷ [])))
        × (length f ≤ max_filter_instructions)
  unfolding compile_seccomp
  compile_seccomp-ok p h = ground arith

  rule_verdict-some :
      (rules : List LinuxSyscall) (fs : List SockFilter) (v nr : ℕ)
      → compile_rules a rules ≡ ok fs
      → (w : ℕ) × (rule_verdict a rules (some v) nr ≡ some w)
  unfolding rule_verdict
  rule_verdict-some [] fs v nr h = (v, refl)
  rule_verdict-some (rule ∷ rules) fs v nr h =
      let (v', rest, action, compiled, made) = compile_rules-cons rule rules h in
      let (w, e) = rule_verdict-some rules rest v nr compiled in
      ((if covers a rule.names nr then v' else w), ground (arith, action, e))

  -- A compiled filter answers every system call of every architecture with the verdict of the
  -- profile: kill for a foreign architecture or an x32 number on a guarded one, else the action of
  -- the first rule that covers the number, else the default action. It never faults or runs off its
  -- end, and it has at most 4096 instructions.
  pub run-compile_seccomp :
      (p : LinuxSeccomp) (f : List SockFilter)
      → compile_seccomp a p ≡ ok f
      → (v : ℕ) × (run f 0 0 d ≡ some v)
        × (verdict a p d ≡ some v)
        × (length f ≤ max_filter_instructions)
  unfolding verdict
  run-compile_seccomp p f h =
      let (v, rules, default_ok, compiled, made, short) = compile_seccomp-ok p h in
      let (w, e) = rule_verdict-some p.syscalls rules v d.nr compiled in
      let tail = rules ++ return_value v ∷ [] in
      let killed = not (d.arch == a.audit_arch) || (a.guard_x32 && leb x32_syscall_bit d.nr) in
      (
        (if killed then ret_kill_process else w),
        ground (
          arith,
          made,
          e,
          run-arch_check a.audit_arch 0 (x32_check a.guard_x32 ++ tail) d,
          run-x32_check a.guard_x32 d.nr tail d,
          run-compile_rules p.syscalls rules v d.nr compiled,
        ),
        ground (arith, e, default_ok),
        short,
      )
