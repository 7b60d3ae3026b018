-- ===== src/Security/Seccomp.antt =====
-- pkg/security/seccomp.go: the compiler from a profile of the spec to a classic BPF program.
pub mod Bpf
pub mod Verdict
pub mod Support
pub mod Defaults
mod Examples
use Prim.Native.Nat.{bit_and, bit_or}
use lightpod.Base.{
  ℕ, ◌%◌, ◌^◌, String, Bool, true, false, ltb, ◌==◌, if◌then◌else◌, length, is_empty, Option, none,
  some, List, [], ◌∷◌, ◌++◌, Result, ok, err, msg, ◌>>=◌, ◌>>◌, wrapping, refuse_if, not,
}
use lightpod.Base.Text.{Bytes, text, same, lookup}
use lightpod.Oci.Spec.{
  LinuxSeccomp, LinuxSyscall, act_allow, act_errno, act_kill_process, act_kill, act_trap, act_trace,
  act_log,
}
use lightpod.Security.Syscalls.Arch.{Arch}

-- One instruction, struct sock_filter.
pub record SockFilter : Type 0 where
  pub code : ℕ
  pub jt : ℕ
  pub jf : ℕ
  pub k : ℕ

-- ld [k], jeq #k jt jf, jge #k jt jf, ret #k
abbrev pub op_load_abs_word : ℕ
op_load_abs_word = 0x20

abbrev pub op_jump_equal : ℕ
op_jump_equal = 0x15

abbrev pub op_jump_ge : ℕ
op_jump_ge = 0x35

abbrev pub op_return : ℕ
op_return = 0x06

-- Offsets into struct seccomp_data.
abbrev pub offset_nr : ℕ
offset_nr = 0

abbrev pub offset_arch : ℕ
offset_arch = 4

abbrev pub ret_kill_process : ℕ
ret_kill_process = 0x80000000

abbrev pub ret_trap : ℕ
ret_trap = 0x00030000

abbrev pub ret_errno : ℕ
ret_errno = 0x00050000

abbrev pub ret_trace : ℕ
ret_trace = 0x7ff00000

abbrev pub ret_log : ℕ
ret_log = 0x7ffc0000

abbrev pub ret_allow : ℕ
ret_allow = 0x7fff0000

abbrev pub ret_kill_thread : ℕ
ret_kill_thread = 0x00000000

abbrev pub errno_mask : ℕ
errno_mask = 0x0000ffff

abbrev pub max_filter_instructions : ℕ
max_filter_instructions = 4096

abbrev pub x32_syscall_bit : ℕ
x32_syscall_bit = 0x40000000

-- uint32(*errnoRet), and EPERM without one
abbrev pub errno_or_eperm : Option ℕ → ℕ
errno_or_eperm none = 1
errno_or_eperm (some e) = e % 2 ^ 32

unfoldable pub action_value : Bytes → Option ℕ → Result ℕ
unfolding same
action_value action errno_ret =
    if same action act_allow
    then ok ret_allow
    else if same action act_errno
    then ok (bit_or ret_errno (bit_and (errno_or_eperm errno_ret) errno_mask))
    else if same action act_kill_process
    then ok ret_kill_process
    else if same action act_kill
    then ok ret_kill_thread
    else if same action act_trap
    then ok ret_trap
    else if same action act_trace
    then ok ret_trace
    else if same action act_log
    then ok ret_log
    else if same action []
    then err (msg "action is empty")
    else err (msg "unknown action")

abbrev pub load_word : ℕ → SockFilter
load_word offset = record { code = op_load_abs_word; jt = 0; jf = 0; k = offset }

abbrev pub return_value : ℕ → SockFilter
return_value k = record { code = op_return; jt = 0; jf = 0; k = k }

-- The pair of instructions for one syscall number.
abbrev pub test_number : ℕ → ℕ → List SockFilter
test_number nr action =
    record { code = op_jump_equal; jt = 0; jf = 1; k = nr % 2 ^ 32 } ∷ return_value action ∷ []

-- The architecture check.
unfoldable pub arch_check : ℕ → List SockFilter
arch_check audit_arch =
    load_word offset_arch
    ∷ record { code = op_jump_equal; jt = 1; jf = 0; k = audit_arch }
    ∷ return_value ret_kill_process
    ∷ load_word offset_nr
    ∷ []

-- `if guardX32`
unfoldable pub x32_check : Bool → List SockFilter
x32_check true =
    record { code = op_jump_ge; jt = 0; jf = 1; k = x32_syscall_bit }
    ∷ return_value ret_kill_process
    ∷ []
x32_check false = []

module _ (a : Arch) where
  -- The loop over the names of one rule; an unknown name is skipped.
  abbrev pub test_name : Option ℕ → ℕ → List SockFilter
  test_name none action = []
  test_name (some nr) action = test_number nr action

  unfoldable pub compile_names : List Bytes → ℕ → List SockFilter
  compile_names [] action = []
  compile_names (name ∷ names) action =
      test_name (lookup name a.syscall_numbers) action ++ compile_names names action

  -- The loop over the rules.
  unfoldable pub compile_rules : List LinuxSyscall → Result (List SockFilter)
  compile_rules [] = ok []
  compile_rules (rule ∷ rules) = do
    refuse_if (not (is_empty rule.args)) "argument-conditional rules are not supported yet"
    action ← wrapping "syscalls" (action_value rule.action rule.errno_ret)
    rest ← compile_rules rules
    ok (compile_names rule.names action ++ rest)

  unfoldable pub compile_seccomp : LinuxSeccomp → Result (List SockFilter)
  compile_seccomp p = do
    refuse_if (a.audit_arch == 0) "seccomp: this architecture is not supported by lightpod"
    default_action ← wrapping "defaultAction" (action_value p.default_action p.default_errno_ret)
    rules ← compile_rules p.syscalls
    let filter =
        arch_check a.audit_arch
        ++ (x32_check a.guard_x32 ++ (rules ++ return_value default_action ∷ []))
    refuse_if (ltb max_filter_instructions (length filter))
        "seccomp filter exceeds the kernel limit"
    ok filter
