-- ===== src/Security/Capabilities.antt =====
-- pkg/security/capabilities.go: the sets that a spec asks for, and how the process is reduced to them.
pub mod Parse
pub mod Apply
mod Examples
use Prim.Native.Nat.{bit_and, bit_or}
use lightpod.Base.{
  ℕ, zero, suc, ◌+◌, ◌/◌, ◌%◌, ◌^◌, Bool, not, ◌==◌, if◌then◌else◌, Option, none, some, String,
  List, [], ◌∷◌, Result, ok, err, msg, wrapping, ◌>>=◌,
}
use lightpod.Base.Text.{Bytes, text, to_upper, lookup}
use lightpod.Oci.Spec.{LinuxCapabilities}
use lightpod.Security.Syscalls.Arch.{entries}

unfoldable pub capability_names : List (Bytes × ℕ)
capability_names = entries (
    ("CAP_CHOWN", 0)
    ∷ ("CAP_DAC_OVERRIDE", 1)
    ∷ ("CAP_DAC_READ_SEARCH", 2)
    ∷ ("CAP_FOWNER", 3)
    ∷ ("CAP_FSETID", 4)
    ∷ ("CAP_KILL", 5)
    ∷ ("CAP_SETGID", 6)
    ∷ ("CAP_SETUID", 7)
    ∷ ("CAP_SETPCAP", 8)
    ∷ ("CAP_LINUX_IMMUTABLE", 9)
    ∷ ("CAP_NET_BIND_SERVICE", 10)
    ∷ ("CAP_NET_BROADCAST", 11)
    ∷ ("CAP_NET_ADMIN", 12)
    ∷ ("CAP_NET_RAW", 13)
    ∷ ("CAP_IPC_LOCK", 14)
    ∷ ("CAP_IPC_OWNER", 15)
    ∷ ("CAP_SYS_MODULE", 16)
    ∷ ("CAP_SYS_RAWIO", 17)
    ∷ ("CAP_SYS_CHROOT", 18)
    ∷ ("CAP_SYS_PTRACE", 19)
    ∷ ("CAP_SYS_PACCT", 20)
    ∷ ("CAP_SYS_ADMIN", 21)
    ∷ ("CAP_SYS_BOOT", 22)
    ∷ ("CAP_SYS_NICE", 23)
    ∷ ("CAP_SYS_RESOURCE", 24)
    ∷ ("CAP_SYS_TIME", 25)
    ∷ ("CAP_SYS_TTY_CONFIG", 26)
    ∷ ("CAP_MKNOD", 27)
    ∷ ("CAP_LEASE", 28)
    ∷ ("CAP_AUDIT_WRITE", 29)
    ∷ ("CAP_AUDIT_CONTROL", 30)
    ∷ ("CAP_SETFCAP", 31)
    ∷ ("CAP_MAC_OVERRIDE", 32)
    ∷ ("CAP_MAC_ADMIN", 33)
    ∷ ("CAP_SYSLOG", 34)
    ∷ ("CAP_WAKE_ALARM", 35)
    ∷ ("CAP_BLOCK_SUSPEND", 36)
    ∷ ("CAP_AUDIT_READ", 37)
    ∷ ("CAP_PERFMON", 38)
    ∷ ("CAP_BPF", 39)
    ∷ ("CAP_CHECKPOINT_RESTORE", 40)
    ∷ [])

-- A capSet is a uint64.
abbrev pub CapSet : Type 0
CapSet = ℕ

-- 1 << uint(bit), which is 0 from bit 64 on
abbrev pub bit_mask : ℕ → ℕ
bit_mask bit = 2 ^ bit % 2 ^ 64

unfoldable pub add : CapSet → ℕ → CapSet
add s bit = bit_or s (bit_mask bit)

unfoldable pub has : CapSet → ℕ → Bool
has s bit = not (bit_and s (bit_mask bit) == 0)

unfoldable pub low : CapSet → ℕ
low s = bit_and s 0xffffffff

unfoldable pub high : CapSet → ℕ
high s = s / 2 ^ 32 % 2 ^ 32

-- The loop of parseCapabilities.
unfoldable pub parse_names : CapSet → List Bytes → Result CapSet
unfolding add
parse_names set [] = ok set
parse_names set (name ∷ names) = elim (lookup (to_upper name) capability_names) [
  | none ↦ err (msg "unknown capability")
  | some bit ↦ parse_names (add set bit) names
]

unfoldable pub parse_capabilities : List Bytes → Result CapSet
parse_capabilities names = parse_names 0 names

pub record CapabilityPolicy : Type 0 where
  pub bounding : CapSet
  pub effective : CapSet
  pub permitted : CapSet
  pub inheritable : CapSet
  pub ambient : CapSet

abbrev pub empty_policy : CapabilityPolicy
empty_policy = record { bounding = 0; effective = 0; permitted = 0; inheritable = 0; ambient = 0 }

-- No section means five empty sets.
unfoldable pub resolve_capabilities : Option LinuxCapabilities → Result CapabilityPolicy
resolve_capabilities none = ok empty_policy
resolve_capabilities (some caps) = do
  bounding ← wrapping "capabilities.bounding" (parse_capabilities caps.bounding)
  effective ← wrapping "capabilities.effective" (parse_capabilities caps.effective)
  permitted ← wrapping "capabilities.permitted" (parse_capabilities caps.permitted)
  inheritable ← wrapping "capabilities.inheritable" (parse_capabilities caps.inheritable)
  ambient ← wrapping "capabilities.ambient" (parse_capabilities caps.ambient)
  ok (record {
    bounding = bounding;
    effective = effective;
    permitted = permitted;
    inheritable = inheritable;
    ambient = ambient;
  })
