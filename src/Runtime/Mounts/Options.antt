-- ===== src/Runtime/Mounts/Options.antt =====
-- Mount options and propagation modes of pkg/runtime/fs.go as flag words of mount(2).
pub mod Bits
use Prim.Native.Nat.{bit_and, bit_or}
use lightpod.Base.{
  ℕ, ◌^◌, ◌==◌, Bool, true, false, not, if◌then◌else◌, Option, none, some, List, [], ◌∷◌, ◌++◌,
  Result, ok, err, msg,
}
use lightpod.Base.Text.{Bytes, text, same, lookup, join_with}
use lightpod.Base.Bits.{and_not}
use lightpod.Oci.Spec.{Spec, Linux}
use lightpod.Security.Syscalls.Arch.{entries}

-- The bits of the MS_* flags
abbrev pub rdonly_bit : ℕ
rdonly_bit = 0

abbrev pub bind_bit : ℕ
bind_bit = 12

abbrev pub rec_bit : ℕ
rec_bit = 14

abbrev pub private_bit : ℕ
private_bit = 18

abbrev pub shared_bit : ℕ
shared_bit = 20

abbrev pub ms_rdonly : ℕ
ms_rdonly = 2 ^ rdonly_bit

abbrev pub ms_remount : ℕ
ms_remount = 2 ^ 5

abbrev pub ms_bind : ℕ
ms_bind = 2 ^ bind_bit

abbrev pub ms_rec : ℕ
ms_rec = 2 ^ rec_bit

abbrev pub ms_private : ℕ
ms_private = 2 ^ private_bit

abbrev pub ms_shared : ℕ
ms_shared = 2 ^ shared_bit

-- flags & flag != 0, flags | flag
abbrev pub has_flag : ℕ → ℕ → Bool
has_flag flags flag = not (bit_and flags flag == 0)

-- Whether an option clears its flags, and the flags.
pub record MountFlag : Type 0 where
  pub clear : Bool
  pub flag : ℕ

abbrev sets : ℕ → MountFlag
sets flag = record { clear = false; flag = flag }

abbrev clears : ℕ → MountFlag
clears flag = record { clear = true; flag = flag }

unfoldable pub mount_flag_names : List (Bytes × MountFlag)
mount_flag_names =
    (text "ro", sets (2 ^ 0))
    ∷ (text "rw", clears (2 ^ 0))
    ∷ (text "suid", clears (2 ^ 1))
    ∷ (text "nosuid", sets (2 ^ 1))
    ∷ (text "dev", clears (2 ^ 2))
    ∷ (text "nodev", sets (2 ^ 2))
    ∷ (text "exec", clears (2 ^ 3))
    ∷ (text "noexec", sets (2 ^ 3))
    ∷ (text "sync", sets (2 ^ 4))
    ∷ (text "async", clears (2 ^ 4))
    ∷ (text "dirsync", sets (2 ^ 7))
    ∷ (text "remount", sets (2 ^ 5))
    ∷ (text "mand", sets (2 ^ 6))
    ∷ (text "nomand", clears (2 ^ 6))
    ∷ (text "atime", clears (2 ^ 10))
    ∷ (text "noatime", sets (2 ^ 10))
    ∷ (text "diratime", clears (2 ^ 11))
    ∷ (text "nodiratime", sets (2 ^ 11))
    ∷ (text "bind", sets ms_bind)
    ∷ (text "rbind", sets (bit_or ms_bind ms_rec))
    ∷ (text "relatime", sets (2 ^ 21))
    ∷ (text "norelatime", clears (2 ^ 21))
    ∷ (text "strictatime", sets (2 ^ 24))
    ∷ (text "nostrictatime", clears (2 ^ 24))
    ∷ []

unfoldable pub propagation_flags : List (Bytes × ℕ)
propagation_flags =
    (text "private", ms_private)
    ∷ (text "rprivate", bit_or ms_private ms_rec)
    ∷ (text "slave", 2 ^ 19)
    ∷ (text "rslave", bit_or (2 ^ 19) ms_rec)
    ∷ (text "shared", ms_shared)
    ∷ (text "rshared", bit_or ms_shared ms_rec)
    ∷ (text "unbindable", 2 ^ 17)
    ∷ (text "runbindable", bit_or (2 ^ 17) ms_rec)
    ∷ []

-- Flags, propagation, and the options that are neither, in their order.
pub record Parsed : Type 0 where
  pub flags : ℕ
  pub propagation : ℕ
  pub data_opts : List Bytes

abbrev pub flip : MountFlag → ℕ → ℕ
flip entry flags = if entry.clear then and_not flags entry.flag else bit_or flags entry.flag

-- The body of the loop, with what the two maps know of the option.
abbrev pub with_option : Parsed → Bytes → Option MountFlag → Option ℕ → Parsed
with_option p opt (some entry) o = record {
  flags = flip entry p.flags;
  propagation = p.propagation;
  data_opts = p.data_opts;
}
with_option p opt none (some q) = record {
  flags = p.flags;
  propagation = bit_or p.propagation q;
  data_opts = p.data_opts;
}
with_option p opt none none = record {
  flags = p.flags;
  propagation = p.propagation;
  data_opts = p.data_opts ++ opt ∷ [];
}

unfoldable pub parse_options_from : Parsed → List Bytes → Parsed
unfolding lookup
parse_options_from p [] = p
parse_options_from p (opt ∷ options) =
    parse_options_from
      (with_option p opt (lookup opt mount_flag_names) (lookup opt propagation_flags)) options

abbrev pub no_options : Parsed
no_options = record { flags = 0; propagation = 0; data_opts = [] }

unfoldable pub parse_mount_options : List Bytes → ℕ × ℕ × Bytes
unfolding parse_options_from join_with
parse_mount_options options =
    let p = parse_options_from no_options options in
    (p.flags, p.propagation, join_with b',' p.data_opts)

-- A mode that the map knows is taken unless it is shared.
abbrev pub usable_mode : Option ℕ → Result ℕ
usable_mode none = err (msg "not a known propagation mode")
usable_mode (some p) =
    if has_flag p ms_shared then err (msg "linux.rootfsPropagation cannot be honoured") else ok p

abbrev pub propagation_of : Bytes → Result ℕ
propagation_of [] = ok 0
propagation_of (c ∷ mode) = usable_mode (lookup (c ∷ mode) propagation_flags)

unfoldable pub rootfs_propagation : Option Linux → Result ℕ
unfolding lookup propagation_flags
rootfs_propagation none = ok 0
rootfs_propagation (some linux) = propagation_of linux.rootfs_propagation
