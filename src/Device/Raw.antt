-- ===== src/Device/Raw.antt =====
-- ParseRawDevice: a --device value becomes a device entry of the config. What os.Stat tells of a path
-- is a parameter.
pub mod Parsed
use lightpod.Base.{
  ℕ, ◌≡◌, ◌<◌, ◌^◌, refl, ap, sym, ◌∙◌, ◌||◌, ◌==◌, arith, Bool, true, false, not, Option, none,
  some, List, [], ◌∷◌, Result, ok, err, msg, wrapping, refuse_if, ◌>>=◌, ◌>>◌, >>=-eq-ok, ◌⊎◌, inl,
  inr,
}
use lightpod.Base.Int.{ℤ, pos}
use lightpod.Base.Text.{Bytes, text, same, has_prefix, contains_any, split}
use lightpod.Oci.Spec.{LinuxDevice}
use lightpod.Kernel.{FileKind, char_device, block_device, named_pipe}
use lightpod.Device.Numbers.{mkdev, major, minor, major-minor-mkdev}

-- The fields of syscall.Stat_t that are read.
pub record RawStat : Type 0 where
  pub rdev : ℕ
  pub uid : ℕ
  pub gid : ℕ

-- os.FileInfo: the type and the permission bits of Mode(), and Sys() where it is a Stat_t
pub record FileInfo : Type 0 where
  pub kind : FileKind
  pub perm : ℕ
  pub raw : Option RawStat

-- Host path, container path and permissions of the fields between the colons
abbrev pub two_fields : Bytes → Bytes → Bool → Bytes × Bytes × Bytes
two_fields host second true = (host, second, text "rwm")
two_fields host second false = (host, host, second)

unfoldable pub raw_fields : List Bytes → Result (Bytes × Bytes × Bytes)
raw_fields [] = err (msg "index out of range")
raw_fields (host ∷ []) = ok (host, host, text "rwm")
raw_fields (host ∷ second ∷ []) = ok (two_fields host second (has_prefix second (text "/")))
raw_fields (host ∷ container ∷ permissions ∷ []) = ok (host, container, permissions)
raw_fields (host ∷ container ∷ permissions ∷ extra ∷ rest) = err (msg "too many fields")

abbrev pub is_permission : ℕ → Bool
is_permission c = (c == b'r') || ((c == b'w') || (c == b'm'))

unfoldable pub validate_permissions : Bytes → Result (Unit {0})
unfolding contains_any
validate_permissions [] = err (msg "empty permission string")
validate_permissions (c ∷ p) =
    refuse_if (contains_any (λ c. not (is_permission c)) (c ∷ p))
      "permission must contain only r, w and m"

abbrev pub device_type : FileKind → Option Bytes
device_type char_device = some (text "c")
device_type block_device = some (text "b")
device_type named_pipe = some (text "p")
device_type kind = none

abbrev pub described : FileInfo → Option RawStat → Option Bytes → Result LinuxDevice
described info none type = err (msg "cannot read device numbers")
described info (some st) none = err (msg "not a device node")
described info (some st) (some type) = ok (record {
  path = [];
  type = type;
  major = major st.rdev;
  minor = minor st.rdev;
  file_mode = some info.perm;
  uid = some st.uid;
  gid = some st.gid;
})

-- dev.Path = path
abbrev pub at_path : Bytes → LinuxDevice → LinuxDevice
at_path path dev = record {
  path = path;
  type = dev.type;
  major = dev.major;
  minor = dev.minor;
  file_mode = dev.file_mode;
  uid = dev.uid;
  gid = dev.gid;
}

module _ (stat : Bytes → Result FileInfo) where
  unfoldable pub describe : Bytes → Result LinuxDevice
  describe host_path = do
    info ← wrapping "device" (stat host_path)
    described info info.raw (device_type info.kind)

  abbrev pub checked_device : Bytes × Bytes × Bytes → Result LinuxDevice
  checked_device (host_path, container_path, permissions) = do
    refuse_if (not (has_prefix host_path (text "/"))) "host path must be absolute"
    wrapping "device" (validate_permissions permissions)
    dev ← describe host_path
    ok (at_path container_path dev)

  unfoldable pub parse_raw_device : Bytes → Result LinuxDevice
  unfolding split raw_fields
  parse_raw_device value = do parts ← raw_fields (split value b':'); checked_device parts
