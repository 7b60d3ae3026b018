-- ===== src/Device/Examples.antt =====
-- Device numbers and a --device value.
use lightpod.Base.{
  ℕ, ◌≡◌, refl, ◌<◌, ◌^◌, arith, none, some, false, List, [], ◌∷◌, Result, ok, err, msg, wrap,
  if◌then◌else◌,
}
use lightpod.Base.Int.{pos}
use lightpod.Base.Text.{cut, Bytes, text, texts, same}
use lightpod.Oci.Spec.{LinuxDevice}
use lightpod.Kernel.{char_device}
use lightpod.Device.Numbers.{mkdev, major, minor, major-minor-mkdev}
use lightpod.Device.Raw.{FileInfo, RawStat, parse_raw_device}
use lightpod.Device.Nvidia.{nvidia_env}
use lightpod.Device.Nvidia.Env.{IsEnviron, Asks, nvidia_env-Asks}
use lightpod.Device.Raw.Parsed.{IsStat, Parsed, parse_raw_device-Parsed}

-- Numbers that need the high ranges: 5000 and 9000
high_numbers :
    (major (mkdev (pos 5000) (pos 9000)) ≡ pos 5000)
    × (minor (mkdev (pos 5000) (pos 9000)) ≡ pos 9000)
unfolding mkdev major minor
high_numbers = (refl, refl)

major-minor-mkdev_example :
    (mkdev (pos 5000) (pos 9000) < 2 ^ 64)
    × (major (mkdev (pos 5000) (pos 9000)) ≡ pos 5000)
    × (minor (mkdev (pos 5000) (pos 9000)) ≡ pos 9000)
    × (mkdev (major 259) (minor 259) ≡ 259)
major-minor-mkdev_example =
    major-minor-mkdev 5000 9000 259 (omega arith) (omega arith) (omega arith)

abbrev null_stat : RawStat
null_stat = record { rdev = 259; uid = 0; gid = 0 }

abbrev null_info : FileInfo
null_info = record { kind = char_device; perm = 438; raw = some null_stat }

-- A host where every path is /dev/null
abbrev nulls : Bytes → Result FileInfo
nulls path = ok null_info

nulls-IsStat : IsStat nulls
nulls-IsStat = record { rdev_fits = λ path info st found raw. fits info st found raw }
  where
    fits :
        (info : FileInfo) (st : RawStat)
        → ok null_info ≡ ok info
        → info.raw ≡ some st
        → st.rdev < 2 ^ 64
    fits info st found raw = ground arith

abbrev null_device : LinuxDevice
null_device = record {
  path = text "/dev/x";
  type = text "c";
  major = pos 1;
  minor = pos 3;
  file_mode = some 438;
  uid = some 0;
  gid = some 0;
}

null_parsed : parse_raw_device nulls (text "/dev/null:/dev/x:rw") ≡ ok null_device
unfolding parse_raw_device lightpod.Base.Text.has_prefix lightpod.Device.Raw.validate_permissions
    lightpod.Device.Raw.describe major minor
null_parsed = refl

bad_permissions :
    parse_raw_device nulls (text "/dev/null:/dev/x:rwx")
    ≡ err (wrap "device" (msg "permission must contain only r, w and m"))
unfolding parse_raw_device lightpod.Base.Text.has_prefix lightpod.Device.Raw.validate_permissions
bad_permissions = refl

parse_raw_device-Parsed_example : Parsed nulls (text "/dev/null:/dev/x:rw") null_device
parse_raw_device-Parsed_example =
    parse_raw_device-Parsed nulls nulls-IsStat (text "/dev/null:/dev/x:rw") null_device null_parsed

abbrev small_env : List Bytes
small_env = texts ("TERM=xterm" ∷ "NVIDIA_VISIBLE_DEVICES=none" ∷ [])

term_ne :
    (same (text "NVIDIA_VISIBLE_DEVICES") (text "TERM") ≡ false)
    × (same (text "NVIDIA_DRIVER_CAPABILITIES") (text "TERM") ≡ false)
unfolding same
term_ne = (refl, refl)

small_env-IsEnviron : IsEnviron small_env
unfolding cut
small_env-IsEnviron = (refl, (refl, tt))

nvidia_env-Asks_example :
    Asks (text "0,1") (text "TERM") small_env (nvidia_env (text "0,1") small_env)
nvidia_env-Asks_example =
    let (visible, capabilities) = term_ne in
    nvidia_env-Asks (text "0,1") (text "TERM") small_env small_env-IsEnviron visible capabilities
