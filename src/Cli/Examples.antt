-- ===== src/Cli/Examples.antt =====
-- Flags on the default config.
use lightpod.Base.{◌≡◌, refl, false, true, some, [], ◌∷◌, Result, ok, err, msg}
use lightpod.Base.Int.{pos}
use lightpod.Base.Text.{split, Bytes, text, texts, same}
use lightpod.Oci.Spec.{Spec, Mount}
use lightpod.Oci.Defaults.{default_spec}
use lightpod.Device.Raw.{FileInfo}
use lightpod.Cli.Values.{parse_size}
use lightpod.Cli.Volumes.{parse_volume, Volume, parse_volume-Volume}
use lightpod.Cli.Flags.{RunFlags, apply_run_flags}
use lightpod.Cli.Kept.{Flagged, apply_run_flags-Flagged}

size_read : parse_size (text " 64M") ≡ ok (pos 67108864)
unfolding parse_size
size_read = refl

-- The product wraps around, and letters of units are dropped one by one.
size_wraps : parse_size (text "17179869184g") ≡ ok (pos 0)
unfolding parse_size
size_wraps = refl

abbrev logs_volume : Mount
logs_volume = record {
  destination = text "/logs";
  type = text "none";
  source = text "/var/log";
  options = texts ("rbind" ∷ "nosuid" ∷ "nodev" ∷ "ro" ∷ []);
  uid_mappings = [];
  gid_mappings = [];
}

logs_parsed : parse_volume (text "/var/log:/logs:ro") ≡ ok logs_volume
unfolding parse_volume
logs_parsed = refl

parse_volume-Volume_example : Volume (split (text "/var/log:/logs:ro") b':') logs_volume
parse_volume-Volume_example = parse_volume-Volume (text "/var/log:/logs:ro") logs_volume logs_parsed

abbrev no_devices : Bytes → Result FileInfo
no_devices path = err (msg "no such file")

abbrev some_flags : RunFlags
some_flags = record {
  memory = text "64m";
  cpu_quota = some (pos 150000);
  pids = pos 0;
  hostname = text "box";
  seccomp = text "unconfined";
  readonly = true;
  tty = false;
  shm_size = text "1m";
  ipc = text "host";
  workdir = text "/tmp";
  user = text "5:7";
  gpu = text "all";
  volumes = texts ("/var/log:/logs:ro" ∷ []);
  devices = [];
  env = texts ("A=b" ∷ []);
  add_caps = texts ("sys_nice" ∷ []);
}

abbrev plain_spec : Spec
plain_spec = default_spec (text "rootfs") (texts ("/bin/sh" ∷ [])) false

abbrev result_or : Spec → Result Spec → Spec
result_or spec (ok spec') = spec'
result_or spec (err e) = spec

abbrev flagged_spec : Spec
unfolding apply_run_flags
flagged_spec = result_or plain_spec (apply_run_flags no_devices some_flags plain_spec)

flags_accepted : apply_run_flags no_devices some_flags plain_spec ≡ ok flagged_spec
unfolding apply_run_flags default_spec
flags_accepted = refl

apply_run_flags-Flagged_example :
    Flagged (same (text "unconfined") (text "unconfined")) plain_spec flagged_spec
apply_run_flags-Flagged_example =
    apply_run_flags-Flagged no_devices some_flags plain_spec flagged_spec flags_accepted
