-- ===== src/Runtime/Launch/Examples.antt =====
-- A user's command started on a kernel that grants everything.
use lightpod.Base.{ℕ, ◌≡◌, refl, true, false, none, some, List, [], ◌∷◌, ok, err, msg}
use lightpod.Base.Text.{Bytes, text, texts}
use lightpod.Oci.Spec.{Process}
use lightpod.Security.Syscalls.Amd64.{amd64}
use lightpod.Kernel.{Kernel, Event, directory}
use lightpod.Runtime.Launch.{Surroundings, exec_user_process}
use lightpod.Runtime.Launch.Hardened.{Launched, exec_user_process-Launched}

abbrev granting : Kernel
granting = record {
  answer = λ h c. none;
  read_file = λ h path. ok (text "1");
  stat = λ h path. ok directory;
}

abbrev here : Surroundings
here = record {
  environ = [];
  own_path = text "/bin";
  look_path = λ h path name. ok (text "/bin/sh");
}

abbrev shell : Process
shell = record {
  terminal = false;
  console_size = none;
  user = record { uid = 5; gid = 7; umask = some 18; additional_gids = 9 ∷ []; username = [] };
  args = texts ("sh" ∷ []);
  command_line = [];
  env = texts ("A=b" ∷ "PATH=/bin" ∷ []);
  cwd = text "/";
  capabilities = none;
  rlimits = record { type = text "RLIMIT_CPU"; hard = 2; soft = 1 } ∷ [];
  no_new_privileges = true;
  apparmor_profile = [];
  oom_score_adj = none;
  selinux_label = [];
}

abbrev shell_calls : List Event
unfolding exec_user_process
shell_calls = (exec_user_process granting amd64 here shell none []).1

shell_started : exec_user_process granting amd64 here shell none [] ≡ (ok tt, shell_calls)
unfolding exec_user_process lightpod.Runtime.Launch.apply_process_limits
    lightpod.Runtime.Launch.set_limits lightpod.Base.Text.lookup
    lightpod.Runtime.Launch.rlimit_resources lightpod.Base.Text.same lightpod.Base.Text.to_upper
    lightpod.Runtime.Launch.setup_user lightpod.Security.Install.set_keep_caps
    lightpod.Security.Capabilities.Apply.apply_capabilities
    lightpod.Security.Capabilities.resolve_capabilities
    lightpod.Security.Capabilities.Apply.drop_bounding
    lightpod.Security.Capabilities.Apply.last_capability lightpod.Base.Int.parse_int
    lightpod.Base.Text.trim_space lightpod.Security.Capabilities.has
    lightpod.Security.Capabilities.Apply.raise_ambient lightpod.Security.Install.set_no_new_privs
    lightpod.Security.Install.apply_seccomp
shell_started = refl

exec_user_process-Launched_example : Launched granting amd64 here shell none [] shell_calls
exec_user_process-Launched_example =
    exec_user_process-Launched granting amd64 here shell none [] shell_calls shell_started
