-- ===== src/Runtime/Init/Examples.antt =====
-- A small container whose init process reaches its command on a kernel that grants everything.
use lightpod.Base.{◌≡◌, refl, false, none, some, List, [], ◌∷◌, ok}
use lightpod.Base.Int.{pos}
use lightpod.Base.Text.{text, texts}
use lightpod.Oci.Spec.{Spec, Process}
use lightpod.Security.Syscalls.Amd64.{amd64}
use lightpod.Kernel.{Kernel, Event, directory}
use lightpod.Runtime.SecureJoin.{Tree}
use lightpod.Runtime.Mounts.Prepare.{InitConfig}
use lightpod.Runtime.Launch.{Surroundings}
use lightpod.Runtime.Init.{init_setup}
use lightpod.Runtime.Init.Ready.{Ready, init_setup-Ready}

abbrev granting : Kernel
granting = record {
  answer = λ h c. none;
  read_file = λ h path. ok (text "1");
  stat = λ h path. ok directory;
}

abbrev plain : Tree
plain = record { lstat = λ path. some false; readlink = λ path. none }

abbrev here : Surroundings
here = record {
  environ = [];
  own_path = text "/bin";
  look_path = λ h path name. ok (text "/bin/sh");
}

abbrev shell : Process
shell = record {
  terminal = false;
  console_size = none;
  user = record { uid = 0; gid = 0; umask = none; additional_gids = []; username = [] };
  args = texts ("sh" ∷ []);
  command_line = [];
  env = texts ("A=b" ∷ []);
  cwd = text "/";
  capabilities = none;
  rlimits = [];
  no_new_privileges = false;
  apparmor_profile = [];
  oom_score_adj = none;
  selinux_label = [];
}

abbrev small_spec : Spec
small_spec = record {
  version = text "1";
  process = some shell;
  root = none;
  hostname = text "box";
  domainname = [];
  mounts = [];
  hooks = none;
  annotations = [];
  linux = none;
}

abbrev config : InitConfig
config = record {
  spec = small_spec;
  rootfs = text "/r";
  id = text "c";
  bundle = text "/b";
  host_pid = pos 9;
  nodes = false;
  links = [];
}

abbrev all_events : List Event
unfolding init_setup
all_events = (init_setup granting amd64 here (λ h. plain) config []).1

reached : init_setup granting amd64 here (λ h. plain) config [] ≡ (ok tt, all_events)
unfolding init_setup lightpod.Runtime.Init.join_namespaces lightpod.Runtime.Init.set_hostname
    lightpod.Runtime.Init.has_namespace lightpod.Runtime.Init.lists_type
    lightpod.Runtime.Init.run_hooks lightpod.Runtime.Mounts.Prepare.prepare_rootfs
    lightpod.Runtime.Mounts.Prepare.fill_rootfs lightpod.Runtime.Mounts.Options.rootfs_propagation
    lightpod.Runtime.Mounts.Single.mount_all lightpod.Runtime.Mounts.Nodes.create_devices
    lightpod.Runtime.Mounts.Nodes.create_all lightpod.Runtime.Mounts.Nodes.create_device
    lightpod.Runtime.Mounts.Nodes.bind_device lightpod.Runtime.Mounts.Nodes.create_dev_symlinks
    lightpod.Oci.Defaults.default_devices lightpod.Runtime.SecureJoin.secure_join
    lightpod.Runtime.SecureJoin.walk lightpod.Runtime.SecureJoin.round
    lightpod.Runtime.SecureJoin.step lightpod.Oci.Path.clean lightpod.Oci.Path.join
    lightpod.Oci.Path.is_within lightpod.Oci.Path.dir lightpod.Base.Text.same
    lightpod.Base.Text.split lightpod.Base.Text.cut lightpod.Base.Text.join_with
    lightpod.Base.Text.trim_prefix lightpod.Base.Text.has_prefix lightpod.Base.Text.drop_prefix
    lightpod.Runtime.Mounts.Prepare.finalize_rootfs lightpod.Runtime.Mounts.Prepare.pivot_to
    lightpod.Runtime.Launch.exec_user_process lightpod.Runtime.Launch.search_path
    lightpod.Runtime.Launch.apply_process_limits lightpod.Runtime.Launch.set_limits
    lightpod.Runtime.Launch.setup_user lightpod.Security.Capabilities.Apply.apply_capabilities
    lightpod.Security.Capabilities.resolve_capabilities
    lightpod.Security.Capabilities.Apply.drop_bounding
    lightpod.Security.Capabilities.Apply.last_capability lightpod.Base.Int.parse_int
    lightpod.Base.Text.trim_space lightpod.Base.Text.trim_left lightpod.Base.Text.trim_right
    lightpod.Base.Text.parse_uint lightpod.Base.Text.scan_digits lightpod.Security.Capabilities.has
    lightpod.Security.Capabilities.Apply.raise_ambient lightpod.Security.Install.set_no_new_privs
    lightpod.Security.Install.apply_seccomp
reached = refl

init_setup-Ready_example : Ready granting amd64 here (λ h. plain) config [] all_events
init_setup-Ready_example =
    init_setup-Ready granting amd64 here (λ h. plain) config [] all_events reached
