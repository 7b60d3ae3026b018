-- ===== src/Runtime/Mounts/Examples.antt =====
-- Options, and the default config prepared on a kernel that grants everything.
use lightpod.Base.{ℕ, ◌≡◌, refl, arith, true, false, none, some, List, [], ◌∷◌, ◌++◌, ok, err, msg}
use lightpod.Base.Int.{pos}
use lightpod.Base.Text.{Bytes, text, texts}
use lightpod.Oci.Path.Render.{IsName, is_special, render}
use lightpod.Oci.Spec.{Mount}
use lightpod.Oci.Defaults.{default_spec}
use lightpod.Kernel.{Kernel, Event, directory}
use lightpod.Runtime.SecureJoin.{Tree}
use lightpod.Runtime.SecureJoin.Links.{IsTree}
use lightpod.Runtime.Mounts.Options.{parse_mount_options, rootfs_propagation}
use lightpod.Runtime.Mounts.Options.Bits.{Reads, parse_mount_options-Reads}
use lightpod.Runtime.Mounts.Nodes.{dev_symlinks}
use lightpod.Runtime.Mounts.Prepare.{InitConfig, prepare_rootfs}
use lightpod.Runtime.Mounts.Single.{mount_one}
use lightpod.Runtime.Mounts.Made.{Mounted, mount_one-Mounted}
use lightpod.Runtime.Mounts.Confined.Whole.{PrivateFirst, prepare_rootfs-PrivateFirst}

abbrev some_options : List Bytes
some_options = texts ("ro" ∷ "bind" ∷ "size=1k" ∷ "rslave" ∷ "rw" ∷ "mode=1777" ∷ [])

options_read : parse_mount_options some_options ≡ (4096, 540672, text "size=1k,mode=1777")
unfolding parse_mount_options lightpod.Runtime.Mounts.Options.mount_flag_names
    lightpod.Base.Text.same lightpod.Runtime.Mounts.Options.propagation_flags
    lightpod.Base.Bits.and_not
options_read = refl

parse_mount_options-Reads_example : Reads some_options 12 (parse_mount_options some_options)
parse_mount_options-Reads_example = parse_mount_options-Reads some_options 12

abbrev granting : Kernel
granting = record {
  answer = λ h c. none;
  read_file = λ h path. ok (text "1");
  stat = λ h path. ok directory;
}

-- Every path is there, and none is a link.
abbrev plain : Tree
plain = record { lstat = λ path. some false; readlink = λ path. none }

plain-IsTree : IsTree plain
plain-IsTree = record { below_absent = λ xs ys e. ground arith }

abbrev rootfs_name : Bytes
rootfs_name = text "r"

rootfs-IsName : IsName rootfs_name
unfolding is_special
rootfs-IsName = (refl, ground arith)

abbrev config : InitConfig
config = record {
  spec = default_spec (text "rootfs") (texts ("/bin/sh" ∷ [])) false;
  rootfs = text "/r";
  id = text "c";
  bundle = text "/b";
  host_pid = pos 9;
  nodes = true;
  links = dev_symlinks;
}

config_rootfs : text "/r" ≡ render (rootfs_name ∷ [])
unfolding lightpod.Base.Text.join_with
config_rootfs = refl

prepare_rootfs-PrivateFirst_example :
    PrivateFirst
      (λ h. plain)
      (rootfs_name ∷ [])
      []
      (prepare_rootfs granting (λ h. plain) config []).1
prepare_rootfs-PrivateFirst_example =
    prepare_rootfs-PrivateFirst granting (λ h. plain) (λ h. plain-IsTree) rootfs_name []
      (rootfs-IsName, tt) config config_rootfs []

abbrev readonly_bind : Mount
readonly_bind = record {
  destination = text "/data";
  type = text "none";
  source = text "/srv";
  options = texts ("rbind" ∷ "ro" ∷ "rslave" ∷ []);
  uid_mappings = [];
  gid_mappings = [];
}

abbrev bind_events : List Event
unfolding mount_one
bind_events = (mount_one granting (λ h. plain) (text "/r") readonly_bind []).1

bind_made : mount_one granting (λ h. plain) (text "/r") readonly_bind [] ≡ (ok tt, bind_events)
unfolding mount_one lightpod.Runtime.SecureJoin.secure_join lightpod.Oci.Path.clean
    lightpod.Runtime.SecureJoin.round lightpod.Oci.Path.is_within lightpod.Oci.Path.join
    lightpod.Runtime.Mounts.Options.mount_flag_names
    lightpod.Runtime.Mounts.Options.propagation_flags
bind_made = refl

mount_one-Mounted_example : Mounted granting (λ h. plain) (text "/r") readonly_bind [] bind_events
mount_one-Mounted_example =
    mount_one-Mounted granting (λ h. plain) (text "/r") readonly_bind [] bind_events bind_made
