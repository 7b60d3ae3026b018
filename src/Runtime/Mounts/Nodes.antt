-- ===== src/Runtime/Mounts/Nodes.antt =====
-- createDevices and createDevSymlinks: the nodes below /dev.
use Prim.Native.Nat.{bit_and, bit_or}
use lightpod.Base.{
  ℕ, Bool, ◌||◌, ◌==◌, if◌then◌else◌, Option, none, some, List, [], ◌∷◌, ◌++◌, Result, ok, err,
  wrap, errno,
}
use lightpod.Base.Text.{Bytes, text, same}
use lightpod.Oci.Path.{dir}
use lightpod.Oci.Spec.{Linux, LinuxDevice}
use lightpod.Oci.Defaults.{default_devices}
use lightpod.Device.Numbers.{mkdev}
use lightpod.Kernel.{Kernel, Call, Event, did, refused, FileKind, mount, mknod, chown, symlink}
use lightpod.Kernel.Actions.{Os, ◌>>=◌, ◌>>◌, pure, fail, wrapped, perform, perform_unless}
use lightpod.Runtime.SecureJoin.{Tree}
use lightpod.Runtime.Mounts.Options.{ms_bind}
use lightpod.Runtime.Mounts.Single.{eexist, make_dir, make_file, resolve}

-- S_IFCHR, S_IFBLK and S_IFIFO
unfoldable pub node_mode : Bytes → Option ℕ
unfolding same
node_mode type =
    if same type (text "c") || same type (text "u")
    then some 8192
    else if same type (text "b")
    then some 24576
    else if same type (text "p")
    then some 4096
    else none

abbrev pub default_to : ℕ → Option ℕ → ℕ
default_to n none = n
default_to n (some m) = m

-- The links of /dev, what each points to first. A Go map has no order.
unfoldable pub dev_symlinks : List (Bytes × Bytes)
dev_symlinks =
    (text "/proc/self/fd", text "/dev/fd")
    ∷ (text "/proc/self/fd/0", text "/dev/stdin")
    ∷ (text "/proc/self/fd/1", text "/dev/stdout")
    ∷ (text "/proc/self/fd/2", text "/dev/stderr")
    ∷ (text "/dev/pts/ptmx", text "/dev/ptmx")
    ∷ []

abbrev pub devices_of : Option Linux → List LinuxDevice
devices_of none = []
devices_of (some linux) = linux.devices

module _ (k : Kernel) where
  -- What follows syscall.Mknod: the owner is set on a node that is new, and a node that was there
  -- is left alone.
  abbrev pub own_node : Bytes → LinuxDevice → Os (Unit {0})
  own_node target dev =
      wrapped "setting owner on device"
        (perform k (chown target (default_to 0 dev.uid) (default_to 0 dev.gid)))

  abbrev pub made_node : Bytes → LinuxDevice → Call → Option ℕ → Os (Unit {0})
  made_node target dev c none h = own_node target dev (did c ∷ h)
  made_node target dev c (some e) h = (
    (if e == eexist then ok tt else err (wrap "creating device node" (errno e))),
    refused c e ∷ h,
  )

  abbrev pub node_call : Bytes → LinuxDevice → ℕ → Call
  node_call target dev type =
      mknod target (bit_or type (bit_and (default_to 438 dev.file_mode) 4095))
        (mkdev dev.major dev.minor)

  abbrev pub make_node : Bytes → LinuxDevice → Option ℕ → Os (Unit {0})
  make_node target dev none h = fail "unknown device type" h
  make_node target dev (some type) h =
      let c = node_call target dev type in made_node target dev c (k.answer h c) h

  unfoldable pub mknod_device : Bytes → LinuxDevice → Os (Unit {0})
  unfolding node_mode
  mknod_device target dev = make_node target dev (node_mode dev.type)

  -- A device that the host does not have is left out.
  abbrev pub bind_found : Bytes → LinuxDevice → Result FileKind → Os (Unit {0})
  bind_found target dev (err e) = pure tt
  bind_found target dev (ok kind) = do
    make_file k target
    wrapped "bind mounting device" (perform k (mount dev.path target [] ms_bind []))

  unfoldable pub bind_device : Bytes → LinuxDevice → Os (Unit {0})
  bind_device target dev h = bind_found target dev (k.stat h dev.path) h

  module _ (tree : List Event → Tree) (rootfs : Bytes) where
    -- cfg.Mode.SupportsDeviceNodes() is the flag.
    unfoldable pub create_device : Bool → LinuxDevice → Os (Unit {0})
    create_device nodes dev = do
      target ← resolve k tree rootfs dev.path
      make_dir k (dir target)
      if nodes then mknod_device target dev else bind_device target dev

    unfoldable pub create_all : Bool → List LinuxDevice → Os (Unit {0})
    unfolding create_device
    create_all nodes [] = pure tt
    create_all nodes (dev ∷ devices) = do create_device nodes dev; create_all nodes devices

    unfoldable pub create_devices : Bool → Option Linux → Os (Unit {0})
    unfolding create_all
    create_devices nodes linux = create_all nodes (default_devices ++ devices_of linux)

    -- The links in the order in which the map is ranged over
    unfoldable pub create_dev_symlinks : List (Bytes × Bytes) → Os (Unit {0})
    create_dev_symlinks [] = pure tt
    create_dev_symlinks ((oldname, newname) ∷ links) = do
      target ← resolve k tree rootfs newname
      wrapped "linking" (perform_unless k eexist (symlink oldname target))
      create_dev_symlinks links
