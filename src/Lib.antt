-- ===== src/Lib.antt =====
-- lightpod is a daemonless OCI container runtime. cmd/lightpod reads the command line and a bundle;
-- pkg/oci holds the types of the runtime spec and the defaults; pkg/runtime creates a container in
-- two processes, the host side (container.go, ns.go, cgroups.go) and the init side (init.go, fs.go);
-- pkg/security reduces the process to its capabilities and installs the seccomp filter; pkg/state
-- keeps a record per container on disk; pkg/device grants devices.
--
-- The modules and the code that they model:
-- - Base: shared types, Go's strings and integers, `(value, error)` results, and lemmas.
-- - Oci.Spec, Oci.Defaults, Oci.Profile: runtime_spec.go, state.go, defaults.go and
--   seccomp_profile.go of pkg/oci. Oci.Path: the functions of path/filepath that the program calls,
--   written out over lists of bytes for Linux paths, and IsWithin of load.go.
-- - Oci.Rootfs: ResolveRootfs and Namespace of load.go.
-- - Security.Syscalls: the number tables of pkg/security. Security.Seccomp: seccomp.go
--   (CompileSeccomp is compile_seccomp). Security.Capabilities: capabilities.go (ApplyCapabilities is
--   apply_capabilities).
-- - Kernel: system calls as values, the kernel as a parameter that answers them by what has happened
--   so far, and a monad for code that makes them.
-- - Store: pkg/state/store.go. A disk is a list of container directories, each with its record and
--   its temporary file as bytes. encoding/json, the errors of the file system, the lock and signal 0
--   are the parameter Host; whoever waits for the lock finds the disk as others have left it. Save, Load, Create, Delete and List keep their names.
-- - Runtime.SecureJoin: secureJoin of pkg/runtime/fs.go.
-- - Runtime.Cgroups: pkg/runtime/cgroups.go (containerCgroupPath, sharesToWeight, checkControllers,
--   SetResources, Apply and Cleanup).
-- - Runtime.Namespaces: cloneFlags of pkg/runtime/ns.go.
-- - Runtime.Mounts: the rest of pkg/runtime/fs.go. Options has the tables and parseMountOptions, Single
--   mountOne, Nodes createDevices and createDevSymlinks, Sysctl applySysctls, Covers maskPaths and
--   readonlyPaths, Prepare prepareRootfs, finalizeRootfs and pivotRoot. A Go map that is ranged over is
--   a list in the order of that range.
-- - Runtime.Init: initSetup of pkg/runtime/init.go with joinNamespaces of ns.go, HasNamespace of
--   pkg/oci/load.go and runHooks of hooks.go, composed of Runtime.Mounts and Runtime.Launch.
-- - Runtime.Launch: execUserProcess of pkg/runtime/init.go and what it calls, with Security.Install for
--   ApplySeccomp, SetNoNewPrivs and SetKeepCaps. exec.LookPath is a parameter that depends on what has
--   happened so far.
-- - Runtime.Handshake: the messages of pkg/runtime/sync.go between Create (container.go) and the init
--   process (InitStage1, InitStage2 and initSetup of init.go) as a step relation on both sides at once.
--   The config goes byte by byte through a pipe of a given capacity. Init may die at any time.
-- - Runtime.IdMaps: idMappings, subIDRange and writeIDMaps of pkg/runtime/ns.go.
-- - Device: pkg/device/devices.go (Mkdev, Major, Minor and ParseRawDevice) and SetNVIDIAEnv of nvidia.go.
-- - Cli: applyRunFlags and parseSize of cmd/lightpod/run.go, and cmd/lightpod/flags.go.
-- - Runtime.Lifecycle: Start, Kill, Delete and State of pkg/runtime/container.go, over Store. What
--   they do to the outside is recorded as a list of acts, the newest first.
--
-- Strings are lists of bytes. Upper and lower case and white space are those of ASCII. An error
-- carries its message without the formatted arguments. Integers are natural numbers with the
-- wrap-around of their width written out where the source can overflow.
--
-- The loop of secureJoin makes at most 33 rounds, which is the bound of the source itself and not
-- fuel of the model. Printing a number has one more digit than its value as fuel, and a number has
-- fewer digits than that. All other loops run over a list or a range that is known before they start.
--
-- Not modelled: the raw system calls of syscall_linux.go and terminal and pipe I/O, which are
-- parameters; the local steps of Create between its messages, and Run; the body of a hook's process; the
-- search for the NVIDIA toolkit; the commands of cmd/lightpod but for their flags; JSON files and display.
pub mod Base
pub mod Oci
pub mod Security
pub mod Kernel
pub mod Cli
pub mod Device
pub mod Runtime
pub mod Store
