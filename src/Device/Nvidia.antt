-- ===== src/Device/Nvidia.antt =====
-- pkg/device/nvidia.go: the environment that asks for GPUs. The search for the hook is left out.
pub mod Env
use lightpod.Base.{
  ℕ, ◌≡◌, ◌≢◌, refl, sym, ap, ◌∙◌, arith, ◌==◌, ◌&&◌, Bool, Bool-cases, inl, inr, true, false,
  if◌then◌else◌, Option, none, some, List, [], ◌∷◌, ◌++◌, Result, ok, err, msg,
}
use lightpod.Base.Text.{Bytes, text, same, same_refl, same_iff, cut}
use lightpod.Oci.Spec.{Spec, Process}

-- name, _, _ := strings.Cut(kv, "=")
unfoldable pub name_of : Bytes → Bytes
unfolding cut
name_of kv = (cut kv b'=').0

unfoldable pub entry_of : Bytes → Bytes → Bytes
entry_of key value = key ++ b'=' ∷ value

unfoldable pub has_env : Bytes → List Bytes → Bool
unfolding same name_of
has_env key [] = false
has_env key (kv ∷ env) = let rest = has_env key env in if same (name_of kv) key then true else rest

unfoldable pub set_env : Bytes → Bytes → List Bytes → List Bytes
unfolding same name_of entry_of
set_env key value [] = entry_of key value ∷ []
set_env key value (kv ∷ env) =
    let rest = set_env key value env in
    if same (name_of kv) key then entry_of key value ∷ env else kv ∷ rest

abbrev pub visible_devices : Bytes
visible_devices = text "NVIDIA_VISIBLE_DEVICES"

abbrev pub driver_capabilities : Bytes
driver_capabilities = text "NVIDIA_DRIVER_CAPABILITIES"

unfoldable pub nvidia_env : Bytes → List Bytes → List Bytes
unfolding has_env set_env
nvidia_env devices env =
    let visible = set_env visible_devices devices env in
    if has_env driver_capabilities visible
    then visible
    else set_env driver_capabilities (text "all") visible

abbrev pub nvidia_process : Bytes → Option Process → Result (Option Process)
nvidia_process devices none = err (msg "spec has no process section")
nvidia_process devices (some process) =
    ok (some (record process { env = nvidia_env devices process.env }))

abbrev pub with_process : Spec → Result (Option Process) → Result Spec
with_process spec (err e) = err e
with_process spec (ok process) = ok (record spec { process = process })

unfoldable pub set_nvidia_env : Spec → Bytes → Result Spec
unfolding nvidia_env
set_nvidia_env spec devices = with_process spec (nvidia_process devices spec.process)
