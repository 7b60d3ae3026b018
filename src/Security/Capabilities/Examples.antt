-- ===== src/Security/Capabilities/Examples.antt =====
-- Capabilities of a small spec, applied on a kernel that grants everything.
use lightpod.Base.{
  ℕ, ◌≡◌, ◌<◌, refl, true, false, ◌||◌, Option, none, some, List, [], ◌∷◌, Result, ok, err, msg,
}
use lightpod.Base.Text.{Bytes, text, texts}
use lightpod.Oci.Spec.{LinuxCapabilities}
use lightpod.Kernel.{Kernel, Event, directory}
use lightpod.Security.Capabilities.{
  CapSet, CapabilityPolicy, has, parse_capabilities, resolve_capabilities,
}
use lightpod.Security.Capabilities.Parse.{all_known, wants, parse_capabilities-has}
use lightpod.Security.Capabilities.Apply.{
  last_capability, apply_capabilities, Reduced, apply_capabilities-Reduced,
}

abbrev some_names : List Bytes
some_names = texts ("cap_chown" ∷ "CAP_KILL" ∷ [])

both_bits : parse_capabilities some_names ≡ ok 33
unfolding parse_capabilities lightpod.Security.Capabilities.parse_names lightpod.Base.Text.lookup
    lightpod.Security.Capabilities.capability_names lightpod.Base.Text.same
    lightpod.Base.Text.to_upper
both_bits = refl

parse_capabilities-has_example :
    (all_known some_names ≡ true
      → (set : CapSet) × (parse_capabilities some_names ≡ ok set)
        × ((c : ℕ) → c < 64 → has set c ≡ wants some_names c))
    × (all_known some_names ≡ false
        → parse_capabilities some_names ≡ err (msg "unknown capability"))
parse_capabilities-has_example = parse_capabilities-has some_names

-- A kernel that knows the capabilities 0, 1 and 2 and grants every call.
abbrev granting : Kernel
granting = record {
  answer = λ h c. none;
  read_file = λ h path. ok (text "2\n");
  stat = λ h path. ok directory;
}

abbrev keep_chown : Option LinuxCapabilities
keep_chown = some (record {
  bounding = texts ("CAP_CHOWN" ∷ []);
  effective = texts ("CAP_CHOWN" ∷ []);
  permitted = texts ("CAP_CHOWN" ∷ []);
  inheritable = [];
  ambient = texts ("CAP_CHOWN" ∷ []);
})

abbrev calls : List Event
unfolding apply_capabilities
calls = (apply_capabilities granting keep_chown []).1

keep_chown_applied : apply_capabilities granting keep_chown [] ≡ (ok tt, calls)
unfolding apply_capabilities resolve_capabilities parse_capabilities
    lightpod.Security.Capabilities.parse_names lightpod.Base.Text.lookup
    lightpod.Security.Capabilities.capability_names lightpod.Base.Text.same
    lightpod.Base.Text.to_upper lightpod.Security.Capabilities.Apply.drop_bounding last_capability
    lightpod.Base.Int.parse_int lightpod.Base.Text.trim_space has
    lightpod.Security.Capabilities.Apply.raise_ambient
keep_chown_applied = refl

apply_capabilities-Reduced_example :
    (want : CapabilityPolicy) × (resolve_capabilities keep_chown ≡ ok want)
    × Reduced granting want (last_capability granting []) [] calls
apply_capabilities-Reduced_example =
    apply_capabilities-Reduced granting keep_chown [] calls keep_chown_applied
