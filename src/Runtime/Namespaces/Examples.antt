-- ===== src/Runtime/Namespaces/Examples.antt =====
-- The clone flags of the default spec.
use lightpod.Base.{ℕ, ◌≡◌, ◌↔◌, refl, true, ok, []}
use lightpod.Base.Bits.{test_bit}
use lightpod.Base.Text.{text}
use lightpod.Oci.Spec.{Spec}
use lightpod.Oci.Defaults.{default_spec}
use lightpod.Runtime.Namespaces.{namespaces_of, clone_flags}
use lightpod.Runtime.Namespaces.Flags.{all_have_flags, asks_for, clone_flags-bits}

abbrev rootless : Spec
rootless = default_spec (text "/srv") [] true

rootless_flags : clone_flags rootless ≡ ok 0x7e020000
unfolding clone_flags lightpod.Runtime.Namespaces.collect_flags default_spec
    lightpod.Runtime.Namespaces.flag_bit
rootless_flags = refl

clone_flags-bits_example :
    (((flags : ℕ) × (clone_flags rootless ≡ ok flags))
      ↔ (all_have_flags (namespaces_of rootless.linux) ≡ true))
    × ((flags bit : ℕ)
        → clone_flags rootless ≡ ok flags
        → test_bit flags bit ≡ asks_for (namespaces_of rootless.linux) bit)
clone_flags-bits_example = clone_flags-bits rootless
