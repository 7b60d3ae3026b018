-- ===== src/Oci/Rootfs/Examples.antt =====
-- Root paths of a bundle in which every path is a directory.
use lightpod.Base.{◌≡◌, refl, false, true, some, [], ok, err, msg, arith}
use lightpod.Base.Text.{Bytes, text}
use lightpod.Oci.Path.Render.{IsName, is_special}
use lightpod.Oci.Spec.{Spec}
use lightpod.Oci.Defaults.{default_spec}
use lightpod.Oci.Rootfs.{Files, resolve_rootfs}
use lightpod.Oci.Rootfs.Resolve.{Resolves, resolve_rootfs-Resolves}

abbrev everywhere : Files
everywhere = record { working_directory = text "/home"; is_directory = λ path. some true }

abbrev spec_at : Bytes → Spec
spec_at path = default_spec path [] false

relative_root :
    resolve_rootfs everywhere (spec_at (text "./rootfs")) (text "/b") ≡ ok (text "/b/rootfs")
unfolding resolve_rootfs default_spec lightpod.Oci.Path.is_abs lightpod.Oci.Path.is_within
    lightpod.Oci.Rootfs.rootfs_of lightpod.Oci.Path.clean lightpod.Oci.Path.join
    lightpod.Oci.Rootfs.absolute
relative_root = refl

climbing_root :
    resolve_rootfs everywhere (spec_at (text "../../etc")) (text "/b")
    ≡ err (msg "root.path escapes the bundle directory")
unfolding resolve_rootfs default_spec lightpod.Oci.Path.is_abs lightpod.Oci.Path.is_within
    lightpod.Oci.Rootfs.rootfs_of lightpod.Oci.Path.clean lightpod.Oci.Path.join
    lightpod.Oci.Rootfs.absolute
climbing_root = refl

-- The bundle is made absolute for the containment check and not for the join.
relative_bundle :
    resolve_rootfs everywhere (spec_at (text "rootfs")) (text "b")
    ≡ err (msg "root.path escapes the bundle directory")
unfolding resolve_rootfs default_spec lightpod.Oci.Path.is_abs lightpod.Oci.Path.is_within
    lightpod.Oci.Rootfs.rootfs_of lightpod.Oci.Path.clean lightpod.Oci.Path.join
    lightpod.Oci.Rootfs.absolute
relative_bundle = refl

bundle-IsName : IsName (text "b")
unfolding is_special
bundle-IsName = (refl, ground arith)

resolve_rootfs-Resolves_example :
    Resolves everywhere (spec_at (text "rootfs")) (text "b") [] (bundle-IsName, tt)
resolve_rootfs-Resolves_example =
    resolve_rootfs-Resolves everywhere (spec_at (text "rootfs")) (text "b") [] (bundle-IsName, tt)
