-- ===== src/Runtime/SecureJoin/Examples.antt =====
-- secureJoin on a small tree with symbolic links.
use lightpod.Base.{◌≡◌, refl, false, true, if◌then◌else◌, none, some, [], ◌∷◌, arith, ok, err, msg}
use lightpod.Base.Text.{Bytes, text, same}
use lightpod.Oci.Path.Render.{IsName, is_special, render}
use lightpod.Runtime.SecureJoin.{Tree, secure_join}
use lightpod.Runtime.SecureJoin.Links.{IsTree}
use lightpod.Runtime.SecureJoin.Inside.{Outcome, secure_join-Outcome}

abbrev rootfs_name : Bytes
rootfs_name = text "r"

-- Every path is there; `/r/etc` is a link to `../../../../etc/x`, and `/r/abs` one to `/y`.
abbrev linked : Tree
linked = record {
  lstat = λ path. some (if same path (text "/r/etc") then true else same path (text "/r/abs"));
  readlink =
      λ path. some (if same path (text "/r/etc") then text "../../../../usr/x" else text "/y");
}

abbrev plain : Tree
plain = record { lstat = λ path. some false; readlink = λ path. none }

hostile_link : secure_join linked (text "/r") (text "/etc/passwd") ≡ ok (text "/r/usr/x/passwd")
unfolding secure_join lightpod.Oci.Path.clean lightpod.Runtime.SecureJoin.round
    lightpod.Oci.Path.join lightpod.Oci.Path.is_within
hostile_link = refl

absolute_link : secure_join linked (text "/r") (text "abs/../z") ≡ ok (text "/r/z")
unfolding secure_join lightpod.Oci.Path.clean lightpod.Runtime.SecureJoin.round
    lightpod.Oci.Path.join lightpod.Oci.Path.is_within
absolute_link = refl

abbrev loop : Tree
loop = record { lstat = λ path. some true; readlink = λ path. some (text "/l") }

link_loop : secure_join loop (text "/r") (text "/l") ≡ err (msg "too many symbolic links")
unfolding secure_join lightpod.Oci.Path.clean lightpod.Runtime.SecureJoin.round
    lightpod.Oci.Path.join
link_loop = refl

rootfs-IsName : IsName rootfs_name
unfolding is_special
rootfs-IsName = (refl, ground arith)

linked-IsTree : IsTree linked
linked-IsTree = record { below_absent = λ xs ys e. ground arith }

secure_join-Outcome_example :
    Outcome linked
      (rootfs_name ∷ [])
      (secure_join linked (render (rootfs_name ∷ [])) (text "/etc/passwd"))
secure_join-Outcome_example =
    secure_join-Outcome linked linked-IsTree rootfs_name [] (rootfs-IsName, tt) (text "/etc/passwd")
