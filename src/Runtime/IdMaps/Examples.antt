-- ===== src/Runtime/IdMaps/Examples.antt =====
-- Id maps of a user with a subordinate range, and of one without.
use lightpod.Base.{ℕ, ◌≡◌, refl, true, false, none, some, List, [], ◌∷◌, Result, ok, err, msg}
use lightpod.Base.Text.{Bytes, text, texts}
use lightpod.Oci.Spec.{LinuxIdMapping}
use lightpod.Kernel.{Kernel, Event, directory}
use lightpod.Runtime.IdMaps.{Account, id_mapping, id_mappings, write_id_maps}
use lightpod.Runtime.IdMaps.Written.{Mapped, write_id_maps-Mapped}

abbrev granting : Kernel
granting = record {
  answer = λ h c. none;
  read_file = λ h path. ok (text "1");
  stat = λ h path. ok directory;
}

abbrev pi : Account
pi = record {
  uid = 7;
  gid = 8;
  username = λ id. some (text "pi");
  file_lines = λ path. ok (texts ("root:1:2" ∷ "pi:100000:65536" ∷ []), none);
}

ranges_found : (id_mappings pi none false).0 ≡ id_mapping 0 7 1 ∷ id_mapping 1 100000 65536 ∷ []
unfolding id_mappings lightpod.Base.Text.same lightpod.Base.Text.digits_onto
ranges_found = refl

abbrev own_uid : List LinuxIdMapping
own_uid = id_mapping 0 7 1 ∷ []

abbrev own_gid : List LinuxIdMapping
own_gid = id_mapping 0 8 1 ∷ []

abbrev own_events : List Event
unfolding write_id_maps
own_events = (write_id_maps granting pi false 9 own_uid own_gid []).1

own_written : write_id_maps granting pi false 9 own_uid own_gid [] ≡ (ok tt, own_events)
unfolding write_id_maps
own_written = refl

write_id_maps-Mapped_example : Mapped pi false 9 own_uid own_gid [] own_events
write_id_maps-Mapped_example =
    write_id_maps-Mapped granting pi false 9 own_uid own_gid [] own_events refl own_written
