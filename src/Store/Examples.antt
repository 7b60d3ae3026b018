-- ===== src/Store/Examples.antt =====
-- The store on a small disk: an encoding that keeps the id and the pid, and a host without faults on
-- which the process 7 exists.
use mathlib.Core.List.{Perm}
use lightpod.Base.{
  ℕ, ◌≡◌, ◌≢◌, ◌⊎◌, refl, true, false, ◌==◌, if◌then◌else◌, Option, none, some, List, [], ◌∷◌, ◌++◌,
  Result, ok, err, Error, arith,
}
use lightpod.Base.Int.{ℤ, pos, negsuc}
use lightpod.Base.Text.{Bytes, text, same}
use lightpod.Oci.Spec.{running, stopped}
use lightpod.Oci.Path.{join, is_within}
use lightpod.Oci.Path.Render.{render, is_special, IsName}
use lightpod.Store.{
  Container, Host, validate_id, stamped, newline, is_live, process_alive, save, load, reconcile,
  create, delete, list, load_all, state_schema,
}
use lightpod.Store.Directory.{Disk, Entry, file}
use lightpod.Store.Saving.{Written, save-Written}
use lightpod.Store.Loading.{IsLive, Exists, load-save, Reconciled, load-Reconciled}
use lightpod.Store.Claims.{Claimed, create-Claimed, join-validate_id}
use lightpod.Store.Listing.{Removed, delete-Removed, IsSorted, LoadedOf, list-IsSorted}

abbrev box : Bytes → ℕ → Container
box id pid = record {
  schema_version = state_schema;
  id = id;
  bundle = [];
  rootfs = [];
  pid = pos pid;
  status = running;
  cgroup_path = [];
  created_at = [];
  annotations = [];
}

abbrev pid_of : ℤ → ℕ
pid_of (pos n) = n
pid_of (negsuc n) = 0

-- The id behind the pid, and a newline at the end.
abbrev drop_newline : Bytes → Bytes
drop_newline [] = []
drop_newline (c ∷ s) = if c == 10 then [] else c ∷ drop_newline s

abbrev parsed : Bytes → Option Container
parsed [] = none
parsed (pid ∷ id) = some (box (drop_newline id) pid)

abbrev calm : Host
calm = record {
  encode = λ c. some (pid_of c.pid ∷ c.id);
  decode = parsed;
  lock = λ d. ok d;
  mkdir = λ d id. none;
  write_temp = λ d id. none;
  rename = λ d id. none;
  read = λ d id. none;
  read_dir = λ d. none;
  remove_all = λ d id. none;
  probe = λ pid. if pid_of pid == 7 then none else some 3;
}

abbrev web : Bytes
web = text "web"

abbrev one_box : Disk
one_box = (web, record { state_file = some (7 ∷ (web ++ newline)); temp_file = none }) ∷ []

web_saved : save calm (box web 7) [] ≡ (ok tt, one_box)
unfolding save validate_id lightpod.Store.Directory.put lightpod.Base.Text.lookup
web_saved = refl

web_loads : load calm web one_box ≡ ok (box web 7)
unfolding load validate_id lightpod.Base.Text.lookup reconcile
web_loads = refl

web_taken : (create calm (box web 7) one_box).1 ≡ one_box
unfolding create validate_id load lightpod.Base.Text.lookup
web_taken = refl

web_dead :
    load calm web ((web, record { state_file = some (8 ∷ web); temp_file = none }) ∷ [])
    ≡ ok (record (box web 0) { status = stopped })
unfolding load validate_id lightpod.Base.Text.lookup reconcile
web_dead = refl

save-Written_example :
    ((file web (save calm (box web 7) []).1 ≡ file web [])
      × (same web web ≡ true → (save calm (box web 7) []).0 ≢ ok tt))
    ⊎ Written calm (box web 7) (save calm (box web 7) []).0 (save calm (box web 7) []).1 web
save-Written_example = save-Written calm (box web 7) [] web

survives :
    (content : Bytes)
    → calm.encode (stamped (box web 7)) ≡ some content
    → calm.decode (content ++ newline) ≡ some (stamped (box web 7))
survives content h = let e : content ≡ 7 ∷ web = ground arith in rw e refl

load-save_example :
    (IsLive running
      × (¬ Exists calm (pos 7))
      × (load calm web one_box ≡ ok (record (box web 0) { status = stopped })))
    ⊎ (((¬ IsLive running) ⊎ Exists calm (pos 7)) × (load calm web one_box ≡ ok (box web 7)))
load-save_example = load-save calm (box web 7) [] one_box web_saved survives refl

load-Reconciled_example : Reconciled calm web one_box (box web 7)
load-Reconciled_example = load-Reconciled calm web one_box (box web 7) web_loads

create-Claimed_example : Claimed calm (box web 7) one_box
create-Claimed_example = create-Claimed calm (box web 7) one_box

delete-Removed_example : Removed calm web one_box
delete-Removed_example = delete-Removed calm web one_box

list-IsSorted_example :
    (calm.read_dir one_box ≡ none
      → (cs loaded : List Container) × (list calm one_box ≡ ok cs)
        × IsSorted cs
        × Perm cs loaded
        × LoadedOf calm one_box one_box loaded)
    × (calm.read_dir one_box ≡ some 2 → list calm one_box ≡ ok [])
list-IsSorted_example = list-IsSorted calm one_box

web-valid : validate_id web ≡ ok tt
unfolding validate_id
web-valid = refl

web-IsName : IsName web
unfolding is_special
web-IsName = (refl, ground arith)

join-validate_id_example :
    (join (render (web ∷ [])) web ≡ render ((web ∷ []) ++ web ∷ []))
    × (is_within (render (web ∷ [])) (join (render (web ∷ [])) web) ≡ true)
join-validate_id_example = join-validate_id web [] web (web-IsName, tt) web-valid
