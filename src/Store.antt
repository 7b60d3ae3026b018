-- ===== src/Store.antt =====
-- pkg/state/store.go: the records of the containers on disk.
pub mod Directory
pub mod Saving
pub mod Loading
pub mod Claims
pub mod Listing
mod Examples
use lightpod.Base.{
  ℕ, String, Bool, true, false, ltb, ◌==◌, not, ◌&&◌, ◌||◌, if◌then◌else◌, Option, none, some, List,
  [], ◌∷◌, ◌++◌, Result, ok, err, msg, wrap, errno, refuse_if, ◌>>=◌, ◌>>◌,
}
use lightpod.Base.Int.{ℤ, pos, negsuc, is_pos}
use lightpod.Base.Text.{Bytes, text, same, contains_any, lookup}
use lightpod.Oci.Path.{dot, dot_dot}
use lightpod.Oci.Spec.{State, ContainerStatus, creating, created, running, stopped, other_status}
use lightpod.Oci.Defaults.{oci_version}
use Directory.{Disk, Entry, entry_of, put, erase, file}

-- The record of one container.
pub record Container : Type 0 where
  pub schema_version : ℤ
  pub id : Bytes
  pub bundle : Bytes
  pub rootfs : Bytes
  pub pid : ℤ
  pub status : ContainerStatus
  pub cgroup_path : Bytes
  pub created_at : Bytes
  pub annotations : List (Bytes × Bytes)

-- What lies outside the program: encoding/json, the errors of the file system in the state that it
-- is in, and signal 0. A failed write leaves anything in the temporary file, and a failed removal
-- anything in the directory. The lock of the store, once it is
-- taken, finds the disk as others have left it in the meantime.
pub record Host : Type 0 where
  pub encode : Container → Option Bytes
  pub decode : Bytes → Option Container
  pub lock : Disk → Result Disk
  pub mkdir : Disk → Bytes → Option ℕ
  pub write_temp : Disk → Bytes → Option (ℕ × Option Bytes)
  pub rename : Disk → Bytes → Option ℕ
  pub read : Disk → Bytes → Option ℕ
  pub read_dir : Disk → Option ℕ
  pub remove_all : Disk → Bytes → Option (ℕ × Option Entry)
  pub probe : ℤ → Option ℕ

abbrev pub enoent : ℕ
enoent = 2

abbrev pub eperm : ℕ
eperm = 1

abbrev pub state_schema : ℤ
state_schema = pos 1

abbrev pub is_newer : ℤ → Bool
is_newer (pos n) = ltb 1 n
is_newer (negsuc n) = false

-- The bytes that ValidateID refuses: / \ and NUL.
abbrev pub is_separator : ℕ → Bool
is_separator c = (c == 47) || ((c == 92) || (c == 0))

unfoldable pub validate_id : Bytes → Result (Unit {0})
unfolding same contains_any
validate_id id = do
  refuse_if (same id []) "container id cannot be empty"
  refuse_if (same id dot || (same id dot_dot || contains_any is_separator id))
      "container id contains a path separator"

abbrev pub stamped : Container → Container
stamped c = record c { schema_version = state_schema }

abbrev pub newline : Bytes
newline = 10 ∷ []

abbrev pub is_live : ContainerStatus → Bool
is_live running = true
is_live created = true
is_live s = false

module _ (host : Host) where
  -- os.Rename of the temporary file
  abbrev pub committed : Bytes → Disk → Option ℕ → Result (Unit {0}) × Disk
  committed id d (some e) = (err (wrap "committing state" (errno e)), d)
  committed id d none = (
    ok tt,
    put id (record { state_file = (entry_of (lookup id d)).temp_file; temp_file = none }) d,
  )

  abbrev pub written : Bytes → Bytes → Disk → Option (ℕ × Option Bytes) → Result (Unit {0}) × Disk
  written id content d (some (e, left)) = (
    err (wrap "writing state" (errno e)),
    put id (record (entry_of (lookup id d)) { temp_file = left }) d,
  )
  written id content d none =
      let d' = put id (record (entry_of (lookup id d)) { temp_file = some content }) d in
      committed id d' (host.rename d' id)

  abbrev pub encoded : Bytes → Disk → Option Bytes → Result (Unit {0}) × Disk
  encoded id d none = (err (msg "encoding state"), d)
  encoded id d (some content) = written id (content ++ newline) d (host.write_temp d id)

  abbrev pub in_directory : Container → Disk → Option ℕ → Result (Unit {0}) × Disk
  in_directory c d (some e) = (err (wrap "creating container state directory" (errno e)), d)
  in_directory c d none =
      encoded c.id (put c.id (entry_of (lookup c.id d)) d) (host.encode (stamped c))

  abbrev pub valid_then :
      {A : Type 0} → Result (Unit {0}) → Disk → Result A × Disk → Result A × Disk
  valid_then (err e) d rest = (err e, d)
  valid_then (ok _) d rest = rest

  unfoldable pub save : Container → Disk → Result (Unit {0}) × Disk
  save c d = valid_then (validate_id c.id) d (in_directory c d (host.mkdir d c.id))

  abbrev answered : Option ℕ → Bool
  answered none = true
  answered (some e) = e == eperm

  unfoldable pub process_alive : ℤ → Bool
  process_alive pid = is_pos pid && answered (host.probe pid)

  unfoldable pub reconcile : Container → Container
  unfolding process_alive
  reconcile c =
      if is_live c.status && not (process_alive c.pid)
      then record c { status = stopped; pid = pos 0 }
      else c

  abbrev pub decoded : Option Container → Result Container
  decoded none = err (msg "parsing state")
  decoded (some c) =
      if is_newer c.schema_version
      then err (msg "container was created by a newer lightpod")
      else ok (reconcile c)

  abbrev pub loaded : Option ℕ → Option Bytes → Result Container
  loaded (some e) content =
      if e == enoent
      then err (msg "container does not exist")
      else err (wrap "reading state" (errno e))
  loaded none none = err (msg "container does not exist")
  loaded none (some content) = decoded (host.decode content)

  unfoldable pub load : Bytes → Disk → Result Container
  unfolding file
  load id d = validate_id id >> loaded (host.read d id) (file id d)

  -- withLock: what runs under the lock, on the disk that it finds there
  abbrev pub with_lock :
      Result Disk → Disk → (Disk → Result (Unit {0}) × Disk) → Result (Unit {0}) × Disk
  with_lock (err e) d body = (err e, d)
  with_lock (ok held) d body = body held

  abbrev pub unless_taken :
      Result Container → Disk → Result (Unit {0}) × Disk → Result (Unit {0}) × Disk
  unless_taken (ok existing) d claim = (err (msg "container already exists"), d)
  unless_taken (err e) d claim = claim

  unfoldable pub create : Container → Disk → Result (Unit {0}) × Disk
  create c d =
      valid_then (validate_id c.id) d
        (with_lock (host.lock d) d (λ held. unless_taken (load c.id held) held (save c held)))

  abbrev leave : Bytes → Option Entry → Disk → Disk
  leave id none d = erase id d
  leave id (some e) d = put id e d

  abbrev pub removed : Bytes → Disk → Option (ℕ × Option Entry) → Result (Unit {0}) × Disk
  removed id d (some (e, left)) = (err (wrap "removing state" (errno e)), leave id left d)
  removed id d none = (ok tt, erase id d)

  unfoldable pub delete : Bytes → Disk → Result (Unit {0}) × Disk
  delete id d =
      valid_then (validate_id id) d
        (with_lock (host.lock d) d (λ held. removed id held (host.remove_all held id)))

  -- The records that load, one bad record does not hide the rest.
  abbrev pub keep_loaded : Result Container → List Container → List Container
  keep_loaded (ok c) cs = c ∷ cs
  keep_loaded (err e) cs = cs

  unfoldable pub load_all : Disk → Disk → List Container
  load_all d [] = []
  load_all d ((name, e) ∷ entries) = keep_loaded (load name d) (load_all d entries)

-- The order of Go's strings.
unfoldable pub before : Bytes → Bytes → Bool
before s [] = false
before [] (c ∷ t) = true
before (b ∷ s) (c ∷ t) = ltb b c || ((b == c) && before s t)

unfoldable pub insert : Container → List Container → List Container
unfolding before
insert c [] = c ∷ []
insert c (x ∷ xs) = if before x.id c.id then x ∷ insert c xs else c ∷ x ∷ xs

-- sort.Slice by id
unfoldable pub sort_by_id : List Container → List Container
unfolding insert
sort_by_id [] = []
sort_by_id (c ∷ cs) = insert c (sort_by_id cs)

abbrev pub listed : Host → Disk → Option ℕ → Result (List Container)
listed host d (some e) =
    if e == enoent then ok [] else err (wrap "listing state directory" (errno e))
listed host d none = ok (sort_by_id (load_all host d d))

unfoldable pub list : Host → Disk → Result (List Container)
list host d = listed host d (host.read_dir d)

unfoldable pub to_oci : Container → State
to_oci c = record {
  version = oci_version;
  id = c.id;
  status = c.status;
  pid = c.pid;
  bundle = c.bundle;
  annotations = c.annotations;
}
