-- ===== src/Runtime/IdMaps.antt =====
-- pkg/runtime/ns.go: idMappings, subIDRange and writeIDMaps.
pub mod Written
mod Examples
use lightpod.Base.{
  ℕ, ◌-◌, ◌^◌, ◌==◌, ◌&&◌, ◌||◌, ltb, Bool, true, false, if◌then◌else◌, is_empty, Option, none,
  some, List, [], ◌∷◌, ◌++◌, Result, ok, err, Error, msg,
}
use lightpod.Base.Text.{Bytes, text, mem, split, trim_space, parse_uint, decimal}
use lightpod.Oci.Spec.{Linux, LinuxIdMapping}
use lightpod.Kernel.{Kernel, write_file, run_helper}
use lightpod.Kernel.Actions.{Os, ◌>>=◌, ◌>>◌, pure, wrapped, perform, perform_unless}

-- The user that runs the program: os.Getuid, os.Getgid, user.LookupId, and the lines of a file, with
-- the error that ends the scan.
pub record Account : Type 0 where
  pub uid : ℕ
  pub gid : ℕ
  pub username : Bytes → Option Bytes
  pub file_lines : Bytes → Result (List Bytes × Option Error)

abbrev pub id_mapping : ℕ → ℕ → ℕ → LinuxIdMapping
id_mapping container host size = record { container_id = container; host_id = host; size = size }

-- A line of three fields for one of the names, with two numbers of 32 bits
abbrev pub both : Option ℕ → Option ℕ → Option (ℕ × ℕ)
both none c = none
both (some s) none = none
both (some s) (some c) = some (s, c)

unfoldable pub range_fields : List Bytes → List Bytes → Option (ℕ × ℕ)
unfolding mem parse_uint
range_fields names (name ∷ start ∷ count ∷ []) =
    if mem name names
    then both (parse_uint (2 ^ 32 - 1) start) (parse_uint (2 ^ 32 - 1) count)
    else none
range_fields names fields = none

abbrev first_range : Option (ℕ × ℕ) → Option (ℕ × ℕ) → Option (ℕ × ℕ)
first_range none later = later
first_range (some range) later = some range

unfoldable pub scan_range : List Bytes → List Bytes → Option (ℕ × ℕ)
unfolding range_fields split trim_space
scan_range names [] = none
scan_range names (line ∷ lines) =
    first_range (range_fields names (split (trim_space line) b':')) (scan_range names lines)

abbrev pub scanned : Option (ℕ × ℕ) → Option Error → Result (ℕ × ℕ)
scanned (some range) e = ok range
scanned none (some e) = err e
scanned none none = err (msg "no subordinate id range")

abbrev pub with_username : Bytes → Option Bytes → List Bytes
with_username number none = number ∷ []
with_username number (some name) = number ∷ name ∷ []

module _ (who : Account) where
  abbrev pub range_of : List Bytes → Result (List Bytes × Option Error) → Result (ℕ × ℕ)
  range_of names (err e) = err e
  range_of names (ok (lines, e)) = scanned (scan_range names lines) e

  unfoldable pub sub_id_range : Bytes → ℕ → Result (ℕ × ℕ)
  unfolding scan_range decimal
  sub_id_range path id =
      range_of (with_username (decimal id) (who.username (decimal id))) (who.file_lines path)

  -- A range that is missing or empty leaves the single id.
  abbrev pub widened : Result (ℕ × ℕ) → List LinuxIdMapping → List LinuxIdMapping
  widened (err e) mappings = mappings
  widened (ok (start, count)) mappings =
      if ltb 0 count then mappings ++ id_mapping 1 start count ∷ [] else mappings

  abbrev pub own_mappings : Bool → List LinuxIdMapping × List LinuxIdMapping
  own_mappings true = ([], [])
  own_mappings false = (
    widened (sub_id_range (text "/etc/subuid") who.uid) (id_mapping 0 who.uid 1 ∷ []),
    widened (sub_id_range (text "/etc/subgid") who.gid) (id_mapping 0 who.gid 1 ∷ []),
  )

  -- The flag is mode == ModeRootfull.
  unfoldable pub id_mappings : Option Linux → Bool → List LinuxIdMapping × List LinuxIdMapping
  unfolding sub_id_range
  id_mappings none rootfull = own_mappings rootfull
  id_mappings (some linux) rootfull =
      if is_empty linux.uid_mappings
      then own_mappings rootfull
      else (linux.uid_mappings, linux.gid_mappings)

abbrev pub is_self_mapping : List LinuxIdMapping → ℕ → Bool
is_self_mapping (m ∷ []) self = (m.size == 1) && (m.host_id == self)
is_self_mapping mappings self = false

unfoldable pub map_lines : List LinuxIdMapping → Bytes
unfolding decimal
map_lines [] = []
map_lines (m ∷ mappings) =
    decimal m.container_id
    ++ b' ' ∷ (decimal m.host_id ++ b' ' ∷ (decimal m.size ++ b'\n' ∷ map_lines mappings))

unfoldable pub helper_args : List LinuxIdMapping → List Bytes
unfolding decimal
helper_args [] = []
helper_args (m ∷ mappings) =
    decimal m.container_id ∷ decimal m.host_id ∷ decimal m.size ∷ helper_args mappings

-- /proc/<pid>/<name>
unfoldable pub proc_file : ℕ → Bytes → Bytes
unfolding decimal
proc_file pid name = text "/proc/" ++ (decimal pid ++ (b'/' ∷ name))

abbrev pub no_such_file : ℕ
no_such_file = 2

abbrev pub writes_itself : Account → Bool → List LinuxIdMapping → List LinuxIdMapping → Bool
writes_itself who rootfull uids gids =
    rootfull || (is_self_mapping uids who.uid && is_self_mapping gids who.gid)

module _ (k : Kernel) where
  unfoldable pub write_map_file : Bytes → List LinuxIdMapping → Os (Unit {0})
  unfolding map_lines
  write_map_file path [] = pure tt
  write_map_file path (m ∷ mappings) =
      wrapped "writing" (perform k (write_file path (map_lines (m ∷ mappings))))

  unfoldable pub run_id_map_helper : Bytes → ℕ → List LinuxIdMapping → Os (Unit {0})
  unfolding helper_args decimal
  run_id_map_helper tool pid [] = pure tt
  run_id_map_helper tool pid (m ∷ mappings) =
      wrapped "failed" (perform k (run_helper tool (decimal pid ∷ helper_args (m ∷ mappings))))

  abbrev pub deny_setgroups : ℕ → Os (Unit {0})
  deny_setgroups pid =
      wrapped "denying setgroups" (
        perform_unless k no_such_file (write_file (proc_file pid (text "setgroups")) (text "deny")))

  unfoldable pub write_maps : ℕ → List LinuxIdMapping → List LinuxIdMapping → Os (Unit {0})
  unfolding write_map_file proc_file
  write_maps pid uids gids = do
    deny_setgroups pid
    write_map_file (proc_file pid (text "uid_map")) uids
    write_map_file (proc_file pid (text "gid_map")) gids

  unfoldable pub help_maps : ℕ → List LinuxIdMapping → List LinuxIdMapping → Os (Unit {0})
  unfolding run_id_map_helper
  help_maps pid uids gids = do
    run_id_map_helper (text "newuidmap") pid uids
    run_id_map_helper (text "newgidmap") pid gids

  unfoldable pub write_id_maps :
      Account → Bool → ℕ → List LinuxIdMapping → List LinuxIdMapping → Os (Unit {0})
  unfolding write_maps help_maps
  write_id_maps who rootfull pid uids gids =
      if is_empty uids && is_empty gids
      then pure tt
      else if writes_itself who rootfull uids gids
      then write_maps pid uids gids
      else help_maps pid uids gids
