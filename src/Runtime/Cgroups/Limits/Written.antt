-- ===== src/Runtime/Cgroups/Limits/Written.antt =====
-- The files that SetResources writes for a request.
use lightpod.Base.{
  String, if◌then◌else◌, ℕ, zero, suc, ◌≡◌, ◌==◌, Option, none, some, List, [], ◌∷◌, ◌++◌, ok,
}
use lightpod.Base.Int.{ℤ, is_pos, sub64, signed_decimal}
use lightpod.Base.Text.{Bytes, text, decimal}
use lightpod.Oci.Path.{join}
use lightpod.Oci.Spec.{LinuxResources, LinuxMemory, LinuxCpu, LinuxPids}
use lightpod.Kernel.{Kernel, Event, did, write_file}
use lightpod.Kernel.Actions.{Os}
use lightpod.Runtime.Cgroups.{shares_to_weight}
use lightpod.Runtime.Cgroups.Limits.{CgroupManager, space}

-- How cgroup v2 spells a limit: a positive one in decimal, and no limit, which is 0 or negative, as
-- `max`.
abbrev pub limit_text : ℤ → Bytes
limit_text v = if is_pos v then signed_decimal v else text "max"

-- The swap alone, of a limit of memory and swap together and one of memory; no limit stays none.
abbrev pub swap_text : ℤ → ℤ → Bytes
swap_text swap limit = if is_pos swap then limit_text (sub64 swap limit) else text "max"

-- The period in microseconds, 100 ms where none is given.
abbrev pub period_text : Option ℕ → Bytes
period_text none = decimal 100000
period_text (some n) = if n == 0 then decimal 100000 else decimal n

module _ (k : Kernel) (m : CgroupManager) where
  -- The files that a request asks for, in the order in which they are written, with their values.
  abbrev limit_file : String → Option ℤ → List (String × Bytes)
  limit_file file none = []
  limit_file file (some v) = (file, limit_text v) ∷ []

  abbrev swap_file : Option ℤ → Option ℤ → List (String × Bytes)
  swap_file (some swap) (some limit) = ("memory.swap.max", swap_text swap limit) ∷ []
  swap_file swap none = []
  swap_file none limit = []

  abbrev quota_file : Option ℤ → Option ℕ → List (String × Bytes)
  quota_file none period = []
  quota_file (some quota) period =
      ("cpu.max", limit_text quota ++ (space ++ period_text period)) ∷ []

  abbrev shares_file : Option ℕ → List (String × Bytes)
  shares_file none = []
  shares_file (some zero) = []
  shares_file (some (suc n)) = ("cpu.weight", decimal (shares_to_weight (suc n))) ∷ []

  abbrev set_file : String → Bytes → List (String × Bytes)
  set_file file [] = []
  set_file file (c ∷ s) = (file, c ∷ s) ∷ []

  abbrev memory_files : Option LinuxMemory → List (String × Bytes)
  memory_files none = []
  memory_files (some memory) =
      limit_file "memory.max" memory.limit
      ++ (limit_file "memory.low" memory.reservation ++ swap_file memory.swap memory.limit)

  abbrev cpu_files : Option LinuxCpu → List (String × Bytes)
  cpu_files none = []
  cpu_files (some cpu) =
      quota_file cpu.quota cpu.period
      ++ (shares_file cpu.shares
          ++ (set_file "cpuset.cpus" cpu.cpus ++ set_file "cpuset.mems" cpu.mems))

  abbrev pids_files : Option LinuxPids → List (String × Bytes)
  pids_files none = []
  pids_files (some pids) = ("pids.max", limit_text pids.limit) ∷ []

  abbrev pub limit_files : LinuxResources → List (String × Bytes)
  limit_files r = memory_files r.memory ++ (cpu_files r.cpu ++ pids_files r.pids)

  -- The events behind the writes of these files in this order.
  unfoldable pub after : List (String × Bytes) → List Event → List Event
  after [] h = h
  after ((file, value) ∷ files) h =
      after files (did (write_file (join m.path (text file)) value) ∷ h)

  -- An action that, where it succeeds, has written these files.
  abbrev Writes : Os (Unit {0}) → List (String × Bytes) → Type 0
  Writes action files = (h h' : List Event) → action h ≡ (ok tt, h') → h' ≡ after files h
