-- ===== src/Runtime/Cgroups/Limits.antt =====
-- CgroupManager: the process is moved into the cgroup, and the limits of the spec are written there.
pub mod Written
use lightpod.Base.{
  String, ℕ, zero, suc, ◌+◌, ◌-◌, ◌/◌, ◌%◌, ◌≡◌, refl, sym, ap, ◌∙◌, ltb, ◌==◌, Bool, true, false,
  Bool-cases, ◌||◌, if◌then◌else◌, Option, none, some, Option-cases, inl, inr, List, [], ◌∷◌, ◌++◌,
  append_assoc, arith, Result, ok, err, Error, msg, wrap, errno,
}
use lightpod.Base.Int.{ℤ, pos, negsuc, is_pos, sub64}
use lightpod.Base.Text.{decimal, Bytes, text, same}
use lightpod.Oci.Path.{join}
use lightpod.Oci.Spec.{LinuxResources, LinuxMemory, LinuxCpu, LinuxPids}
use lightpod.Kernel.{Kernel, Call, Event, did, refused, write_file, remove}
use lightpod.Kernel.Actions.{Os, ◌>>=◌, ◌>>◌, pure, perform, perform_unless, wrapped}
use lightpod.Kernel.Laws.{>>=-ok}
use lightpod.Runtime.Cgroups.{shares_to_weight}

pub record CgroupManager : Type 0 where
  pub path : Bytes
  pub disabled : Bool

unfoldable pub format_limit : ℤ → Bytes
format_limit (pos zero) = text "max"
format_limit (pos (suc n)) = decimal (suc n)
format_limit (negsuc n) = text "max"

-- What the two counters of the spec leave for the swap of cgroup v2.
abbrev pub swap_limit : ℤ → ℤ → ℤ
swap_limit swap limit = if is_pos swap then sub64 swap limit else swap

abbrev pub period_or_default : Option ℕ → ℕ
period_or_default none = 100000
period_or_default (some zero) = 100000
period_or_default (some (suc n)) = suc n

abbrev space : Bytes
space = 32 ∷ []

module _ (k : Kernel) (m : CgroupManager) where
  abbrev pub write_outcome : Call → Option ℕ → List Event → Result (Unit {0}) × List Event
  write_outcome c none h = (ok tt, did c ∷ h)
  write_outcome c (some e) h = (
    (if e == 2
        then err (msg "cgroup controller is not available")
        else err (wrap "writing" (errno e))),
    refused c e ∷ h,
  )

  abbrev pub write : String → Bytes → Os (Unit {0})
  write file value h =
      let c = write_file (join m.path (text file)) value in write_outcome c (k.answer h c) h

  unfoldable pub apply : Bytes → Os (Unit {0})
  apply pid h =
      if m.disabled
      then (ok tt, h)
      else wrapped "adding pid to cgroup"
          (perform k (write_file (join m.path (text "cgroup.procs")) pid)) h

  abbrev pub write_limit : String → Option ℤ → Os (Unit {0})
  write_limit file none = pure tt
  write_limit file (some v) = write file (format_limit v)

  abbrev pub write_swap : Option ℤ → Option ℤ → Os (Unit {0})
  write_swap (some swap) (some limit) =
      write "memory.swap.max" (format_limit (swap_limit swap limit))
  write_swap swap none = pure tt
  write_swap none limit = pure tt

  unfoldable pub write_memory : Option LinuxMemory → Os (Unit {0})
  write_memory none = pure tt
  write_memory (some memory) = do
    write_limit "memory.max" memory.limit
    write_limit "memory.low" memory.reservation
    write_swap memory.swap memory.limit

  abbrev pub quota_text : ℤ → Bytes
  quota_text quota = format_limit quota

  abbrev pub write_quota : Option ℤ → Option ℕ → Os (Unit {0})
  write_quota none period = pure tt
  write_quota (some quota) period =
      write "cpu.max" (quota_text quota ++ (space ++ decimal (period_or_default period)))

  abbrev pub write_shares : Option ℕ → Os (Unit {0})
  write_shares none = pure tt
  write_shares (some zero) = pure tt
  write_shares (some (suc n)) = write "cpu.weight" (decimal (shares_to_weight (suc n)))

  abbrev pub write_set : String → Bytes → Os (Unit {0})
  write_set file [] = pure tt
  write_set file (c ∷ s) = write file (c ∷ s)

  unfoldable pub write_cpu : Option LinuxCpu → Os (Unit {0})
  write_cpu none = pure tt
  write_cpu (some cpu) = do
    write_quota cpu.quota cpu.period
    write_shares cpu.shares
    write_set "cpuset.cpus" cpu.cpus
    write_set "cpuset.mems" cpu.mems

  unfoldable pub write_pids : Option LinuxPids → Os (Unit {0})
  write_pids none = pure tt
  write_pids (some pids) = write "pids.max" (format_limit pids.limit)

  abbrev pub write_all : LinuxResources → Os (Unit {0})
  write_all r = do write_memory r.memory; write_cpu r.cpu; write_pids r.pids

  unfoldable pub set_resources : Option LinuxResources → Os (Unit {0})
  set_resources none = pure tt
  set_resources (some r) = if m.disabled then pure tt else write_all r

  abbrev pub cleanup_outcome : Call → Option ℕ → List Event → Result (Unit {0}) × List Event
  cleanup_outcome c none h = (ok tt, did c ∷ h)
  cleanup_outcome c (some e) h =
      ((if e == 2 then ok tt else err (wrap "removing cgroup" (errno e))), refused c e ∷ h)

  unfoldable pub cleanup : Os (Unit {0})
  unfolding same
  cleanup h =
      if m.disabled || same m.path []
      then (ok tt, h)
      else cleanup_outcome (remove m.path) (k.answer h (remove m.path)) h
