-- ===== src/Security/Syscalls/Arch.antt =====
-- What a build for one architecture fixes for the seccomp compiler.
use lightpod.Base.{ℕ, Bool, false, String, List, [], ◌∷◌}
use lightpod.Base.Text.{Bytes, text}

pub record Arch : Type 0 where
  pub audit_arch : ℕ
  pub guard_x32 : Bool
  pub syscall_numbers : List (Bytes × ℕ)

-- A table of the source, with its names as bytes.
abbrev pub entries : List (String × ℕ) → List (Bytes × ℕ)
entries [] = []
entries ((name, nr) ∷ rest) = (text name, nr) ∷ entries rest

-- seccomp_arch_other.go: no audit value and no syscalls.
unfoldable pub other_arch : Arch
other_arch = record { audit_arch = 0; guard_x32 = false; syscall_numbers = [] }
