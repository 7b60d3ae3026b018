-- ===== src/Security/Seccomp/Bpf.antt =====
-- What a classic BPF program answers, as bpf(4) defines the four opcodes that the compiler emits.
-- This is the specification that the filters are held against; the kernel runs them.
use lightpod.Base.{ℕ, zero, suc, leb, ◌==◌, if◌then◌else◌, Option, none, some, List, [], ◌∷◌}
use lightpod.Security.Seccomp.{
  SockFilter, op_load_abs_word, op_jump_equal, op_jump_ge, op_return, offset_nr, offset_arch,
}

-- The fields of struct seccomp_data that a filter of the compiler reads.
pub record SeccompData : Type 0 where
  pub nr : ℕ
  pub arch : ℕ

pub data Outcome : Type 0 where
  answer : ℕ → Outcome
  -- go on behind `skip` further instructions with this accumulator
  go : ℕ → ℕ → Outcome
  fault : Outcome

unfoldable pub decode : SockFilter → ℕ → SeccompData → Outcome
decode i acc d =
    if i.code == op_load_abs_word
    then (if i.k == offset_nr then go 0 d.nr else if i.k == offset_arch then go 0 d.arch else fault)
    else if i.code == op_jump_equal
    then go (if acc == i.k then i.jt else i.jf) acc
    else if i.code == op_jump_ge
    then go (if leb i.k acc then i.jt else i.jf) acc
    else if i.code == op_return
    then answer i.k
    else fault

-- `none`: the program faults or runs off its end, which the kernel refuses at load time.
unfoldable pub run : List SockFilter → ℕ → ℕ → SeccompData → Option ℕ
unfolding decode
run [] skip acc d = none
run (i ∷ is) (suc skip) acc d = run is skip acc d
run (i ∷ is) zero acc d = elim (decode i acc d) [
  | answer r ↦ some r
  | go skip acc' ↦ run is skip acc' d
  | fault ↦ none
]
