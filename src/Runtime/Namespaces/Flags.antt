-- ===== src/Runtime/Namespaces/Flags.antt =====
-- The clone flags against the namespaces that are asked for.
use Prim.Native.Nat.{bit_or}
use mathlib.Core.Path.{subst}
use lightpod.Base.{
  ℕ, ◌^◌, ◌≡◌, ◌↔◌, refl, Bool, true, false, not, ◌||◌, ◌&&◌, ◌==◌, Bool-cases, Result-cases, inl,
  inr, List, [], ◌∷◌, Result, ok, err, arith,
}
use lightpod.Base.Bits.{test_bit, test_bit-or, test_bit-pow, test_bit-zero}
use lightpod.Base.Text.{Bytes, text, same, same_sound}
use lightpod.Oci.Spec.{Spec, LinuxNamespace}
use lightpod.Oci.Spec.{
  uts_namespace, ipc_namespace, network_namespace, pid_namespace, mount_namespace, user_namespace,
  cgroup_namespace, time_namespace,
}
use lightpod.Runtime.Namespaces.{flag_bit, collect_flags, namespaces_of, clone_flags}

-- The types of namespaces that clone(2) creates, each with the bit of its flag in linux/sched.h.
abbrev clone_bits : List (Bytes × ℕ)
clone_bits =
    (text "mount", 17)
    ∷ (text "cgroup", 25)
    ∷ (text "uts", 26)
    ∷ (text "ipc", 27)
    ∷ (text "user", 28)
    ∷ (text "pid", 29)
    ∷ (text "network", 30)
    ∷ []

abbrev some_entry : List (Bytes × ℕ) → (Bytes → ℕ → Bool) → Bool
some_entry [] test = false
some_entry ((name, bit) ∷ entries) test = test name bit || some_entry entries test

abbrev pub has_bit : Bytes → ℕ → Bool
has_bit type bit = some_entry clone_bits (λ name b. same type name && (b == bit))

abbrev pub has_entry : Bytes → Bool
has_entry type = some_entry clone_bits (λ name b. same type name)

-- Some namespace without a path is of a type of this flag.
unfoldable pub asks_for : List LinuxNamespace → ℕ → Bool
asks_for [] bit = false
asks_for (ns ∷ namespaces) bit = (same ns.path [] && has_bit ns.type bit) || asks_for namespaces bit

-- Every namespace without a path is of a type of the table.
unfoldable pub all_have_flags : List LinuxNamespace → Bool
all_have_flags [] = true
all_have_flags (ns ∷ namespaces) =
    (not (same ns.path []) || has_entry ns.type) && all_have_flags namespaces

-- What the switch of the source answers, read through the table.
Answers : Bytes → Result ℕ → Type 0
Answers type (ok b) = (has_entry type ≡ true) × ((bit : ℕ) → has_bit type bit ≡ (b == bit))
Answers type (err e) = (has_entry type ≡ false) × ((bit : ℕ) → has_bit type bit ≡ false)

flag_bit-Answers : (type : Bytes) → Answers type (flag_bit type)
unfolding flag_bit same Answers
flag_bit-Answers type = elim (Bool-cases (same type uts_namespace)) [
  | inl is_uts ↦ rw (same_sound type uts_namespace is_uts) (refl, λ bit. ground arith)
  | inr not_uts ↦ elim (Bool-cases (same type ipc_namespace)) [
    | inl is_ipc ↦ rw (same_sound type ipc_namespace is_ipc) (refl, λ bit. ground arith)
    | inr not_ipc ↦ elim (Bool-cases (same type network_namespace)) [
      | inl is_network ↦
          rw (same_sound type network_namespace is_network) (refl, λ bit. ground arith)
      | inr not_network ↦ elim (Bool-cases (same type pid_namespace)) [
        | inl is_pid ↦ rw (same_sound type pid_namespace is_pid) (refl, λ bit. ground arith)
        | inr not_pid ↦ elim (Bool-cases (same type mount_namespace)) [
          | inl is_mount ↦ rw (same_sound type mount_namespace is_mount) (refl, λ bit. ground arith)
          | inr not_mount ↦ elim (Bool-cases (same type user_namespace)) [
            | inl is_user ↦ rw (same_sound type user_namespace is_user) (refl, λ bit. ground arith)
            | inr not_user ↦ elim (Bool-cases (same type cgroup_namespace)) [
              | inl is_cgroup ↦
                  rw (same_sound type cgroup_namespace is_cgroup) (refl, λ bit. ground arith)
              | inr not_cgroup ↦ elim (Bool-cases (same type time_namespace)) [
                | inl is_time ↦ rw (same_sound type time_namespace is_time) (refl, λ bit. refl)
                | inr not_time ↦
                    rw
                      (
                        not_uts, not_ipc, not_network, not_pid, not_mount, not_user, not_cgroup,
                        not_time,
                      )
                      (
                        ground (
                          arith, not_uts, not_ipc, not_network, not_pid, not_mount, not_user,
                          not_cgroup, not_time,
                        ),
                        λ bit. ground (
                          arith, not_uts, not_ipc, not_network, not_pid, not_mount, not_user,
                          not_cgroup, not_time,
                        ),
                      )
              ]
            ]
          ]
        ]
      ]
    ]
  ]
]

collect_flags-bits :
    (namespaces : List LinuxNamespace) (flags result bit : ℕ)
    → collect_flags namespaces flags ≡ ok result
    → test_bit result bit ≡ (test_bit flags bit || asks_for namespaces bit)
unfolding collect_flags asks_for Answers
collect_flags-bits [] flags result bit h = ground arith
collect_flags-bits (ns ∷ namespaces) flags result bit h = elim (Bool-cases (same ns.path [])) [
  | inr joined ↦ ground (arith, joined, collect_flags-bits namespaces flags result bit)
  | inl created ↦ elim (Result-cases (flag_bit ns.type)) [
    | inr (e, unknown) ↦ absurd (ground (arith, created, unknown))
    | inl (b, known) ↦ ground (
      arith,
      created,
      known,
      (subst (Answers ns.type) known (flag_bit-Answers ns.type)).1 bit,
      test_bit-or bit flags (2 ^ b),
      test_bit-pow b bit,
      collect_flags-bits namespaces (bit_or flags (2 ^ b)) result bit,
    )
  ]
]

collect_flags-ok :
    (namespaces : List LinuxNamespace) (flags : ℕ)
    → all_have_flags namespaces ≡ true
    → (result : ℕ) × (collect_flags namespaces flags ≡ ok result)
unfolding collect_flags all_have_flags Answers
collect_flags-ok [] flags h = (flags, refl)
collect_flags-ok (ns ∷ namespaces) flags h = elim (Bool-cases (same ns.path [])) [
  | inr joined ↦
      let (result, e) = collect_flags-ok namespaces flags (ground (arith, joined)) in
      (result, ground (arith, joined, e))
  | inl created ↦ elim (Result-cases (flag_bit ns.type)) [
    | inr (x, unknown) ↦ absurd (
        ground
          (arith, created, unknown, (subst (Answers ns.type) unknown (flag_bit-Answers ns.type)).0))
    | inl (b, known) ↦
        let (result, e) =
          collect_flags-ok namespaces (bit_or flags (2 ^ b)) (ground (arith, created, known)) in
        (result, ground (arith, created, known, e))
  ]
]

collect_flags-known :
    (namespaces : List LinuxNamespace) (flags result : ℕ)
    → collect_flags namespaces flags ≡ ok result
    → all_have_flags namespaces ≡ true
unfolding collect_flags all_have_flags Answers
collect_flags-known [] flags result h = refl
collect_flags-known (ns ∷ namespaces) flags result h = elim (Bool-cases (same ns.path [])) [
  | inr joined ↦ ground (arith, joined, collect_flags-known namespaces flags result)
  | inl created ↦ elim (Result-cases (flag_bit ns.type)) [
    | inr (x, unknown) ↦ absurd (ground (arith, created, unknown))
    | inl (b, known) ↦ ground (
      arith,
      created,
      known,
      (subst (Answers ns.type) known (flag_bit-Answers ns.type)).0,
      collect_flags-known namespaces (bit_or flags (2 ^ b)) result,
    )
  ]
]

-- A spec gets clone flags exactly if every namespace without a path is of one of the seven types
-- that clone can create; a flag is then set exactly if some namespace without a path is of its type. So every
-- isolation that is asked for is created, and none is dropped or added.
pub clone_flags-bits :
    (spec : Spec)
    → (((flags : ℕ) × (clone_flags spec ≡ ok flags))
        ↔ (all_have_flags (namespaces_of spec.linux) ≡ true))
      × ((flags bit : ℕ)
          → clone_flags spec ≡ ok flags
          → test_bit flags bit ≡ asks_for (namespaces_of spec.linux) bit)
unfolding clone_flags
clone_flags-bits spec =
    let namespaces = namespaces_of spec.linux in
    (
      ((λ made. collect_flags-known namespaces 0 made.0 made.1), collect_flags-ok namespaces 0),
      λ flags bit made. rw (collect_flags-bits namespaces 0 flags bit made, test_bit-zero bit) refl,
    )
