-- ===== src/Runtime/IdMaps/Written.antt =====
-- What writeIDMaps has done where it succeeds.
use mathlib.Core.Path.{subst}
use lightpod.Base.{
  ℕ, refl, ◌≡◌, sym, ap, ◌∙◌, arith, ◌==◌, ◌&&◌, Bool, Bool-cases, inl, inr, ◌⊎◌, true, false,
  if◌then◌else◌, is_empty, Option, none, some, List, [], ◌∷◌, ◌++◌, ok,
}
use lightpod.Base.Text.{Bytes, text, decimal}
use lightpod.Oci.Spec.{LinuxIdMapping}
use lightpod.Kernel.{Kernel, Call, Event, did, refused, write_file, run_helper}
use lightpod.Kernel.Actions.{perform_unless, tolerated}
use lightpod.Kernel.Laws.{>>=-ok, wrapped-ok}
use lightpod.Kernel.Does.{after, Does, Does-pure, Does-then, Does-wrapped-perform}
use lightpod.Runtime.IdMaps.{
  Account, id_mapping, is_self_mapping, map_lines, helper_args, proc_file, no_such_file,
  write_map_file, run_id_map_helper, deny_setgroups, write_maps, help_maps, writes_itself,
  write_id_maps,
}

abbrev pub map_calls : Bytes → List LinuxIdMapping → List Call
map_calls path [] = []
map_calls path (m ∷ mappings) = write_file path (map_lines (m ∷ mappings)) ∷ []

abbrev pub helper_calls : Bytes → ℕ → List LinuxIdMapping → List Call
helper_calls tool pid [] = []
helper_calls tool pid (m ∷ mappings) =
    run_helper tool (decimal pid ∷ helper_args (m ∷ mappings)) ∷ []

abbrev pub deny_call : ℕ → Call
deny_call pid = write_file (proc_file pid (text "setgroups")) (text "deny")

-- The file took the denial, or the kernel has no such file.
abbrev pub Denied : ℕ → List Event → List Event → Type 0
Denied pid h h' = (h' ≡ did (deny_call pid) ∷ h) ⊎ (h' ≡ refused (deny_call pid) no_such_file ∷ h)

-- The mapping has one entry, and that maps one id of the container to the id itself.
abbrev pub IsOwn : List LinuxIdMapping → ℕ → Type 0
IsOwn mappings self = (inside : ℕ) × (mappings ≡ id_mapping inside self 1 ∷ [])

-- By the program itself, behind the denial of setgroups; or by the helpers.
abbrev pub WrittenBy :
    Bool → ℕ → List LinuxIdMapping → List LinuxIdMapping → List Event → List Event → Type 0
WrittenBy true pid uids gids h h' =
    (denied : List Event) × Denied pid h denied
    × (h'
        ≡ after
            (map_calls (proc_file pid (text "uid_map")) uids
              ++ map_calls (proc_file pid (text "gid_map")) gids)
            denied)
WrittenBy false pid uids gids h h' =
    h'
    ≡ after (helper_calls (text "newuidmap") pid uids ++ helper_calls (text "newgidmap") pid gids) h

-- By the program itself for root and for a single own id; by the helpers for every other.
abbrev pub Mapped :
    Account
    → Bool
    → ℕ
    → List LinuxIdMapping
    → List LinuxIdMapping
    → List Event
    → List Event
    → Type 0
Mapped who rootfull pid uids gids h h' =
    (((rootfull ≡ true) ⊎ (IsOwn uids who.uid × IsOwn gids who.gid))
      × WrittenBy true pid uids gids h h')
    ⊎ ((rootfull ≡ false)
        × (¬ (IsOwn uids who.uid × IsOwn gids who.gid))
        × WrittenBy false pid uids gids h h')

is_self_mapping-IsOwn :
    (mappings : List LinuxIdMapping) (self : ℕ)
    → is_self_mapping mappings self ≡ true
    → IsOwn mappings self
is_self_mapping-IsOwn [] self e = absurd (ground arith)
is_self_mapping-IsOwn (m ∷ []) self e =
    let one : m.size ≡ 1 = ground arith in
    let own : m.host_id ≡ self = ground arith in
    (m.container_id, ap (λ x. x ∷ []) (rw (← one, ← own) refl))
is_self_mapping-IsOwn (m ∷ n ∷ mappings) self e = absurd (ground arith)

IsOwn-is_self_mapping :
    (mappings : List LinuxIdMapping) (self : ℕ)
    → IsOwn mappings self
    → is_self_mapping mappings self ≡ true
IsOwn-is_self_mapping mappings self (inside, e) = rw e (ground arith)

module _ (k : Kernel) where
  map_file-Does :
      (path : Bytes) (mappings : List LinuxIdMapping)
      → Does (write_map_file k path mappings) (map_calls path mappings)
  unfolding write_map_file
  map_file-Does path [] = Does-pure
  map_file-Does path (m ∷ mappings) = Does-wrapped-perform k "writing" _

  helper-Does :
      (tool : Bytes) (pid : ℕ) (mappings : List LinuxIdMapping)
      → Does (run_id_map_helper k tool pid mappings) (helper_calls tool pid mappings)
  unfolding run_id_map_helper
  helper-Does tool pid [] = Does-pure
  helper-Does tool pid (m ∷ mappings) = Does-wrapped-perform k "failed" _

  tolerated-Denied :
      (pid : ℕ) (o : Option ℕ) (h h' : List Event)
      → tolerated k (deny_call pid) no_such_file o h ≡ (ok tt, h')
      → Denied pid h h'
  tolerated-Denied pid none h h' e = inl (ground arith)
  tolerated-Denied pid (some n) h h' e = elim (Bool-cases (n == no_such_file)) [
    | inl same_errno ↦
        let known : n ≡ no_such_file = ground arith in
        inr (sym (ap (λ x. x.1) e) ∙ ap (λ x. refused (deny_call pid) x ∷ h) known)
    | inr other ↦ absurd (ground arith)
  ]

  deny-Denied :
      (pid : ℕ) (h h' : List Event) → deny_setgroups k pid h ≡ (ok tt, h') → Denied pid h h'
  deny-Denied pid h h' e =
      tolerated-Denied pid (k.answer h (deny_call pid)) h h'
        (wrapped-ok "denying setgroups" (perform_unless k no_such_file (deny_call pid)) h e)

  chosen-Mapped :
      (b : Bool) (pid : ℕ) (uids gids : List LinuxIdMapping) (h h' : List Event)
      → (if b then write_maps k pid uids gids else help_maps k pid uids gids) h ≡ (ok tt, h')
      → WrittenBy b pid uids gids h h'
  unfolding write_maps help_maps
  chosen-Mapped true pid uids gids h h' e =
      let (_, denied, was_denied, rest) = >>=-ok (deny_setgroups k pid) _ h e in
      (
        denied,
        deny-Denied pid h denied was_denied,
        (Does-then _ _ (map_calls (proc_file pid (text "uid_map")) uids)
              (map_calls (proc_file pid (text "gid_map")) gids)
              (map_file-Does (proc_file pid (text "uid_map")) uids)
              (map_file-Does (proc_file pid (text "gid_map")) gids)).made
            denied h' rest,
      )
  chosen-Mapped false pid uids gids h h' e =
      (Does-then _ _ (helper_calls (text "newuidmap") pid uids)
          (helper_calls (text "newgidmap") pid gids) (helper-Does (text "newuidmap") pid uids)
          (helper-Does (text "newgidmap") pid gids)).made
        h h' e

  -- Where writeIDMaps has mappings and succeeds: as root, or where each mapping is a single entry that
  -- maps one id to the user's own,
  -- setgroups was denied for the process first, or the kernel has no file for that, and then the user
  -- and the group mapping were written, in this order, each with a line per entry; otherwise newuidmap
  -- and newgidmap were run, in this order. Nothing else was done, and an empty mapping is left out.
  pub write_id_maps-Mapped :
      (who : Account) (rootfull : Bool) (pid : ℕ) (uids gids : List LinuxIdMapping)
      (h h' : List Event)
      → (is_empty uids && is_empty gids) ≡ false
      → write_id_maps k who rootfull pid uids gids h ≡ (ok tt, h')
      → Mapped who rootfull pid uids gids h h'
  unfolding write_id_maps
  write_id_maps-Mapped who rootfull pid uids gids h h' some_mapping e =
      let here =
        chosen-Mapped (writes_itself who rootfull uids gids) pid uids gids h h'
          (rw some_mapping at e) in
      elim (Bool-cases rootfull) [
        | inl root ↦
            inl
              (inl root, subst (λ b. WrittenBy b pid uids gids h h') {y = true} (rw root refl) here)
        | inr weak ↦
            elim (Bool-cases (is_self_mapping uids who.uid && is_self_mapping gids who.gid)) [
              | inl own ↦ inl (
                inr (
                  is_self_mapping-IsOwn uids who.uid (ground (arith, own)),
                  is_self_mapping-IsOwn gids who.gid (ground (arith, own)),
                ),
                subst (λ b. WrittenBy b pid uids gids h h') {y = true} (rw (weak, own) refl) here,
              )
              | inr other ↦ inr (
                weak,
                λ (own_uid, own_gid). ground (
                  arith,
                  other,
                  IsOwn-is_self_mapping uids who.uid own_uid,
                  IsOwn-is_self_mapping gids who.gid own_gid,
                ),
                subst (λ b. WrittenBy b pid uids gids h h') {y = false} (rw (weak, other) refl)
                    here,
              )
            ]
      ]
