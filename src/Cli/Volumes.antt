-- ===== src/Cli/Volumes.antt =====
-- parseVolume of flags.go.
use mathlib.Core.Path.{subst}
use lightpod.Base.{
  ℕ, ◌+◌, ◌≡◌, ◌^◌, refl, arith, ◌||◌, Bool, Bool-cases, inl, inr, ◌⊎◌, sym, ap, ◌∙◌, true, false,
  not, if◌then◌else◌, List, [], ◌∷◌, ◌++◌, Result, ok, err, msg,
}
use lightpod.Base.Text.{Bytes, text, texts, same, same_sound, has_prefix, split}
use lightpod.Oci.Spec.{Mount}
use lightpod.Runtime.Mounts.Options.{parse_mount_options, parse_options_from}

abbrev pub volume_options : List Bytes
volume_options = texts ("rbind" ∷ "nosuid" ∷ "nodev" ∷ [])

unfoldable pub options_for : Bytes → Result (List Bytes)
unfolding same
options_for mode =
    if same mode (text "rw")
    then ok volume_options
    else if same mode (text "ro")
    then ok (volume_options ++ text "ro" ∷ [])
    else err (msg "mode must be ro or rw")

abbrev pub volume_at : Bytes → Bytes → Result (List Bytes) → Result Mount
volume_at host container (err e) = err e
volume_at host container (ok options) = ok (record {
  destination = container;
  type = text "none";
  source = host;
  options = options;
  uid_mappings = [];
  gid_mappings = [];
})

abbrev pub volume_of : Bytes → Bytes → Bytes → Result Mount
volume_of host container mode =
    if not (has_prefix host (text "/")) || not (has_prefix container (text "/"))
    then err (msg "both paths must be absolute")
    else volume_at host container (options_for mode)

unfoldable pub volume_fields : List Bytes → Result Mount
unfolding options_for has_prefix
volume_fields (host ∷ container ∷ []) = volume_of host container (text "rw")
volume_fields (host ∷ container ∷ mode ∷ []) = volume_of host container mode
volume_fields fields = err (msg "volume must be host:container[:ro]")

unfoldable pub parse_volume : Bytes → Result Mount
unfolding volume_fields split
parse_volume value = volume_fields (split value b':')

-- MS_BIND, MS_REC, MS_NOSUID and MS_NODEV
abbrev pub volume_flags : ℕ
volume_flags = 2 ^ 12 + 2 ^ 14 + 2 ^ 1 + 2 ^ 2

-- What the third field says, if there is one: `rw` and no field are writable, `ro` is read-only.
abbrev pub Mode : List Bytes → Bool → Type 0
Mode mode readonly =
    (((mode ≡ []) ⊎ (mode ≡ text "rw" ∷ [])) × (readonly ≡ false))
    ⊎ ((mode ≡ text "ro" ∷ []) × (readonly ≡ true))

-- A volume of these fields is mounted from its first field, an absolute path, at its second, another,
-- with these flags, read-only as its third field says, and with neither a propagation nor data.
pub record Volume (fields : List Bytes) (m : Mount) : Type 0 where
  pub mode : List Bytes
  pub spelled : fields ≡ m.source ∷ m.destination ∷ mode
  pub readonly : Bool
  pub chosen : Mode mode readonly
  pub flags : parse_mount_options m.options ≡ (volume_flags + (if readonly then 1 else 0), 0, [])
  pub from_root : has_prefix m.source (text "/") ≡ true
  pub at_root : has_prefix m.destination (text "/") ≡ true

options_for-known :
    (mode : Bytes) (options : List Bytes)
    → options_for mode ≡ ok options
    → (b : Bool) × (((mode ≡ text "rw") × (b ≡ false)) ⊎ ((mode ≡ text "ro") × (b ≡ true)))
      × (parse_mount_options options ≡ (volume_flags + (if b then 1 else 0), 0, []))
unfolding options_for parse_mount_options lightpod.Runtime.Mounts.Options.mount_flag_names
options_for-known mode options e = elim (Bool-cases (same mode (text "rw"))) [
  | inl writable ↦
      let known : volume_options ≡ options = ground arith in
      (
        false,
        inl (same_sound mode (text "rw") writable, refl),
        subst (λ x. parse_mount_options x ≡ (volume_flags, 0, [])) known refl,
      )
  | inr other ↦ elim (Bool-cases (same mode (text "ro"))) [
    | inl ro ↦
        let known : volume_options ++ text "ro" ∷ [] ≡ options = ground arith in
        (
          true,
          inr (same_sound mode (text "ro") ro, refl),
          subst (λ x. parse_mount_options x ≡ (volume_flags + 1, 0, [])) known refl,
        )
    | inr unknown ↦ absurd (ground arith)
  ]
]

volume_at-ok :
    (host container : Bytes) (r : Result (List Bytes)) (m : Mount)
    → volume_at host container r ≡ ok m
    → (r ≡ ok m.options) × (host ≡ m.source) × (container ≡ m.destination)
volume_at-ok host container (err x) m e = absurd (ground arith)
volume_at-ok host container (ok options) m e = (ground arith, ground arith, ground arith)

volume_of-Volume :
    (host container text_mode : Bytes) (mode : List Bytes) (m : Mount)
    → ((b : Bool)
        → ((text_mode ≡ text "rw") × (b ≡ false)) ⊎ ((text_mode ≡ text "ro") × (b ≡ true))
        → Mode mode b)
    → volume_of host container text_mode ≡ ok m
    → Volume (host ∷ container ∷ mode) m
volume_of-Volume host container text_mode mode m chosen e =
    elim (Bool-cases (has_prefix host (text "/"))) [
      | inr relative ↦ absurd (ground arith)
      | inl hh ↦ elim (Bool-cases (has_prefix container (text "/"))) [
        | inr relative ↦ absurd (ground arith)
        | inl hc ↦
            let rest : volume_at host container (options_for text_mode) ≡ ok m = ground arith in
            let (known, from, at) = volume_at-ok host container (options_for text_mode) m rest in
            let (b, which, flags) = options_for-known text_mode m.options known in
            record {
              mode = mode;
              spelled = rw (from, at) refl;
              readonly = b;
              chosen = chosen b which;
              flags = flags;
              from_root = ap (λ x. has_prefix x (text "/")) (sym from) ∙ hh;
              at_root = ap (λ x. has_prefix x (text "/")) (sym at) ∙ hc;
            }
      ]
    ]

no-Mode :
    (b : Bool)
    → ((text "rw" ≡ text "rw") × (b ≡ false)) ⊎ ((text "rw" ≡ text "ro") × (b ≡ true))
    → Mode [] b
no-Mode b (inl (_, writable)) = inl (inl refl, writable)
no-Mode b (inr (other, _)) = absurd (ground arith)

own-Mode :
    (mode : Bytes) (b : Bool)
    → ((mode ≡ text "rw") × (b ≡ false)) ⊎ ((mode ≡ text "ro") × (b ≡ true))
    → Mode (mode ∷ []) b
own-Mode mode b (inl (spelled, writable)) = inl (inr (ap (λ x. x ∷ []) spelled), writable)
own-Mode mode b (inr (spelled, readonly)) = inr (ap (λ x. x ∷ []) spelled, readonly)

volume_fields-Volume :
    (fields : List Bytes) (m : Mount) → volume_fields fields ≡ ok m → Volume fields m
unfolding volume_fields
volume_fields-Volume [] m e = absurd (ground arith)
volume_fields-Volume (host ∷ []) m e = absurd (ground arith)
volume_fields-Volume (host ∷ container ∷ []) m e =
    volume_of-Volume host container (text "rw") [] m no-Mode e
volume_fields-Volume (host ∷ container ∷ mode ∷ []) m e =
    volume_of-Volume host container mode (mode ∷ []) m (own-Mode mode) e
volume_fields-Volume (host ∷ container ∷ mode ∷ extra ∷ rest) m e = absurd (ground arith)

-- Every volume that -v accepts has two or three fields between colons: it is a mount from the first,
-- an absolute path, at the second, another, whose options mountOne reads as a recursive bind without
-- set-user-id programs and devices, with neither a propagation nor data, and read-only exactly if the
-- third field is `ro`; a third field that is there is `ro` or `rw`.
pub parse_volume-Volume :
    (value : Bytes) (m : Mount) → parse_volume value ≡ ok m → Volume (split value b':') m
unfolding parse_volume
parse_volume-Volume value m e = volume_fields-Volume (split value b':') m e
