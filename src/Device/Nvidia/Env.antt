-- ===== src/Device/Nvidia/Env.antt =====
-- What the edits of SetNVIDIAEnv do to an environment that is read as getenv(3) reads it.
use lightpod.Base.{
  All, ◌&&◌, ◌≡◌, ◌≢◌, refl, sym, ap, ◌∙◌, arith, ◌==◌, Bool-cases, inl, inr, true, false,
  if◌then◌else◌, Option, none, some, List, [], ◌∷◌,
}
use lightpod.Base.Text.{Bytes, text, same, same_refl, same_sound, contains_any, cut, cut_cons}
use lightpod.Device.Nvidia.{
  name_of, entry_of, has_env, set_env, visible_devices, driver_capabilities, nvidia_env,
}

-- The value of the first entry with the name; an entry without `=` is no variable.
unfoldable pub env_value : Bytes → List Bytes → Option Bytes
env_value key [] = none
env_value key (kv ∷ env) =
    let rest = env_value key env in
    if same (name_of kv) key && (cut kv b'=').2 then some (cut kv b'=').1 else rest

abbrev pub IsKey : Bytes → Type 0
IsKey key = contains_any (λ c. c == b'=') key ≡ false

cut-entry_of : (key value : Bytes) → IsKey key → cut (entry_of key value) b'=' ≡ (key, value, true)
unfolding cut contains_any entry_of
cut-entry_of [] value h = refl
cut-entry_of (c ∷ key) value h =
    let other : (c == b'=') ≡ false = ground arith in
    rw other (ap (cut_cons c) (cut-entry_of key value (ground arith)))

name-entry_of : (key value : Bytes) → IsKey key → name_of (entry_of key value) ≡ key
unfolding name_of
name-entry_of key value h = ap (λ x. x.0) (cut-entry_of key value h)

env_value-set_env_same :
    (key value : Bytes) (env : List Bytes)
    → IsKey key
    → env_value key (set_env key value env) ≡ some value
unfolding env_value set_env
env_value-set_env_same key value [] h =
    rw (name-entry_of key value h, same_refl key, cut-entry_of key value h) refl
env_value-set_env_same key value (kv ∷ env) h = elim (Bool-cases (same (name_of kv) key)) [
  | inl found ↦ rw (found, name-entry_of key value h, same_refl key, cut-entry_of key value h) refl
  | inr other ↦ rw (other, other) (env_value-set_env_same key value env h)
]

env_value-set_env_other :
    (key other value : Bytes) (env : List Bytes)
    → IsKey key
    → same key other ≡ false
    → env_value other (set_env key value env) ≡ env_value other env
unfolding env_value set_env
env_value-set_env_other key other value [] h ne = rw (name-entry_of key value h, ne) refl
env_value-set_env_other key other value (kv ∷ env) h ne =
    elim (Bool-cases (same (name_of kv) key)) [
      | inl found ↦
          let passed : same (name_of kv) other ≡ false =
            rw (same_sound (name_of kv) key found) ne in
          rw (found, name-entry_of key value h, ne, passed) refl
      | inr kept ↦ rw kept (elim (Bool-cases (same (name_of kv) other)) [
        | inl hit ↦ rw (hit, env_value-set_env_other key other value env h ne) refl
        | inr miss ↦ rw miss (env_value-set_env_other key other value env h ne)
      ])
    ]

env_value-has_env :
    (key : Bytes) (env : List Bytes) → has_env key env ≡ false → env_value key env ≡ none
unfolding env_value has_env
env_value-has_env key [] h = refl
env_value-has_env key (kv ∷ env) h = elim (Bool-cases (same (name_of kv) key)) [
  | inl found ↦ absurd (ground arith)
  | inr other ↦ rw other (env_value-has_env key env (ground arith))
]

-- Every entry has an `=`.
abbrev pub IsEnviron : List Bytes → Type 0
IsEnviron env = All (λ kv. (cut kv b'=').2 ≡ true) env

set_env-IsEnviron :
    (key value : Bytes) (env : List Bytes)
    → IsKey key
    → IsEnviron env
    → IsEnviron (set_env key value env)
unfolding set_env
set_env-IsEnviron key value [] h all = (ap (λ x. x.2) (cut-entry_of key value h), tt)
set_env-IsEnviron key value (kv ∷ env) h (first, all) = elim (Bool-cases (same (name_of kv) key)) [
  | inl found ↦ rw found (ap (λ x. x.2) (cut-entry_of key value h), all)
  | inr other ↦ rw other (first, set_env-IsEnviron key value env h all)
]

has_env-env_value :
    (key : Bytes) (env : List Bytes)
    → IsEnviron env
    → has_env key env ≡ true
    → env_value key env ≢ none
unfolding env_value has_env
has_env-env_value key [] all h e = cc
has_env-env_value key (kv ∷ env) (first, all) h e = elim (Bool-cases (same (name_of kv) key)) [
  | inl found ↦ ground (arith, found, first)
  | inr other ↦ has_env-env_value key env all (ground (arith, other)) (ground (arith, other))
]

abbrev pub or_all : Option Bytes → Option Bytes
or_all none = some (text "all")
or_all (some value) = some value

or_all-known : (o : Option Bytes) → o ≢ none → o ≡ or_all o
or_all-known none h = absurd (h refl)
or_all-known (some value) h = refl

-- What a program reads from the environment before and after.
abbrev pub Asks : Bytes → Bytes → List Bytes → List Bytes → Type 0
Asks devices other env env' =
    (env_value visible_devices env' ≡ some devices)
    × (env_value driver_capabilities env' ≡ or_all (env_value driver_capabilities env))
    × (env_value other env' ≡ env_value other env)

visible-IsKey : IsKey visible_devices
unfolding contains_any
visible-IsKey = refl

capabilities-IsKey : IsKey driver_capabilities
unfolding contains_any
capabilities-IsKey = refl

distinct_keys :
    (same visible_devices driver_capabilities ≡ false)
    × (same driver_capabilities visible_devices ≡ false)
unfolding same
distinct_keys = (refl, refl)

capabilities_kept :
    (devices : Bytes) (env : List Bytes)
    → env_value driver_capabilities (set_env visible_devices devices env)
      ≡ env_value driver_capabilities env
capabilities_kept devices env =
    let (apart, _) = distinct_keys in
    env_value-set_env_other visible_devices driver_capabilities devices env visible-IsKey apart

-- Where every entry of the environment has an `=`: behind SetNVIDIAEnv, a program of the container reads the asked devices as its visible devices, the
-- driver capabilities that it would have read before, or `all` where there were none, and every other
-- variable as before.
pub nvidia_env-Asks :
    (devices other : Bytes) (env : List Bytes)
    → IsEnviron env
    → same visible_devices other ≡ false
    → same driver_capabilities other ≡ false
    → Asks devices other env (nvidia_env devices env)
unfolding nvidia_env
nvidia_env-Asks devices other env all ne_visible ne_capabilities =
    let visible = set_env visible_devices devices env in
    let (_, apart) = distinct_keys in
    let kept = capabilities_kept devices env in
    let shown = env_value-set_env_same visible_devices devices env visible-IsKey in
    let passed =
      env_value-set_env_other visible_devices other devices env visible-IsKey ne_visible in
    elim (Bool-cases (has_env driver_capabilities visible)) [
      | inl there ↦ rw there (
        shown,
        or_all-known (env_value driver_capabilities visible) (
              has_env-env_value driver_capabilities visible
                (set_env-IsEnviron visible_devices devices env visible-IsKey all) there)
            ∙ ap or_all kept,
        passed,
      )
      | inr missing ↦
          let none_before : env_value driver_capabilities env ≡ none =
            sym kept ∙ env_value-has_env driver_capabilities visible missing in
          rw missing (
            env_value-set_env_other driver_capabilities visible_devices (text "all") visible
                  capabilities-IsKey apart
                ∙ shown,
            env_value-set_env_same driver_capabilities (text "all") visible capabilities-IsKey
                ∙ sym (ap or_all none_before),
            env_value-set_env_other driver_capabilities other (text "all") visible
                  capabilities-IsKey ne_capabilities
                ∙ passed,
          )
    ]
