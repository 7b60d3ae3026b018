-- ===== src/Device/Raw/Parsed.antt =====
-- What a device entry of ParseRawDevice says of the host's node.
use mathlib.Core.Path.{subst}
use lightpod.Base.{
  List, ℕ, ap, sym, ◌∙◌, ◌≢◌, ◌⊎◌, All, [], ◌∷◌, Bool, Bool-cases, true, false, ◌==◌, inl, inr, ◌≡◌,
  ◌<◌, ◌^◌, refl, arith, not, Option, none, some, Result, ok, err, wrapping, refuse_if, >>=-eq-ok,
  >>-eq-ok, String,
}
use lightpod.Base.Text.{contains_any, Bytes, text, has_prefix, split}
use lightpod.Oci.Spec.{LinuxDevice}
use lightpod.Device.Numbers.{mkdev, major, minor, major-minor-mkdev}
use lightpod.Kernel.{
  FileKind, directory, regular, symbolic_link, char_device, block_device, named_pipe, other_kind,
}
use lightpod.Device.Raw.{
  two_fields, is_permission, RawStat, FileInfo, raw_fields, validate_permissions, device_type,
  described, at_path, describe, checked_device, parse_raw_device,
}

-- The forms of a value: host; host:container, with an absolute container path; host:permissions; and
-- host:container:permissions. The path of the host stands for that of the container, and `rwm` for the
-- permissions, where the value has none.
abbrev pub Fields : List Bytes → Bytes → Bytes → Bytes → Type 0
Fields fields host container permissions =
    ((fields ≡ host ∷ []) × (container ≡ host) × (permissions ≡ text "rwm"))
    ⊎ (((fields ≡ host ∷ container ∷ [])
          × (has_prefix container (text "/") ≡ true)
          × (permissions ≡ text "rwm"))
        ⊎ (((fields ≡ host ∷ permissions ∷ [])
              × (has_prefix permissions (text "/") ≡ false)
              × (container ≡ host))
            ⊎ (fields ≡ host ∷ container ∷ permissions ∷ [])))

abbrev pub IsLetter : ℕ → Type 0
IsLetter c = (c ≡ b'r') ⊎ ((c ≡ b'w') ⊎ (c ≡ b'm'))

-- A node and the letter of its type
abbrev pub Typed : FileKind → Bytes → Type 0
Typed kind type =
    ((kind ≡ char_device) × (type ≡ text "c"))
    ⊎ (((kind ≡ block_device) × (type ≡ text "b")) ⊎ ((kind ≡ named_pipe) × (type ≡ text "p")))

two_fields-Fields :
    (host second : Bytes) (b : Bool) (h c p : Bytes)
    → has_prefix second (text "/") ≡ b
    → two_fields host second b ≡ (h, c, p)
    → Fields (host ∷ second ∷ []) h c p
two_fields-Fields host second true h c p e parts =
    let (eh, ec, ep) : (host ≡ h) × (second ≡ c) × (text "rwm" ≡ p) =
      (ap (λ x. x.0) parts, ap (λ x. x.1) parts, ap (λ x. x.2) parts) in
    inr (inl (rw (eh, ec) refl, ap (λ x. has_prefix x (text "/")) (sym ec) ∙ e, sym ep))
two_fields-Fields host second false h c p e parts =
    let (eh, ec, ep) : (host ≡ h) × (host ≡ c) × (second ≡ p) =
      (ap (λ x. x.0) parts, ap (λ x. x.1) parts, ap (λ x. x.2) parts) in
    inr (inr (inl (rw (eh, ep) refl, ap (λ x. has_prefix x (text "/")) (sym ep) ∙ e, sym ec ∙ eh)))

abbrev value_or : {A : Type 0} → A → Result A → A
value_or a (ok b) = b
value_or a (err e) = a

ok-inj : {A : Type 0} {a b : A} → ok a ≡ ok b → a ≡ b
ok-inj {A} {a} {b} e = ap (value_or a) e

raw_fields-Fields :
    (fields : List Bytes) (h c p : Bytes) → raw_fields fields ≡ ok (h, c, p) → Fields fields h c p
unfolding raw_fields
raw_fields-Fields [] h c p e = absurd cc
raw_fields-Fields (host ∷ []) h c p e =
    let parts : (host, host, text "rwm") ≡ (h, c, p) = ok-inj e in
    let eh : host ≡ h = ap (λ x. x.0) parts in
    inl (ap (λ x. x ∷ []) eh, sym (ap (λ x. x.1) parts) ∙ eh, sym (ap (λ x. x.2) parts))
raw_fields-Fields (host ∷ second ∷ []) h c p e =
    two_fields-Fields host second (has_prefix second (text "/")) h c p refl (ok-inj e)
raw_fields-Fields (host ∷ container ∷ permissions ∷ []) h c p e =
    let parts : (host, container, permissions) ≡ (h, c, p) = ok-inj e in
    inr (inr (inr (ap (λ x. x.0 ∷ x.1 ∷ x.2 ∷ []) parts)))
raw_fields-Fields (host ∷ container ∷ permissions ∷ extra ∷ rest) h c p e = absurd cc

letter : (c : ℕ) → is_permission c ≡ true → IsLetter c
letter c h = elim (Bool-cases (c == b'r')) [
  | inl r ↦ inl (ground (arith, r))
  | inr not_r ↦ elim (Bool-cases (c == b'w')) [
    | inl w ↦ inr (inl (ground (arith, w)))
    | inr not_w ↦ inr (inr (ground (arith, not_r, not_w)))
  ]
]

letters : (p : Bytes) → contains_any (λ c. not (is_permission c)) p ≡ false → All IsLetter p
unfolding contains_any
letters [] h = tt
letters (c ∷ p) h = (letter c (ground arith), letters p (ground arith))

validate_permissions-letters :
    (p : Bytes) → validate_permissions p ≡ ok tt → (p ≢ []) × All IsLetter p
unfolding validate_permissions
validate_permissions-letters [] e = absurd cc
validate_permissions-letters (c ∷ p) e = ((λ h. cc), letters (c ∷ p) (ground arith))

device_type-Typed :
    (kind : FileKind) (type : Bytes) → device_type kind ≡ some type → Typed kind type
device_type-Typed char_device type e = inl (refl, ground arith)
device_type-Typed block_device type e = inr (inl (refl, ground arith))
device_type-Typed named_pipe type e = inr (inr (refl, ground arith))
device_type-Typed directory type e = absurd cc
device_type-Typed regular type e = absurd cc
device_type-Typed symbolic_link type e = absurd cc
device_type-Typed other_kind type e = absurd cc

module _ (stat : Bytes → Result FileInfo) where
  -- A value, the entry that it becomes, and the node of the host between them.
  pub record Parsed (value : Bytes) (dev : LinuxDevice) : Type 0 where
    pub host_path : Bytes
    pub permissions : Bytes
    pub parts : Fields (split value b':') host_path dev.path permissions
    pub absolute : has_prefix host_path (text "/") ≡ true
    pub permitted : (permissions ≢ []) × All IsLetter permissions
    pub info : FileInfo
    pub node : stat host_path ≡ ok info
    pub typed : Typed info.kind dev.type
    pub st : RawStat
    pub raw : info.raw ≡ some st
    pub number : mkdev dev.major dev.minor ≡ st.rdev

  refuse_if-not : (b : Bool) (s : String) → refuse_if (not b) s ≡ ok tt → b ≡ true
  refuse_if-not true s e = refl
  refuse_if-not false s e = absurd (ground arith)

  wrapping-ok : {A : Type 0} (s : String) (r : Result A) {a : A} → wrapping s r ≡ ok a → r ≡ ok a
  wrapping-ok s (ok b) e = e
  wrapping-ok s (err x) e = absurd (ground arith)

  -- Device numbers are words of 64 bits.
  pub record IsStat : Type 0 where
    pub rdev_fits :
        (path : Bytes) (info : FileInfo) (st : RawStat)
        → stat path ≡ ok info
        → info.raw ≡ some st
        → st.rdev < 2 ^ 64

  described-fields :
      (info : FileInfo) (o : Option RawStat) (type : Option Bytes) (dev : LinuxDevice)
      → described info o type ≡ ok dev
      → (st : RawStat) × (o ≡ some st)
        × (type ≡ some dev.type)
        × (dev.major ≡ major st.rdev)
        × (dev.minor ≡ minor st.rdev)
  described-fields info none type dev e = absurd (ground arith)
  described-fields info (some st) none dev e = absurd (ground arith)
  described-fields info (some st) (some type) dev e =
      (st, refl, ground arith, ground arith, ground arith)

  checked_device-Parsed :
      IsStat
      → (value host_path container_path permissions : Bytes)
      → raw_fields (split value b':') ≡ ok (host_path, container_path, permissions)
      → (dev : LinuxDevice) → checked_device stat (host_path, container_path, permissions) ≡ ok dev
      → Parsed value dev
  unfolding describe
  checked_device-Parsed is_stat value host_path container_path permissions parts dev e =
      let (absolute, e₂) =
        >>-eq-ok (refuse_if (not (has_prefix host_path (text "/"))) "host path must be absolute") _
          e in
      let (permitted, e₃) = >>-eq-ok (wrapping "device" (validate_permissions permissions)) _ e₂ in
      let (found, described_ok, e₄) =
        >>=-eq-ok (describe stat host_path) (λ found. ok (at_path container_path found)) e₃ in
      let (info, node, e₅) =
        >>=-eq-ok (wrapping "device" (stat host_path))
          (λ info. described info info.raw (device_type info.kind)) described_ok in
      let (st, raw, typed, major_eq, minor_eq) =
        described-fields info info.raw (device_type info.kind) found e₅ in
      let node_ok = wrapping-ok "device" (stat host_path) node in
      let (_, _, _, number) =
        major-minor-mkdev 0 0 st.rdev (omega arith) (omega arith)
          (is_stat.rdev_fits host_path info st node_ok raw) in
      let same_entry : at_path container_path found ≡ dev = ground arith in
      subst (Parsed value) same_entry (record {
        host_path = host_path;
        permissions = permissions;
        parts = raw_fields-Fields (split value b':') host_path container_path permissions parts;
        absolute =
            refuse_if-not (has_prefix host_path (text "/")) "host path must be absolute" absolute;
        permitted =
            validate_permissions-letters permissions
              (wrapping-ok "device" (validate_permissions permissions) permitted);
        info = info;
        node = node_ok;
        typed = device_type-Typed info.kind found.type typed;
        st = st;
        raw = raw;
        number = rw (major_eq, minor_eq) number;
      })

  -- On a kernel with device numbers of 64 bits: a value that ParseRawDevice accepts is a host path, then
  -- perhaps a container path and perhaps permissions, a second field alone being a container path
  -- exactly if it is absolute. The entry has that container path, or the host path where there is
  -- none; the host path is absolute; the permissions, `rwm` where there are none, are letters of
  -- `rwm`, at least one; the type of the entry is `c`, `b` or `p` for a character device, a block
  -- device or a pipe at the host path; and the major and minor numbers of the entry encode the number of that node.
  pub parse_raw_device-Parsed :
      IsStat
      → (value : Bytes) (dev : LinuxDevice) → parse_raw_device stat value ≡ ok dev
      → Parsed value dev
  unfolding parse_raw_device
  parse_raw_device-Parsed is_stat value dev e =
      let ((host_path, container_path, permissions), parts, rest) =
        >>=-eq-ok (raw_fields (split value b':')) (checked_device stat) e in
      checked_device-Parsed is_stat value host_path container_path permissions parts dev rest
