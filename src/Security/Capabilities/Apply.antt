-- ===== src/Security/Capabilities/Apply.antt =====
-- ApplyCapabilities: the calls that reduce the process to a policy, and their order.
use mathlib.Core.Path.{subst}
use lightpod.Base.{
  ℕ, zero, suc, ◌+◌, ◌≡◌, sym, true, false, ◌==◌, if◌then◌else◌, Option, none, some, Option-cases,
  Bool-cases, inl, inr, List, ◌∷◌, arith, Result, ok, err,
}
use lightpod.Base.Int.{ℤ, pos, negsuc, parse_int}
use lightpod.Base.Text.{Bytes, text, trim_space}
use lightpod.Oci.Spec.{LinuxCapabilities}
use lightpod.Kernel.{Kernel, Event, did, refused, prctl, prctl_ambient, capset, CapData}
use lightpod.Kernel.Actions.{Os, ◌>>=◌, ◌>>◌, perform, perform_unless, wrapped, pure, lift}
use lightpod.Kernel.Laws.{>>=-ok, perform-wrapped-ok}
use lightpod.Security.Capabilities.{CapSet, CapabilityPolicy, has, low, high, resolve_capabilities}

-- prctl options
abbrev pub cap_bset_drop : ℕ
cap_bset_drop = 24

abbrev pub cap_ambient_raise : ℕ
cap_ambient_raise = 2

abbrev pub cap_ambient_clear_all : ℕ
cap_ambient_clear_all = 4

abbrev pub einval : ℕ
einval = 22

-- CAP_CHECKPOINT_RESTORE
abbrev pub fallback_cap : ℕ
fallback_cap = 40

abbrev cap_or_fallback : Option ℤ → ℕ
cap_or_fallback (some (pos n)) = n
cap_or_fallback (some (negsuc n)) = fallback_cap
cap_or_fallback none = fallback_cap

abbrev parse_last_cap : Result Bytes → ℕ
parse_last_cap (ok content) = cap_or_fallback (parse_int (trim_space content))
parse_last_cap (err e) = fallback_cap

-- The two halves of a policy for capset.
abbrev pub low_half : CapabilityPolicy → CapData
low_half p = record {
  effective = low p.effective;
  permitted = low p.permitted;
  inheritable = low p.inheritable;
}

abbrev pub high_half : CapabilityPolicy → CapData
high_half p = record {
  effective = high p.effective;
  permitted = high p.permitted;
  inheritable = high p.inheritable;
}

module _ (k : Kernel) where
  unfoldable pub last_capability : List Event → ℕ
  last_capability h = parse_last_cap (k.read_file h (text "/proc/sys/kernel/cap_last_cap"))

  -- The body of the first loop.
  abbrev pub drop_bit : CapSet → ℕ → Os (Unit {0})
  drop_bit bounding bit =
      if has bounding bit
      then pure tt
      else wrapped "dropping bounding capability"
          (perform_unless k einval (prctl cap_bset_drop bit))

  -- `for bit := ...; bit <= lastCap; bit++` with `rounds` values of `bit` left.
  unfoldable pub drop_bounding : CapSet → ℕ → ℕ → Os (Unit {0})
  drop_bounding bounding zero bit = pure tt
  drop_bounding bounding (suc rounds) bit = do
    drop_bit bounding bit
    drop_bounding bounding rounds (bit + 1)

  abbrev pub raise_bit : CapSet → ℕ → Os (Unit {0})
  raise_bit ambient bit =
      if has ambient bit
      then wrapped "raising ambient capability" (perform k (prctl_ambient cap_ambient_raise bit))
      else pure tt

  unfoldable pub raise_ambient : CapSet → ℕ → ℕ → Os (Unit {0})
  raise_ambient ambient zero bit = pure tt
  raise_ambient ambient (suc rounds) bit = do
    raise_bit ambient bit
    raise_ambient ambient rounds (bit + 1)

  -- What ApplyCapabilities does once the policy is resolved and the last capability is read.
  unfoldable pub apply_policy : CapabilityPolicy → ℕ → Os (Unit {0})
  apply_policy want last_cap = do
    drop_bounding want.bounding (last_cap + 1) 0
    wrapped "clearing ambient capability set" (perform k (prctl_ambient cap_ambient_clear_all 0))
    wrapped "capset" (perform k (capset (low_half want) (high_half want)))
    raise_ambient want.ambient (last_cap + 1) 0

  unfoldable pub apply_capabilities : Option LinuxCapabilities → Os (Unit {0})
  unfolding apply_policy
  apply_capabilities caps = do
    want ← lift (resolve_capabilities caps)
    λ h. apply_policy want (last_capability h) h

  -- The event of one bounding bit that is not wanted: dropped, or unknown to the kernel.
  pub data Dropped (bit : ℕ) : Event → Type 0 where
    drop_done : Dropped bit (did (prctl cap_bset_drop bit))
    unknown_bit : Dropped bit (refused (prctl cap_bset_drop bit) einval)

  -- `h` grows to `h'` by the drops of the bits from `bit` on that are not in the set, in order.
  pub data Drops (bounding : CapSet) : ℕ → ℕ → List Event → List Event → Type 0 where
    drops_end : {bit : ℕ} {h : List Event} → Drops bounding zero bit h h
    drops_kept :
        {rounds bit : ℕ} {h h' : List Event}
        → has bounding bit ≡ true
        → Drops bounding rounds (bit + 1) h h'
        → Drops bounding (suc rounds) bit h h'
    drops_bit :
        {rounds bit : ℕ} {e : Event} {h h' : List Event}
        → has bounding bit ≡ false
        → Dropped bit e
        → Drops bounding rounds (bit + 1) (e ∷ h) h'
        → Drops bounding (suc rounds) bit h h'

  unknown_drop :
      (n bit : ℕ) → (n == einval) ≡ true → Dropped bit (refused (prctl cap_bset_drop bit) n)
  unknown_drop n bit h =
      let e : einval ≡ n = ground arith in
      subst (λ (m : ℕ). Dropped bit (refused (prctl cap_bset_drop bit) m)) e unknown_bit

  drop_bounding-Drops :
      (bounding : CapSet) (rounds bit : ℕ) (h h' : List Event)
      → drop_bounding bounding rounds bit h ≡ (ok tt, h')
      → Drops bounding rounds bit h h'
  unfolding drop_bounding
  drop_bounding-Drops bounding zero bit h h' e =
      let same_events : h ≡ h' = ground arith in
      subst (Drops bounding 0 bit h) same_events drops_end
  drop_bounding-Drops bounding (suc rounds) bit h h' e = elim (Bool-cases (has bounding bit)) [
    | inl kept ↦
        drops_kept kept (drop_bounding-Drops bounding rounds (bit + 1) h h' (ground (arith, kept)))
    | inr gone ↦ elim (Option-cases (k.answer h (prctl cap_bset_drop bit))) [
      | inl done ↦
          drops_bit gone drop_done
            (drop_bounding-Drops bounding rounds (bit + 1) _ h' (ground (arith, gone, done)))
      | inr (n, failed) ↦ elim (Bool-cases (n == einval)) [
        | inl unknown ↦ drops_bit gone (unknown_drop n bit unknown) (
            drop_bounding-Drops bounding rounds (bit + 1) _ h'
              (ground (arith, gone, failed, unknown)))
        | inr other ↦ absurd (ground (arith, gone, failed, other))
      ]
    ]
  ]

  -- `h` grows to `h'` by the raises of the bits from `bit` on that are in the set, in order.
  pub data Raises (ambient : CapSet) : ℕ → ℕ → List Event → List Event → Type 0 where
    raises_end : {bit : ℕ} {h : List Event} → Raises ambient zero bit h h
    raises_skip :
        {rounds bit : ℕ} {h h' : List Event}
        → has ambient bit ≡ false
        → Raises ambient rounds (bit + 1) h h'
        → Raises ambient (suc rounds) bit h h'
    raises_bit :
        {rounds bit : ℕ} {h h' : List Event}
        → has ambient bit ≡ true
        → Raises ambient rounds (bit + 1) (did (prctl_ambient cap_ambient_raise bit) ∷ h) h'
        → Raises ambient (suc rounds) bit h h'

  raise_ambient-Raises :
      (ambient : CapSet) (rounds bit : ℕ) (h h' : List Event)
      → raise_ambient ambient rounds bit h ≡ (ok tt, h')
      → Raises ambient rounds bit h h'
  unfolding raise_ambient
  raise_ambient-Raises ambient zero bit h h' e =
      let same_events : h ≡ h' = ground arith in
      subst (Raises ambient 0 bit h) same_events raises_end
  raise_ambient-Raises ambient (suc rounds) bit h h' e = elim (Bool-cases (has ambient bit)) [
    | inr skipped ↦
        raises_skip skipped
          (raise_ambient-Raises ambient rounds (bit + 1) h h' (ground (arith, skipped)))
    | inl wanted ↦ elim (Option-cases (k.answer h (prctl_ambient cap_ambient_raise bit))) [
      | inl done ↦
          raises_bit wanted
            (raise_ambient-Raises ambient rounds (bit + 1) _ h' (ground (arith, wanted, done)))
      | inr (n, failed) ↦ absurd (ground (arith, wanted, failed))
    ]
  ]

  -- The calls of a successful reduction to a policy, from the events `h` to the events `h'`.
  pub record Reduced (want : CapabilityPolicy) (last_cap : ℕ) (h h' : List Event) : Type 0 where
    pub dropped : List Event
    pub drops : Drops want.bounding (last_cap + 1) 0 h dropped
    pub raises :
        Raises want.ambient
          (last_cap + 1)
          0
          (did (capset (low_half want) (high_half want))
            ∷ did (prctl_ambient cap_ambient_clear_all 0)
            ∷ dropped)
          h'

  apply_policy-Reduced :
      (want : CapabilityPolicy) (last_cap : ℕ) (h h' : List Event)
      → apply_policy want last_cap h ≡ (ok tt, h')
      → Reduced want last_cap h h'
  unfolding apply_policy
  apply_policy-Reduced want last_cap h h' e =
      let (_, h₁, dropped, e₁) = >>=-ok (drop_bounding want.bounding (last_cap + 1) 0) _ h e in
      let clear = prctl_ambient cap_ambient_clear_all 0 in
      let set = capset (low_half want) (high_half want) in
      let (_, h₂, cleared, e₂) =
        >>=-ok (wrapped "clearing ambient capability set" (perform k clear)) _ h₁ e₁ in
      let (_, h₃, was_set, e₃) = >>=-ok (wrapped "capset" (perform k set)) _ h₂ e₂ in
      let before : h₃ ≡ did set ∷ did clear ∷ h₁ = cc (
        perform-wrapped-ok k "capset" set h₂ was_set,
        perform-wrapped-ok k "clearing ambient capability set" clear h₁ cleared,
      ) in
      record {
        dropped = h₁;
        drops = drop_bounding-Drops want.bounding (last_cap + 1) 0 h h₁ dropped;
        raises =
            subst (λ x. Raises want.ambient (last_cap + 1) 0 x h') before
              (raise_ambient-Raises want.ambient (last_cap + 1) 0 h₃ h' e₃);
      }

  -- Where the reduction succeeds, the section of the spec was valid, and these calls were made in
  -- this order and no other: each bounding capability up to the last one of the kernel that is not
  -- wanted was dropped (or is unknown to the kernel), in ascending order; the ambient set was
  -- cleared; the effective, permitted and inheritable sets were set to the wanted ones; and each
  -- wanted ambient capability was raised, in ascending order.
  pub apply_capabilities-Reduced :
      (caps : Option LinuxCapabilities) (h h' : List Event)
      → apply_capabilities caps h ≡ (ok tt, h')
      → (want : CapabilityPolicy) × (resolve_capabilities caps ≡ ok want)
        × Reduced want (last_capability h) h h'
  unfolding apply_capabilities
  apply_capabilities-Reduced caps h h' e =
      let (want, h₁, resolved, e₁) = >>=-ok (lift (resolve_capabilities caps)) _ h e in
      let start : h ≡ h₁ = ground arith in
      (
        want,
        ground arith,
        apply_policy-Reduced want (last_capability h) h h'
            (subst (λ x. apply_policy want (last_capability x) x ≡ (ok tt, h')) (sym start) e₁),
      )
