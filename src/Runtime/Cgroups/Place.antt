-- ===== src/Runtime/Cgroups/Place.antt =====
-- The place of a container's cgroup, and its weight.
use mathlib.Core.Path.{subst}
use lightpod.Base.{
  ℕ, ◌+◌, ◌-◌, ◌*◌, ◌/◌, ◌%◌, ◌^◌, ◌≤◌, ◌≡◌, refl, sym, ap, ◌∙◌, inl, inr, true, false, Bool-cases,
  List, [], ◌∷◌, ◌++◌, All, All-append_right, arith, append-nil, ok,
}
use lightpod.Base.Text.{Bytes, text, same, same_complete, join_with, trim_prefix}
use lightpod.Oci.Path.{slash, join, is_within}
use lightpod.Oci.Path.Render.{IsName, is_special, render}
use lightpod.Oci.Path.Clean.{join-names, join-render}
use lightpod.Oci.Path.Within.{within-top, is_within_iff}
use lightpod.Oci.Spec.{Spec}
use lightpod.Runtime.Cgroups.{
  flatten, cgroups_path_of, custom_path, container_cgroup_path, shares_to_weight,
}

-- A cgroup strictly below the root.
pub record Below (root : List Bytes) (path : Bytes) : Type 0 where
  pub first : Bytes
  pub rest : List Bytes
  pub names : All IsName (first ∷ rest)
  pub spelled : path ≡ render (root ++ first ∷ rest)

lightpod-IsName : IsName (text "lightpod")
unfolding is_special same
lightpod-IsName = (refl, ground arith)

module _ (r : Bytes) (rs : List Bytes) (names : All IsName (r ∷ rs)) where
  split-Below :
      (p : Bytes) (ps cs : List Bytes)
      → All IsName (p ∷ ps)
      → p ∷ ps ≡ (r ∷ rs) ++ cs
      → same (render (p ∷ ps)) (render (r ∷ rs)) ≡ false
      → Below (r ∷ rs) (render (p ∷ ps))
  split-Below p ps [] h e other =
      let equal : render (p ∷ ps) ≡ render (r ∷ rs) = ap render (e ∙ append-nil (r ∷ rs)) in
      absurd (cc (same_complete (render (p ∷ ps)) (render (r ∷ rs)) equal, other))
  split-Below p ps (c ∷ cs) h e other = record {
    first = c;
    rest = cs;
    names = All-append_right IsName (r ∷ rs) (c ∷ cs) (subst (All IsName) e h);
    spelled = ap render e;
  }

  within-Below :
      (ps : List Bytes)
      → All IsName ps
      → is_within (render (r ∷ rs)) (render ps) ≡ true
      → same (render ps) (render (r ∷ rs)) ≡ false
      → Below (r ∷ rs) (render ps)
  within-Below [] h inside other = absurd (cc (within-top r rs names, inside))
  within-Below (p ∷ ps) h inside other =
      let (cs, e) = (is_within_iff r rs p ps names h).0.0 inside in split-Below p ps cs h e other

  custom-Below :
      (custom path : Bytes) → custom_path (render (r ∷ rs)) custom ≡ ok path → Below (r ∷ rs) path
  unfolding custom_path
  custom-Below custom path h =
      let root = render (r ∷ rs) in
      let relative = trim_prefix (flatten custom) (slash ∷ []) in
      let (ps, hps, e) = join-names (r ∷ rs) relative in
      elim (Bool-cases (is_within root (join root relative))) [
        | inr outside ↦ absurd (ground (arith, outside))
        | inl inside ↦ elim (Bool-cases (same (join root relative) root)) [
          | inl at_root ↦ absurd (ground (arith, inside, at_root))
          | inr other ↦
              let made : join root relative ≡ path = ground (arith, inside, other) in
              subst (Below (r ∷ rs)) (sym e ∙ made) (
                within-Below ps hps (ap (is_within root) (sym e) ∙ inside)
                  (ap (λ t. same t root) (sym e) ∙ other))
        ]
      ]

  -- Whatever path the spec asks for, the cgroup of a container with a valid id lies strictly below
  -- the cgroup root, so that its limits never hit the root itself or a sibling of it; and without
  -- such a path it is lightpod/<id> below the root.
  pub container_cgroup_path-Below :
      (id : Bytes) (spec : Spec)
      → IsName id
      → ((path : Bytes)
          → container_cgroup_path (render (r ∷ rs)) id spec ≡ ok path
          → Below (r ∷ rs) path)
        × (same (cgroups_path_of spec.linux) [] ≡ true
            → container_cgroup_path (render (r ∷ rs)) id spec
              ≡ ok (render ((r ∷ rs) ++ text "lightpod" ∷ id ∷ [])))
  unfolding container_cgroup_path
  container_cgroup_path-Below id spec hid =
      let below : join (render (r ∷ rs)) (join_with slash (text "lightpod" ∷ id ∷ []))
          ≡ render ((r ∷ rs) ++ text "lightpod" ∷ id ∷ []) =
        join-render (r ∷ rs) (text "lightpod" ∷ id ∷ []) names (lightpod-IsName, (hid, tt)) in
      (
        λ path h. elim (Bool-cases (same (cgroups_path_of spec.linux) [])) [
          | inl unset ↦ record {
            first = text "lightpod";
            rest = id ∷ [];
            names = (lightpod-IsName, (hid, tt));
            spelled =
                let e : join (render (r ∷ rs)) (join_with slash (text "lightpod" ∷ id ∷ []))
                    ≡ path =
                  ground (arith, unset) in
                sym e ∙ below;
          }
          | inr set ↦ custom-Below (cgroups_path_of spec.linux) path (ground (arith, set))
        ],
        λ unset. rw (unset, below) refl,
      )

weight-bounds : (shares : ℕ) → (1 ≤ shares_to_weight shares) × (shares_to_weight shares ≤ 10000)
unfolding shares_to_weight
weight-bounds shares = (ground arith, ground arith)

weight-linear :
    (shares : ℕ)
    → 2 ≤ shares
    → shares ≤ 262144
    → shares_to_weight shares ≡ 1 + (shares - 2) * 9999 / 262142
unfolding shares_to_weight
weight-linear shares low high =
    let less : (shares + 2 ^ 64 - 2) % 2 ^ 64 ≡ shares - 2 = omega arith in
    let product : (shares - 2) * 9999 % 2 ^ 64 ≡ (shares - 2) * 9999 = omega arith in
    let bound : (shares - 2) * 9999 / 262142 ≤ 9999 = omega arith in
    let weight : (1 + (shares - 2) * 9999 / 262142) % 2 ^ 64 ≡ 1 + (shares - 2) * 9999 / 262142 =
      omega (arith, bound) in
    rw (less, product, weight) (ground (arith, bound))

ends : (shares_to_weight 2 ≡ 1) × (shares_to_weight 262144 ≡ 10000) × (shares_to_weight 1 ≡ 10000)
unfolding shares_to_weight
ends = (refl, refl, refl)

-- The weight of any shares lies in the range of cgroup v2. On the range of cpu.shares it is monotone
-- and takes the ends to the ends. One share, below that range, gets the greatest weight.
pub shares_to_weight-bounds :
    (shares : ℕ)
    → (1 ≤ shares_to_weight shares)
      × (shares_to_weight shares ≤ 10000)
      × ((more : ℕ)
          → 2 ≤ shares
          → shares ≤ more
          → more ≤ 262144
          → shares_to_weight shares ≤ shares_to_weight more)
      × (shares_to_weight 2 ≡ 1)
      × (shares_to_weight 262144 ≡ 10000)
      × (shares_to_weight 1 ≡ 10000)
shares_to_weight-bounds shares = (
  (weight-bounds shares).0,
  (weight-bounds shares).1,
  λ more low le high.
      let few = weight-linear shares low (omega arith) in
      let many = weight-linear more (omega arith) high in omega (arith, few, many),
  ends.0,
  ends.1,
  ends.2,
)
