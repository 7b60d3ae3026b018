-- ===== src/Runtime/Mounts/Confined.antt =====
-- Calls whose paths lie in the rootfs, and the actions that make no other.
pub mod Parts
pub mod Whole
use mathlib.Core.Path.{subst}
use lightpod.Base.{
  ℕ, ◌≡◌, refl, sym, ap, ◌∙◌, arith, ◌⊎◌, inl, inr, All, List, [], ◌∷◌, ◌++◌, append-nil, Result,
  ok, err, wrapping,
}
use lightpod.Base.Text.{Bytes}
use lightpod.Oci.Path.{dir, is_within}
use lightpod.Oci.Path.Render.{IsName, render}
use lightpod.Oci.Path.Within.{is_within-append}
use lightpod.Kernel.{
  Kernel, Call, Event, mount, mkdir_all, create_file, write_file, symlink, mknod, chown,
}
use lightpod.Kernel.Actions.{Os, ◌>>=◌, ◌>>◌, perform, wrapped}
use lightpod.Kernel.Adds.{Adds, Adds-bind_reads, Adds-bind, Adds-wrapped, Adds-perform}
use lightpod.Runtime.SecureJoin.{Tree, secure_join}
use lightpod.Runtime.SecureJoin.Links.{IsTree}
use lightpod.Runtime.SecureJoin.Inside.{Contained, Outcome, secure_join-Outcome}
use lightpod.Runtime.Mounts.Single.{resolve}

-- A path that lay in the rootfs, without a symbolic link below it, when it was resolved.
pub record Resolved (tree : List Event → Tree) (rs : List Bytes) (path : Bytes) : Type 0 where
  pub seen : List Event
  pub contained : Contained (tree seen) rs path

-- Every path that the call changes lies in the rootfs; a directory may be that of such a path.
abbrev pub Confined : (List Event → Tree) → List Bytes → Call → Type 0
Confined tree rs (mount source target fstype flags options) = Resolved tree rs target
Confined tree rs (mkdir_all path mode) =
    Resolved tree rs path ⊎ ((below : Bytes) × Resolved tree rs below × (path ≡ dir below))
Confined tree rs (create_file path mode) = Resolved tree rs path
Confined tree rs (write_file path content) = Resolved tree rs path
Confined tree rs (symlink content path) = Resolved tree rs path
Confined tree rs (mknod path mode dev) = Resolved tree rs path
Confined tree rs (chown path uid gid) = Resolved tree rs path
Confined tree rs call = ⊥

pub Adds-then :
    {C : Call → Type 0} {B : Type 0} (m : Os (Unit {0})) (n : Os B)
    → Adds C m
    → Adds C n
    → Adds C (m >> n)
Adds-then m n am an = Adds-bind m (λ _. n) am (λ _. an)

module _ (k : Kernel) (tree : List Event → Tree) (trees : (h : List Event) → IsTree (tree h))
    (r : Bytes) (rs : List Bytes) (names : All IsName (r ∷ rs)) where
  pub root-Resolved : Resolved tree (r ∷ rs) (render (r ∷ rs))
  root-Resolved = record {
    seen = [];
    contained = record {
      below = [];
      below_names = tt;
      spelled = ap render (sym (append-nil (r ∷ rs)));
      inside =
          ap (is_within (render (r ∷ rs))) (ap render (sym (append-nil (r ∷ rs))))
          ∙ is_within-append r rs [];
      links = tt;
    };
  }

  outcome-Contained :
      (t : Tree) (o : Result Bytes) (path : Bytes)
      → Outcome t (r ∷ rs) o
      → wrapping "resolving" o ≡ ok path
      → Contained t (r ∷ rs) path
  outcome-Contained t (ok found) path h e = subst (Contained t (r ∷ rs)) (ground arith) h
  outcome-Contained t (err failure) path h e = absurd (ground arith)

  pub Adds-resolve :
      {B : Type 0} (path : Bytes) (f : Bytes → Os B)
      → ((target : Bytes)
          → Resolved tree (r ∷ rs) target
          → Adds (Confined tree (r ∷ rs)) (f target))
      → Adds (Confined tree (r ∷ rs)) (resolve k tree (render (r ∷ rs)) path >>= f)
  Adds-resolve path f af =
      Adds-bind_reads (λ h. wrapping "resolving" (secure_join (tree h) (render (r ∷ rs)) path)) f
        (λ h target e. af target (record {
          seen = h;
          contained =
              outcome-Contained (tree h) (secure_join (tree h) (render (r ∷ rs)) path) target
                (secure_join-Outcome (tree h) (trees h) r rs names path) e;
        }))
