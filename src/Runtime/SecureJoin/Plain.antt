-- ===== src/Runtime/SecureJoin/Plain.antt =====
-- The walk on a tree without symbolic links: what it returns, and how deep it goes.
use lightpod.Base.{◌≡◌, false, List, [], ◌∷◌, ◌++◌, All, some}
use lightpod.Base.Text.{Bytes}
use lightpod.Oci.Path.Render.{IsName, render}
use lightpod.Runtime.SecureJoin.{Tree}

module _ (tree : Tree) (r : Bytes) (rs : List Bytes) (names : All IsName (r ∷ rs)) where
  -- Behind the names `cs` below the rootfs, each further name is there and no symbolic link.
  unfoldable pub IsThere : List Bytes → List Bytes → Type 0
  IsThere cs [] = Unit {0}
  IsThere cs (q ∷ qs) =
      (tree.lstat (render ((r ∷ rs) ++ (cs ++ q ∷ []))) ≡ some false) × IsThere (cs ++ q ∷ []) qs

  abbrev rootfs : Bytes
  rootfs = render (r ∷ rs)
