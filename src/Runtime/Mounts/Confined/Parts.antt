-- ===== src/Runtime/Mounts/Confined/Parts.antt =====
-- The parts of prepareRootfs that act on one resolved path.
use lightpod.Base.{
  ℕ, refl, ◌==◌, Bool, Bool-cases, true, false, inl, inr, Option, none, some, List, [], ◌∷◌, Result,
  ok, err,
}
use lightpod.Base.Text.{Bytes}
use lightpod.Oci.Path.{dir}
use lightpod.Oci.Spec.{Mount, LinuxDevice}
use lightpod.Kernel.{Kernel, Call, Event, did, mkdir_all, mount, FileKind}
use lightpod.Kernel.Actions.{wrapped, stat_of}
use lightpod.Kernel.Adds.{
  Grown, same_events, one_more, Grown-trans, Adds, Adds-pure, Adds-fail, Adds-now, Adds-reads,
  Adds-bind, Adds-wrapped, Adds-perform, Adds-perform_unless,
}
use lightpod.Runtime.SecureJoin.{Tree}
use lightpod.Runtime.Mounts.Single.{
  eexist, make_dir, make_file, make_target_of, make_target, is_dir, remount_readonly,
  set_propagation, mount_at,
}
use lightpod.Runtime.Mounts.Options.{has_flag, ms_bind}
use lightpod.Runtime.Mounts.Nodes.{
  node_mode, own_node, made_node, node_call, make_node, mknod_device, bind_found, bind_device,
}
use lightpod.Runtime.Mounts.Covers.{cover, mask_found, mask_target, protect_found, protect_target}
use lightpod.Runtime.Mounts.Confined.{Resolved, Confined, Adds-then}

module _ (k : Kernel) (tree : List Event → Tree) (rs : List Bytes) (target : Bytes)
    (inside : Resolved tree rs target) where
  make_dir-Adds :
      (path : Bytes)
      → Confined tree rs (mkdir_all path 493)
      → Adds (Confined tree rs) (make_dir k path)
  make_dir-Adds path h = Adds-wrapped "creating directory" _ (Adds-perform k (mkdir_all path 493) h)

  pub parent-Adds : Adds (Confined tree rs) (make_dir k (dir target))
  parent-Adds = make_dir-Adds (dir target) (inr (target, inside, refl))

  make_file-Adds : Adds (Confined tree rs) (make_file k target)
  make_file-Adds = Adds-wrapped "creating bind target" _ (Adds-perform_unless k eexist _ inside)

  target_of-Adds : (b : Bool) → Adds (Confined tree rs) (make_target_of k target b)
  target_of-Adds true = make_dir-Adds target (inl inside)
  target_of-Adds false = Adds-then _ _ parent-Adds make_file-Adds

  target-Adds :
      (source : Bytes) (b : Bool) → Adds (Confined tree rs) (make_target k source target b)
  target-Adds source true =
      Adds-bind (wrapped "bind mount source" (stat_of k source)) _
        (Adds-wrapped "bind mount source" (stat_of k source) (Adds-reads (λ h. k.stat h source)))
        (λ kind. target_of-Adds (is_dir kind))
  target-Adds source false = make_dir-Adds target (inl inside)

  remount-Adds :
      (flags : ℕ) (b : Bool) → Adds (Confined tree rs) (remount_readonly k target flags b)
  remount-Adds flags true = Adds-wrapped "remounting read-only" _ (Adds-perform k _ inside)
  remount-Adds flags false = Adds-pure tt

  pub propagation-Adds :
      (propagation : ℕ) → Adds (Confined tree rs) (set_propagation k target propagation)
  propagation-Adds propagation = elim (Bool-cases (propagation == 0)) [
    | inl unset ↦ rw unset (Adds-pure tt)
    | inr mode ↦ rw mode (
        Adds-wrapped "setting propagation" _
          (Adds-perform k (mount [] target [] propagation []) inside))
  ]

  pub mount_at-Adds :
      (m : Mount) (parsed : ℕ × ℕ × Bytes) → Adds (Confined tree rs) (mount_at k target m parsed)
  unfolding mount_at
  mount_at-Adds m (flags, propagation, options) =
      Adds-then _ _ (target-Adds m.source (has_flag flags ms_bind)) (
        Adds-then _ _ (Adds-wrapped "mounting" _ (Adds-perform k _ inside))
          (Adds-then _ _ (remount-Adds flags _) (propagation-Adds propagation)))

  own_node-Adds : (dev : LinuxDevice) → Adds (Confined tree rs) (own_node k target dev)
  own_node-Adds dev = Adds-wrapped "setting owner on device" _ (Adds-perform k _ inside)

  made_node-Grown :
      (dev : LinuxDevice) (c : Call) (o : Option ℕ) (h : List Event)
      → Confined tree rs c
      → Grown (Confined tree rs) h (made_node k target dev c o h).1
  made_node-Grown dev c none h hc =
      Grown-trans (one_more hc same_events) ((own_node-Adds dev).grows (did c ∷ h))
  made_node-Grown dev c (some e) h hc = one_more hc same_events

  make_node-Adds :
      (dev : LinuxDevice) (type : Option ℕ) → Adds (Confined tree rs) (make_node k target dev type)
  make_node-Adds dev none = Adds-fail "unknown device type"
  make_node-Adds dev (some type) = record {
    grows =
        λ h. let c = node_call k target dev type in made_node-Grown dev c (k.answer h c) h inside;
  }

  pub mknod_device-Adds : (dev : LinuxDevice) → Adds (Confined tree rs) (mknod_device k target dev)
  unfolding mknod_device
  mknod_device-Adds dev = make_node-Adds dev (node_mode dev.type)

  bind_found-Adds :
      (dev : LinuxDevice) (found : Result FileKind)
      → Adds (Confined tree rs) (bind_found k target dev found)
  bind_found-Adds dev (err e) = Adds-pure tt
  bind_found-Adds dev (ok kind) =
      Adds-then _ _ make_file-Adds (Adds-wrapped "bind mounting device" _ (Adds-perform k _ inside))

  pub bind_device-Adds : (dev : LinuxDevice) → Adds (Confined tree rs) (bind_device k target dev)
  unfolding bind_device
  bind_device-Adds dev =
      Adds-now (λ h. bind_found k target dev (k.stat h dev.path))
        (λ h. bind_found-Adds dev (k.stat h dev.path))

  cover-Adds : (b : Bool) → Adds (Confined tree rs) (cover k target b)
  cover-Adds true = Adds-wrapped "masking directory" _ (Adds-perform k _ inside)
  cover-Adds false = Adds-wrapped "masking file" _ (Adds-perform k _ inside)

  mask_found-Adds : (found : Result FileKind) → Adds (Confined tree rs) (mask_found k target found)
  mask_found-Adds (err e) = Adds-pure tt
  mask_found-Adds (ok kind) = cover-Adds (is_dir kind)

  pub mask_target-Adds : Adds (Confined tree rs) (mask_target k target)
  mask_target-Adds =
      Adds-now (λ h. mask_found k target (k.stat h target)) (λ h. mask_found-Adds (k.stat h target))

  protect_found-Adds :
      (found : Result FileKind) → Adds (Confined tree rs) (protect_found k target found)
  protect_found-Adds (err e) = Adds-pure tt
  protect_found-Adds (ok kind) =
      Adds-then _ _ (Adds-wrapped "binding for read-only remount" _ (Adds-perform k _ inside))
        (Adds-wrapped "remounting read-only" _ (Adds-perform k _ inside))

  pub protect_target-Adds : Adds (Confined tree rs) (protect_target k target)
  protect_target-Adds =
      Adds-now (λ h. protect_found k target (k.stat h target))
        (λ h. protect_found-Adds (k.stat h target))
