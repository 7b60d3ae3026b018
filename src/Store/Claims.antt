-- ===== src/Store/Claims.antt =====
-- Claiming and removing an id: ValidateID, Create and Delete.
use lightpod.Base.{
  ◌≡◌, ◌≢◌, refl, ap, ◌∙◌, inl, inr, true, false, List, [], ◌∷◌, ◌++◌, All, ok, err, Error, msg,
  Result-cases, arith,
}
use lightpod.Base.Text.{Bytes, same, contains_any, join_with}
use lightpod.Oci.Path.{slash, join, is_within}
use lightpod.Oci.Path.Render.{IsName, is_special, render}
use lightpod.Oci.Path.Clean.{join-render}
use lightpod.Oci.Path.Within.{is_within-append}
use lightpod.Store.{Container, Host, is_separator, validate_id, save, load, create}
use lightpod.Store.Directory.{Disk, file}
use lightpod.Store.Saving.{save-Written}

slash_free : (s : Bytes) → contains_any is_separator s ≡ false → All (λ c. c ≢ slash) s
unfolding contains_any
slash_free [] h = tt
slash_free (c ∷ s) h = ((λ e. ground arith), slash_free s (ground arith))

valid-IsName : (id : Bytes) → validate_id id ≡ ok tt → IsName id
unfolding validate_id is_special
valid-IsName id h = (ground arith, slash_free id (ground arith))

-- A valid id names a directory directly below the root of the store, and a path inside of it, for a
-- root that is a clean absolute path other than `/`.
pub join-validate_id :
    (r : Bytes) (rs : List Bytes) (id : Bytes)
    → All IsName (r ∷ rs)
    → validate_id id ≡ ok tt
    → (join (render (r ∷ rs)) id ≡ render ((r ∷ rs) ++ id ∷ []))
      × (is_within (render (r ∷ rs)) (join (render (r ∷ rs)) id) ≡ true)
join-validate_id r rs id names valid =
    let below : join (render (r ∷ rs)) id ≡ render ((r ∷ rs) ++ id ∷ []) =
      unfold join_with in join-render (r ∷ rs) (id ∷ []) names (valid-IsName id valid, tt) in
    (below, ap (is_within (render (r ∷ rs))) below ∙ is_within-append r rs (id ∷ []))

-- What `create` does with a refused id and without the lock, and on the disk that it finds under the
-- lock: where the id is free, where it is taken, and to the other records.
pub record Claimed (host : Host) (c : Container) (d : Disk) : Type 0 where
  pub refused : (e : Error) → validate_id c.id ≡ err e → create host c d ≡ (err e, d)
  pub unlocked :
      (e : Error) → validate_id c.id ≡ ok tt → host.lock d ≡ err e → create host c d ≡ (err e, d)
  pub was_free :
      (create host c d).0 ≡ ok tt
      → (held : Disk) × (validate_id c.id ≡ ok tt)
        × (host.lock d ≡ ok held)
        × ((e : Error) × (load host c.id held ≡ err e))
        × (create host c d ≡ save host c held)
  pub taken :
      (held : Disk) (existing : Container)
      → host.lock d ≡ ok held
      → load host c.id held ≡ ok existing
      → create host c d ≡ (err (msg "container already exists"), held)
  pub others_kept :
      (held : Disk) (j : Bytes)
      → validate_id c.id ≡ ok tt
      → host.lock d ≡ ok held
      → same c.id j ≡ false
      → file j (create host c d).1 ≡ file j held

save-others :
    (host : Host) (c : Container) (d : Disk) (j : Bytes)
    → same c.id j ≡ false
    → file j (save host c d).1 ≡ file j d
save-others host c d j other = elim (save-Written host c d j) [
  | inl (kept, _) ↦ kept
  | inr w ↦ let own : same c.id j ≡ true = w.own in absurd (cc (own, other))
]

load-valid :
    (host : Host) (id : Bytes) (d : Disk) (c : Container)
    → load host id d ≡ ok c
    → validate_id id ≡ ok tt
unfolding load
load-valid host id d c h = elim (Result-cases (validate_id id)) [
  | inl (_, valid) ↦ valid
  | inr (e, invalid) ↦ absurd (ground (arith, invalid))
]

create-others :
    (host : Host) (c : Container) (d held : Disk) (j : Bytes)
    → validate_id c.id ≡ ok tt
    → host.lock d ≡ ok held
    → same c.id j ≡ false
    → file j (create host c d).1 ≡ file j held
unfolding create
create-others host c d held j valid locked other = elim (Result-cases (load host c.id held)) [
  | inl (existing, there) ↦ rw (valid, locked, there) refl
  | inr (e, free) ↦ rw (valid, locked, free) (save-others host c held j other)
]

create-free :
    (host : Host) (c : Container) (d : Disk)
    → (create host c d).0 ≡ ok tt
    → (held : Disk) × (validate_id c.id ≡ ok tt)
      × (host.lock d ≡ ok held)
      × ((e : Error) × (load host c.id held ≡ err e))
      × (create host c d ≡ save host c held)
unfolding create
create-free host c d h = elim (Result-cases (validate_id c.id)) [
  | inr (e, invalid) ↦ absurd (ground (arith, invalid))
  | inl (_, valid) ↦ elim (Result-cases (host.lock d)) [
    | inr (e, failed) ↦ absurd (ground (arith, valid, failed))
    | inl (held, locked) ↦ elim (Result-cases (load host c.id held)) [
      | inl (existing, there) ↦ absurd (ground (arith, valid, locked, there))
      | inr (e, free) ↦ (held, valid, locked, (e, free), rw (valid, locked, free) refl)
    ]
  ]
]

-- An id that is refused, or a lock that fails, is answered with that error and nothing changes. Else
-- `create` looks at the disk that it finds once it has the lock: it succeeds only where the record of
-- the id does not load from that disk, and is then `save` on that disk; where a record loads from it,
-- `create` writes nothing and fails; and every other record of that disk stays as it is.
pub create-Claimed : (host : Host) (c : Container) (d : Disk) → Claimed host c d
unfolding create
create-Claimed host c d = record {
  refused = λ e invalid. rw invalid refl;
  unlocked = λ e valid failed. rw (valid, failed) refl;
  was_free = create-free host c d;
  taken = λ held existing locked there.
      rw (load-valid host c.id held existing there, locked, there) refl;
  others_kept = create-others host c d;
}
