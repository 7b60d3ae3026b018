-- ===== src/Store/Listing.antt =====
-- Delete and List.
use mathlib.Core.List.{Perm}
use mathlib.Core.List.Perm
use mathlib.Core.Path.{subst}
use lightpod.Base.{
  msg, wrap, errno, ℕ, ◌≡◌, refl, inl, inr, true, false, Bool-cases, ◌==◌, Option, none, some,
  Option-cases, List, [], ◌∷◌, ok, err, Error, Result-cases, arith,
}
use lightpod.Base.Text.{Bytes, same, same_refl}
use lightpod.Store.{
  Container, Host, validate_id, load, delete, removed, before, insert, sort_by_id, load_all, list,
}
use lightpod.Store.Directory.{Disk, Entry, erase, file, lookup-put, lookup-erase}

module _ (host : Host) (id : Bytes) (d : Disk) where
  -- What `delete` removes and what it leaves.
  pub record Removed : Type 0 where
    pub refused : (e : Error) → validate_id id ≡ err e → delete host id d ≡ (err e, d)
    pub gone :
        (delete host id d).0 ≡ ok tt
        → (validate_id id ≡ ok tt)
          × (file id (delete host id d).1 ≡ none)
          × ((e : Error) × (load host id (delete host id d).1 ≡ err e))
    pub others_kept :
        (held : Disk) (j : Bytes)
        → validate_id id ≡ ok tt
        → host.lock d ≡ ok held
        → same id j ≡ false
        → file j (delete host id d).1 ≡ file j held

  erased : (held : Disk) → file id (erase id held) ≡ none
  unfolding file
  erased held = ground (arith, same_refl id, lookup-erase id id held)

  no_load :
      (e : Disk)
      → validate_id id ≡ ok tt
      → file id e ≡ none
      → (x : Error) × (load host id e ≡ err x)
  unfolding load
  no_load e valid missing = elim (Option-cases (host.read e id)) [
    | inl readable ↦ (msg "container does not exist", ground (arith, valid, readable, missing))
    | inr (n, failed) ↦ elim (Bool-cases (n == 2)) [
      | inl absent ↦ (msg "container does not exist", ground (arith, valid, failed, absent))
      | inr other ↦ (wrap "reading state" (errno n), ground (arith, valid, failed, other))
    ]
  ]

  removed-others :
      (held : Disk) (answer : Option (ℕ × Option Entry)) (j : Bytes)
      → same id j ≡ false
      → file j (removed host id held answer).1 ≡ file j held
  unfolding file
  removed-others held none j other = ground (arith, other, lookup-erase id j held)
  removed-others held (some (n, none)) j other = ground (arith, other, lookup-erase id j held)
  removed-others held (some (n, some e)) j other = ground (arith, other, lookup-put id j e held)

  delete-gone :
      (delete host id d).0 ≡ ok tt
      → (validate_id id ≡ ok tt)
        × (file id (delete host id d).1 ≡ none)
        × ((e : Error) × (load host id (delete host id d).1 ≡ err e))
  unfolding delete
  delete-gone h = elim (Result-cases (validate_id id)) [
    | inr (e, invalid) ↦ absurd (ground (arith, invalid))
    | inl (_, valid) ↦ elim (Result-cases (host.lock d)) [
      | inr (e, failed) ↦ absurd (ground (arith, valid, failed))
      | inl (held, locked) ↦ elim (Option-cases (host.remove_all held id)) [
        | inl done ↦
            rw (valid, locked, done)
              (refl, erased held, no_load (erase id held) valid (erased held))
        | inr ((n, left), failed) ↦ absurd (ground (arith, valid, locked, failed))
      ]
    ]
  ]

  -- An id that is refused is answered with that error and nothing on disk changes. So a removal that
  -- succeeds is that of a valid id, and it leaves no record of it to load; whether it succeeds or
  -- fails on the way, every other record stays as it is on the disk that is found under the lock.
  pub delete-Removed : Removed
  unfolding delete
  delete-Removed = record {
    refused = λ e invalid. rw invalid refl;
    gone = delete-gone;
    others_kept = λ held j valid locked other.
        rw (valid, locked) (removed-others held (host.remove_all held id) j other);
  }

-- No id of the list comes before one that stands in front of it.
pub data IsSorted : List Container → Type 0 where
  sorted_nil : IsSorted []
  sorted_one : (c : Container) → IsSorted (c ∷ [])
  sorted_cons :
      {c x : Container} {xs : List Container}
      → before x.id c.id ≡ false
      → IsSorted (x ∷ xs)
      → IsSorted (c ∷ x ∷ xs)

before_asym : (s t : Bytes) → before s t ≡ true → before t s ≡ false
unfolding before
before_asym s [] h = ground arith
before_asym [] (c ∷ t) h = refl
before_asym (b ∷ s) (c ∷ t) h = ground (arith, before_asym s t)

insert-IsSorted : (c : Container) (xs : List Container) → IsSorted xs → IsSorted (insert c xs)
unfolding insert
insert-IsSorted c [] sorted_nil = sorted_one c
insert-IsSorted c (x ∷ []) (sorted_one _) = elim (Bool-cases (before x.id c.id)) [
  | inl later ↦ rw later (sorted_cons (before_asym x.id c.id later) (sorted_one c))
  | inr here ↦ rw here (sorted_cons here (sorted_one x))
]
insert-IsSorted c (x ∷ y ∷ ys) (sorted_cons h s) = elim (Bool-cases (before x.id c.id)) [
  | inl later ↦ elim (Bool-cases (before y.id c.id)) [
    | inl further ↦
        let e : insert c (y ∷ ys) ≡ y ∷ insert c ys = rw further refl in
        rw (later, further) (sorted_cons h (subst IsSorted e (insert-IsSorted c (y ∷ ys) s)))
    | inr between ↦
        rw (later, between) (sorted_cons (before_asym x.id c.id later) (sorted_cons between s))
  ]
  | inr here ↦ rw here (sorted_cons here (sorted_cons h s))
]

sort_by_id-IsSorted : (cs : List Container) → IsSorted (sort_by_id cs)
unfolding sort_by_id
sort_by_id-IsSorted [] = sorted_nil
sort_by_id-IsSorted (c ∷ cs) = insert-IsSorted c (sort_by_id cs) (sort_by_id-IsSorted cs)

insert-Perm : (c : Container) (xs : List Container) → Perm (insert c xs) (c ∷ xs)
unfolding insert
insert-Perm c [] = Perm.refl (c ∷ [])
insert-Perm c (x ∷ xs) = elim (Bool-cases (before x.id c.id)) [
  | inl later ↦ rw later (Perm.trans (Perm.cons x (insert-Perm c xs)) (Perm.swap c x xs))
  | inr here ↦ rw here (Perm.refl (c ∷ x ∷ xs))
]

sort_by_id-Perm : (cs : List Container) → Perm (sort_by_id cs) cs
unfolding sort_by_id
sort_by_id-Perm [] = Perm.refl []
sort_by_id-Perm (c ∷ cs) =
    Perm.trans (insert-Perm c (sort_by_id cs)) (Perm.cons c (sort_by_id-Perm cs))

-- The records of the entries of a directory that load, in its order; an entry that does not load is
-- passed over.
pub data LoadedOf (host : Host) (d : Disk) : Disk → List Container → Type 0 where
  loaded_nil : LoadedOf host d [] []
  loaded_keep :
      {name : Bytes} {entry : Entry} {entries : Disk} {c : Container} {cs : List Container}
      → load host name d ≡ ok c
      → LoadedOf host d entries cs
      → LoadedOf host d ((name, entry) ∷ entries) (c ∷ cs)
  loaded_skip :
      {name : Bytes} {entry : Entry} {entries : Disk} {cs : List Container} {why : Error}
      → load host name d ≡ err why
      → LoadedOf host d entries cs
      → LoadedOf host d ((name, entry) ∷ entries) cs

load_all-LoadedOf :
    (host : Host) (d entries : Disk) → LoadedOf host d entries (load_all host d entries)
unfolding load_all
load_all-LoadedOf host d [] = loaded_nil
load_all-LoadedOf host d ((name, e) ∷ entries) = elim (Result-cases (load host name d)) [
  | inl (c, there) ↦ rw there (loaded_keep there (load_all-LoadedOf host d entries))
  | inr (why, bad) ↦ rw bad (loaded_skip bad (load_all-LoadedOf host d entries))
]

-- Where the directory of the store is readable, `list` returns the record of every entry that loads,
-- each once, with no id in front of a smaller one; an entry that does not load hides no other. Where it does not
-- exist, the list is empty.
pub list-IsSorted :
    (host : Host) (d : Disk)
    → (host.read_dir d ≡ none
        → (cs loaded : List Container) × (list host d ≡ ok cs)
          × IsSorted cs
          × Perm cs loaded
          × LoadedOf host d d loaded)
      × (host.read_dir d ≡ some 2 → list host d ≡ ok [])
unfolding list
list-IsSorted host d = (
  λ readable.
      let cs = load_all host d d in
      (
        sort_by_id cs,
        cs,
        rw readable refl,
        sort_by_id-IsSorted cs,
        sort_by_id-Perm cs,
        load_all-LoadedOf host d d,
      ),
  λ missing. rw missing refl,
)
