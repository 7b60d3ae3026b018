-- ===== src/Store/Saving.antt =====
-- Writing a record: the temporary file and the rename of Save.
use lightpod.Base.{
  ℕ, ◌≡◌, refl, ◌≢◌, ◌⊎◌, inl, inr, true, Bool-cases, Option, none, some, Option-cases, ◌++◌,
  Result, ok, Result-cases, arith,
}
use lightpod.Base.Text.{Bytes, same, same_refl, same_sound, lookup}
use lightpod.Store.{Container, Host, stamped, newline, validate_id, committed, written, save}
use lightpod.Store.Directory.{Disk, entry_of, put, file, lookup-put}

module _ (host : Host) (c : Container) where
  -- The new record of `c`, complete, and nothing else.
  pub record Written (r : Result (Unit {0})) (d' : Disk) (j : Bytes) : Type 0 where
    pub succeeded : r ≡ ok tt
    pub own : same c.id j ≡ true
    pub content : Bytes
    pub complete : host.encode (stamped c) ≡ some content
    pub stored : file j d' ≡ some (content ++ newline)

  -- Nothing that a reader sees changes, and a save of the record that is read failed; or the record
  -- is there.
  abbrev pub Step : Disk → Bytes → Result (Unit {0}) × Disk → Type 0
  Step d₀ j x = ((file j x.1 ≡ file j d₀) × (same c.id j ≡ true → x.0 ≢ ok tt)) ⊎ Written x.0 x.1 j

  committed-file :
      (d₀ d : Disk) (j content : Bytes) (answer : Option ℕ)
      → host.encode (stamped c) ≡ some content
      → lookup c.id d
        ≡ some (record { state_file = file c.id d₀; temp_file = some (content ++ newline) })
      → file j d ≡ file j d₀
      → Step d₀ j (committed host c.id d answer)
  unfolding file
  committed-file d₀ d j content (some e) made temp kept = inl (kept, λ own h. cc)
  committed-file d₀ d j content none made temp kept = elim (Bool-cases (same c.id j)) [
    | inl own ↦ inr (record {
      succeeded = refl;
      own = own;
      content = content;
      complete = made;
      stored = ground (
        arith,
        own,
        temp,
        lookup-put c.id j
            (record { state_file = (entry_of (lookup c.id d)).temp_file; temp_file = none }) d,
      );
    })
    | inr other ↦ inl (
      ground (
        arith,
        other,
        kept,
        lookup-put c.id j
            (record { state_file = (entry_of (lookup c.id d)).temp_file; temp_file = none }) d,
      ),
      λ own h. cc,
    )
  ]

  put-temp_file :
      (d₀ d : Disk) (j : Bytes) (left : Option Bytes)
      → file c.id d ≡ file c.id d₀
      → file j d ≡ file j d₀
      → file j (put c.id (record (entry_of (lookup c.id d)) { temp_file = left }) d) ≡ file j d₀
  unfolding file
  put-temp_file d₀ d j left own kept = elim (Bool-cases (same c.id j)) [
    | inl hit ↦ ground (
      arith,
      hit,
      same_sound c.id j hit,
      lookup-put c.id j (record (entry_of (lookup c.id d)) { temp_file = left }) d,
    )
    | inr miss ↦
        ground (
          arith,
          miss,
          lookup-put c.id j (record (entry_of (lookup c.id d)) { temp_file = left }) d,
        )
  ]

  -- The directory is made before the record is written.
  touched : (d : Disk) (j : Bytes) → file j (put c.id (entry_of (lookup c.id d)) d) ≡ file j d
  unfolding file
  touched d j = elim (Bool-cases (same c.id j)) [
    | inl hit ↦
        ground (arith, hit, same_sound c.id j hit, lookup-put c.id j (entry_of (lookup c.id d)) d)
    | inr miss ↦ ground (arith, miss, lookup-put c.id j (entry_of (lookup c.id d)) d)
  ]

  put-held :
      (d₀ d : Disk) (content : Bytes)
      → file c.id d ≡ file c.id d₀
      → lookup c.id
          (put c.id (record (entry_of (lookup c.id d)) { temp_file = some (content ++ newline) }) d)
        ≡ some (record { state_file = file c.id d₀; temp_file = some (content ++ newline) })
  unfolding file
  put-held d₀ d content own = ground (
    arith,
    own,
    same_refl c.id,
    lookup-put c.id c.id
        (record (entry_of (lookup c.id d)) { temp_file = some (content ++ newline) }) d,
  )

  written-Step :
      (d₀ d : Disk) (j content : Bytes) (answer : Option (ℕ × Option Bytes))
      → host.encode (stamped c) ≡ some content
      → file c.id d ≡ file c.id d₀
      → file j d ≡ file j d₀
      → Step d₀ j (written host c.id (content ++ newline) d answer)
  written-Step d₀ d j content (some (e, left)) made own kept =
      inl (put-temp_file d₀ d j left own kept, λ same_id h. cc)
  written-Step d₀ d j content none made own kept =
      let held = record (entry_of (lookup c.id d)) { temp_file = some (content ++ newline) } in
      let d' = put c.id held d in
      committed-file d₀ d' j content (host.rename d' c.id) made (put-held d₀ d content own)
        (put-temp_file d₀ d j (some (content ++ newline)) own kept)

  -- Whatever fails on the way, a reader of any record sees after `save` what it saw before, or,
  -- only for the record itself and where `save` succeeded, the complete new record. No half-written
  -- record is ever visible.
  pub save-Written :
      (d : Disk) (j : Bytes)
      → ((file j (save host c d).1 ≡ file j d) × (same c.id j ≡ true → (save host c d).0 ≢ ok tt))
        ⊎ Written (save host c d).0 (save host c d).1 j
  unfolding save
  save-Written d j = elim (Result-cases (validate_id c.id)) [
    | inr (e, invalid) ↦ inl (ground (arith, invalid), λ own h. ground (arith, invalid))
    | inl (_, valid) ↦ elim (Option-cases (host.mkdir d c.id)) [
      | inr (e, failed) ↦
          inl (ground (arith, valid, failed), λ own h. ground (arith, valid, failed))
      | inl made_dir ↦ elim (Option-cases (host.encode (stamped c))) [
        | inl none_made ↦ inl (
          ground (arith, valid, made_dir, none_made, touched d j),
          λ own h. ground (arith, valid, made_dir, none_made),
        )
        | inr (content, made) ↦
            let d₁ = put c.id (entry_of (lookup c.id d)) d in
            rw (valid, made_dir, made)
              (written-Step d d₁ j content (host.write_temp d₁ c.id) made (touched d c.id)
                (touched d j))
      ]
    ]
  ]
