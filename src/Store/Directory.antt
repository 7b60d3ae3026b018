-- ===== src/Store/Directory.antt =====
-- The directory of the store: a directory per container, with the record and a temporary file.
use lightpod.Base.{
  ◌≡◌, Bool-cases, inl, inr, if◌then◌else◌, Option, none, some, List, [], ◌∷◌, arith,
}
use lightpod.Base.Text.{Bytes, same, same_iff, same_sound, lookup}

pub record Entry : Type 0 where
  pub state_file : Option Bytes
  pub temp_file : Option Bytes

abbrev pub Disk : Type 0
Disk = List (Bytes × Entry)

abbrev pub entry_of : Option Entry → Entry
entry_of none = record { state_file = none; temp_file = none }
entry_of (some e) = e

unfoldable pub put : Bytes → Entry → Disk → Disk
unfolding same
put id e [] = (id, e) ∷ []
put id e ((j, f) ∷ d) = let rest = put id e d in if same j id then (j, e) ∷ d else (j, f) ∷ rest

unfoldable pub erase : Bytes → Disk → Disk
unfolding same
erase id [] = []
erase id ((j, f) ∷ d) = let rest = erase id d in if same j id then rest else (j, f) ∷ rest

-- The record of a container, as bytes.
unfoldable pub file : Bytes → Disk → Option Bytes
file id d = (entry_of (lookup id d)).state_file

pub lookup-put :
    (i j : Bytes) (e : Entry) (d : Disk)
    → lookup j (put i e d) ≡ (if same i j then some e else lookup j d)
unfolding lookup put
lookup-put i j e [] = ground arith
lookup-put i j e ((k, f) ∷ d) = elim (Bool-cases (same k i)) [
  | inl hit ↦ rw (hit, same_sound k i hit) (ground arith)
  | inr miss ↦ elim (Bool-cases (same k j)) [
    | inl there ↦ ground (arith, miss, there, same_iff k j, same_iff k i, same_iff i j)
    | inr away ↦ rw (miss) (ground (arith, away, lookup-put i j e d))
  ]
]

pub lookup-erase :
    (i j : Bytes) (d : Disk) → lookup j (erase i d) ≡ (if same i j then none else lookup j d)
unfolding lookup erase
lookup-erase i j [] = ground arith
lookup-erase i j ((k, f) ∷ d) = elim (Bool-cases (same k i)) [
  | inl hit ↦ rw (hit, same_sound k i hit) (ground (arith, lookup-erase i j d))
  | inr miss ↦ elim (Bool-cases (same k j)) [
    | inl there ↦ ground (arith, miss, there, same_iff k j, same_iff k i, same_iff i j)
    | inr away ↦ rw (miss) (ground (arith, away, lookup-erase i j d))
  ]
]
