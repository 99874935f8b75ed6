-- ===== src/Files/Examples.antt =====
-- Files on concrete data.
use stackly.Base.{◌≡◌, refl, true, false, some, [], ◌∷◌, text, bytes_eq}
use stackly.Base.Map.{get, put, remove}
use stackly.Files.{clean, Disk, Faults, write_file_atomic}
use stackly.Files.Atomic.{IsAtomic, write_file_atomic-IsAtomic}

abbrev disk : Disk
disk = (text "a.json", text "old") ∷ (text "b.json", text "else") ∷ []

abbrev no_faults : Faults
no_faults = record {
  create = false;
  write = false;
  close = false;
  rename = false;
  remove = false;
  written = 0;
  cuts = 1 ∷ 2 ∷ [];
}

-- The write fails after two bytes.
abbrev disk_full : Faults
disk_full = record no_faults { write = true; written = 2 }

written :
    get
      (text "a.json")
      (write_file_atomic no_faults (text ".tmp-1") (text "a.json") (text "new!") disk).final
    ≡ some (text "new!")
unfolding write_file_atomic clean get put remove bytes_eq
written = refl

not_written :
    (write_file_atomic disk_full (text ".tmp-1") (text "a.json") (text "new!") disk).final ≡ disk
unfolding write_file_atomic clean put remove bytes_eq
not_written = refl

write_file_atomic-IsAtomic_example :
    IsAtomic false
      (text ".tmp-1")
      (text "a.json")
      (text "new!")
      disk
      (write_file_atomic disk_full (text ".tmp-1") (text "a.json") (text "new!") disk)
unfolding bytes_eq get
write_file_atomic-IsAtomic_example =
    write_file_atomic-IsAtomic (text ".tmp-1") (text "a.json") disk refl refl disk_full
      (text "new!")
