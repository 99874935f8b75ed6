-- ===== src/Files.antt =====
-- WriteFileAtomic of internal/fsutil/fsutil.go, one file operation after another.
pub mod Atomic
mod Examples
use stackly.Base.{
  ℕ, ◌≡◌, refl, ap, ◌∙◌, Bool, true, false, Option, none, some, List, [], ◌∷◌, ◌++◌, Bytes,
  bytes_eq, take, All, All-append, if◌then◌else◌, ◌⊎◌, inl, inr, Bool-cases,
}
use stackly.Base.Map.{Map, get, put, remove, get-put, get-remove}

-- The files by their paths.
abbrev pub Disk : Type 0
Disk = Map Bytes

-- Which operations fail: `written` is how much a write that fails has written, and `cuts` are lengths
-- that the file has while a write runs.
pub record Faults : Type 0 where
  pub create : Bool
  pub write : Bool
  pub close : Bool
  pub rename : Bool
  pub remove : Bool
  pub written : ℕ
  pub cuts : List ℕ

-- The disks that a crash can leave, in their order, the disk in the end, and whether there is no error.
pub record Written : Type 0 where
  pub trace : List Disk
  pub final : Disk
  pub ok : Bool

unfoldable pub partly : Bytes → Bytes → Disk → List ℕ → List Disk
partly tmp content d [] = []
partly tmp content d (n ∷ ns) = put tmp (take n content) d ∷ partly tmp content d ns

-- The deferred os.Remove, whose error is ignored.
unfoldable pub clean : Bool → Bytes → Disk → Disk
clean fails tmp d = if fails then d else remove tmp d

-- os.Rename replaces the target at once; os.Remove of the temporary file is deferred, and is the last
-- operation on every path but the first.
unfoldable pub write_file_atomic : Faults → Bytes → Bytes → Bytes → Disk → Written
write_file_atomic f tmp path content d =
    let opened = put tmp [] d in
    let broken = put tmp (take f.written content) d in
    let full = put tmp content d in
    let renamed = put path content (remove tmp full) in
    let writing = opened ∷ partly tmp content d f.cuts in
    if f.create
    then record { trace = []; final = d; ok = false }
    else if f.write
    then record { trace = writing ++ broken ∷ []; final = clean f.remove tmp broken; ok = false }
    else if f.close
    then record { trace = writing ++ full ∷ []; final = clean f.remove tmp full; ok = false }
    else if f.rename
    then record { trace = writing ++ full ∷ []; final = clean f.remove tmp full; ok = false }
    else record {
      trace = writing ++ full ∷ renamed ∷ [];
      final = clean f.remove tmp renamed;
      ok = true;
    }
