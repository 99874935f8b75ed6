-- ===== src/Fingerprint.antt =====
-- internal/fingerprint/loader.go: the database that the process keeps. The file system and the JSON
-- decoder are parameters.
use stackly.Base.{Option, none, some, List, [], ◌∷◌, Bytes, bytes_eq, select, if◌then◌else◌}
use stackly.Scan.{Technology}

pub record Database : Type 0 where
  pub version : Bytes
  pub updated : Bytes
  pub technologies : List Technology

pub data LoadError : Type 0 where
  read_failed parse_failed : LoadError

pub data Loaded : Type 0 where
  ok : Database → Loaded
  fail : LoadError → Loaded

-- The variable `db`, and what `Load` returns. An error leaves the database that was there.
unfoldable pub load :
    (Bytes → Option Bytes)
    → (Bytes → Option Database)
    → Bytes
    → Option Database
    → Option Database × Loaded
load read_file unmarshal path db = elim (read_file path) [
  | none ↦ (db, fail read_failed)
  | some bytes ↦ elim (unmarshal bytes) [
    | none ↦ (db, fail parse_failed)
    | some fresh ↦ (some fresh, ok fresh)
  ]
]

unfoldable pub get_database : Option Database → Option Database
get_database db = db

unfoldable pub get_technologies : Option Database → List Technology
get_technologies none = []
get_technologies (some db) = db.technologies

unfoldable pub get_by_category : Bytes → Option Database → List Technology
get_by_category category none = []
get_by_category category (some db) = select (λ t. bytes_eq t.category category) db.technologies

unfoldable pub find_in : Bytes → List Technology → Option Technology
find_in slug [] = none
find_in slug (t ∷ ts) = let rest = find_in slug ts in if bytes_eq t.slug slug then some t else rest

unfoldable pub find_by_slug : Bytes → Option Database → Option Technology
unfolding find_in
find_by_slug slug none = none
find_by_slug slug (some db) = find_in slug db.technologies
