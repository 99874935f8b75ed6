-- ===== src/Command.antt =====
-- main and outputJSON of cmd/techstack/main.go, and the callbacks that main of cmd/server/main.go makes.
pub mod Counts
mod Examples
use stackly.Base.{
  ℕ, ◌+◌, ◌==◌, ◌&&◌, Bool, true, false, Option, none, some, List, [], ◌∷◌, ◌++◌, Bytes, text,
  bytes_eq, map, if◌then◌else◌,
}
use stackly.Base.Map.{Map, get, put}
use stackly.Scan.{Technology, Match, Result, ScanResult}
use stackly.Scanner.Detect.{get_implied}
use stackly.Fingerprint.{Database, Loaded, LoadError, ok, fail}
use stackly.Hub.{Hub, Event, EventType, DetectedTech, publish}
use stackly.Queue
use stackly.Cache

pub record Flags : Type 0 where
  pub url : Bytes
  pub json_out : Bool
  pub show_data : Bool
  pub list_techs : Bool
  pub list_cats : Bool

pub record JsonResult : Type 0 where
  pub technology : Bytes
  pub slug : Bytes
  pub category : Bytes
  pub confidence : ℕ
  pub matches : List Bytes

pub record JsonOut : Type 0 where
  pub url : Bytes
  pub duration : ℕ
  pub detected : List JsonResult
  pub implied : List Bytes

abbrev match_text : Match → Bytes
match_text m = text "[" ++ m.type ++ text "] " ++ m.rule

abbrev json_result : Result → JsonResult
json_result r = record {
  technology = r.technology.name;
  slug = r.technology.slug;
  category = r.technology.category;
  confidence = r.confidence;
  matches = map match_text r.matches;
}

-- The duration is printed by package time.
unfoldable pub output_json : ScanResult → JsonOut
output_json r = record {
  url = r.url;
  duration = r.scan_duration;
  detected = map json_result r.results;
  implied = get_implied r.results;
}

abbrev pub count_of : Option ℕ → ℕ
count_of none = 0
count_of (some n) = n

-- `cats[tech.Category]++` for each technology.
unfoldable pub count_categories : List Technology → Map ℕ → Map ℕ
count_categories [] cats = cats
count_categories (t ∷ ts) cats =
    count_categories ts (put t.category (count_of (get t.category cats) + 1) cats)

-- What the command ends with.
pub data Ended : Type 0 where
  load_failed : LoadError → Ended
  listed : List Technology → Ended
  categories : Map ℕ → Ended
  usage : Ended
  scan_failed : Bytes → Ended
  printed_json : JsonOut → Ended
  printed_text : Bool → ScanResult → Ended

abbrev pub is_error : Ended → Bool
is_error (load_failed e) = true
is_error usage = true
is_error (scan_failed e) = true
is_error (listed ts) = false
is_error (categories m) = false
is_error (printed_json o) = false
is_error (printed_text d r) = false

abbrev print : Flags → ScanResult → Ended
print f r = elim r.error [
  | some err ↦ scan_failed err
  | none ↦ if f.json_out then printed_json (output_json r) else printed_text f.show_data r
]

-- `scan` is ScanURL of a new scanner for the database.
unfoldable pub techstack : (Database → Bytes → ScanResult) → Flags → Loaded → Ended
techstack scan f (fail e) = load_failed e
techstack scan f (ok db) =
    if f.list_techs
    then listed db.technologies
    else if f.list_cats
    then categories (count_categories db.technologies [])
    else if bytes_eq f.url []
    then usage
    else print f (scan db f.url)

abbrev detected_tech : Result → DetectedTech
detected_tech r = record {
  slug = r.technology.slug;
  name = r.technology.name;
  category = r.technology.category;
  confidence = r.confidence;
}

-- s.ProgressCallback; `none` is a panic, and `now` the time that Publish stamps.
unfoldable pub on_progress : Bytes → Bytes → ℕ → Bytes → List Result → Bytes → Hub → Option Hub
on_progress job phase percent message partial now = publish job now (record {
  type = EventType.progress;
  job_id = [];
  status = phase;
  percent = percent;
  message = message;
  techs = map detected_tech partial;
  error = [];
  ts = [];
})

-- The gauges that the server refreshes, and one turn of refreshGauges. A cache whose Stats are all zero
-- leaves its gauge as it is.
pub record Gauges : Type 0 where
  pub queue_depth : ℕ
  pub cache_size : ℕ

abbrev all_zero : Cache.Stats → Bool
all_zero cs =
    ((cs.size == 0) && (cs.valid == 0)) && (((cs.hits == 0) && (cs.misses == 0)) && (cs.ttl == 0))

unfoldable pub refresh : Queue.Stats → Cache.Stats → Gauges → Gauges
refresh stats cs g = record {
  queue_depth = stats.pending + stats.running;
  cache_size = if all_zero cs then g.cache_size else cs.size;
}
