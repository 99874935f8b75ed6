-- ===== src/Cache.antt =====
-- internal/cache/cache.go: the result cache of one process, its eviction and its file.
-- A result is of any type `R`, since the cache never looks into it. Times are nanoseconds, and each
-- reading of the clock is an argument. encoding/json and the file system are a field of the cache,
-- `file` is what stands at its path.
pub mod Url
pub mod Eviction
pub mod Bounds
pub mod Lookup
pub mod Persist
mod Examples
use stackly.Base.{
  ℕ, ◌+◌, ◌-◌, Option, none, some, List, [], ◌∷◌, Bool, true, false, not, ◌||◌, Bytes, bytes_eq,
  ltb, length, if◌then◌else◌,
}
use stackly.Base.Map
use stackly.Base.Map.{Map}
use Url.{url_key}

pub record Entry (R : Type 0) : Type 0 where
  pub url : Bytes
  pub result : R
  pub cached_at : ℕ
  pub expires_at : ℕ
  pub user_agent : Bytes

-- json.Marshal and json.Unmarshal, `none` where they fail, and what os.WriteFile leaves for its data
-- and the old file, whether it fails or not; its error is not looked at.
pub record Storage (R : Type 0) : Type 0 where
  pub marshal : Map (Entry R) → Option Bytes
  pub unmarshal : Bytes → Option (Map (Entry R))
  pub write_file : Bytes → Option Bytes → Option Bytes

pub record Cache (R : Type 0) : Type 0 where
  pub entries : Map (Entry R)
  pub ttl : ℕ
  pub path : Bytes
  pub max_size : ℕ
  pub hits : ℕ
  pub misses : ℕ
  pub file : Option Bytes
  pub storage : Storage R

-- `hit_rate` is the fraction hits / total, 0 / 1 before the first lookup.
pub record Stats : Type 0 where
  pub size : ℕ
  pub valid : ℕ
  pub hits : ℕ
  pub misses : ℕ
  pub hit_rate : ℕ × ℕ
  pub ttl : ℕ

module _ {R : Type 0} where
  -- `now.After(e.ExpiresAt)`.
  abbrev pub has_expired : ℕ → Entry R → Bool
  has_expired now e = ltb e.expires_at now

  -- `now.Before(e.ExpiresAt)`.
  abbrev pub is_valid : ℕ → Entry R → Bool
  is_valid now e = ltb now e.expires_at

  -- The loop that keeps the first entry of the least `CachedAt`; `none` is `first`.
  pub oldest_from : Option (Bytes × ℕ) → Map (Entry R) → Option (Bytes × ℕ)
  oldest_from best [] = best
  oldest_from none ((k, e) ∷ m) = oldest_from (some (k, e.cached_at)) m
  oldest_from (some (j, t)) ((k, e) ∷ m) =
      oldest_from (if ltb e.cached_at t then some (k, e.cached_at) else some (j, t)) m

  pub drop_oldest : Map (Entry R) → Map (Entry R)
  drop_oldest m = elim (oldest_from none m) [
    | none ↦ m
    | some (k, t) ↦ if bytes_eq k [] then m else Map.remove k m
  ]

  pub evict_oldest : ℕ → Cache R → Cache R
  evict_oldest now c =
      let fresh = Map.retain (λ _ e. not (has_expired now e)) c.entries in
      record c { entries = if ltb c.max_size (length fresh) then drop_oldest fresh else fresh }

  -- Only valid entries are written.
  pub persist : ℕ → Cache R → Cache R
  persist now c =
      if bytes_eq c.path []
      then c
      else elim (c.storage.marshal (Map.retain (λ _ e. is_valid now e) c.entries)) [
        | none ↦ c
        | some bytes ↦ record c { file = c.storage.write_file bytes c.file }
      ]

  -- `if c.path != "" { c.persistLocked() }`.
  pub save : ℕ → Cache R → Cache R
  save now c = if bytes_eq c.path [] then c else persist now c

  -- `if len(c.entries) > c.maxSize { c.evictOldest() }`.
  pub enforce_max : ℕ → Cache R → Cache R
  enforce_max now c = if ltb c.max_size (length c.entries) then evict_oldest now c else c

  put_all : (Entry R → Bool) → Map (Entry R) → Map (Entry R) → Map (Entry R)
  put_all p [] m = m
  put_all p ((k, e) ∷ loaded) m = put_all p loaded (if p e then Map.put k e m else m)

  -- The file may be missing, or not parse.
  pub load : ℕ → Cache R → Cache R
  unfolding put_all
  load now c = if bytes_eq c.path [] then c else elim c.file [
    | none ↦ c
    | some bytes ↦ elim (c.storage.unmarshal bytes) [
      | none ↦ c
      | some loaded ↦ record c { entries = put_all (is_valid now) loaded c.entries }
    ]
  ]

  -- The file is what stands at the path when the process starts.
  pub new_cache : Storage R → ℕ → Bytes → Option Bytes → ℕ → Cache R
  unfolding load
  new_cache storage ttl path file now =
      let c : Cache R = record {
        entries = [];
        ttl = ttl;
        path = path;
        max_size = 5000;
        hits = 0;
        misses = 0;
        file = file;
        storage = storage;
      } in
      if bytes_eq path [] then c else load now c

  abbrev hit : Cache R → Entry R → Cache R × Option (Entry R)
  hit c e = (record c { hits = c.hits + 1 }, some e)

  abbrev miss : Cache R → Cache R × Option (Entry R)
  miss c = (record c { misses = c.misses + 1 }, none)

  pub stats : Cache R → ℕ → Stats
  stats c now =
      let total = c.hits + c.misses in
      record {
        size = length c.entries;
        valid = length (Map.retain (λ _ e. is_valid now e) c.entries);
        hits = c.hits;
        misses = c.misses;
        hit_rate = if ltb 0 total then (c.hits, total) else (0, 1);
        ttl = c.ttl;
      }

  pub clear : ℕ → Cache R → Cache R
  clear now c = save now (record c { entries = [] })

  pub cleanup_expired : ℕ → ℕ → Cache R → Cache R × ℕ
  cleanup_expired now later c =
      let kept = Map.retain (λ _ e. not (has_expired now e)) c.entries in
      let removed = length c.entries - length kept in
      let cleaned : Cache R = record c { entries = kept } in
      (if ltb 0 removed then save later cleaned else cleaned, removed)

  abbrev pub new_entry : Cache R → Bytes → R → Bytes → ℕ → Entry R
  new_entry c url result ua now = record {
    url = url;
    result = result;
    cached_at = now;
    expires_at = now + c.ttl;
    user_agent = ua;
  }

  module _ (sha256 : Bytes → Bytes) where
    pub get : Bytes → ℕ → Cache R → Cache R × Option (Entry R)
    get url now c = elim (Map.get (url_key sha256 url) c.entries) [
      | none ↦ miss c
      | some e ↦ if has_expired now e then miss c else hit c e
    ]

    -- The clock is read on entry, by `evictOldest` and by `persistLocked`.
    pub set : Bytes → R → Bytes → ℕ → ℕ → ℕ → Cache R → Cache R
    set url result ua now evicted saved c =
        let entry = new_entry c url result ua now in
        let stored : Cache R = record c {
          entries = Map.put (url_key sha256 url) entry c.entries;
        } in
        save saved (enforce_max evicted stored)
