-- ===== src/Cache/Persist.antt =====
-- The cache's file, its removal of expired entries, and what a restart brings back.
use stackly.Base.{
  some, none, or_else, ℕ, ◌+◌, ◌≡◌, refl, inl, inr, Bool, false, not, ◌&&◌, [], ◌∷◌, Bytes,
  bytes_eq, bytes_eq_iff, length, Bool-cases, filter_some, arith,
}
use stackly.Base.Map
use stackly.Base.Map.{Map, get-put, get-retain, get-retain-none, length-retain-le, retain-Distinct}
use stackly.Cache.{
  Entry, Cache, has_expired, is_valid, put_all, persist, load, new_cache, save, cleanup_expired,
}

module _ {R : Type 0} where
  get-put_all :
      (p : Entry R → Bool) (k : Bytes) (l m : Map (Entry R))
      → Map.Distinct l
      → Map.get k (put_all p l m) ≡ or_else (filter_some p (Map.get k l)) (Map.get k m)
  unfolding put_all Map.get
  get-put_all p k [] m d = refl
  get-put_all p k ((j, e) ∷ l) m d = elim (Bool-cases (p e)) [
    | inl h ↦
        rw (h, get-put_all p k l (Map.put j e m) d.1, get-put j k e m)
          (ground (arith, bytes_eq_iff j k))
    | inr h ↦ rw (h, get-put_all p k l m d.1) (ground (arith, bytes_eq_iff j k))
  ]

  -- The entries that are valid at a time.
  abbrev pub valid_at : ℕ → Cache R → Map (Entry R)
  valid_at saved c = Map.retain (λ _ e. is_valid saved e) c.entries

  -- They have an encoding that decodes to the same entries, and the file gets it whole.
  pub record Keeps (c : Cache R) (saved : ℕ) : Type 0 where
    pub encoding : Bytes
    pub encoded : c.storage.marshal (valid_at saved c) ≡ some encoding
    pub written : c.storage.write_file encoding c.file ≡ some encoding
    pub decoded : c.storage.unmarshal encoding ≡ some (valid_at saved c)

  -- If the entries that are valid when a cache is written have an encoding in JSON that decodes to the
  -- same entries, and the file gets it whole, then a process that loads the file at another time, with
  -- the same path, has exactly the entries that had not expired at either time.
  pub load-persist :
      (c : Cache R) (saved loaded : ℕ) (k : Bytes)
      → Map.Distinct c.entries
      → bytes_eq c.path [] ≡ false
      → Keeps c saved
      → Map.get k (new_cache c.storage c.ttl c.path (persist saved c).file loaded).entries
        ≡ filter_some (λ e. is_valid saved e && is_valid loaded e) (Map.get k c.entries)
  unfolding new_cache load persist Map.get
  load-persist c saved loaded k d h keeps =
      rw (h, persist, new_cache, load, keeps.encoded, keeps.written, keeps.decoded)
        (rw
          (
            get-put_all (is_valid loaded) k (valid_at saved c) [] (retain-Distinct _ c.entries d),
            get-retain (λ _ e. is_valid saved e) k c.entries d,
          )
          (ground arith))

  -- A cache that cannot be encoded leaves the file as it was, and a file that does not decode brings
  -- back nothing.
  pub load-undecodable :
      (c : Cache R) (saved : ℕ) (file : Bytes)
      → bytes_eq c.path [] ≡ false
      → c.storage.marshal (valid_at saved c) ≡ none
      → c.file ≡ some file
      → c.storage.unmarshal file ≡ none
      → (new_cache c.storage c.ttl c.path (persist saved c).file saved).entries ≡ []
  unfolding new_cache load persist
  load-undecodable c saved file h failed old bad =
      rw (h, persist, failed, old, new_cache, load, bad) refl

  -- `CleanupExpired` keeps exactly the entries that have not expired, and returns how many it took
  -- out.
  pub cleanup_expired-exact :
      (c : Cache R) (now later : ℕ) (k : Bytes)
      → Map.Distinct c.entries
      → let r = cleanup_expired now later c in
        (Map.get k r.0.entries ≡ filter_some (λ e. not (has_expired now e)) (Map.get k c.entries))
        × (length r.0.entries + r.1 ≡ length c.entries)
  unfolding cleanup_expired save persist
  cleanup_expired-exact c now later k d = (
    ground (arith, get-retain (λ _ e. not (has_expired now e)) k c.entries d),
    ground (arith, length-retain-le (λ _ e. not (has_expired now e)) c.entries),
  )
