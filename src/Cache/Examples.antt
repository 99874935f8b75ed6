-- ===== src/Cache/Examples.antt =====
-- The cache at work, and its theorems at concrete inputs. The digest here is a stand-in of 32 bytes
-- that starts with the text itself.
use stackly.Base.{
  Option, ℕ, zero, suc, ◌≡◌, refl, none, some, List, [], ◌∷◌, Bytes, bytes_eq, text, length, arith,
}
use stackly.Base.Map
use stackly.Base.Map.{Map}
use stackly.Cache.Url.{normalize_url, url_key}
use stackly.Cache.{
  Entry, Storage, Cache, evict_oldest, drop_oldest, oldest_from, enforce_max, save, new_cache,
  persist, new_entry, get, set,
}
use stackly.Cache.Bounds.{IsValid, Op, stores, cleans, run, run-IsValid}
use stackly.Cache.Lookup.{get-set}
use stackly.Cache.Persist.{Keeps, load-persist}

abbrev zeros : ℕ → Bytes
zeros zero = []
zeros (suc n) = 0 ∷ zeros n

abbrev pad : Bytes → ℕ → Bytes
pad s zero = []
pad [] (suc n) = 0 ∷ pad [] n
pad (c ∷ s) (suc n) = c ∷ pad s n

abbrev digest : Bytes → Bytes
digest s = pad s 32

length-digest : (s : Bytes) → length (digest s) ≡ 32
length-digest s = go s 32
  where
    go : (s : Bytes) (n : ℕ) → length (pad s n) ≡ n
    go s zero = refl
    go [] (suc n) = omega (arith, go [] n)
    go (c ∷ s) (suc n) = omega (arith, go s n)

-- Files are never written here.
abbrev read_only : Storage ℕ
read_only = record { marshal = λ m. none; unmarshal = λ bytes. none; write_file = λ bytes old. old }

abbrev tiny : Cache ℕ
tiny = record {
  entries = [];
  ttl = 100;
  path = text "c";
  max_size = 1;
  hits = 0;
  misses = 0;
  file = none;
  storage = read_only;
}

abbrev one : Cache ℕ
one = set digest (text "a/") 7 (text "ua") 10 10 10 tiny

normalize_test : normalize_url (text "http://a//") ≡ text "http://a"
unfolding normalize_url
normalize_test = refl

get_test : (get digest (text "a") 110 one).1 ≡ some (new_entry tiny (text "a/") 7 (text "ua") 10)
unfolding get set save enforce_max persist url_key normalize_url Map.get Map.put Map.retain bytes_eq
get_test = refl

-- A second page takes the place of the first.
evict_test : (get digest (text "a") 20 (set digest (text "b") 8 (text "ua") 20 20 20 one)).1 ≡ none
unfolding get set save enforce_max evict_oldest drop_oldest oldest_from persist url_key
    normalize_url Map.get Map.put Map.retain Map.remove bytes_eq
evict_test = refl

tiny-IsValid : IsValid tiny
unfolding Map.get
tiny-IsValid = record { distinct = tt; named = refl; bounded = omega arith }

abbrev history : List (Op ℕ)
history =
    stores (text "a") 7 (text "u") 5 5 5
    ∷ stores (text "b") 8 (text "u") 9 9 9
    ∷ cleans 200 201
    ∷ []

run-IsValid_example : IsValid (run digest tiny history)
run-IsValid_example = run-IsValid digest length-digest history tiny tiny-IsValid

get-set_example :
    (get digest (text "b") 110 (set digest (text "b") 8 (text "ua") 20 20 20 tiny)).1
    ≡ some (new_entry tiny (text "b") 8 (text "ua") 20)
unfolding Map.get
get-set_example =
    get-set digest length-digest (text "b") 8 (text "ua") 20 20 20 110 tiny tiny-IsValid
      (omega arith) (λ x f h. absurd (ground arith)) (omega arith) (omega arith)

abbrev page : Entry ℕ
page = new_entry tiny (text "a") 7 (text "ua") 10

-- A stand-in for JSON, for entries whose URL is their key, a byte, and that have no agent.
abbrev encode : Map (Entry ℕ) → Option Bytes
encode [] = some []
encode ((k ∷ [], e) ∷ m) = elim (encode m) [
  | none ↦ none
  | some rest ↦ some (k ∷ e.result ∷ e.cached_at ∷ e.expires_at ∷ rest)
]
encode other = none

abbrev decode : Bytes → Option (Map (Entry ℕ))
decode [] = some []
decode (k ∷ result ∷ cached_at ∷ expires_at ∷ rest) = elim (decode rest) [
  | none ↦ none
  | some m ↦ some (
      (
        k ∷ [],
        record {
          url = k ∷ [];
          result = result;
          cached_at = cached_at;
          expires_at = expires_at;
          user_agent = [];
        },
      )
      ∷ m)
]
decode other = none

abbrev saved_page : Entry ℕ
saved_page = new_entry tiny (text "k") 7 [] 10

abbrev full : Cache ℕ
full = record tiny {
  entries = (text "k", saved_page) ∷ [];
  storage = record { marshal = encode; unmarshal = decode; write_file = λ bytes old. some bytes };
}

full-Keeps : Keeps full 50
unfolding Map.retain
full-Keeps = record { encoding = _; encoded = refl; written = refl; decoded = refl }

load-persist_example :
    Map.get (text "k") (new_cache full.storage 100 (text "c") (persist 50 full).file 60).entries
    ≡ some saved_page
unfolding Map.get bytes_eq
load-persist_example = load-persist full 50 60 (text "k") (refl, tt) refl full-Keeps
