-- ===== src/Command/Examples.antt =====
-- The command on concrete data.
use stackly.Base.{◌≡◌, refl, true, false, Option, none, some, [], ◌∷◌, Bytes, text, bytes_eq}
use stackly.Base.Map.{get, put}
use stackly.Scan.{Technology, ScanResult}
use stackly.Fingerprint.{Database, ok, fail, read_failed}
use stackly.Command.{Flags, listed, usage, categories, count_categories, techstack, is_error}

abbrev tech : Bytes → Bytes → Technology
tech slug category = record {
  slug = slug;
  name = slug;
  website = [];
  category = category;
  icon = [];
  detectors = record {
    html = [];
    headers = [];
    scripts = [];
    cookies = [];
    url = [];
    js_globals = [];
    css = [];
    meta = [];
  };
  implies = [];
  excludes = [];
}

abbrev database : Database
database = record {
  version = text "1";
  updated = text "today";
  technologies =
      tech (text "nginx") (text "webserver")
      ∷ tech (text "caddy") (text "webserver")
      ∷ tech (text "ghost") (text "cms")
      ∷ [];
}

abbrev stub_scan : Option Bytes → Database → Bytes → ScanResult
stub_scan err db url = record {
  url = url;
  html = [];
  headers = [];
  scripts = [];
  css_links = [];
  js_globals = [];
  meta_tags = [];
  cookies = [];
  results = [];
  emails = [];
  scan_duration = 5;
  error = err;
}

abbrev flags : Flags
flags = record {
  url = [];
  json_out = false;
  show_data = false;
  list_techs = false;
  list_cats = false;
}

counted :
    techstack (stub_scan none) (record flags { list_cats = true }) (ok database)
    ≡ categories ((text "webserver", 2) ∷ (text "cms", 1) ∷ [])
unfolding techstack count_categories get put bytes_eq
counted = refl

-- A list is asked for before a URL is missed.
list_wins :
    techstack (stub_scan none) (record flags { list_techs = true; list_cats = true }) (ok database)
    ≡ listed database.technologies
unfolding techstack
list_wins = refl

no_url : techstack (stub_scan none) flags (ok database) ≡ usage
unfolding techstack bytes_eq
no_url = refl

scan_error :
    is_error (
      techstack
        (stub_scan (some (text "timeout")))
        (record flags { url = text "http://x" })
        (ok database))
    ≡ true
unfolding techstack bytes_eq
scan_error = refl

not_loaded :
    is_error (techstack (stub_scan none) (record flags { list_techs = true }) (fail read_failed))
    ≡ true
unfolding techstack
not_loaded = refl
