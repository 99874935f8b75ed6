-- ===== src/Scanner/Agents.antt =====
-- internal/scanner/useragent.go, and the user agents and settings of Scanner in
-- internal/scanner/scanner.go. What the random generator draws is an argument.
use stackly.Base.{
  ℕ, zero, suc, ◌+◌, ◌*◌, ◌%◌, Bool, true, false, Option, none, some, List, [], ◌∷◌, Bytes, text,
  length, if◌then◌else◌,
}

pub record UserAgentPool : Type 0 where
  pub agents : List Bytes
  pub index : ℕ

-- `none` is the panic of an index out of range.
unfoldable pub get_elem? : List Bytes → ℕ → Option Bytes
get_elem? [] n = none
get_elem? (x ∷ xs) zero = some x
get_elem? (x ∷ xs) (suc n) = get_elem? xs n

abbrev pub user_agents : List Bytes
user_agents =
    text
      "Mozilla/5.0 (Windows NT 10.0; Win64; x64) AppleWebKit/537.36 (KHTML, like Gecko) Chrome/125.0.0.0 Safari/537.36"
    ∷ text
        "Mozilla/5.0 (Windows NT 10.0; Win64; x64) AppleWebKit/537.36 (KHTML, like Gecko) Chrome/124.0.0.0 Safari/537.36"
    ∷ text
        "Mozilla/5.0 (Windows NT 11.0; Win64; x64) AppleWebKit/537.36 (KHTML, like Gecko) Chrome/125.0.0.0 Safari/537.36"
    ∷ text
        "Mozilla/5.0 (Macintosh; Intel Mac OS X 10_15_7) AppleWebKit/537.36 (KHTML, like Gecko) Chrome/125.0.0.0 Safari/537.36"
    ∷ text
        "Mozilla/5.0 (Macintosh; Intel Mac OS X 10_15_7) AppleWebKit/537.36 (KHTML, like Gecko) Chrome/124.0.0.0 Safari/537.36"
    ∷ text
        "Mozilla/5.0 (X11; Linux x86_64) AppleWebKit/537.36 (KHTML, like Gecko) Chrome/125.0.0.0 Safari/537.36"
    ∷ text
        "Mozilla/5.0 (X11; Linux x86_64) AppleWebKit/537.36 (KHTML, like Gecko) Chrome/124.0.0.0 Safari/537.36"
    ∷ text "Mozilla/5.0 (Windows NT 10.0; Win64; x64; rv:126.0) Gecko/20100101 Firefox/126.0"
    ∷ text "Mozilla/5.0 (Windows NT 10.0; Win64; x64; rv:125.0) Gecko/20100101 Firefox/125.0"
    ∷ text "Mozilla/5.0 (Macintosh; Intel Mac OS X 10.15; rv:126.0) Gecko/20100101 Firefox/126.0"
    ∷ text
        "Mozilla/5.0 (Macintosh; Intel Mac OS X 10_15_7) AppleWebKit/605.1.15 (KHTML, like Gecko) Version/17.5 Safari/605.1.15"
    ∷ text
        "Mozilla/5.0 (Windows NT 10.0; Win64; x64) AppleWebKit/537.36 (KHTML, like Gecko) Chrome/125.0.0.0 Safari/537.36 Edg/125.0.0.0"
    ∷ []

unfoldable pub new_user_agent_pool : UserAgentPool
new_user_agent_pool = record { agents = user_agents; index = 0 }

-- The next agent in turn.
unfoldable pub next : UserAgentPool → Option (Bytes × UserAgentPool)
unfolding get_elem?
next p = elim (get_elem? p.agents p.index) [
  | none ↦ none
  | some ua ↦ some (ua, record p { index = (p.index + 1) % length p.agents })
]

unfoldable pub random : ℕ → UserAgentPool → Option Bytes
unfolding get_elem?
random drawn p = get_elem? p.agents drawn

-- The settings of Scanner; its database and its callback are arguments of the operations.
pub record Scanner : Type 0 where
  pub user_agent : Bytes
  pub pool : UserAgentPool
  pub timeout : ℕ
  pub rotate_ua : Bool
  pub last_ua : Bytes
  pub proxy_url : Bytes

abbrev pub default_user_agent : Bytes
default_user_agent =
    text
      "Mozilla/5.0 (Windows NT 10.0; Win64; x64) AppleWebKit/537.36 (KHTML, like Gecko) Chrome/125.0.0.0 Safari/537.36"

unfoldable pub new_scanner : Scanner
unfolding new_user_agent_pool
new_scanner = record {
  user_agent = default_user_agent;
  pool = new_user_agent_pool;
  timeout = 30 * 1_000_000_000;
  rotate_ua = false;
  last_ua = [];
  proxy_url = [];
}

unfoldable pub set_user_agent : Bytes → Scanner → Scanner
set_user_agent ua s = record s { user_agent = ua; rotate_ua = false }

unfoldable pub enable_ua_rotation : Scanner → Scanner
enable_ua_rotation s = record s { rotate_ua = true }

unfoldable pub set_timeout : ℕ → Scanner → Scanner
set_timeout d s = record s { timeout = d }

unfoldable pub set_proxy : Bytes → Scanner → Scanner
set_proxy url s = record s { proxy_url = url }

unfoldable pub get_last_user_agent : Scanner → Bytes
get_last_user_agent s = s.last_ua

unfoldable pub get_user_agent : ℕ → Scanner → Option (Bytes × Scanner)
unfolding random
get_user_agent drawn s = elim (if s.rotate_ua then random drawn s.pool else some s.user_agent) [
  | none ↦ none
  | some ua ↦ some (ua, record s { last_ua = ua })
]
