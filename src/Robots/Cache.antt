-- ===== src/Robots/Cache.antt =====
-- internal/adapters/fetch/robots.go: fetch, policyFor with its entries and their times, and
-- Allowed. What the host answers and the parts of a parsed URL are parameters; the mutexes, which
-- let one caller at a time see an entry, are not modelled.
use firmscout.Base.{
  if◌then◌else◌, is_empty, leb, ltb, ℕ, Bool, true, false, not, ◌&&◌, Option, none, some, List, [],
  ◌∷◌, ◌*◌, ◌++◌,
}
use firmscout.Base.Go.{Time, Duration, is_zero, sub_time, hour, minute}
use firmscout.Base.Int.{ℤ, pos, ltb_ℤ}
use firmscout.Base.Text.{Str, text, str_eq}
use firmscout.Robots.{RobotsGroup, RobotsFile, select_group, allows}

-- The body as io.ReadAll gives it, up to the cap, or the error of reading it
pub data Body : Type 0 where
  body : Str → Body
  unreadable : Str → Body

-- What comes of the request: an error before there is a response, or a status and a body
pub data Answer : Type 0 where
  no_response : Str → Answer
  response : ℕ → Body → Answer

pub data PolicyError : Type 0 where
  failed : Str → PolicyError
  -- robotsUnavailableError
  unavailable : ℕ → PolicyError

-- The three results of fetch and of policyFor
pub record Policy : Type 0 where
  pub file : Option RobotsFile
  pub is_known : Bool
  pub error : Option PolicyError

abbrev pub known_policy : RobotsFile → Policy
known_policy f = record { file = some f; is_known = true; error = none }

abbrev pub unknown_policy : PolicyError → Policy
unknown_policy e = record { file = none; is_known = false; error = some e }

abbrev pub no_rules : RobotsFile
no_rules = record { groups = []; sitemaps = [] }

module _ (parse : Str → RobotsFile) where
  abbrev pub read_policy : Body → Policy
  read_policy (body b) = known_policy (parse b)
  read_policy (unreadable e) = unknown_policy (failed e)

  unfoldable pub fetch_policy : Answer → Policy
  fetch_policy (no_response e) = unknown_policy (failed e)
  fetch_policy (response status b) =
      if leb 200 status && ltb status 300
      then read_policy b
      else if leb 400 status && ltb status 500
      then known_policy no_rules
      else unknown_policy (unavailable status)

pub record Entry : Type 0 where
  pub policy : Policy
  pub fetched_at : Time

pub record RobotsCache : Type 0 where
  pub ttl : Duration
  pub negative_ttl : Duration
  pub entries : List (Str × Entry)

-- DefaultRobotsTTL and DefaultRobotsNegativeTTL
abbrev pub new_robots_cache : RobotsCache
new_robots_cache = record { ttl = pos (24 * hour); negative_ttl = pos (10 * minute); entries = [] }

unfoldable pub entry_at : Str → List (Str × Entry) → Option Entry
entry_at key [] = none
entry_at key ((k, e) ∷ rest) =
    let later = entry_at key rest in if str_eq k key then some e else later

unfoldable pub put_entry : Str → Entry → List (Str × Entry) → List (Str × Entry)
put_entry key e [] = (key, e) ∷ []
put_entry key e ((k, e') ∷ rest) =
    let later = put_entry key e rest in if str_eq k key then (key, e) ∷ rest else (k, e') ∷ later

-- The time for which an entry is trusted
abbrev pub ttl_of : RobotsCache → Policy → Duration
ttl_of c p = if not p.is_known then c.negative_ttl else c.ttl

abbrev pub is_fresh : RobotsCache → Time → Entry → Bool
is_fresh c now e =
    not (is_zero e.fetched_at) && ltb_ℤ (sub_time now e.fetched_at) (ttl_of c e.policy)

abbrev pub fresh_policy : RobotsCache → Time → Option Entry → Option Policy
fresh_policy c now none = none
fresh_policy c now (some e) = if is_fresh c now e then some e.policy else none

abbrev pub settle : RobotsCache → Str → Time → Policy → Option Policy → Policy × RobotsCache
settle c key later fetched (some p) = (p, c)
settle c key later fetched none = (
  fetched,
  record c { entries = put_entry key (record { policy = fetched; fetched_at = later }) c.entries },
)

-- policyFor, with the clock before and after the request, which is made only if the entry of the
-- host is not fresh
unfoldable pub policy_for : RobotsCache → Str → Time → Time → Policy → Policy × RobotsCache
unfolding entry_at put_entry
policy_for c key now later fetched =
    settle c key later fetched (fresh_policy c now (entry_at key c.entries))

-- The path that the rules are matched against
pub record Url : Type 0 where
  pub escaped_path : Str
  pub raw_query : Str

unfoldable pub request_path : Url → Str
request_path u =
    let path = if is_empty u.escaped_path then text "/" else u.escaped_path in
    if is_empty u.raw_query then path else path ++ (text "?" ++ u.raw_query)

-- The results of Allowed but its error
pub record Permission : Type 0 where
  pub allowed : Bool
  pub known : Bool
  pub crawl_delay : ℤ

abbrev pub permission : Bool → Bool → ℤ → Permission
permission a k d = record { allowed = a; known = k; crawl_delay = d }

abbrev pub by_group : Option RobotsGroup → Str → Permission
by_group none path = permission true true (pos 0)
by_group (some g) path = permission (allows g path) true g.crawl_delay

abbrev pub by_file : Option RobotsFile → Str → Str → Permission
by_file none token path = permission false false (pos 0)
by_file (some f) token path = by_group (select_group f token) path

unfoldable pub allowed_by : Policy → Str → Url → Permission
unfolding request_path
allowed_by p token u =
    if not p.is_known then permission false false (pos 0) else by_file p.file token (request_path u)
