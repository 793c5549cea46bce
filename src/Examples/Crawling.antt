-- ===== src/Examples/Crawling.antt =====
-- Examples of robots.txt: patterns, rules, groups, parsing and the cache; of excerpts; and of the
-- address policy.
use firmscout.Base.{
  inr, inl, List, Option, some, Bool, ◌*◌, ◌≤◌, ◌<◌, ◌≡◌, ◌≢◌, ◌↔◌, ◌⊎◌, refl, true, false, [], ◌∷◌,
  In, none,
}
use firmscout.Base.Int.{pos}
use firmscout.Base.Text.{
  str_eq, lower, Str, text, ascii, byte_len, is_blank, trim_space, split, has_suffix, has_prefix,
  cut_byte,
}
use firmscout.Base.Go.{sub_time, hour}
use firmscout.Robots.{
  drop_last, RobotsRule, RobotsGroup, RobotsFile, robots_path_match, allows, select_group,
}
use firmscout.Robots.Glob.{Matches, whole_pattern, robots_path_match-Matches}
use firmscout.Robots.Rules.{Applies, allows_longest}
use firmscout.Robots.Groups.{Chosen, select_group-Chosen}
use firmscout.Robots.Parse.{parse_robots, parse_directives, parsed_file, start}
use firmscout.Robots.RoundTrip.{IsPlain, group_lines, parse_directives-group_lines}
use firmscout.Robots.Cache.{
  RobotsCache, entry_at, Answer, response, body, known_policy, policy_for, new_robots_cache,
  fetch_policy, allowed_by, Url, request_path,
}
use firmscout.Robots.Trust.{Call, after_calls, Permits, allowed_by-Permits, policy_for_fresh}
use firmscout.Evidence.{truncate_excerpt, max_excerpt_length}
use firmscout.Evidence.Excerpt.{truncate_excerpt_bounds}
use firmscout.Guard.{
  blocked_host, default_denied_ranges, Addr, blocked_address, check_ip, new_guard,
}
use firmscout.Guard.Address.{check_hostname, port_allowed, is_tcp, check_addr}
use firmscout.Guard.Enforced.{Reachable, check_addr-Reachable}
use firmscout.Examples.Numbers.{whole}

abbrev rule : Bool → Str → RobotsRule
rule b p = record { allow = b; pattern = p }

abbrev group : RobotsGroup
group = record {
  agents = text "firmscout" ∷ [];
  rules = rule false (text "/a*") ∷ rule true (text "/a/b$") ∷ [];
  crawl_delay = pos 0;
  has_crawl_delay = false;
}

abbrev file : RobotsFile
file = record { groups = group ∷ []; sitemaps = [] }

matches_end : robots_path_match (text "/a*b$") (text "/a/cbb") ≡ true
unfolding robots_path_match text split has_suffix drop_last has_prefix
matches_end = refl

misses_end : robots_path_match (text "/a*b$") (text "/a/cb/") ≡ false
unfolding robots_path_match text split has_suffix drop_last has_prefix
misses_end = refl

-- Two agents on consecutive lines share a group; an agent after a rule begins another.
parses_groups :
    parse_robots ascii whole
      (λ s. none)
      (text "User-agent: A #x\nUser-Agent: b\nDisallow: /p\n\nuser-agent: c\r\nAllow: /")
    ≡ record {
      groups =
          record {
            agents = text "a" ∷ text "b" ∷ [];
            rules = rule false (text "/p") ∷ [];
            crawl_delay = pos 0;
            has_crawl_delay = false;
          }
          ∷ record {
            agents = text "c" ∷ [];
            rules = rule true (text "/") ∷ [];
            crawl_delay = pos 0;
            has_crawl_delay = false;
          }
          ∷ [];
      sitemaps = [];
    }
unfolding parse_robots text split trim_space has_suffix cut_byte drop_last lower
parses_groups = refl

robots_path_match-Matches_example :
    (robots_path_match (text "/a*b$") (text "/a/cbb") ≡ true)
    ↔ ((text "/a*b$" ≢ []) × Matches (whole_pattern (text "/a*b$")) (text "/a/cbb"))
robots_path_match-Matches_example = robots_path_match-Matches (text "/a*b$") (text "/a/cbb")

allows_longest_example : (allows group (text "/a/b") ≡ true) ↔ (
    (r : RobotsRule)
    → In r group.rules
    → Applies false (text "/a/b") r
    → (r' : RobotsRule) × In r' group.rules
      × Applies true (text "/a/b") r'
      × (byte_len r.pattern ≤ byte_len r'.pattern))
allows_longest_example = allows_longest group (text "/a/b")

select_group-Chosen_example : Chosen (text "firmscout") file (select_group file (text "firmscout"))
select_group-Chosen_example = select_group-Chosen file (text "firmscout")

group-IsPlain : IsPlain ascii group
unfolding text lower
group-IsPlain = record {
  has_agent = refl;
  has_rule = refl;
  agents_lower = ((refl, refl), tt);
  patterns_some = (refl, (refl, tt));
  delay_zero = refl;
  delay_unset = refl;
}

parse_directives-group_lines_example :
    (parsed_file ascii whole
      (λ s. none)
      (parse_directives ascii whole (λ s. none) (group_lines (group ∷ [])) start)).groups
    ≡ group ∷ []
parse_directives-group_lines_example =
    parse_directives-group_lines ascii whole (λ s. none) (group ∷ []) (group-IsPlain, tt)

abbrev page_url : Url
page_url = record { escaped_path = text "/a/b"; raw_query = [] }

abbrev found : Answer
found = response 200 (body (text "x"))

allowed_by-Permits_example :
    ((allowed_by (fetch_policy (λ b. file) found) (text "firmscout") page_url).allowed ≡ true)
    ↔ Permits (λ b. file) found (text "firmscout") (request_path page_url)
allowed_by-Permits_example = allowed_by-Permits (λ b. file) found (text "firmscout") page_url

-- A call for another host, then one for the host itself
abbrev calls : List Call
calls =
    record {
      host = text "other";
      now = 6 * hour;
      later = 6 * hour;
      answer = fetch_policy (λ b. file) (response 500 (body []));
    }
    ∷ record {
      host = text "h";
      now = 7 * hour;
      later = 7 * hour;
      answer = fetch_policy (λ b. file) (response 500 (body []));
    }
    ∷ []

abbrev first_cache : RobotsCache
first_cache = (policy_for new_robots_cache (text "h") (5 * hour) (6 * hour) (known_policy file)).1

policy_for_fresh_example :
    ((policy_for new_robots_cache (text "h") (5 * hour) (6 * hour) (known_policy file)).0
      ≡ known_policy file)
    × (policy_for
          (after_calls first_cache calls)
          (text "h")
          (7 * hour)
          (8 * hour)
          (fetch_policy (λ b. file) (response 500 (body [])))
        ≡ (known_policy file, after_calls first_cache calls))
unfolding entry_at sub_time text str_eq
policy_for_fresh_example =
    policy_for_fresh new_robots_cache (text "h") (5 * hour) (6 * hour) (7 * hour) (8 * hour)
      (known_policy file) (fetch_policy (λ b. file) (response 500 (body []))) calls refl refl
      (inl refl, (inr refl, tt)) refl

truncate_excerpt_bounds_example :
    (byte_len (truncate_excerpt ascii (text " RouterOS 7.1 ")) ≤ max_excerpt_length)
    × (is_blank ascii (truncate_excerpt ascii (text " RouterOS 7.1 "))
        ≡ is_blank ascii (text " RouterOS 7.1 "))
    × ((truncate_excerpt ascii (text " RouterOS 7.1 ") ≡ trim_space ascii (text " RouterOS 7.1 "))
        ⊎ (max_excerpt_length < byte_len (trim_space ascii (text " RouterOS 7.1 "))))
truncate_excerpt_bounds_example = truncate_excerpt_bounds ascii (text " RouterOS 7.1 ") refl

-- The metadata address inside a NAT64 address, and a public one
metadata_wrapped :
    check_ip new_guard
      (0 ∷ 100 ∷ 255 ∷ 155 ∷ 0 ∷ 0 ∷ 0 ∷ 0 ∷ 0 ∷ 0 ∷ 0 ∷ 0 ∷ 169 ∷ 254 ∷ 169 ∷ 254 ∷ [])
    ≡ some blocked_address
unfolding check_ip default_denied_ranges
metadata_wrapped = refl

abbrev public_wrapped : Addr
public_wrapped = 0 ∷ 100 ∷ 255 ∷ 155 ∷ 0 ∷ 0 ∷ 0 ∷ 0 ∷ 0 ∷ 0 ∷ 0 ∷ 0 ∷ 8 ∷ 8 ∷ 8 ∷ 8 ∷ []

abbrev split_at_port : Str → Option (Str × Str)
split_at_port s = some (text "64:ff9b::808:808", text "443")

check_addr-Reachable_example :
    (is_tcp (text "tcp6") ≡ true)
    × Reachable split_at_port
        (λ s. some public_wrapped)
        (λ s. some (pos 443))
        new_guard
        (text "[64:ff9b::808:808]:443")
unfolding check_addr check_ip text str_eq default_denied_ranges port_allowed
check_addr-Reachable_example =
    check_addr-Reachable split_at_port (λ s. some public_wrapped) (λ s. some (pos 443)) new_guard
      (text "tcp6") (text "[64:ff9b::808:808]:443") refl refl refl refl

-- A name under a denied suffix, with the dot of a full name
local_name : check_hostname ascii new_guard (text "Printer.lan.") ≡ some blocked_host
unfolding check_hostname text has_suffix drop_last lower str_eq
local_name = refl
