-- ===== src/Robots/Parse.antt =====
-- internal/adapters/fetch/robots.go: parseRobots, line by line, and productToken. The current
-- group, to which `cur` points, is the last one of the file; here it is kept apart from those
-- before it. The body is a list of code points.
use firmscout.Base.{
  if◌then◌else◌, is_empty, ◌==◌, ℕ, Bool, true, false, ◌||◌, Option, none, some, List, [], ◌∷◌,
  ◌++◌,
}
use firmscout.Base.Go.{FloatOps, second}
use firmscout.Base.Int.{ℤ, pos}
use firmscout.Base.Text.{Str, Unicode, text, str_eq, trim_space, lower, split, cut_byte}
use firmscout.Robots.{RobotsGroup, RobotsFile, no_group, drop_last}
use firmscout.Base.Text.{has_suffix}

-- The cases of the switch on the field
pub data Directive : Type 0 where
  user_agent_line disallow_line allow_line crawl_delay_line sitemap_line other_line : Directive

unfoldable pub directive_of : Str → Directive
directive_of field =
    if str_eq field (text "user-agent") || str_eq field (text "useragent")
    then user_agent_line
    else if str_eq field (text "disallow")
    then disallow_line
    else if str_eq field (text "allow")
    then allow_line
    else if str_eq field (text "crawl-delay")
    then crawl_delay_line
    else if str_eq field (text "sitemap")
    then sitemap_line
    else other_line

abbrev pub before_comment : Str → Str
before_comment s = elim (cut_byte b'#' s) [ none ↦ s | some (before, after) ↦ before ]

abbrev pub trim_return : Str → Str
trim_return s = if has_suffix s (13 ∷ []) then drop_last s else s

-- The field and the value of a line, or none if the loop goes on to the next
unfoldable pub line_directive : Unicode → Str → Option (Directive × Str)
unfolding directive_of
line_directive u raw =
    let line = trim_space u (trim_return (before_comment raw)) in
    if is_empty line then none else elim (cut_byte b':' line) [
      | none ↦ none
      | some (field, value) ↦ some (directive_of (lower u (trim_space u field)), trim_space u value)
    ]

pub record Parser : Type 0 where
  pub before_cur : List RobotsGroup
  pub cur : Option RobotsGroup
  pub saw_rule : Bool
  pub sitemaps : List Str

abbrev pub start : Parser
start = record { before_cur = []; cur = none; saw_rule = false; sitemaps = [] }

abbrev pub listed : Option RobotsGroup → List RobotsGroup
listed none = []
listed (some g) = g ∷ []

-- A new group becomes the current one.
abbrev pub new_group : Parser → Parser
new_group p = record p {
  before_cur = p.before_cur ++ listed p.cur;
  cur = some no_group;
  saw_rule = false;
}

abbrev pub open_group : Option RobotsGroup → Parser → Parser
open_group none p = new_group p
open_group (some g) p = if p.saw_rule then new_group p else p

abbrev pub update : (RobotsGroup → RobotsGroup) → Option RobotsGroup → Option RobotsGroup
update f none = none
update f (some g) = some (f g)

abbrev pub add_agent : Unicode → Str → Parser → Parser
add_agent u value p = if is_empty value then p else record p {
  cur = update (λ g. record g { agents = g.agents ++ (lower u value ∷ []) }) p.cur;
}

-- A rule or a delay counts only inside a group.
abbrev pub in_group : (RobotsGroup → RobotsGroup) → Option RobotsGroup → Parser → Parser
in_group f none p = p
in_group f (some g) p = record p { cur = some (f g); saw_rule = true }

abbrev pub add_rule : Bool → Str → RobotsGroup → RobotsGroup
add_rule b value g =
    if is_empty value
    then g
    else record g { rules = g.rules ++ (record { allow = b; pattern = value } ∷ []) }

module _ (u : Unicode) {Float : Type 0} (fl : FloatOps Float)
    (parse_float : Str → Option Float) where
  -- `strconv.ParseFloat` with the test `secs >= 0`, in nanoseconds
  unfoldable pub delay_of : Str → Option ℤ
  delay_of value = elim (parse_float value) [
    | none ↦ none
    | some secs ↦
        if fl.le (fl.of_int (pos 0)) secs
        then some (fl.to_int (fl.mul secs (fl.of_int (pos second))))
        else none
  ]

  abbrev pub set_delay : Option ℤ → RobotsGroup → RobotsGroup
  set_delay none g = g
  set_delay (some d) g = record g { crawl_delay = d; has_crawl_delay = true }

  unfoldable pub parse_directive : Directive → Str → Parser → Parser
  unfolding delay_of
  parse_directive user_agent_line value p = add_agent u value (open_group p.cur p)
  parse_directive disallow_line value p = in_group (add_rule false value) p.cur p
  parse_directive allow_line value p = in_group (add_rule true value) p.cur p
  parse_directive crawl_delay_line value p = in_group (set_delay (delay_of value)) p.cur p
  parse_directive sitemap_line value p = record p { sitemaps = p.sitemaps ++ (value ∷ []) }
  parse_directive other_line value p = p

  unfoldable pub parse_directives : List (Directive × Str) → Parser → Parser
  unfolding parse_directive
  parse_directives [] p = p
  parse_directives ((d, value) ∷ rest) p = parse_directives rest (parse_directive d value p)

  abbrev pub one_directive : Option (Directive × Str) → List (Directive × Str)
  one_directive none = []
  one_directive (some d) = d ∷ []

  unfoldable pub directives : List Str → List (Directive × Str)
  unfolding line_directive
  directives [] = []
  directives (line ∷ rest) = one_directive (line_directive u line) ++ directives rest

  abbrev pub parsed_file : Parser → RobotsFile
  parsed_file p = record { groups = p.before_cur ++ listed p.cur; sitemaps = p.sitemaps }

  unfoldable pub parse_robots : Str → RobotsFile
  unfolding parse_directives directives
  parse_robots body = parsed_file (parse_directives (directives (split 10 body)) start)

-- `strings.IndexAny(ua, "/ \t")` with the test that it is positive
abbrev is_token_end : ℕ → Bool
is_token_end c = (c == b'/') || (c == b' ') || (c == 9)

unfoldable pub until_token_end : Str → Str
until_token_end [] = []
until_token_end (c ∷ s) = let rest = until_token_end s in if is_token_end c then [] else c ∷ rest

unfoldable pub product_token : Unicode → Str → Str
unfolding until_token_end
product_token u ua =
    let trimmed = trim_space u ua in
    let token = until_token_end trimmed in lower u (if is_empty token then trimmed else token)
