-- ===== src/Robots.antt =====
-- internal/adapters/fetch/robots.go: the parser of robots.txt, the choice of a group, the rules of
-- a group, and the matching of a path against a pattern. A string is a list of code points, and a
-- position in the path counts them; the parser of floating point numbers is a parameter.
pub mod Split
pub mod Floats
pub mod Glob
pub mod Rules
pub mod Pairs
pub mod Groups
pub mod Parse
pub mod RoundTrip
pub mod Cache
pub mod Trust
use firmscout.Base.{
  ltb, leb, ◌==◌, if◌then◌else◌, length, drop, is_empty, ℕ, ◌+◌, ◌-◌, ◌*◌, Bool, true, false, not,
  ◌&&◌, ◌||◌, Option, none, some, List, [], ◌∷◌, ◌++◌,
}
use firmscout.Base.Go.{FloatOps, second}
use firmscout.Base.Int.{ℤ, pos}
use firmscout.Base.Text.{Str, Unicode, text, str_eq, byte_len, has_prefix, trim_space, lower, split}
use firmscout.Base.Text.{cut_byte, index, has_suffix}

pub record RobotsRule : Type 0 where
  pub allow : Bool
  pub pattern : Str

pub record RobotsGroup : Type 0 where
  -- lower-cased product tokens
  pub agents : List Str
  pub rules : List RobotsRule
  pub crawl_delay : ℤ
  pub has_crawl_delay : Bool

abbrev pub no_group : RobotsGroup
no_group = record { agents = []; rules = []; crawl_delay = pos 0; has_crawl_delay = false }

pub record RobotsFile : Type 0 where
  pub groups : List RobotsGroup
  pub sitemaps : List Str

-- The position after a segment that is not empty, or none if it does not match: `first` for the
-- first segment, `last` for the last one of an anchored pattern.
unfoldable pub segment_end : Bool → Bool → Str → ℕ → Str → Option ℕ
segment_end true last path at seg =
    if has_prefix (drop at path) seg then some (at + length seg) else none
segment_end false true path at seg =
    if ltb (length path - at) (length seg) || not (has_suffix path seg)
    then none
    else some (length path)
segment_end false false path at seg = elim (index (drop at path) seg) [
  | none ↦ none
  | some i ↦ some (at + (i + length seg))
]

-- The loop of robotsPathMatch: the position after the last segment.
unfoldable pub segments_end : Bool → Bool → Str → ℕ → List Str → Option ℕ
unfolding segment_end
segments_end anchored first path at [] = some at
segments_end anchored first path at (seg ∷ segs) =
    elim (if is_empty seg
      then some at
      else segment_end first (anchored && is_empty segs) path at seg) [
        | none ↦ none
        | some after ↦ segments_end anchored false path after segs
      ]

-- robotsPathMatch after its tests of the pattern: the pattern without its final "$"
unfoldable pub match_from : Bool → Str → Str → Bool
unfolding segments_end
match_from anchored pattern path = elim (segments_end anchored true path 0 (split b'*' pattern)) [
  | none ↦ false
  | some at ↦ if anchored && not (at == length path) then has_suffix pattern (b'*' ∷ []) else true
]

-- `pattern[:len(pattern)-1]`
unfoldable pub drop_last : Str → Str
drop_last [] = []
drop_last (c ∷ []) = []
drop_last (c ∷ d ∷ s) = c ∷ drop_last (d ∷ s)

unfoldable pub robots_path_match : Str → Str → Bool
unfolding match_from
robots_path_match [] path = false
robots_path_match (c ∷ s) path =
    let anchored = has_suffix (c ∷ s) (b'$' ∷ []) in
    match_from anchored (if anchored then drop_last (c ∷ s) else c ∷ s) path

-- The longest matching Allow and Disallow, each -1 (here none) until one matches.
pub record Longest : Type 0 where
  pub longest_allow : Option ℕ
  pub longest_disallow : Option ℕ

unfoldable pub longer : Option ℕ → ℕ → Option ℕ
longer none n = some n
longer (some m) n = if ltb m n then some n else some m

abbrev pub with_rule : Bool → ℕ → Longest → Longest
with_rule true n l = record l { longest_allow = longer l.longest_allow n }
with_rule false n l = record l { longest_disallow = longer l.longest_disallow n }

unfoldable pub longest_matches : Str → List RobotsRule → Longest → Longest
unfolding longer robots_path_match
longest_matches path [] l = l
longest_matches path (r ∷ rs) l =
    longest_matches path rs (
      if not (robots_path_match r.pattern path)
      then l
      else with_rule r.allow (byte_len r.pattern) l)

-- `longestAllow >= longestDisallow`, where the second is not negative
abbrev pub outlasts : Option ℕ → ℕ → Bool
outlasts none n = false
outlasts (some m) n = leb n m

abbrev pub verdict : Longest → Bool
verdict l = elim l.longest_disallow [ none ↦ true | some n ↦ outlasts l.longest_allow n ]

unfoldable pub allows : RobotsGroup → Str → Bool
unfolding longest_matches
allows g path =
    verdict
      (longest_matches path g.rules (record { longest_allow = none; longest_disallow = none }))

-- The state of the loops of selectGroup
pub record Selection : Type 0 where
  pub best : Option RobotsGroup
  -- `bestLen`, plus one
  pub best_bound : ℕ
  pub wildcard : Option RobotsGroup

abbrev pub or_else {ℓ} : {A : Type ℓ} → Option A → Option A → Option A
or_else none b = b
or_else (some a) b = some a

unfoldable pub consider_agent : Str → RobotsGroup → Str → Selection → Selection
consider_agent token g agent s =
    if str_eq agent (text "*")
    then record s { wildcard = or_else s.wildcard (some g) }
    else if is_empty token || not (has_prefix token agent)
    then s
    else if ltb (byte_len agent) s.best_bound
    then s
    else record s { best = some g; best_bound = byte_len agent + 1 }

unfoldable pub consider_agents : Str → RobotsGroup → List Str → Selection → Selection
unfolding consider_agent
consider_agents token g [] s = s
consider_agents token g (agent ∷ rest) s =
    consider_agents token g rest (consider_agent token g agent s)

unfoldable pub consider_groups : Str → List RobotsGroup → Selection → Selection
unfolding consider_agents
consider_groups token [] s = s
consider_groups token (g ∷ gs) s = consider_groups token gs (consider_agents token g g.agents s)

abbrev pub no_selection : Selection
no_selection = record { best = none; best_bound = 0; wildcard = none }

unfoldable pub select_group : RobotsFile → Str → Option RobotsGroup
unfolding consider_groups
select_group f token =
    let s = consider_groups token f.groups no_selection in or_else s.best s.wildcard
