-- ===== src/Robots/RoundTrip.antt =====
-- internal/adapters/fetch/robots.go: parseRobots gives the groups back whose lines it reads.
use firmscout.Base.{
  subst, is_empty, All, Bool, true, false, not, ◌||◌, Option, some, List, [], ◌∷◌, ◌++◌, ◌≡◌, refl,
  sym, ap, ◌∙◌, append-nil, append_assoc,
}
use firmscout.Base.Go.{FloatOps}
use firmscout.Base.Int.{pos}
use firmscout.Base.Text.{Str, Unicode, lower}
use firmscout.Robots.{RobotsRule, RobotsGroup}
use firmscout.Robots.Parse.{
  Directive, user_agent_line, disallow_line, allow_line, Parser, start, listed, open_group,
  add_agent, parse_directive, parse_directives, parsed_file, new_group,
}

-- The lines of a group: its agents, then its rules.
abbrev pub agent_lines : List Str → List (Directive × Str)
agent_lines [] = []
agent_lines (a ∷ rest) = (user_agent_line, a) ∷ agent_lines rest

abbrev pub rule_directive : Bool → Directive
rule_directive true = allow_line
rule_directive false = disallow_line

abbrev pub rule_lines : List RobotsRule → List (Directive × Str)
rule_lines [] = []
rule_lines (r ∷ rest) = (rule_directive r.allow, r.pattern) ∷ rule_lines rest

abbrev pub group_lines : List RobotsGroup → List (Directive × Str)
group_lines [] = []
group_lines (g ∷ gs) = agent_lines g.agents ++ (rule_lines g.rules ++ group_lines gs)

-- A group with an agent and a rule, lower-case agents, no empty value and no delay.
pub record IsPlain (u : Unicode) (g : RobotsGroup) : Type 0 where
  pub has_agent : is_empty g.agents ≡ false
  pub has_rule : is_empty g.rules ≡ false
  pub agents_lower : All (λ (a : Str). (is_empty a ≡ false) × (lower u a ≡ a)) g.agents
  pub patterns_some : All (λ (r : RobotsRule). is_empty r.pattern ≡ false) g.rules
  pub delay_zero : g.crawl_delay ≡ pos 0
  pub delay_unset : g.has_crawl_delay ≡ false

or_true : (b : Bool) → (b || true) ≡ true
or_true true = refl
or_true false = refl

abbrev rule : Bool → Str → RobotsRule
rule b value = record { allow = b; pattern = value }

abbrev plain : List Str → List RobotsRule → RobotsGroup
plain as' rs = record { agents = as'; rules = rs; crawl_delay = pos 0; has_crawl_delay = false }

module _ (u : Unicode) {Float : Type 0} (fl : FloatOps Float)
    (parse_float : Str → Option Float) where
  abbrev run : List (Directive × Str) → Parser → Parser
  run ds p = parse_directives u fl parse_float ds p

  run-append : (ds es : List (Directive × Str)) (p : Parser) → run (ds ++ es) p ≡ run es (run ds p)
  unfolding parse_directives
  run-append [] es p = refl
  run-append ((d, v) ∷ ds) es p = run-append ds es (parse_directive u fl parse_float d v p)

  -- The parser inside a group.
  abbrev inside : List RobotsGroup → List Str → RobotsGroup → Bool → Parser
  inside before maps g saw = record {
    before_cur = before;
    cur = some g;
    saw_rule = saw;
    sitemaps = maps;
  }

  abbrev with_agents : RobotsGroup → List Str → RobotsGroup
  with_agents g as' = record g { agents = as' }

  abbrev with_rules : RobotsGroup → List RobotsRule → RobotsGroup
  with_rules g rs = record g { rules = rs }

  module _ (before : List RobotsGroup) (maps : List Str) where
    run-agents :
        (as' : List Str) (g : RobotsGroup)
        → All (λ (a : Str). (is_empty a ≡ false) × (lower u a ≡ a)) as'
        → run (agent_lines as') (inside before maps g false)
          ≡ inside before maps (with_agents g (g.agents ++ as')) false
    unfolding parse_directives parse_directive
    run-agents [] g h =
        ap (λ (x : List Str). inside before maps (with_agents g x) false)
          (sym (append-nil g.agents))
    run-agents (a ∷ as') g h =
        let g' = with_agents g (g.agents ++ (a ∷ [])) in
        let one : add_agent u a (inside before maps g false) ≡ inside before maps g' false =
          rw (h.0.0, h.0.1) refl in
        ap (run (agent_lines as')) one
        ∙ run-agents as' g' h.1
        ∙ ap (λ (x : List Str). inside before maps (with_agents g x) false)
            (append_assoc g.agents (a ∷ []) as')

    one_rule :
        (b : Bool) (value : Str) (g : RobotsGroup) (saw : Bool)
        → is_empty value ≡ false
        → parse_directive u fl parse_float (rule_directive b) value (inside before maps g saw)
          ≡ inside before maps (with_rules g (g.rules ++ (rule b value ∷ []))) true
    unfolding parse_directive
    one_rule true value g saw h = rw h refl
    one_rule false value g saw h = rw h refl

    run-rules :
        (rs : List RobotsRule) (g : RobotsGroup) (saw : Bool)
        → All (λ (r : RobotsRule). is_empty r.pattern ≡ false) rs
        → run (rule_lines rs) (inside before maps g saw)
          ≡ inside before maps (with_rules g (g.rules ++ rs)) (saw || not (is_empty rs))
    unfolding parse_directives
    run-rules [] g true h =
        ap (λ (x : List RobotsRule). inside before maps (with_rules g x) true)
          (sym (append-nil g.rules))
    run-rules [] g false h =
        ap (λ (x : List RobotsRule). inside before maps (with_rules g x) false)
          (sym (append-nil g.rules))
    run-rules (r ∷ rs) g saw h =
        let g' = with_rules g (g.rules ++ (r ∷ [])) in
        ap (run (rule_lines rs)) (one_rule r.allow r.pattern g saw h.0)
        ∙ run-rules rs g' true h.1
        ∙ λ i.
            inside before maps (with_rules g (append_assoc g.rules (r ∷ []) rs i))
              (sym (or_true saw) i)

  -- A group's lines, read where a new group begins.
  run-plain :
      (a : Str) (as' : List Str) (r : RobotsRule) (rs : List RobotsRule) (p : Parser)
      → IsPlain u (plain (a ∷ as') (r ∷ rs))
      → open_group p.cur p ≡ new_group p
      → run (agent_lines (a ∷ as') ++ rule_lines (r ∷ rs)) p
        ≡ inside (p.before_cur ++ listed p.cur) p.sitemaps (plain (a ∷ as') (r ∷ rs)) true
  unfolding parse_directives parse_directive
  run-plain a as' r rs p h e =
      let b = p.before_cur ++ listed p.cur in
      let first : add_agent u a (open_group p.cur p)
          ≡ inside b p.sitemaps (plain (a ∷ []) []) false =
        ap (add_agent u a) e ∙ rw (h.agents_lower.0.0, h.agents_lower.0.1) refl in
      run-append (agent_lines (a ∷ as')) (rule_lines (r ∷ rs)) p
      ∙ ap (λ (q : Parser). run (rule_lines (r ∷ rs)) (run (agent_lines as') q)) first
      ∙ ap (run (rule_lines (r ∷ rs)))
          (run-agents b p.sitemaps as' (plain (a ∷ []) []) h.agents_lower.1)
      ∙ run-rules b p.sitemaps (r ∷ rs) (plain (a ∷ as') []) false h.patterns_some

  run-lists :
      (as' : List Str) (rs : List RobotsRule) (p : Parser)
      → IsPlain u (plain as' rs)
      → open_group p.cur p ≡ new_group p
      → run (agent_lines as' ++ rule_lines rs) p
        ≡ inside (p.before_cur ++ listed p.cur) p.sitemaps (plain as' rs) true
  run-lists [] rs p h e = absurd (let x = h.has_agent in cc)
  run-lists (a ∷ as') [] p h e = absurd (let x = h.has_rule in cc)
  run-lists (a ∷ as') (r ∷ rs) p h e = run-plain a as' r rs p h e

  run-group :
      (g : RobotsGroup) (p : Parser)
      → IsPlain u g
      → open_group p.cur p ≡ new_group p
      → run (agent_lines g.agents ++ rule_lines g.rules) p
        ≡ inside (p.before_cur ++ listed p.cur) p.sitemaps g true
  run-group g p h e =
      let q : g ≡ plain g.agents g.rules = λ i. record {
        agents = g.agents;
        rules = g.rules;
        crawl_delay = h.delay_zero i;
        has_crawl_delay = h.delay_unset i;
      } in
      run-lists g.agents g.rules p (subst (IsPlain u) q h) e
      ∙ ap (λ (x : RobotsGroup). inside (p.before_cur ++ listed p.cur) p.sitemaps x true) (sym q)

  run-groups :
      (gs : List RobotsGroup) (p : Parser)
      → All (IsPlain u) gs
      → open_group p.cur p ≡ new_group p
      → (parsed_file u fl parse_float (run (group_lines gs) p)).groups
        ≡ (p.before_cur ++ listed p.cur) ++ gs
  unfolding parse_directives
  run-groups [] p h e = sym (append-nil (p.before_cur ++ listed p.cur))
  run-groups (g ∷ gs) p h e =
      let b = p.before_cur ++ listed p.cur in
      ap (λ (x : List (Directive × Str)). (parsed_file u fl parse_float (run x p)).groups)
        (sym (append_assoc (agent_lines g.agents) (rule_lines g.rules) (group_lines gs)))
      ∙ ap (λ (q : Parser). (parsed_file u fl parse_float q).groups)
          (run-append (agent_lines g.agents ++ rule_lines g.rules) (group_lines gs) p
            ∙ ap (run (group_lines gs)) (run-group g p h.0 e))
      ∙ run-groups gs (inside b p.sitemaps g true) h.1 refl
      ∙ append_assoc b (g ∷ []) gs

  -- parseRobots gives back every list of groups from the fields and values of its lines, each
  -- group's agents and then its rules: no rule moves to another group, none is lost. Each group has
  -- an agent, a rule and no delay, its agents are in lower case, and no value is empty.
  pub parse_directives-group_lines :
      (gs : List RobotsGroup)
      → All (IsPlain u) gs
      → (parsed_file u fl parse_float
          (parse_directives u fl parse_float (group_lines gs) start)).groups
        ≡ gs
  parse_directives-group_lines gs h = run-groups gs start h refl
