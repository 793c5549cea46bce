-- ===== src/Robots/Pairs.antt =====
-- internal/adapters/fetch/robots.go: the two loops of selectGroup as one loop over the agents with
-- their groups, and what holds of its state.
use firmscout.Base.{
  is_empty, In, In-append, In-append_left, In-append_right, ◌+◌, ◌≤◌, ◌<◌, true, false, none, some,
  List, [], ◌∷◌, ◌++◌, ◌≡◌, ◌≢◌, ◌⊎◌, inl, inr, refl, sym, ap, ◌∙◌, arith,
}
use firmscout.Base.Text.{Str, text, str_eq, byte_len, has_prefix}
use firmscout.Robots.{RobotsGroup, Selection, consider_agent, consider_agents, consider_groups}

-- An agent that the token starts with.
abbrev pub Names : Str → Str → Type 0
Names token agent =
    (str_eq agent (text "*") ≡ false) × (is_empty token ≡ false) × (has_prefix token agent ≡ true)

abbrev pub IsWildcard : Str → Type 0
IsWildcard agent = str_eq agent (text "*") ≡ true

-- The pairs of a group and one of its agents, in the order of the loops.
abbrev Pair : Type 0
Pair = RobotsGroup × Str

pairs_of : RobotsGroup → List Str → List Pair
pairs_of g [] = []
pairs_of g (a ∷ as') = (g, a) ∷ pairs_of g as'

pub pairs : List RobotsGroup → List Pair
pairs [] = []
pairs (g ∷ gs) = pairs_of g g.agents ++ pairs gs

pub consider : Str → List Pair → Selection → Selection
consider token [] s = s
consider token ((g, a) ∷ rest) s = consider token rest (consider_agent token g a s)

consider-append :
    (token : Str) (g : RobotsGroup) (agents : List Str) (rest : List Pair) (s : Selection)
    → consider token (pairs_of g agents ++ rest) s
      ≡ consider token rest (consider_agents token g agents s)
unfolding consider pairs_of consider_agents
consider-append token g [] rest s = refl
consider-append token g (a ∷ as') rest s =
    consider-append token g as' rest (consider_agent token g a s)

pub consider_groups-pairs :
    (token : Str) (gs : List RobotsGroup) (s : Selection)
    → consider_groups token gs s ≡ consider token (pairs gs) s
unfolding consider_groups pairs consider
consider_groups-pairs token [] s = refl
consider_groups-pairs token (g ∷ gs) s =
    consider_groups-pairs token gs (consider_agents token g g.agents s)
    ∙ sym (consider-append token g g.agents (pairs gs) s)

In-pairs_of :
    (g : RobotsGroup) (a : Str) (agents : List Str) → In a agents → In (g, a) (pairs_of g agents)
unfolding pairs_of
In-pairs_of g a [] h = h
In-pairs_of g a (x ∷ xs) (inl e) = inl (ap (λ (y : Str). (g, y)) e)
In-pairs_of g a (x ∷ xs) (inr h) = inr (In-pairs_of g a xs h)

pub In-pairs :
    (g : RobotsGroup) (a : Str) (gs : List RobotsGroup)
    → In g gs
    → In a g.agents
    → In (g, a) (pairs gs)
unfolding pairs
In-pairs g a [] h m = absurd h
In-pairs g a (x ∷ gs) (inl e) m =
    In-append_left (g, a) (pairs_of x x.agents) (pairs gs) (rw e (In-pairs_of g a g.agents m))
In-pairs g a (x ∷ gs) (inr h) m =
    In-append_right (g, a) (pairs_of x x.agents) (pairs gs) (In-pairs g a gs h m)

from_pairs_of :
    (g g' : RobotsGroup) (a : Str) (agents : List Str)
    → In (g', a) (pairs_of g agents)
    → (g ≡ g') × In a agents
unfolding pairs_of
from_pairs_of g g' a [] h = absurd h
from_pairs_of g g' a (x ∷ xs) (inl e) = (ap (λ (p : Pair). p.0) e, inl (ap (λ (p : Pair). p.1) e))
from_pairs_of g g' a (x ∷ xs) (inr h) = let (e, m) = from_pairs_of g g' a xs h in (e, inr m)

pub from_pairs :
    (g : RobotsGroup) (a : Str) (gs : List RobotsGroup)
    → In (g, a) (pairs gs)
    → In g gs × In a g.agents
unfolding pairs
from_pairs g a [] h = absurd h
from_pairs g a (x ∷ gs) h = elim (In-append (g, a) (pairs_of x x.agents) (pairs gs) h) [
  | inl m ↦ let (e, n) = from_pairs_of x g a x.agents m in (inl e, rw e at n)
  | inr m ↦ let (n, n') = from_pairs g a gs m in (inr n, n')
]

module _ (token : Str) where
  -- What one agent does to the bound, the best group and the wildcard group.
  round_bound :
      (g : RobotsGroup) (a : Str) (s : Selection)
      → (s.best_bound ≤ (consider_agent token g a s).best_bound)
        × (Names token a → byte_len a < (consider_agent token g a s).best_bound)
  unfolding consider_agent
  round_bound g a s = (ground arith, λ n. ground arith)

  round_best :
      (g : RobotsGroup) (a : Str) (s : Selection)
      → (((consider_agent token g a s).best ≡ s.best)
          × ((consider_agent token g a s).best_bound ≡ s.best_bound))
        ⊎ (((consider_agent token g a s).best ≡ some g)
            × ((consider_agent token g a s).best_bound ≡ byte_len a + 1)
            × Names token a)
  unfolding consider_agent
  round_best g a s = ground arith

  round_wildcard :
      (g : RobotsGroup) (a : Str) (s : Selection)
      → (((consider_agent token g a s).wildcard ≡ s.wildcard)
          × ((s.wildcard ≢ none) ⊎ (str_eq a (text "*") ≡ false)))
        ⊎ (((consider_agent token g a s).wildcard ≡ some g) × IsWildcard a)
  unfolding consider_agent
  round_wildcard g a s = ground arith

  -- The same of all of them.
  loop_bound : (es : List Pair) (s : Selection) → s.best_bound ≤ (consider token es s).best_bound
  unfolding consider
  loop_bound [] s = omega arith
  loop_bound ((g, a) ∷ es) s =
      let first = round_bound g a s in omega (arith, loop_bound es (consider_agent token g a s))

  pub loop_covers :
      (es : List Pair) (s : Selection) (g : RobotsGroup) (a : Str)
      → In (g, a) es
      → Names token a
      → byte_len a < (consider token es s).best_bound
  unfolding consider
  loop_covers [] s g a m n = absurd m
  loop_covers ((g', a') ∷ es) s g a (inl e) n =
      let e' = ap (λ (p : Pair). p.1) e in
      let first = (round_bound g' a' s).1 (rw e' n) in
      let len = ap byte_len e' in omega (arith, loop_bound es (consider_agent token g' a' s))
  loop_covers ((g', a') ∷ es) s g a (inr m) n =
      loop_covers es (consider_agent token g' a' s) g a m n

  pub loop_best :
      (es : List Pair) (s : Selection) (g : RobotsGroup)
      → (consider token es s).best ≡ some g
      → ((s.best ≡ some g) × ((consider token es s).best_bound ≡ s.best_bound))
        ⊎ ((a : Str) × In (g, a) es
            × Names token a
            × ((consider token es s).best_bound ≡ byte_len a + 1))
  unfolding consider
  loop_best [] s g h = inl (h, refl)
  loop_best ((g', a') ∷ es) s g h = elim (loop_best es (consider_agent token g' a' s) g h) [
    | inl r ↦ elim (round_best g' a' s) [
      | inl k ↦ inl (sym k.0 ∙ r.0, r.1 ∙ k.1)
      | inr k ↦ inr (a', inl (ap (λ (x : RobotsGroup). (x, a')) (cc)), k.2, r.1 ∙ k.1)
    ]
    | inr (a, m, n, b) ↦ inr (a, inr m, n, b)
  ]

  pub loop_none :
      (es : List Pair) (s : Selection)
      → (consider token es s).best ≡ none
      → (s.best ≡ none) × ((consider token es s).best_bound ≡ s.best_bound)
  unfolding consider
  loop_none [] s h = (h, refl)
  loop_none ((g', a') ∷ es) s h =
      let (e, b) = loop_none es (consider_agent token g' a' s) h in
      elim (round_best g' a' s) [ inl k ↦ (sym k.0 ∙ e, b ∙ k.1) | inr k ↦ absurd (cc) ]

  pub loop_wildcard :
      (es : List Pair) (s : Selection) (g : RobotsGroup)
      → (consider token es s).wildcard ≡ some g
      → (s.wildcard ≡ some g) ⊎ ((a : Str) × In (g, a) es × IsWildcard a)
  unfolding consider
  loop_wildcard [] s g h = inl h
  loop_wildcard ((g', a') ∷ es) s g h = elim (loop_wildcard es (consider_agent token g' a' s) g h) [
    | inl r ↦ elim (round_wildcard g' a' s) [
      | inl k ↦ inl (sym k.0 ∙ r)
      | inr k ↦ inr (a', inl (ap (λ (x : RobotsGroup). (x, a')) (cc)), k.1)
    ]
    | inr (a, m, n) ↦ inr (a, inr m, n)
  ]

  pub loop_no_wildcard :
      (es : List Pair) (s : Selection)
      → (consider token es s).wildcard ≡ none
      → (s.wildcard ≡ none)
        × ((g : RobotsGroup) (a : Str) → In (g, a) es → str_eq a (text "*") ≡ false)
  unfolding consider
  loop_no_wildcard [] s h = (h, λ g a m. absurd m)
  loop_no_wildcard ((g', a') ∷ es) s h =
      let (e, f) = loop_no_wildcard es (consider_agent token g' a' s) h in
      elim (round_wildcard g' a' s) [
        | inl k ↦
            let was : s.wildcard ≡ none = sym k.0 ∙ e in
            (
              was,
              λ g a m. elim m [
                | inl q ↦ elim k.1 [
                  | inl ne ↦ absurd (ne was)
                  | inr no_star ↦ rw (← ap (λ (p : Pair). p.1) q) no_star
                ]
                | inr m' ↦ f g a m'
              ],
            )
        | inr k ↦ absurd (cc)
      ]
