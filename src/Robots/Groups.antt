-- ===== src/Robots/Groups.antt =====
-- internal/adapters/fetch/robots.go: selectGroup takes the group with the longest agent that the
-- product token starts with, and the wildcard group if there is none.
use firmscout.Robots.Pairs.{
  Names, IsWildcard, pairs, consider, consider_groups-pairs, In-pairs, from_pairs, loop_covers,
  loop_best, loop_none, loop_wildcard, loop_no_wildcard,
}
use firmscout.Base.{In, ◌≤◌, Option, none, some, ◌≡◌, ◌⊎◌, inl, inr, sym, ap, arith}
use firmscout.Base.Text.{Str, byte_len}
use firmscout.Robots.{
  RobotsGroup, RobotsFile, Selection, consider_groups, select_group, or_else, no_selection,
}

-- No agent of any group is one that the token starts with.
abbrev pub Unnamed : Str → RobotsFile → Type 0
Unnamed token f = (g : RobotsGroup) (a : Str) → In g f.groups → In a g.agents → ¬ Names token a

-- What the choice has to be.
abbrev pub Chosen : Str → RobotsFile → Option RobotsGroup → Type 0
Chosen token f (some g) =
    In g f.groups
    × (((a : Str) × In a g.agents
          × Names token a
          × ((g' : RobotsGroup) (a' : Str)
              → In g' f.groups
              → In a' g'.agents
              → Names token a'
              → byte_len a' ≤ byte_len a))
        ⊎ (Unnamed token f × ((a : Str) × In a g.agents × IsWildcard a)))
Chosen token f none =
    Unnamed token f × ((g : RobotsGroup) (a : Str) → In g f.groups → In a g.agents → ¬ IsWildcard a)

unnamed :
    (token : Str) (f : RobotsFile)
    → (consider token (pairs f.groups) no_selection).best ≡ none
    → Unnamed token f
unnamed token f e g a m m' n =
    let covers =
      loop_covers token (pairs f.groups) no_selection g a (In-pairs g a f.groups m m') n in
    let bound = (loop_none token (pairs f.groups) no_selection e).1 in absurd (omega arith)

chosen :
    (token : Str) (f : RobotsFile) (b w : Option RobotsGroup)
    → (consider token (pairs f.groups) no_selection).best ≡ b
    → (consider token (pairs f.groups) no_selection).wildcard ≡ w
    → Chosen token f (or_else b w)
chosen token f (some g) w e d = elim (loop_best token (pairs f.groups) no_selection g e) [
  | inl r ↦ absurd (cc)
  | inr (a, m, n, bound) ↦
      let (mg, ma) = from_pairs g a f.groups m in
      (
        mg,
        inl (
          a,
          ma,
          n,
          λ g' a' mg' ma' n'.
              let covers =
                loop_covers token (pairs f.groups) no_selection g' a'
                  (In-pairs g' a' f.groups mg' ma') n' in
              omega arith,
        ),
      )
]
chosen token f none (some g) e d = elim (loop_wildcard token (pairs f.groups) no_selection g d) [
  | inl r ↦ absurd (cc)
  | inr (a, m, star) ↦
      let (mg, ma) = from_pairs g a f.groups m in (mg, inr (unnamed token f e, (a, ma, star)))
]
chosen token f none none e d = (
  unnamed token f e,
  λ g a m m' star.
      let no_star =
        (loop_no_wildcard token (pairs f.groups) no_selection d).1 g a
          (In-pairs g a f.groups m m') in
      cc,
)

-- The group that selectGroup takes is one of the file. It has an agent that the token starts with
-- and none of the file that does so is longer, or else the token starts with no agent and the
-- group has the agent "*". It takes none only if there is neither.
pub select_group-Chosen : (f : RobotsFile) (token : Str) → Chosen token f (select_group f token)
unfolding select_group
select_group-Chosen f token =
    let same = consider_groups-pairs token f.groups no_selection in
    let s = consider_groups token f.groups no_selection in
    chosen token f s.best s.wildcard (ap (λ (x : Selection). x.best) (sym same))
      (ap (λ (x : Selection). x.wildcard) (sym same))
