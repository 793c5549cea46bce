-- ===== src/Robots/Rules.antt =====
-- internal/adapters/fetch/robots.go: which rule of a group decides a path.
use firmscout.Base.{
  ltb, if◌then◌else◌, Bool-cases, In, ℕ, ◌≤◌, Bool, true, false, not, ◌&&◌, Option, none, some,
  List, [], ◌∷◌, ◌≡◌, ◌↔◌, ◌⊎◌, inl, inr, refl, sym, ap, ◌∙◌, arith,
}
use firmscout.Base.Text.{Str, byte_len}
use firmscout.Robots.{
  RobotsRule, RobotsGroup, Longest, longer, with_rule, longest_matches, robots_path_match, verdict,
  allows,
}

-- The rules that allow, or that disallow, and match.
abbrev pub Applies : Bool → Str → RobotsRule → Type 0
Applies b path r = (r.allow ≡ b) × (robots_path_match r.pattern path ≡ true)

abbrev same : Bool → Bool → Bool
same true b = b
same false b = not b

-- One of the two lengths that the loop keeps.
longest_of : Bool → Str → List RobotsRule → Option ℕ → Option ℕ
longest_of b path [] o = o
longest_of b path (r ∷ rs) o = longest_of b path rs (
    if same r.allow b && robots_path_match r.pattern path then longer o (byte_len r.pattern) else o)

step_longest :
    (allow m : Bool) (n : ℕ) (l : Longest)
    → ((if not m then l else with_rule allow n l).longest_allow
        ≡ (if same allow true && m then longer l.longest_allow n else l.longest_allow))
      × ((if not m then l else with_rule allow n l).longest_disallow
          ≡ (if same allow false && m then longer l.longest_disallow n else l.longest_disallow))
step_longest true true n l = (refl, refl)
step_longest true false n l = (refl, refl)
step_longest false true n l = (refl, refl)
step_longest false false n l = (refl, refl)

longer-some :
    (o : Option ℕ) (n : ℕ) → (k : ℕ) × (longer o n ≡ some k) × (n ≤ k) × ((k ≡ n) ⊎ (o ≡ some k))
unfolding longer
longer-some none n = (n, refl, omega arith, inl refl)
longer-some (some m) n = elim (Bool-cases (ltb m n)) [
  | inl e ↦ (n, rw e refl, omega arith, inl refl)
  | inr e ↦ (m, rw e refl, ground arith, inr refl)
]

test-Applies :
    (b : Bool) (path : Str) (r : RobotsRule)
    → ((same r.allow b && robots_path_match r.pattern path) ≡ true) ↔ Applies b path r
test-Applies b path r = ground arith

longest_matches-longest_of :
    (path : Str) (rs : List RobotsRule) (l : Longest)
    → ((longest_matches path rs l).longest_allow ≡ longest_of true path rs l.longest_allow)
      × ((longest_matches path rs l).longest_disallow ≡ longest_of false path rs l.longest_disallow)
unfolding longest_matches longest_of
longest_matches-longest_of path [] l = (refl, refl)
longest_matches-longest_of path (r ∷ rs) l =
    let m = robots_path_match r.pattern path in
    let n = byte_len r.pattern in
    let next = if not m then l else with_rule r.allow n l in
    let ih = longest_matches-longest_of path rs next in
    let step = step_longest r.allow m n l in
    (ih.0 ∙ ap (longest_of true path rs) step.0, ih.1 ∙ ap (longest_of false path rs) step.1)

module _ (b : Bool) (path : Str) where
  longest_of_mono :
      (rs : List RobotsRule) (m : ℕ) → (n : ℕ) × (longest_of b path rs (some m) ≡ some n) × (m ≤ n)
  unfolding longest_of longer
  longest_of_mono [] m = (m, refl, omega arith)
  longest_of_mono (r ∷ rs) m =
      let n = byte_len r.pattern in
      elim (Bool-cases (same r.allow b && robots_path_match r.pattern path)) [
        | inl e ↦ elim (Bool-cases (ltb m n)) [
          | inl f ↦ rw (e, f) (let (k, q, le) = longest_of_mono rs n in (k, q, ground arith))
          | inr f ↦ rw (e, f) (longest_of_mono rs m)
        ]
        | inr e ↦ rw e (longest_of_mono rs m)
      ]

  -- It is at least the length of each rule that applies,
  longest_of_covers :
      (rs : List RobotsRule) (o : Option ℕ) (r : RobotsRule)
      → In r rs
      → Applies b path r
      → (n : ℕ) × (longest_of b path rs o ≡ some n) × (byte_len r.pattern ≤ n)
  unfolding longest_of
  longest_of_covers [] o r h a = absurd h
  longest_of_covers (x ∷ rs) o r (inr h) a =
      longest_of_covers rs
        (if same x.allow b && robots_path_match x.pattern path
          then longer o (byte_len x.pattern)
          else o)
        r h a
  longest_of_covers (x ∷ rs) o r (inl h) a =
      let t = (test-Applies b path x).1 (rw h a) in
      let (k, q, le, _) = longer-some o (byte_len x.pattern) in
      let (n, q', le') = longest_of_mono rs k in
      let same_length = ap (λ (y : RobotsRule). byte_len y.pattern) h in
      (n, rw (t, q) q', omega arith)

  -- and that of one of them.
  longest_of_attained :
      (rs : List RobotsRule) (o : Option ℕ) (n : ℕ)
      → longest_of b path rs o ≡ some n
      → (o ≡ some n) ⊎ ((r : RobotsRule) × In r rs × Applies b path r × (byte_len r.pattern ≡ n))
  unfolding longest_of longer
  longest_of_attained [] o n h = inl h
  longest_of_attained (r ∷ rs) o n h =
      elim (Bool-cases (same r.allow b && robots_path_match r.pattern path)) [
        | inl e ↦ elim (longest_of_attained rs (longer o (byte_len r.pattern)) n (rw e at h)) [
          | inl q ↦
              let (k, p, _, origin) = longer-some o (byte_len r.pattern) in
              elim origin [
                | inl z ↦ inr (r, inl refl, (test-Applies b path r).0 e, cc)
                | inr z ↦ inl (cc)
              ]
          | inr (x, m, a, q) ↦ inr (x, inr m, a, q)
        ]
        | inr e ↦ elim (longest_of_attained rs o n (rw e at h)) [
          | inl q ↦ inl q
          | inr (x, m, a, q) ↦ inr (x, inr m, a, q)
        ]
      ]

-- The verdict on the two lengths.
verdict_iff :
    (a d : Option ℕ)
    → (verdict (record { longest_allow = a; longest_disallow = d }) ≡ true)
      ↔ ((n : ℕ) → d ≡ some n → (m : ℕ) × (a ≡ some m) × (n ≤ m))
verdict_iff a none = (λ h n e. absurd (cc), λ h. refl)
verdict_iff none (some n) = (λ h. absurd (cc), λ h. absurd (let (m, e, _) = h n refl in cc))
verdict_iff (some m) (some n) =
    (λ h k e. (m, refl, ground arith), λ h. let (k, e, le) = h n refl in ground arith)

-- A path is allowed exactly if to each Disallow rule of the group that matches it there is an
-- Allow rule that matches it with a pattern at least as long: with no rule that disallows it is
-- allowed, and ties go to Allow.
pub allows_longest :
    (g : RobotsGroup) (path : Str)
    → (allows g path ≡ true) ↔ (
        (r : RobotsRule)
        → In r g.rules
        → Applies false path r
        → (r' : RobotsRule) × In r' g.rules
          × Applies true path r'
          × (byte_len r.pattern ≤ byte_len r'.pattern))
unfolding allows
allows_longest g path =
    let start : Longest = record { longest_allow = none; longest_disallow = none } in
    let (qa, qd) = longest_matches-longest_of path g.rules start in
    let iff =
      verdict_iff (longest_of true path g.rules none) (longest_of false path g.rules none) in
    let run : allows g path
        ≡ verdict (record {
          longest_allow = longest_of true path g.rules none;
          longest_disallow = longest_of false path g.rules none;
        }) =
      λ i. verdict (record { longest_allow = qa i; longest_disallow = qd i }) in
    (
      λ h r m a.
          let (n, e, le) = longest_of_covers false path g.rules none r m a in
          let (k, e', le') = iff.0 (sym run ∙ h) n e in
          elim (longest_of_attained true path g.rules none k e') [
            | inl z ↦ absurd (cc)
            | inr (x, m', a', q) ↦ (x, m', a', omega arith)
          ],
      λ h.
          run
          ∙ iff.1 (λ n e. elim (longest_of_attained false path g.rules none n e) [
            | inl z ↦ absurd (cc)
            | inr (r, m, a, q) ↦
                let (r', m', a', le) = h r m a in
                let (k, e', le') = longest_of_covers true path g.rules none r' m' a' in
                (k, e', omega arith)
          ]),
    )
