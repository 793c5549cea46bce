-- ===== src/Robots/Trust.antt =====
-- internal/adapters/fetch/robots.go: what a policy permits that could not be read, and how long a
-- policy is trusted.
use firmscout.Base.{
  All, subst, leb, ltb, ◌≤◌, ◌<◌, true, false, ◌&&◌, Option, none, some, List, [], ◌∷◌, ◌≡◌, ◌↔◌,
  ◌⊎◌, inl, inr, refl, sym, ap, ◌∙◌, arith, Bool-cases,
}
use firmscout.Base.Go.{Time, is_zero, sub_time}
use firmscout.Base.Int.{ltb_ℤ}
use firmscout.Base.Text.{str_eq_iff, Str, str_eq, str_eq_refl}
use firmscout.Robots.{RobotsGroup, RobotsFile, select_group, allows}
use firmscout.Robots.Cache.{
  body, unreadable, Answer, no_response, response, Policy, fetch_policy, known_policy, Entry,
  RobotsCache, entry_at, put_entry, fresh_policy, policy_for, Url, request_path, by_group, no_rules,
  settle, allowed_by, ttl_of,
}

-- An answer that permits a path: the host has no robots.txt, or its file was read and no group
-- applies or the one that does allows the path.
abbrev pub Permits : (Str → RobotsFile) → Answer → Str → Str → Type 0
Permits parse (no_response e) token path = ⊥
Permits parse (response status (unreadable e)) token path = (400 ≤ status) × (status < 500)
Permits parse (response status (body b)) token path =
    ((400 ≤ status) × (status < 500))
    ⊎ ((200 ≤ status)
        × (status < 300)
        × ((select_group (parse b) token ≡ none)
            ⊎ ((g : RobotsGroup) × (select_group (parse b) token ≡ some g)
                × (allows g path ≡ true))))

by_group_iff :
    (o : Option RobotsGroup) (path : Str)
    → ((by_group o path).allowed ≡ true)
      ↔ ((o ≡ none) ⊎ ((g : RobotsGroup) × (o ≡ some g) × (allows g path ≡ true)))
by_group_iff none path = (λ h. inl refl, λ h. refl)
by_group_iff (some g) path = (
  λ h. inr (g, refl, h),
  λ h. elim h [
    | inl e ↦ absurd (cc)
    | inr (g', e, a) ↦ ap (λ (x : Option RobotsGroup). (by_group x path).allowed) e ∙ a
  ],
)

no_rules_permit :
    (token : Str) (u : Url) → (allowed_by (known_policy no_rules) token u).allowed ≡ true
unfolding allowed_by select_group
no_rules_permit token u = refl

-- Allowed permits a path exactly if the answer to the request for robots.txt was a 4xx status, or a
-- 2xx status with a body that could be read and whose group for the token, if there is one, allows
-- the path. No other status, no failed request and no unreadable body permits anything.
pub allowed_by-Permits :
    (parse : Str → RobotsFile) (a : Answer) (token : Str) (u : Url)
    → ((allowed_by (fetch_policy parse a) token u).allowed ≡ true)
      ↔ Permits parse a token (request_path u)
unfolding allowed_by fetch_policy
allowed_by-Permits parse (no_response e) token u = (λ h. absurd (cc), λ h. absurd h)
allowed_by-Permits parse (response status (unreadable e)) token u =
    elim (Bool-cases (leb 200 status && ltb status 300)) [
      | inl e ↦ rw e (λ h. absurd (cc), λ h. absurd (ground arith))
      | inr e ↦ elim (Bool-cases (leb 400 status && ltb status 500)) [
        | inl f ↦ rw (e, f) (λ h. ground arith, λ h. no_rules_permit token u)
        | inr f ↦ rw (e, f) (λ h. absurd (cc), λ h. absurd (ground arith))
      ]
    ]
allowed_by-Permits parse (response status (body b)) token u =
    let by = by_group_iff (select_group (parse b) token) (request_path u) in
    elim (Bool-cases (leb 200 status && ltb status 300)) [
      | inl e ↦ rw e (
        λ h. inr (ground arith, ground arith, by.0 h),
        λ h. elim h [ inl r ↦ absurd (ground arith) | inr r ↦ by.1 r.2 ],
      )
      | inr e ↦ elim (Bool-cases (leb 400 status && ltb status 500)) [
        | inl f ↦ rw (e, f) (λ h. inl (ground arith), λ h. no_rules_permit token u)
        | inr f ↦
            rw (e, f)
              (
                λ h. absurd (cc),
                λ h. absurd (elim h [ inl r ↦ ground arith | inr r ↦ ground arith ]),
              )
      ]
    ]

entry_at-put_entry :
    (key : Str) (e : Entry) (l : List (Str × Entry)) → entry_at key (put_entry key e l) ≡ some e
unfolding entry_at put_entry
entry_at-put_entry key e [] = rw (str_eq_refl key) refl
entry_at-put_entry key e ((k, e') ∷ l) = elim (Bool-cases (str_eq k key)) [
  | inl q ↦ rw (q, str_eq_refl key) refl
  | inr q ↦ rw (q, q) (entry_at-put_entry key e l)
]

-- An entry stays when another host's is put.
entry_at-put_other :
    (key other : Str) (e : Entry) (l : List (Str × Entry))
    → str_eq other key ≡ false
    → entry_at key (put_entry other e l) ≡ entry_at key l
unfolding entry_at put_entry
entry_at-put_other key other e [] h = rw h refl
entry_at-put_other key other e ((k, e') ∷ l) h = elim (Bool-cases (str_eq k other)) [
  | inl q ↦
      let same : str_eq k key ≡ false = ap (λ x. str_eq x key) ((str_eq_iff k other).0 q) ∙ h in
      rw (q, h, same) refl
  | inr q ↦ elim (Bool-cases (str_eq k key)) [
    | inl r ↦ rw (q, r) refl
    | inr r ↦ rw (q, r) (entry_at-put_other key other e l h)
  ]
]

-- A call of policyFor: the host, the clock before and after the request, and the host's answer.
pub record Call : Type 0 where
  pub host : Str
  pub now : Time
  pub later : Time
  pub answer : Policy

unfoldable pub after_calls : RobotsCache → List Call → RobotsCache
unfolding policy_for
after_calls c [] = c
after_calls c (x ∷ xs) = after_calls (policy_for c x.host x.now x.later x.answer).1 xs

-- A call for another host, or one within the time for which the entry is trusted
abbrev pub IsWithin : RobotsCache → Str → Time → Policy → Call → Type 0
IsWithin c key fetched p x =
    (str_eq x.host key ≡ false) ⊎ (ltb_ℤ (sub_time x.now fetched) (ttl_of c p) ≡ true)

-- The cache holds the entry, and trusts entries for the same times as `c`.
abbrev Holds : RobotsCache → Str → Entry → RobotsCache → Type 0
Holds c key e d =
    (entry_at key d.entries ≡ some e) × (d.ttl ≡ c.ttl) × (d.negative_ttl ≡ c.negative_ttl)

same_ttl :
    (c d : RobotsCache) (p : Policy)
    → d.ttl ≡ c.ttl
    → d.negative_ttl ≡ c.negative_ttl
    → ttl_of d p ≡ ttl_of c p
same_ttl c d p t n = rw (t, n) refl

held_policy :
    (c d : RobotsCache) (key : Str) (e : Entry) (now : Time)
    → Holds c key e d
    → is_zero e.fetched_at ≡ false
    → ltb_ℤ (sub_time now e.fetched_at) (ttl_of c e.policy) ≡ true
    → fresh_policy d now (entry_at key d.entries) ≡ some e.policy
held_policy c d key e now (at, t, n) set fresh =
    ap (fresh_policy d now) at ∙ rw (same_ttl c d e.policy t n, set, fresh) refl

settle_other :
    (c d : RobotsCache) (key other : Str) (e : Entry) (later : Time) (q : Policy)
    (o : Option Policy)
    → Holds c key e d
    → str_eq other key ≡ false
    → Holds c key e (settle d other later q o).1
settle_other c d key other e later q (some p) h apart = h
settle_other c d key other e later q none (at, t, n) apart = (
  entry_at-put_other key other (record { policy = q; fetched_at = later }) d.entries apart ∙ at,
  t,
  n,
)

held_after :
    (c d : RobotsCache) (key : Str) (e : Entry) (xs : List Call)
    → is_zero e.fetched_at ≡ false
    → Holds c key e d
    → All (IsWithin c key e.fetched_at e.policy) xs
    → Holds c key e (after_calls d xs)
unfolding after_calls policy_for
held_after c d key e [] set h _ = h
held_after c d key e (x ∷ xs) set h (within, rest) =
    held_after c (policy_for d x.host x.now x.later x.answer).1 key e xs set
      (elim (Bool-cases (str_eq x.host key)) [
        | inr apart ↦
            settle_other c d key x.host e x.later x.answer
              (fresh_policy d x.now (entry_at x.host d.entries)) h apart
        | inl same ↦
            let host : x.host ≡ key = (str_eq_iff x.host key).0 same in
            let fresh : ltb_ℤ (sub_time x.now e.fetched_at) (ttl_of c e.policy) ≡ true =
              elim within [ inl w ↦ absurd (cc (w, same)) | inr w ↦ w ] in
            let found : fresh_policy d x.now (entry_at x.host d.entries) ≡ some e.policy =
              ap (λ k. fresh_policy d x.now (entry_at k d.entries)) host
              ∙ held_policy c d key e x.now h set fresh in
            subst (λ o. Holds c key e (settle d x.host x.later x.answer o).1) (sym found) h
      ])
      rest

-- A host whose entry is missing or too old is asked, and what it answers is given back to every
-- later call for that host within the time for which such an answer is trusted, whatever the host
-- would answer then: the long time for a policy that is known, the short one for one that is not.
-- Between the two there may be any calls for other hosts, and calls for that host within the time.
pub policy_for_fresh :
    (c : RobotsCache) (key : Str) (now later now' later' : Time) (p p' : Policy) (xs : List Call)
    → fresh_policy c now (entry_at key c.entries) ≡ none
    → is_zero later ≡ false
    → All (IsWithin c key later p) xs
    → ltb_ℤ (sub_time now' later) (ttl_of c p) ≡ true
    → let first = policy_for c key now later p in
      let d = after_calls first.1 xs in (first.0 ≡ p) × (policy_for d key now' later' p' ≡ (p, d))
unfolding policy_for
policy_for_fresh c key now later now' later' p p' xs stale t within fresh =
    let e : Entry = record { policy = p; fetched_at = later } in
    let first : policy_for c key now later p ≡ settle c key later p none =
      ap (settle c key later p) stale in
    let c' = (policy_for c key now later p).1 in
    let start : Holds c key e c' =
      subst (λ (r : Policy × RobotsCache). Holds c key e r.1) (sym first)
        (entry_at-put_entry key e c.entries, refl, refl) in
    let d = after_calls c' xs in
    let held = held_after c c' key e xs t start within in
    (
      ap (λ (x : Policy × RobotsCache). x.0) first,
      ap (settle d key later' p') (held_policy c d key e now' held t fresh),
    )
