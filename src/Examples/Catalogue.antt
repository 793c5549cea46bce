-- ===== src/Examples/Catalogue.antt =====
-- Examples of versions, dates, candidates, their gates, and releases.
use firmscout.Base.{
  filter_by, some, ◌*◌, ℕ, ◌≡◌, ◌≢◌, ◌↔◌, ◌⊎◌, inl, refl, true, false, [], arith, none, map,
}
use firmscout.Base.Int.{ℤ, pos}
use firmscout.Base.Text.{lower, str_eq, trim_left, trim, trim_space, text, Str, ascii, is_blank}
use firmscout.Base.Go.{invalid, Time, hour, ok}
use firmscout.Slug.{normalize_alias, slugify, valid_slug}
use firmscout.Slug.Shape.{slugify-valid_slug}
use firmscout.Source.{official_manufacturer, active}
use firmscout.Version.{tokens, VersionString, no_version, assess_transition, is_zero_version}
use firmscout.Version.Tokens.{contents, contents-tokens, is_token_char}
use firmscout.Version.Transition.{Means, assess_transition-Means}
use firmscout.Date.{
  new_exact_date, period_end, days_in_month, is_leap, civil, partial_date, exact_day, month_only,
  unknown_date,
}
use firmscout.Date.Period.{MayBe, NoLater, period_end_encloses}
use firmscout.Date.Anchor.{new_exact_date_iff, InYears, IsDate}
use firmscout.ReleaseType.{ReleaseType-discrete, valid_release_type, firmware}
use firmscout.Candidate.{
  CandidateState-discrete, candidate_transitions, CandidateState, CandidateRelease, extracted,
  validated, human_review_required, published, superseded, unique, can_move,
}
use firmscout.Candidate.Lifecycle.{Trace, here, step, Visits, Trace-Visits}
use firmscout.Candidate.Path.{path_to, walked, transition, Chain, transition_arrives}
use firmscout.Gates.{ValidationContext, publishable}
use firmscout.Gates.Rules.{rulings}
use firmscout.Gates.Run.{run_validation_gates, result_of}
use firmscout.Gates.Verdict.{up_to_rejection, strictest, run_validation_gates_lem}
use firmscout.Gates.Publish.{Sound, run_validation_gates-publishable_iff}
use firmscout.Release.{
  Release, latest_comparison, withdraw, validate_release, serveable, eligible_for_latest,
}
use firmscout.Release.Latest.{opposite, latest_comparison_order}
use firmscout.Release.Withdrawal.{withdraw-valid}
use firmscout.Catalog.{
  valid_alias_kind, model_number, new_product_alias, registry, validate_category,
}
use firmscout.Examples.Numbers.{whole}

abbrev version_of : Str → VersionString
version_of s = record { raw = s; normalized = s }

slugify-valid_slug_example :
    (valid_slug (slugify ascii (text " RouterOS 7/CHR!")) ≡ true)
    ⊎ (slugify ascii (text " RouterOS 7/CHR!") ≡ [])
slugify-valid_slug_example = slugify-valid_slug ascii (text " RouterOS 7/CHR!")

is_set : is_zero_version (version_of (text "7.1")) ≡ false
unfolding is_zero_version text
is_set = refl

assess_transition-Means_example :
    Means ascii
      (version_of (text "7.1"))
      (version_of (text "9.0"))
      (assess_transition ascii (version_of (text "7.1")) (version_of (text "9.0"))).verdict
assess_transition-Means_example =
    assess_transition-Means ascii (version_of (text "7.1")) (version_of (text "9.0")) is_set

-- A candidate in a state.
abbrev pub candidate_in : CandidateState → CandidateRelease ℤ
candidate_in s = record {
  id = text "c";
  source_id = text "a";
  collector_run_id = [];
  evidence_id = text "e";
  product_id = text "routeros";
  product_family_id = [];
  product_match_hint = text "RouterOS";
  product_match_status = unique;
  version = version_of (text "7.2");
  release_type = firmware;
  proposed_release_type = firmware;
  applicability = record {
    hardware_revision = [];
    region = [];
    channel = [];
    deployment_mode = [];
    note = [];
  };
  release_date = partial_date (civil 2024 5 1) exact_day;
  publication_date = unknown_date;
  release_notes_url = [];
  confidence = pos 1;
  dedupe_key = text "k";
  state = s;
  rejection_reason = [];
  published_release_id = [];
  discovered_at = 0;
  updated_at = 0;
}

reviewed : Trace human_review_required published
unfolding can_move candidate_transitions CandidateState-discrete
reviewed = step {a = human_review_required} here refl

apart : human_review_required ≢ published
apart e = cc

apart' : human_review_required ≢ superseded
apart' e = cc

Trace-Visits_example : Visits validated reviewed ⊎ Visits human_review_required reviewed
Trace-Visits_example = Trace-Visits reviewed apart apart' (inl refl)

transition_arrives_example :
    ((transition (λ s. false) (candidate_in extracted) validated).0
      ≡ walked (candidate_in validated) (path_to extracted validated) none)
    × Chain extracted (path_to extracted validated) validated
transition_arrives_example =
    transition_arrives (λ s. false) (candidate_in extracted) validated (inl refl) (inl refl)
      (λ s. refl)

abbrev gate_context : ValidationContext ℤ
gate_context = record {
  now = 18_000_000 * hour;
  product_resolved = true;
  product_ambiguous = false;
  resolved_product_id = [];
  source_health = active;
  is_eligible = true;
  source_quality = official_manufacturer;
  source_official = true;
  duplicate_release_id = [];
  previous_version = version_of (text "7.1");
  evidence_present = true;
  minimum_confidence = pos 1;
  applicability_known = true;
  conflicting_source_versions = [];
  outranked_source_versions = [];
  future_date_tolerance = pos (48 * hour);
  earliest_plausible_date = 0;
}

run_validation_gates_lem_example :
    ((run_validation_gates ascii (candidate_in extracted) gate_context).results
      ≡ map
          (result_of gate_context.now)
          (up_to_rejection (rulings ascii (candidate_in extracted) gate_context)))
    × ((run_validation_gates ascii (candidate_in extracted) gate_context).decision
        ≡ strictest (rulings ascii (candidate_in extracted) gate_context))
run_validation_gates_lem_example =
    run_validation_gates_lem ascii (candidate_in extracted) gate_context

run_validation_gates-publishable_iff_example :
    (publishable (run_validation_gates ascii (candidate_in extracted) gate_context) ≡ true)
    ↔ Sound ascii (candidate_in extracted) gate_context
run_validation_gates-publishable_iff_example =
    run_validation_gates-publishable_iff ascii (candidate_in extracted) gate_context

abbrev release_at : Time → Release ℤ
release_at t = record {
  id = text "r";
  vendor_id = text "mikrotik";
  version = version_of (text "7.2");
  release_type = firmware;
  channel = [];
  release_date = partial_date (civil 2024 5 1) exact_day;
  publication_date = unknown_date;
  first_observed_at = t;
  last_verified_at = t;
  published_at = t;
  release_notes_url = [];
  stable = none;
  recommended = none;
  withdrawn = false;
  withdrawn_at = 0;
  withdrawn_reason = [];
  corrects_release_id = [];
  superseded_by_release_id = [];
  candidate_id = [];
  collector_run_id = [];
  evidence_id = text "e";
  source_confidence = pos 1;
  approved_by = [];
  created_at = t;
  provenance = record { url = []; kind = []; is_official = true };
  citation = record { excerpt = []; retrieved_at = 0 };
}

latest_comparison_order_example :
    (latest_comparison (release_at 2) (release_at 3)
      ≡ opposite (latest_comparison (release_at 3) (release_at 2)))
    × ((latest_comparison (release_at 3) (release_at 2) ≡ pos 1)
        → (latest_comparison (release_at 2) (release_at 1) ≡ pos 1)
        → latest_comparison (release_at 3) (release_at 1) ≡ pos 1)
    × ((latest_comparison (release_at 3) (release_at 2) ≡ pos 0)
        → (latest_comparison (release_at 2) (release_at 1) ≡ pos 0)
        → latest_comparison (release_at 3) (release_at 1) ≡ pos 0)
    × (latest_comparison
          (record (release_at 3) { version = no_version })
          (record (release_at 2) { version = no_version })
        ≡ latest_comparison (release_at 3) (release_at 2))
latest_comparison_order_example =
    latest_comparison_order (release_at 3) (release_at 2) (release_at 1) no_version no_version

abbrev withdrawn_release : Release ℤ
withdrawn_release = record (release_at 3) {
  withdrawn = true;
  withdrawn_at = 9;
  withdrawn_reason = text "pulled";
}

is_valid : validate_release ascii (release_at 3) ≡ none
unfolding validate_release is_blank trim_space trim trim_left text is_zero_version
    valid_release_type ReleaseType-discrete
is_valid = refl

is_withdrawn : withdraw ascii (release_at 3) 9 (text "pulled") ≡ ok withdrawn_release
unfolding withdraw is_blank trim_space trim trim_left text
is_withdrawn = refl

abbrev withdrawn_time : ℕ
withdrawn_time = 9

nine : withdrawn_time ≢ 0
nine e = omega arith

withdraw-valid_example :
    (validate_release ascii withdrawn_release ≡ none)
    × (serveable withdrawn_release ≡ false)
    × (eligible_for_latest withdrawn_release ≡ false)
withdraw-valid_example =
    withdraw-valid ascii (release_at 3) withdrawn_release 9 (text "pulled") is_valid nine
      is_withdrawn

leap_day : IsDate (civil 2024 2 29)
unfolding days_in_month is_leap
leap_day = record { month_in = (omega arith, omega arith); day_in = (omega arith, omega arith) }

february : IsDate (civil 2024 2 1)
unfolding days_in_month is_leap
february = record { month_in = (omega arith, omega arith); day_in = (omega arith, omega arith) }

period_end_encloses_example :
    NoLater (civil 2024 2 1) (civil 2024 2 29)
    × NoLater (civil 2024 2 29) (period_end (partial_date (civil 2024 2 1) month_only))
    × MayBe month_only (civil 2024 2 1) (period_end (partial_date (civil 2024 2 1) month_only))
period_end_encloses_example =
    period_end_encloses month_only (civil 2024 2 1) (civil 2024 2 29) (february, refl) (omega arith)
      (leap_day, refl, refl)

new_exact_date_iff_example :
    (new_exact_date 2024 2 29 ≡ ok (partial_date (civil 2024 2 29) exact_day)) ↔ (
      InYears 2024
      × IsDate (civil 2024 2 29)
      × (partial_date (civil 2024 2 29) exact_day ≡ partial_date (civil 2024 2 29) exact_day))
new_exact_date_iff_example = new_exact_date_iff 2024 2 29 (partial_date (civil 2024 2 29) exact_day)

contents-tokens_example :
    contents (tokens ascii (version_of (text "7.1rc2")))
    ≡ filter_by (is_token_char ascii) (text "7.1rc2")
contents-tokens_example = contents-tokens ascii (version_of (text "7.1rc2"))

-- An alias is kept as it is written, but trimmed, beside its normal form.
makes_alias :
    new_product_alias ascii (text "pa") (text "p") (text " CCR2004-1G ") model_number
    ≡ ok (record {
      id = text "pa";
      product_id = text "p";
      alias = text "CCR2004-1G";
      normalized_alias = text "ccr2004 1g";
      kind = model_number;
      source_note = [];
    })
unfolding new_product_alias text normalize_alias trim_space valid_alias_kind lower
makes_alias = refl

own_parent :
    validate_category ascii (record {
      id = text "c";
      slug = text "firewalls";
      name = text "Firewalls";
      parent_id = text "c";
      description = [];
      managed_by = registry;
      registry_path = [];
    })
    ≡ some (invalid "category.parent" "a category cannot be its own parent")
unfolding validate_category text valid_slug is_blank str_eq
own_parent = refl
