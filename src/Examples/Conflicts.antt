-- ===== src/Examples/Conflicts.antt =====
-- Examples of claims that agree and disagree, and of the score of a review item.
use firmscout.Base.{◌≤◌, ◌≡◌, ◌↔◌, inl, inr, true, List, [], ◌∷◌, In}
use firmscout.Base.Int.{ℤ, pos}
use firmscout.Base.Text.{text, Str, ascii}
use firmscout.Source.{official_manufacturer, trusted_community, QualityClass}
use firmscout.Date.{unknown_date}
use firmscout.ReleaseType.{firmware}
use firmscout.Gates.{multi_source_agreement}
use firmscout.Conflict.{
  SourceObservation, assess_source_conflict, no_conflict, outranked, unresolved,
}
use firmscout.Conflict.Assess.{Dissents, Conflicting, Outranked}
use firmscout.Conflict.SortedSet.{SameElements}
use firmscout.Conflict.Order.{
  SameClaims, assess_source_conflict_versions, assess_source_conflict_status,
  assess_source_conflict_same,
}
use firmscout.Review.{ReviewSignals, score_review}
use firmscout.Review.Bands.{score_review-bounds}
use firmscout.Examples.Numbers.{whole, whole-UnitLaw}

abbrev claim : Str → Str → QualityClass → SourceObservation
claim id version q = record {
  source_id = id;
  product_id = text "routeros";
  channel = [];
  raw_version = version;
  normalized_version = version;
  release_date = unknown_date;
  candidate_id = [];
  evidence_id = [];
  observed_at = 5;
  first_observed_at = 5;
  quality_class = q;
  official = true;
  eligible = true;
}

abbrev own : SourceObservation
own = claim (text "a") (text "7.1") official_manufacturer

abbrev rival : SourceObservation
rival = claim (text "b") (text "7.2") official_manufacturer

abbrev forum : SourceObservation
forum = claim (text "c") (text "7.3") trusted_community

abbrev both : List SourceObservation
both = rival ∷ forum ∷ []

abbrev swapped : List SourceObservation
swapped = forum ∷ rival ∷ []

same_claims : SameClaims both swapped
same_claims o = (
  λ m. elim m [ inl q ↦ inr (inl q) | inr n ↦ elim n [ inl q ↦ inl q | inr k ↦ absurd k ] ],
  λ m. elim m [ inl q ↦ inr (inl q) | inr n ↦ elim n [ inl q ↦ inl q | inr k ↦ absurd k ] ],
)

same_versions : SameElements (text "7.2" ∷ text "7.3" ∷ []) (text "7.3" ∷ text "7.2" ∷ [])
same_versions a = (
  λ m. elim m [ inl q ↦ inr (inl q) | inr n ↦ elim n [ inl q ↦ inl q | inr k ↦ absurd k ] ],
  λ m. elim m [ inl q ↦ inr (inl q) | inr n ↦ elim n [ inl q ↦ inl q | inr k ↦ absurd k ] ],
)

assess_source_conflict_same_example :
    assess_source_conflict ascii own both ≡ assess_source_conflict ascii own swapped
assess_source_conflict_same_example = assess_source_conflict_same ascii own both swapped same_claims

assess_source_conflict_versions_example :
    (In (text "7.2") (assess_source_conflict ascii own both).conflicting_versions ↔ (
      (o : SourceObservation) × In o both
      × Conflicting ascii own o
      × (o.normalized_version ≡ text "7.2")))
    × (In (text "7.2") (assess_source_conflict ascii own both).outranked_versions ↔ (
        (o : SourceObservation) × In o both
        × Outranked ascii own o
        × (o.normalized_version ≡ text "7.2")))
assess_source_conflict_versions_example =
    assess_source_conflict_versions ascii own both (text "7.2")

assess_source_conflict_status_example :
    (((assess_source_conflict ascii own both).status ≡ unresolved)
      ↔ ((o : SourceObservation) × In o both × Conflicting ascii own o))
    × (((assess_source_conflict ascii own both).status ≡ outranked) ↔ (
        ((o : SourceObservation) → In o both → ¬ Conflicting ascii own o)
        × ((o : SourceObservation) × In o both × Outranked ascii own o)))
    × (((assess_source_conflict ascii own both).status ≡ no_conflict)
        ↔ ((o : SourceObservation) → In o both → ¬ Dissents ascii own o))
assess_source_conflict_status_example = assess_source_conflict_status ascii own both

abbrev signals : ReviewSignals ℤ
signals = record {
  gate = multi_source_agreement;
  source_quality = official_manufacturer;
  source_official = true;
  confidence = pos 1;
  product_popularity = pos 80;
  product_security_critical = true;
  release_type = firmware;
  conflict_unresolved = true;
}

score_review-bounds_example :
    (100 ≤ (score_review signals).score) × ((score_review signals).score ≤ 650)
score_review-bounds_example = score_review-bounds whole-UnitLaw signals
