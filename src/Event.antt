-- ===== src/Event.antt =====
-- internal/domain/events.go: the events that the modelled use cases publish, and their attributes.
use firmscout.Base.{List, [], ◌∷◌, ◌≡◌, refl, Option, none, some, if◌then◌else◌, arith}
use firmscout.Base.Text.{Str, str_eq, str_eq_iff}
use firmscout.Base.Go.{Time}

pub data EventName : Type 0 where
  source_checked source_changed source_unchanged source_failed source_broken : EventName
  candidate_created candidate_validated candidate_rejected release_published : EventName
  collector_failed review_item_resolved : EventName
  human_review_requested source_conflict_detected source_conflict_resolved : EventName

-- The attributes are a map: an association list, read by `attribute`.
pub record Event : Type 0 where
  pub name : EventName
  pub occurred_at : Time
  pub subject_type : Str
  pub subject_id : Str
  pub vendor_slug : Str
  pub product_slug : Str
  pub attributes : List (Str × Str)

unfoldable pub new_event : EventName → Time → Str → Str → Event
new_event name at subject_type subject_id = record {
  name = name;
  occurred_at = at;
  subject_type = subject_type;
  subject_id = subject_id;
  vendor_slug = [];
  product_slug = [];
  attributes = [];
}

-- `attrs[key] = value`
unfoldable pub set_attribute : Str → Str → List (Str × Str) → List (Str × Str)
set_attribute key value [] = (key, value) ∷ []
set_attribute key value ((k, v) ∷ rest) =
    if str_eq k key then (key, value) ∷ rest else (k, v) ∷ set_attribute key value rest

-- Event.With, which copies the map before it writes
unfoldable pub with : Event → Str → Str → Event
unfolding set_attribute
with e key value = record e { attributes = set_attribute key value e.attributes }

unfoldable pub with_product : Event → Str → Str → Event
with_product e vendor_slug product_slug = record e {
  vendor_slug = vendor_slug;
  product_slug = product_slug;
}

unfoldable pub attribute : Str → List (Str × Str) → Option Str
attribute key [] = none
attribute key ((k, v) ∷ rest) = if str_eq k key then some v else attribute key rest

attribute-set_attribute :
    (key other value : Str) (l : List (Str × Str))
    → attribute other (set_attribute key value l)
      ≡ (if str_eq key other then some value else attribute other l)
unfolding attribute set_attribute
attribute-set_attribute key other value [] = refl
attribute-set_attribute key other value ((k, v) ∷ rest) = ground (
  arith,
  str_eq_iff k key,
  str_eq_iff k other,
  str_eq_iff key other,
  attribute-set_attribute key other value rest,
)

-- A later `With` wins at its key, and leaves every other attribute as it was.
pub attribute-with :
    (e : Event) (key other value : Str)
    → attribute other (with e key value).attributes
      ≡ (if str_eq key other then some value else attribute other e.attributes)
unfolding with
attribute-with e key other value = attribute-set_attribute key other value e.attributes
