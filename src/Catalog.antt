-- ===== src/Catalog.antt =====
-- internal/domain/catalog.go: vendors, categories, product families, products, their aliases and their
-- relationships, with the checks of each.
use firmscout.Base.{Bool, true, false, not, ◌&&◌, List, [], ◌∷◌, is_empty, Option, if◌then◌else◌}
use firmscout.Base.Int.{ℤ}
use firmscout.Base.Text.{Str, Unicode, is_blank, trim_space, str_eq}
use firmscout.Base.Go.{Time, Error, invalid, Result, ok, err, first_error}
use firmscout.Slug.{valid_slug, normalize_alias}
use firmscout.ReleaseType.{
  ReleaseType, valid_release_type, LifecycleStatus, eol, eos, valid_lifecycle_status,
}

pub data ManagedBy : Type 0 where
  registry admin : ManagedBy
  unlisted : Str → ManagedBy

record Vendor : Type 0 where
  id : Str
  slug : Str
  name : Str
  legal_name : Str
  homepage_url : Str
  support_url : Str
  country_code : Str
  notes : Str
  managed_by : ManagedBy
  registry_path : Str
  created_at : Time
  updated_at : Time

pub record Category : Type 0 where
  pub id : Str
  pub slug : Str
  pub name : Str
  pub parent_id : Str
  pub description : Str
  pub managed_by : ManagedBy
  pub registry_path : Str

record ProductFamily : Type 0 where
  id : Str
  vendor_id : Str
  slug : Str
  name : Str
  description : Str
  managed_by : ManagedBy
  registry_path : Str

pub data AliasKind : Type 0 where
  marketing_name model_number sku regional_name legacy_name vendor_internal : AliasKind
  common_misspelling : AliasKind
  unlisted : Str → AliasKind

unfoldable pub valid_alias_kind : AliasKind → Bool
valid_alias_kind (AliasKind.unlisted s) = false
valid_alias_kind _ = true

pub record ProductAlias : Type 0 where
  pub id : Str
  pub product_id : Str
  pub alias : Str
  pub normalized_alias : Str
  pub kind : AliasKind
  pub source_note : Str

data RelationKind : Type 0 where
  runs_os : RelationKind
  unlisted : Str → RelationKind

unfoldable valid_relation_kind : RelationKind → Bool
valid_relation_kind runs_os = true
valid_relation_kind (RelationKind.unlisted s) = false

record ProductRelationship : Type 0 where
  id : Str
  from_product_id : Str
  to_product_id : Str
  kind : RelationKind
  source_note : Str
  managed_by : ManagedBy
  registry_path : Str

record Product : Type 0 where
  id : Str
  vendor_id : Str
  product_family_id : Str
  slug : Str
  name : Str
  model_identifier : Str
  description : Str
  default_release_type : ReleaseType
  lifecycle_status : LifecycleStatus
  popularity_score : ℤ
  security_critical : Bool
  category_slugs : List Str
  managed_by : ManagedBy
  registry_path : Str
  created_at : Time
  updated_at : Time

-- `p.DefaultReleaseType != ""`
abbrev names_type : ReleaseType → Bool
names_type (ReleaseType.unlisted []) = false
names_type _ = true

abbrev ended : LifecycleStatus → Bool
ended eol = true
ended eos = true
ended _ = false

unfoldable end_of_life : Product → Bool
end_of_life p = ended p.lifecycle_status

module _ (u : Unicode) where
  unfoldable validate_vendor : Vendor → Option Error
  unfolding first_error
  validate_vendor v = first_error (
      (not (valid_slug v.slug), invalid "vendor.slug" "must be a lowercase kebab-case identifier")
      ∷ (is_blank u v.name, invalid "vendor.name" "must not be empty")
      ∷ [])

  unfoldable pub validate_category : Category → Option Error
  unfolding first_error
  validate_category c = first_error (
      (not (valid_slug c.slug), invalid "category.slug" "must be a lowercase kebab-case identifier")
      ∷ (is_blank u c.name, invalid "category.name" "must not be empty")
      ∷ (
        not (is_empty c.parent_id) && str_eq c.parent_id c.id,
        invalid "category.parent" "a category cannot be its own parent",
      )
      ∷ [])

  unfoldable validate_family : ProductFamily → Option Error
  unfolding first_error
  validate_family f = first_error (
      (is_blank u f.vendor_id, invalid "product_family.vendor_id" "must be set")
      ∷ (
        not (valid_slug f.slug),
        invalid "product_family.slug" "must be a lowercase kebab-case identifier",
      )
      ∷ (is_blank u f.name, invalid "product_family.name" "must not be empty")
      ∷ [])

  unfoldable validate_relationship : ProductRelationship → Option Error
  unfolding first_error
  validate_relationship r = first_error (
      (is_blank u r.from_product_id, invalid "product_relationship.from_product_id" "must be set")
      ∷ (is_blank u r.to_product_id, invalid "product_relationship.to_product_id" "must be set")
      ∷ (
        not (valid_relation_kind r.kind),
        invalid "product_relationship.kind" "is not a known relation kind",
      )
      ∷ (
        str_eq r.from_product_id r.to_product_id,
        invalid "product_relationship.to_product_id" "a product cannot run itself",
      )
      ∷ [])

  unfoldable validate_product : Product → Option Error
  unfolding first_error
  validate_product p = first_error (
      (is_blank u p.vendor_id, invalid "product.vendor_id" "must be set")
      ∷ (
        not (valid_slug p.slug),
        invalid "product.slug" "must be a lowercase kebab-case identifier",
      )
      ∷ (is_blank u p.name, invalid "product.name" "must not be empty")
      ∷ (
        names_type p.default_release_type && not (valid_release_type p.default_release_type),
        invalid "product.default_release_type" "is not a known release type",
      )
      ∷ (
        not (valid_lifecycle_status p.lifecycle_status),
        invalid "product.lifecycle_status" "is not a known lifecycle status",
      )
      ∷ [])

  unfoldable is_hardware_model : Product → Bool
  is_hardware_model p = not (is_blank u p.model_identifier)

  unfoldable pub new_product_alias : Str → Str → Str → AliasKind → Result ProductAlias
  new_product_alias id product_id alias kind =
      let trimmed = trim_space u alias in
      let normalized = normalize_alias u trimmed in
      if is_empty trimmed
      then err (invalid "alias" "must not be empty")
      else if not (valid_alias_kind kind)
      then err (invalid "alias.kind" "is not a known alias kind")
      else if is_empty normalized
      then err (invalid "alias" "normalises to an empty string")
      else ok (record {
        id = id;
        product_id = product_id;
        alias = trimmed;
        normalized_alias = normalized;
        kind = kind;
        source_note = [];
      })
