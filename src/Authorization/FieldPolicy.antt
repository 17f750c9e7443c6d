-- ===== src/Authorization/FieldPolicy.antt =====
-- src/app/authorization/field-policy.ts: how an unauthorised field leaves a payload. A value is of a
-- type that the module takes as a parameter, with the placeholder that `REDACT` writes; an object
-- is the list of its own fields, in order.
pub mod Shaping
use gldaassurance.Base.{
  true, ◌&&◌, if◌then◌else◌, ◌∷◌, [], put, List, Bool, false, contains, String, sort, string_eq,
}
use gldaassurance.Access.Policy.{
  audited_read_classifications, own, classification_matrix, security_telemetry_resources, absent,
  Property, inherited, text_before, property,
}
use gldaassurance.Access.Types.{
  security_telemetry, AuthorizationContext, FieldClassification, Role, role_eq, classification_eq,
}

pub data Disposition : Type 0 where
  omit redact : Disposition

pub record FieldPolicy : Type 0 where
  pub field : String
  pub classification : FieldClassification
  pub disposition : Disposition

-- `FieldClassificationMap`
abbrev pub FieldClassificationMap : Type 0
FieldClassificationMap = List (String × FieldPolicy)

pub record ShapeResult (V : Type 0) : Type 0 where
  pub payload : List (String × V)
  pub withheld : List String
  pub sensitive_fields_read : List String
  pub security_telemetry_read : List String

-- What `shape` returns or throws: `UnclassifiedField`, `MisplacedSecurityTelemetry`, or the
-- `TypeError` of reading the row of a policy that is an inherited property of the map.
pub data Shaped (V : Type 0) : Type 0 where
  shaped : ShapeResult V → Shaped V
  unclassified_field : (resource field : String) → Shaped V
  misplaced_security_telemetry : (resource field : String) → Shaped V
  inherited_policy : (field : String) → Shaped V

abbrev pub is_telemetry : FieldClassification → Bool
is_telemetry security_telemetry = true
is_telemetry _ = false

-- `CLASSIFICATION_MATRIX[policy.classification].includes(ctx.role)`
abbrev pub is_readable : Role → FieldClassification → Bool
is_readable role c = contains (classification_matrix c) role

module _ {V : Type 0} (placeholder : V) where
  -- One field that the caller may read.
  abbrev pub admit : String → V → FieldClassification → ShapeResult V → ShapeResult V
  admit field raw c rest = record {
    payload = (field, raw) ∷ rest.payload;
    withheld = rest.withheld;
    sensitive_fields_read =
        if contains audited_read_classifications c
        then field ∷ rest.sensitive_fields_read
        else rest.sensitive_fields_read;
    security_telemetry_read =
        if is_telemetry c
        then field ∷ rest.security_telemetry_read
        else rest.security_telemetry_read;
  }

  -- One that the caller may not read.
  abbrev pub withhold : String → Disposition → ShapeResult V → ShapeResult V
  withhold field omit rest = record rest { withheld = field ∷ rest.withheld }
  withhold field redact rest = record rest {
    withheld = field ∷ rest.withheld;
    payload = (field, placeholder) ∷ rest.payload;
  }

  abbrev pub add_field : Role → String → V → FieldPolicy → ShapeResult V → ShapeResult V
  add_field role field raw policy rest =
      if is_readable role policy.classification
      then admit field raw policy.classification rest
      else withhold field policy.disposition rest

  abbrev pub with_rest : (ShapeResult V → ShapeResult V) → Shaped V → Shaped V
  with_rest f (shaped rest) = shaped (f rest)
  with_rest f (unclassified_field r n) = unclassified_field r n
  with_rest f (misplaced_security_telemetry r n) = misplaced_security_telemetry r n
  with_rest f (inherited_policy n) = inherited_policy n

  -- The checks on one field; `rest` is the outcome of the fields after it.
  abbrev pub shape_field : String → Role → String → V → Property FieldPolicy → Shaped V → Shaped V
  shape_field resource role field raw absent rest = unclassified_field resource field
  shape_field resource role field raw inherited rest = inherited_policy field
  shape_field resource role field raw (own policy) rest =
      if is_telemetry policy.classification
        && (if contains security_telemetry_resources resource then false else true)
      then misplaced_security_telemetry resource field
      else with_rest (add_field role field raw policy) rest

  -- The loop of `shape`.
  unfoldable pub shape_fields :
      String → Role → FieldClassificationMap → List (String × V) → Shaped V
  shape_fields resource role classifications [] = shaped (record {
    payload = [];
    withheld = [];
    sensitive_fields_read = [];
    security_telemetry_read = [];
  })
  shape_fields resource role classifications ((field, raw) ∷ fields) =
      shape_field resource role field raw (property classifications field)
        (shape_fields resource role classifications fields)

  abbrev pub sort_names : ShapeResult V → ShapeResult V
  sort_names r = record {
    payload = r.payload;
    withheld = sort text_before r.withheld;
    sensitive_fields_read = sort text_before r.sensitive_fields_read;
    security_telemetry_read = sort text_before r.security_telemetry_read;
  }

  -- `shape`
  unfoldable pub shape :
      String → List (String × V) → FieldClassificationMap → AuthorizationContext → Shaped V
  unfolding shape_fields
  shape resource value classifications ctx =
      with_rest sort_names (shape_fields resource ctx.role classifications value)

-- The loop of `classify`, over the map built so far.
unfoldable pub classify_from :
    FieldClassificationMap → List (String × FieldClassification) → FieldClassificationMap
classify_from built [] = built
classify_from built ((field, c) ∷ entries) =
    classify_from
      (put field (record { field = field; classification = c; disposition = omit }) built) entries

-- `classify`
unfoldable pub classify : List (String × FieldClassification) → FieldClassificationMap
unfolding classify_from
classify entries = classify_from [] entries
