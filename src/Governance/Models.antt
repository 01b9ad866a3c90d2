-- ===== src/Governance/Models.antt =====
-- The data of the engine: src/governance/models.py. `owner`, `finops` and the fields that no
-- modelled code reads are left out of the schema.
use aws_tagging_utils.Base.{String, Bool, true, false, Option}
use aws_tagging_utils.Base.{List, [], ◌∷◌, ◌++◌}
use aws_tagging_utils.Base.Dict.{Dict}

pub record TagSchema : Type 0 where
  pub key : String
  pub required : Bool
  pub protected : Bool
  pub allowed_values : Option (List String)
  pub pattern_ : Option String
  pub aliases : Option (List String)

-- A schema file, read: the rules of each key, in the order of the file.
abbrev pub Schema : Type 0
Schema = Dict String TagSchema

abbrev pub Tags : Type 0
Tags = Dict String String

-- The values that the code stores in `ValidationViolation.type`.
pub data ViolationType : Type 0 where
  missing_required invalid_value invalid_format unknown_tag normalization_conflict : ViolationType

pub record ValidationViolation : Type 0 where
  pub tag : String
  pub type : ViolationType
  pub expected : Option String
  pub actual : Option String

pub record ValidationResult : Type 0 where
  pub compliant : Bool
  pub resource : Option String
  pub violations : List ValidationViolation
  pub warnings : List ValidationViolation
  pub normalized_tags : Tags

unfoldable pub add_violation : ValidationResult → ValidationViolation → ValidationResult
add_violation r violation = record r {
  compliant = false;
  violations = r.violations ++ (violation ∷ []);
}

unfoldable pub add_warning : ValidationResult → ValidationViolation → ValidationResult
add_warning r warning = record r { warnings = r.warnings ++ (warning ∷ []) }

-- `ViolationType` as the code tests it, `v.type == "MISSING_REQUIRED"` and so on.
abbrev pub is_missing_required : ViolationType → Bool
is_missing_required missing_required = true
is_missing_required _ = false

abbrev pub is_unknown_tag : ViolationType → Bool
is_unknown_tag unknown_tag = true
is_unknown_tag _ = false
