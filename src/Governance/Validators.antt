-- ===== src/Governance/Validators.antt =====
-- `Validator`: src/governance/validators.py. A loop that appends what it finds is `collect` over
-- the test that it makes of one entry.
pub mod Conforms
pub mod Types
use aws_tagging_utils.Base.{String, ◌<>◌, Bool, true, false, Option, none, some, List, [], ◌∷◌}
use aws_tagging_utils.Base.{◌||◌, ◌==◌, contains, string_eq, if◌then◌else◌, collect}
use aws_tagging_utils.Base.Dict
use aws_tagging_utils.Base.Text.{is_blank, join, starts_with}
use aws_tagging_utils.Runtime.{Runtime}
use aws_tagging_utils.Governance.Models.{
  Schema, Tags, TagSchema, ValidationViolation, missing_required, invalid_value, invalid_format,
  unknown_tag,
}

-- `val is None or str(val).strip() == ""`
unfoldable pub is_missing : Option String → Bool
is_missing none = true
is_missing (some val) = is_blank val

abbrev pub missing : String → ValidationViolation
missing key = record {
  tag = key;
  type = missing_required;
  expected = some "Value is mandatory";
  actual = some "Missing or empty";
}

check_required : Tags → String × TagSchema → Option ValidationViolation
check_required tags (key, rules) =
    if rules.required
    then (if is_missing (Dict.get tags key) then some (missing key) else none)
    else none

unfoldable pub validate_required : Tags → Schema → List ValidationViolation
unfolding check_required is_missing
validate_required tags schema = collect (check_required tags) schema

-- `allowed_values` is neither `None` nor empty, and lacks the value.
not_allowed : Option (List String) → String → Option (List String)
not_allowed none val = none
not_allowed (some []) val = none
not_allowed (some (a ∷ allowed)) val =
    if contains (a ∷ allowed) val then none else some (a ∷ allowed)

check_allowed_values : Schema → String × String → Option ValidationViolation
unfolding not_allowed
check_allowed_values schema (key, val) = if is_blank val then none else elim (Dict.get schema key) [
  | none ↦ none
  | some rules ↦ elim (not_allowed rules.allowed_values val) [
    | none ↦ none
    | some allowed ↦ some (record {
      tag = key;
      type = invalid_value;
      expected = some ("One of: " <> join ", " allowed);
      actual = some val;
    })
  ]
]

unfoldable pub validate_allowed_values : Tags → Schema → List ValidationViolation
unfolding check_allowed_values
validate_allowed_values tags schema = collect (check_allowed_values schema) tags

bad_format : String → String → String → ValidationViolation
bad_format key expected val = record {
  tag = key;
  type = invalid_format;
  expected = some expected;
  actual = some val;
}

module _ (rt : Runtime) where
  open rt use {lower, re_match}

  match_pattern : String → String → String → Option ValidationViolation
  unfolding bad_format
  match_pattern pattern_ key val = elim (re_match pattern_ val) [
    | none ↦ some (bad_format key ("Invalid schema regex: " <> pattern_) val)
    | some matched ↦
        if matched then none else some (bad_format key ("Must match regex: " <> pattern_) val)
  ]

  -- `pattern` is neither `None` nor empty.
  check_format : Option String → String → String → Option ValidationViolation
  unfolding match_pattern
  check_format none key val = none
  check_format (some pattern_) key val =
      if pattern_ == "" then none else match_pattern pattern_ key val

  check_pattern : Schema → String × String → Option ValidationViolation
  unfolding check_format
  check_pattern schema (key, val) = if is_blank val then none else elim (Dict.get schema key) [
    | none ↦ none
    | some rules ↦ check_format rules.pattern_ key val
  ]

  unfoldable pub validate_pattern : Tags → Schema → List ValidationViolation
  unfolding check_pattern
  validate_pattern tags schema = collect (check_pattern schema) tags

  check_unknown : Schema → String × String → Option ValidationViolation
  check_unknown schema (key, val) =
      if starts_with (lower key) "aws:"
      then none
      else if Dict.has_key schema key
      then none
      else some (record {
        tag = key;
        type = unknown_tag;
        expected = some "Tag defined in schema";
        actual = some "Not defined";
      })

  -- `behavior.lower() in ("allow", "ignore")`
  unfoldable pub tolerates_unknown : String → Bool
  tolerates_unknown behavior = lower behavior == "allow" || lower behavior == "ignore"

  unfoldable pub validate_unknown : Tags → Schema → String → List ValidationViolation
  unfolding check_unknown tolerates_unknown
  validate_unknown tags schema behavior =
      if tolerates_unknown behavior then [] else collect (check_unknown schema) tags
