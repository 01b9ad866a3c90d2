-- ===== src/Governance/Validators/Types.antt =====
-- Each validator reports violations of one type.
use aws_tagging_utils.Base.{String, ◌≡◌, arith, All, collect-All, some}
use aws_tagging_utils.Runtime.{Runtime}
use aws_tagging_utils.Governance.Models.{
  Schema, Tags, ValidationViolation, ViolationType, missing_required, invalid_value, invalid_format,
  unknown_tag,
}
use aws_tagging_utils.Governance.Validators.{
  check_required, validate_required, check_allowed_values, validate_allowed_values, check_pattern,
  validate_pattern, check_unknown, validate_unknown,
}

abbrev pub HasType : ViolationType → ValidationViolation → Type 0
HasType t v = v.type ≡ t

module _ (schema : Schema) (tags : Tags) where
  pub validate_required-HasType : All (HasType missing_required) (validate_required tags schema)
  unfolding validate_required
  validate_required-HasType =
      collect-All (HasType missing_required) (check_required tags) schema λ (k, r) v e. ground arith

  pub validate_allowed_values-HasType :
      All (HasType invalid_value) (validate_allowed_values tags schema)
  unfolding validate_allowed_values
  validate_allowed_values-HasType =
      collect-All (HasType invalid_value) (check_allowed_values schema) tags
        λ (k, val) v e. ground arith

  pub validate_pattern-HasType :
      (rt : Runtime) → All (HasType invalid_format) (validate_pattern rt tags schema)
  unfolding validate_pattern
  validate_pattern-HasType rt =
      collect-All (HasType invalid_format) (check_pattern rt schema) tags
        λ (k, val) v e. ground arith

  pub validate_unknown-HasType :
      (rt : Runtime) (behavior : String)
      → All (HasType unknown_tag) (validate_unknown rt tags schema behavior)
  unfolding validate_unknown
  validate_unknown-HasType rt behavior = ground (
    arith,
    collect-All (HasType unknown_tag) (check_unknown rt schema) tags
        (λ (k, val) v e. typed k val v e),
  )
    where
      typed :
          (k val : String) (v : ValidationViolation)
          → check_unknown rt schema (k, val) ≡ some v
          → v.type ≡ unknown_tag
      typed k val v e = ground arith
