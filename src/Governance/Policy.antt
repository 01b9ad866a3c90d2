-- ===== src/Governance/Policy.antt =====
-- `PolicyEvaluator`: src/governance/policy.py
use aws_tagging_utils.Base.{String, List, ◌++◌}
use aws_tagging_utils.Runtime.{Runtime}
use aws_tagging_utils.Governance.Models.{Schema, Tags, ValidationViolation}
use aws_tagging_utils.Governance.Validators.{
  validate_required, validate_allowed_values, validate_pattern, validate_unknown,
}

-- `PolicyEvaluator(schema, unknown_tags_behavior).evaluate(tags)`
unfoldable pub evaluate_policy : Runtime → Schema → String → Tags → List ValidationViolation
evaluate_policy rt schema unknown_tags_behavior tags =
    validate_required tags schema
    ++ (validate_allowed_values tags schema
        ++ (validate_pattern rt tags schema
            ++ validate_unknown rt tags schema unknown_tags_behavior))
