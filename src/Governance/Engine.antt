-- ===== src/Governance/Engine.antt =====
-- `TagGovernanceEngine`: src/governance/engine.py
pub mod Results
pub mod Compliance
use mathlib.Core.List.{foldl, map}
use aws_tagging_utils.Base.{String, Bool, true, false, not, ◌&&◌, Option, none, some}
use aws_tagging_utils.Base.{List, [], ◌∷◌, ◌++◌, ◌==◌, contains, string_eq, if◌then◌else◌, keep}
use aws_tagging_utils.Base.Dict
use aws_tagging_utils.Runtime.{Runtime}
use aws_tagging_utils.Governance.Models.{
  Schema, Tags, ValidationViolation, ValidationResult, add_violation, add_warning,
  is_missing_required, is_unknown_tag,
}
use aws_tagging_utils.Governance.Normalizer.{
  TagNormalizer, make_normalizer, get_canonical_key, normalize,
}
use aws_tagging_utils.Governance.Validators.{is_missing, missing}
use aws_tagging_utils.Governance.Policy.{evaluate_policy}

pub record Engine : Type 0 where
  pub unknown_tags_behavior : String
  pub enable_normalization : Bool
  pub schema : Schema
  pub normalizer : TagNormalizer

-- `ValidationResult(resource=resource_id)`
abbrev pub fresh_result : Option String → ValidationResult
fresh_result resource_id = record {
  compliant = true;
  resource = resource_id;
  violations = [];
  warnings = [];
  normalized_tags = [];
}

-- `{v.tag for v in result.violations if v.type == "MISSING_REQUIRED"}`
missing_tags : List ValidationViolation → List String
missing_tags vs = map (λ v. v.tag) (keep (λ v. is_missing_required v.type) vs)

module _ (rt : Runtime) where
  -- `TagGovernanceEngine(schema_provider, unknown_tags_behavior, enable_normalization)`
  unfoldable pub make_engine : Schema → String → Bool → Engine
  make_engine schema unknown_tags_behavior enable_normalization = record {
    unknown_tags_behavior = unknown_tags_behavior;
    enable_normalization = enable_normalization;
    schema = schema;
    normalizer = make_normalizer rt schema;
  }

  -- `self.unknown_tags_behavior.lower() == "warn"`
  unfoldable pub warn_on_unknown : Engine → Bool
  warn_on_unknown self = rt.lower self.unknown_tags_behavior == "warn"

  -- Step 1: the tags to evaluate, and the conflicts among their keys.
  unfoldable pub normalize_step : Engine → Tags → Tags × List ValidationViolation
  normalize_step self tags =
      if self.enable_normalization then normalize rt self.normalizer tags else (tags, [])

  -- One round of the loop of step 2.
  report : Engine → Bool → ValidationResult → ValidationViolation → ValidationResult
  unfolding add_violation add_warning
  report self partial result v =
      if partial && is_missing_required v.type
      then result
      else if warn_on_unknown self && is_unknown_tag v.type
      then add_warning result v
      else add_violation result v

  -- The key that step 3 looks up.
  unfoldable pub extra_key : Engine → String → String
  extra_key self key =
      if self.enable_normalization then get_canonical_key rt self.normalizer key else key

  -- The loop of step 3. The list holds `already_missing`.
  check_extra : Engine → List String → List String → ValidationResult → ValidationResult
  unfolding add_violation
  check_extra self [] already_missing result = result
  check_extra self (key ∷ rest) already_missing result =
      let canonical = extra_key self key in
      let skip = check_extra self rest already_missing result in
      let add =
        check_extra self rest (canonical ∷ already_missing)
          (add_violation result (missing canonical)) in
      if contains already_missing canonical
      then skip
      else if is_missing (Dict.get result.normalized_tags canonical)
      then add
      else skip

  -- `None` and an empty list of extra keys are one case.
  unfoldable pub evaluate : Engine → Tags → Option String → List String → Bool → ValidationResult
  unfolding report check_extra missing_tags normalize_step
  evaluate self tags resource_id extra_required partial =
      let (normalized_tags, norm_violations) = normalize_step self tags in
      let noted = foldl add_violation (fresh_result resource_id) norm_violations in
      let started = record noted { normalized_tags = normalized_tags } in
      let policy = evaluate_policy rt self.schema self.unknown_tags_behavior normalized_tags in
      let result = foldl (report self partial) started policy in
      if partial
      then result
      else check_extra self extra_required (missing_tags result.violations) result
