-- ===== src/Enforcement.antt =====
-- What the enforcement handler does with new resources: src/enforcement.py, from the ARNs that the
-- event names and their tags on.
pub mod Modes
pub mod Exempt
use aws_tagging_utils.Base.{ℕ, String, Bool, true, false, not, Option, none, some, List, [], ◌∷◌}
use aws_tagging_utils.Base.{string_eq, if◌then◌else◌}
use aws_tagging_utils.Base.Dict
use aws_tagging_utils.Base.Dict.{Dict}
use aws_tagging_utils.Runtime.{Runtime}
use aws_tagging_utils.Errors.{Result, ok, err}
use aws_tagging_utils.Governance.Models.{Tags, ValidationViolation, ValidationResult}
use aws_tagging_utils.Governance.Engine.{evaluate}
use aws_tagging_utils.State.{Action}
use aws_tagging_utils.Exemptions.{Calendar}
use aws_tagging_utils.Services.{AwsApi, World, Config}
use aws_tagging_utils.Remediation.{governance_engine}
use aws_tagging_utils.Remediation.Sync.{Request, process_sync}

-- The entry `remediation` of a result.
pub data Verdict : Type 0 where
  report_only : List ValidationViolation → Verdict
  remediated : Action → Verdict
  compliant : Verdict

tags_or_none : Option Tags → Tags
tags_or_none none = []
tags_or_none (some tags) = tags

module _ (rt : Runtime) (cal : Calendar) {W : Type 0} (api : AwsApi W) (config : Config)
    (fingerprint_of : String → String → Tags → String) (remediation_enabled : Bool)
    (request_id : String) where
  unfoldable pub request_for : String → ValidationResult → Request
  request_for arn val_res = record {
    resource_arn = arn;
    requested_tags = val_res.normalized_tags;
    tags_are_dict = true;
    idempotency_key = none;
  }

  -- One resource. A request that is refused has changed nothing, and ends the handler.
  unfoldable pub enforce_one : String → Tags → ℕ → ℕ → World W → Result Verdict × World W
  enforce_one arn tags now later w =
      let val_res = evaluate rt (governance_engine rt api config) tags (some arn) [] false in
      if val_res.compliant
      then (ok compliant, w)
      else if not remediation_enabled
      then (ok (report_only val_res.violations), w)
      else (elim (process_sync rt cal api config fingerprint_of (request_for arn val_res)
          "eventbridge" request_id now later w) [
            | err e ↦ (err e, w)
            | ok done ↦ let (action, w') = done in (ok (remediated action), w')
          ])

  -- The loop over the ARNs, with the results so far.
  unfoldable pub enforce_all :
      List String → Dict String Tags → ℕ → ℕ → World W → Result (List (String × Verdict)) × World W
  unfolding enforce_one tags_or_none
  enforce_all [] tag_maps now later w = (ok [], w)
  enforce_all (arn ∷ arns) tag_maps now later w =
      let (first, w') = enforce_one arn (tags_or_none (Dict.get tag_maps arn)) now later w in
      let (others, w'') = enforce_all arns tag_maps now later w' in
      elim first [
        | err e ↦ (err e, w')
        | ok verdict ↦ elim others [
          | err e ↦ (err e, w'')
          | ok verdicts ↦ (ok ((arn, verdict) ∷ verdicts), w'')
        ]
      ]
