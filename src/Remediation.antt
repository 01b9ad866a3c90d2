-- ===== src/Remediation.antt =====
-- `RemediationEngine`: src/governance/remediation.py, over a store whose calls may fail. Each entry
-- point takes the time at which it starts and the time after the AWS call.
pub mod Async
pub mod Sync
pub mod Delivery
pub mod Redelivery
pub mod SyncRun
pub mod SyncExempt
pub mod Outcomes
pub mod Refinement
pub mod Handling
use aws_tagging_utils.Base.{
  ℕ, String, Bool, true, false, not, ◌&&◌, ◌||◌, Option, none, some, List, [],
}
use aws_tagging_utils.Base.{◌∷◌, ◌==◌, contains, string_eq, if◌then◌else◌, leb, get_elem?}
use aws_tagging_utils.Base.Dict
use aws_tagging_utils.Base.Text.{split}
use aws_tagging_utils.Runtime.{Runtime}
use aws_tagging_utils.Errors.{ApiError, Result, ok, err}
use aws_tagging_utils.Governance.Models.{Tags}
use aws_tagging_utils.Governance.Engine.{Engine, make_engine, evaluate}
use aws_tagging_utils.State.{
  Store, Action, Status, pending, in_progress, completed, failed, failed_retryable, skipped_exempt,
  status_eq, get_remediation_action, create_remediation_action, claim_remediation_action, Updates,
  update_remediation_action, Exemption,
}
use aws_tagging_utils.State.Claims.{claimable}
use aws_tagging_utils.Exemptions.{Calendar, is_exempt}
use aws_tagging_utils.Services.{Failure, AwsApi, World, Config, AuditEntry, log_audit}
use aws_tagging_utils.TagWriter.{Results, tag_resources}

part_or_unknown : Option String → String
part_or_unknown none = "unknown"
part_or_unknown (some part) = part

-- `_extract_type` and `_extract_account`
unfoldable pub extract_type : String → String
unfolding part_or_unknown
extract_type arn = part_or_unknown (get_elem? (split b':' arn) 2)

unfoldable pub extract_account : String → String
unfolding part_or_unknown
extract_account arn = part_or_unknown (get_elem? (split b':' arn) 4)

abbrev pub retryable_codes : List String
retryable_codes =
    "Throttling" ∷ "ThrottlingException" ∷ "TooManyRequestsException" ∷ "InternalError" ∷ []

error_code_or : Option String → String
error_code_or none = "Unknown"
error_code_or (some code) = code

-- The status and error code for a resource, from what `tag_resources` says of it.
unfoldable pub classify : Option Failure → Status × Option String
unfolding error_code_or
classify none = (completed, none)
classify (some failure) =
    let error_code = error_code_or failure.error_code in
    (if contains retryable_codes error_code then failed_retryable else failed, some error_code)

-- The text of a status in the audit log.
unfoldable pub status_text : Status → String
status_text pending = "PENDING"
status_text in_progress = "IN_PROGRESS"
status_text completed = "COMPLETED"
status_text failed = "FAILED"
status_text failed_retryable = "FAILED_RETRYABLE"
status_text skipped_exempt = "SKIPPED_EXEMPT"

module _ (rt : Runtime) {W : Type 0} (api : AwsApi W) (config : Config) where
  -- The `governance_engine` of src/tag_writer.py
  abbrev pub governance_engine : Engine
  governance_engine = make_engine rt config.tag_schema config.unknown_tags config.normalization

  -- `_execute_tag_mutation`. `tag_resources` catches what the AWS client raises, so the handlers of
  -- `ClientError` and of other exceptions have nothing to handle here: tags are texts, on which the
  -- validation does not raise.
  unfoldable pub execute_tag_mutation :
      Tags → String → ℕ → World W → (Status × Option String) × World W
  execute_tag_mutation tags arn now w =
      let val_res = evaluate rt governance_engine tags (some arn) [] false in
      if not val_res.compliant && config.strict_mode
      then ((failed, some "VALIDATION_FAILED"), w)
      else let (result, w') =
          tag_resources api config val_res.normalized_tags now (arn ∷ []) config.default_region w in
        (classify (Dict.get result.failed_resources arn), w')

  unfoldable pub finished_entry : String → String → Status × Option String → AuditEntry
  finished_entry actor arn (new_status, error_code) = record {
    actor = actor;
    action = "REMEDIATE_FINISHED";
    resource = arn;
    outcome = status_text new_status;
    error_code = error_code;
  }

  unfoldable pub entry : String → String → String → AuditEntry
  entry actor action_ arn = record {
    actor = actor;
    action = action_;
    resource = arn;
    outcome = "SUCCESS";
    error_code = none;
  }

  unfoldable pub outcome_updates : Status × Option String → ℕ → Updates
  outcome_updates (new_status, error_code) now = record {
    status = some new_status;
    last_attempt_at = some now;
    last_error_code = error_code;
  }

  abbrev pub exhausted_updates : Updates
  exhausted_updates = record {
    status = some failed;
    last_attempt_at = none;
    last_error_code = some "MAX_RETRIES_EXHAUSTED";
  }

  -- The calls of the state store on an action; each has its answer for a call that fails.
  unfoldable pub read_action : String → ℕ → World W → Option Action
  read_action action_id now w =
      if api.faults.read_fails now then none else get_remediation_action w.store action_id

  unfoldable pub claim_action : String → Option String → ℕ → World W → Store × Bool
  claim_action action_id worker_id now w =
      if api.faults.claim_fails now
      then (w.store, false)
      else claim_remediation_action w.store action_id claimable config.max_remediation_attempts
          worker_id 300000000 now

  unfoldable pub update_action : String → Updates → Option Status → ℕ → World W → Store × Bool
  update_action action_id updates expected_status now w =
      if api.faults.update_fails now
      then (w.store, false)
      else update_remediation_action w.store action_id updates expected_status now

  -- Steps 5 to 7, after a claim: the mutation, the new status, the audit rows.
  unfoldable pub run_claimed :
      String → Tags → String → String → ℕ → World W → (Status × Option String) × World W
  unfolding finished_entry entry outcome_updates update_action
  run_claimed action_id tags arn actor later w =
      let started = log_audit (entry actor "REMEDIATE_STARTED" arn) w in
      let (outcome, mutated) = execute_tag_mutation tags arn later started in
      let (store', _) =
        update_action action_id (outcome_updates outcome later) (some in_progress) later mutated in
      (outcome, log_audit (finished_entry actor arn outcome) (record mutated { store = store' }))

  -- `status == "FAILED_RETRYABLE" and attempt_count >= MAX_REMEDIATION_ATTEMPTS`
  unfoldable pub is_exhausted : Action → Bool
  is_exhausted a =
      a.status == failed_retryable && leb config.max_remediation_attempts a.attempt_count

  -- The move to FAILED after the last attempt, with its audit row if the store took it.
  unfoldable pub exhaust : String → String → String → ℕ → World W → World W
  unfolding finished_entry update_action
  exhaust action_id actor arn now w =
      let (store', done) =
        update_action action_id exhausted_updates (some failed_retryable) now w in
      let w' = record w { store = store' } in
      if done
      then log_audit (finished_entry actor arn (failed, some "MAX_RETRIES_EXHAUSTED")) w'
      else w'
