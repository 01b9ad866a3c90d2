-- ===== src/Remediation/Sync.antt =====
-- `process_sync`: the entry point of the API. The claim and the updates may fail; that the creation
-- raises, or a read answers `None` for an exception, is left out.
use aws_tagging_utils.Base.{ℕ, String, Bool, not, ◌&&◌, ◌||◌, Option, none, some, ◌==◌}
use aws_tagging_utils.Base.{if◌then◌else◌, string_eq}
use aws_tagging_utils.Runtime.{Runtime}
use aws_tagging_utils.Errors.{ApiError, Result, ok, err}
use aws_tagging_utils.Governance.Models.{Tags}
use aws_tagging_utils.State.{
  Action, pending, in_progress, skipped_exempt, status_eq, Exemption, get_remediation_action,
  create_remediation_action,
}
use aws_tagging_utils.State.Steps.{is_terminal}
use aws_tagging_utils.Exemptions.{Calendar, is_exempt}
use aws_tagging_utils.Services.{AwsApi, World, Config, AuditEntry, log_audit}
use aws_tagging_utils.Remediation.{
  claim_action, extract_type, extract_account, run_claimed, is_exhausted, exhaust,
}

-- `request_data`, with whether its requested tags are a dict; values of tags that are no texts are
-- left out. A key that is `none` is missing, null or empty.
pub record Request : Type 0 where
  pub resource_arn : String
  pub requested_tags : Tags
  pub tags_are_dict : Bool
  pub idempotency_key : Option String

api_error : String → ℕ → String → ApiError
api_error message status_code error_code = record {
  message = message;
  status_code = status_code;
  error_code = error_code;
}

unfoldable pub skipped_entry : String → String → AuditEntry
skipped_entry actor arn = record {
  actor = actor;
  action = "REMEDIATE_SKIPPED";
  resource = arn;
  outcome = "SUCCESS";
  error_code = none;
}

unfoldable pub key_or : Option String → String → String
key_or none fingerprint = fingerprint
key_or (some key) fingerprint = if key == "" then fingerprint else key

unfoldable pub exemption_id_of : Option Exemption → Option String
exemption_id_of none = none
exemption_id_of (some ex) = some ex.id

-- `action_data` of step 2.
unfoldable pub new_action :
    Request → String → String → Option Exemption → String → String → ℕ → Action
unfolding exemption_id_of
new_action request key fingerprint exemption actor request_id now = record {
  action_id = key;
  idempotency_key = key;
  resource_arn = request.resource_arn;
  resource_type = extract_type request.resource_arn;
  account_id = extract_account request.resource_arn;
  requested_tags = request.requested_tags;
  actor = actor;
  status = elim exemption [ none ↦ pending | some ex ↦ skipped_exempt ];
  attempt_count = 0;
  request_fingerprint = fingerprint;
  created_at = now;
  updated_at = now;
  request_id = request_id;
  exemption_id = exemption_id_of exemption;
  last_attempt_at = none;
  last_error_code = none;
  worker_id = none;
  claimed_at = none;
  lease_until = none;
}

-- `get_remediation_action(action_id) or action_data`
unfoldable pub stored_or : Option Action → Action → Action
stored_or none action_data = action_data
stored_or (some stored) action_data = stored

module _ (rt : Runtime) (cal : Calendar) {W : Type 0} (api : AwsApi W) (config : Config)
    (fingerprint_of : String → String → Tags → String) where
  unfoldable pub lost_claim : String → Action → Request → String → ℕ → World W → Action × World W
  unfolding stored_or
  lost_claim action_id action_data request actor now w =
      let existing = stored_or (get_remediation_action w.store action_id) action_data in
      let exhausted = exhaust rt api config action_id actor request.resource_arn now w in
      if is_exhausted rt api config existing
      then (stored_or (get_remediation_action exhausted.store action_id) existing, exhausted)
      else (existing, w)

  -- Steps 4 to 7. The answer is the action as stored at the end: nothing deletes an action, so the
  -- fallback for one that is gone is never taken (in the code it is the dict of updates).
  unfoldable pub claim_and_run :
      String → Action → Request → String → ℕ → ℕ → World W → Action × World W
  unfolding lost_claim stored_or claim_action
  claim_and_run action_id action_data request actor now later w =
      let (store', claimed) = claim_action rt api config action_id none now w in
      let w' = record w { store = store' } in
      let (outcome, finished) =
        run_claimed rt api config action_id request.requested_tags request.resource_arn actor later
          w' in
      if claimed
      then (stored_or (get_remediation_action finished.store action_id) action_data, finished)
      else lost_claim action_id action_data request actor later w'

  -- Step 4 for a skipped action.
  unfoldable pub proceed : String → Action → Request → String → ℕ → ℕ → World W → Action × World W
  unfolding claim_and_run skipped_entry
  proceed action_id action_data request actor now later w =
      if action_data.status == skipped_exempt
      then (action_data, log_audit (skipped_entry actor request.resource_arn) w)
      else claim_and_run action_id action_data request actor now later w

  -- Step 3, for an action that exists.
  unfoldable pub resolve :
      String → String → Request → String → ℕ → ℕ → World W → Result (Action × World W)
  unfolding proceed api_error
  resolve action_id fingerprint request actor now later w =
      elim (get_remediation_action w.store action_id) [
        | none ↦
            err (api_error "Failed to resolve existing remediation action" 500 "INTERNAL_ERROR")
        | some existing ↦
            if not (existing.request_fingerprint == "")
              && not (existing.request_fingerprint == fingerprint)
            then err (api_error "Idempotency key mismatch" 409 "IDEMPOTENCY_MISMATCH")
            else if existing.status == in_progress || is_terminal existing.status
            then ok (existing, w)
            else ok (proceed action_id existing request actor now later w)
      ]

  -- `fingerprint_of arn resource_type tags` is the SHA-256 of the canonical JSON of the three.
  unfoldable pub process_sync :
      Request → String → String → ℕ → ℕ → World W → Result (Action × World W)
  unfolding resolve key_or new_action proceed api_error
  process_sync request actor request_id now later w =
      let arn = request.resource_arn in
      let resource_type = extract_type arn in
      let fingerprint = fingerprint_of arn resource_type request.requested_tags in
      let key = key_or request.idempotency_key fingerprint in
      let exemption = is_exempt cal w.store now (extract_account arn) resource_type arn none in
      let action_data = new_action request key fingerprint exemption actor request_id now in
      let (store', created) = create_remediation_action w.store action_data in
      if arn == "" || not request.tags_are_dict
      then err (api_error "resource_arn and requested_tags are required" 400 "INVALID_REQUEST")
      else if created
      then ok (proceed key action_data request actor now later (record w { store = store' }))
      else resolve key fingerprint request actor now later w
