-- ===== src/Remediation/Async.antt =====
-- `process_async`: the worker's entry point.
use aws_tagging_utils.Base.{ℕ, String, Bool, true, false, not, none, some, ◌==◌}
use aws_tagging_utils.Base.{if◌then◌else◌}
use aws_tagging_utils.Runtime.{Runtime}
use aws_tagging_utils.State.{Action, status_eq, failed_retryable}
use aws_tagging_utils.State.Steps.{is_terminal}
use aws_tagging_utils.Services.{AwsApi, World, Config}
use aws_tagging_utils.Remediation.{read_action, claim_action, run_claimed, is_exhausted, exhaust}

module _ (rt : Runtime) {W : Type 0} (api : AwsApi W) (config : Config) where
  -- After a claim that failed: whether the message can go.
  unfoldable pub after_lost_claim : String → Action → ℕ → World W → Bool × World W
  unfolding read_action
  after_lost_claim action_id action later w = elim (read_action rt api config action_id later w) [
    | none ↦ (false, w)
    | some action_after ↦
        if is_exhausted rt api config action_after
        then (true, exhaust rt api config action_id action.actor action.resource_arn later w)
        else (is_terminal action_after.status, w)
  ]

  -- The answer is whether the message is to be deleted from the queue. The lease lasts 300 seconds
  -- on a clock of microseconds.
  unfoldable pub process_async : String → String → ℕ → ℕ → World W → Bool × World W
  unfolding after_lost_claim read_action claim_action
  process_async action_id worker_id now later w = elim (read_action rt api config action_id now w) [
    | none ↦ (false, w)
    | some action ↦
        if is_terminal action.status
        then (true, w)
        else let (store', claimed) = claim_action rt api config action_id (some worker_id) now w in
          let w' = record w { store = store' } in
          if claimed
          then (let ((new_status, error_code), finished) =
                run_claimed rt api config action_id action.requested_tags action.resource_arn
                  action.actor later w' in
              (not (new_status == failed_retryable), finished))
          else after_lost_claim action_id action later w'
  ]
