-- ===== src/Remediation/Refinement.antt =====
-- The engine refines the step relation of `State.Steps`: every call of it is a run of steps.
use aws_tagging_utils.Base.{ℕ, String, Bool, true, false, Option, some}
use aws_tagging_utils.Base.{Option-cases, Bool-cases, inl, inr, string_eq, if◌then◌else◌}
use aws_tagging_utils.Runtime.{Runtime}
use aws_tagging_utils.Governance.Models.{Tags}
use aws_tagging_utils.State.{Store, Action, in_progress, failed_retryable, Updates}
use aws_tagging_utils.State.Steps
use aws_tagging_utils.State.Steps.{Step, Run, is_terminal, start, next}
use aws_tagging_utils.Services.{AwsApi, World, Config, log_audit}
use aws_tagging_utils.Remediation.{
  execute_tag_mutation, outcome_updates, exhausted_updates, run_claimed, exhaust, entry,
  is_exhausted, read_action, claim_action, update_action,
}
use aws_tagging_utils.Remediation.Async.{process_async, after_lost_claim}
use aws_tagging_utils.Remediation.Outcomes.{actions-execute_tag_mutation}

pub Run-append : {max : ℕ} {s t u : Store} → Run max s t → Run max t u → Run max s u
Run-append r start = r
Run-append r (next q st) = next (Run-append r q) st

module _ (rt : Runtime) {W : Type 0} (api : AwsApi W) (config : Config) where
  abbrev pub Runs : World W → World W → Type 0
  Runs w w' = Run config.max_remediation_attempts w.store w'.store

  update_action-Runs :
      (id : String) (updates : Updates) (retried : Bool) (now : ℕ) (w : World W)
      → Run config.max_remediation_attempts w.store
          (update_action rt api config id updates
            (some (if retried then failed_retryable else in_progress))
            now
            w).0
  unfolding update_action
  update_action-Runs id updates retried now w = elim (Bool-cases (api.faults.update_fails now)) [
    | inl e ↦ rw (e, update_action) start
    | inr e ↦
        rw (e, update_action)
          (elim (Bool-cases retried) [
            | inl r ↦ rw r (next start (Steps.exhaust id updates now))
            | inr r ↦ rw r (next start (Steps.finish id updates now))
          ])
  ]

  pub claim_action-Runs :
      (id : String) (worker : Option String) (now : ℕ) (w : World W)
      → Run config.max_remediation_attempts w.store (claim_action rt api config id worker now w).0
  unfolding claim_action
  claim_action-Runs id worker now w = elim (Bool-cases (api.faults.claim_fails now)) [
    | inl e ↦ rw (e, claim_action) start
    | inr e ↦ rw (e, claim_action) (next start (Steps.claim id worker 300000000 now))
  ]

  pub run_claimed-Runs :
      (id : String) (tags : Tags) (arn actor : String) (later : ℕ) (w : World W)
      → Runs w (run_claimed rt api config id tags arn actor later w).1
  unfolding run_claimed log_audit
  run_claimed-Runs id tags arn actor later w =
      let begun = log_audit (entry rt api config actor "REMEDIATE_STARTED" arn) w in
      let (outcome, mutated) = execute_tag_mutation rt api config tags arn later begun in
      Run-append
        (next start
          (Steps.elsewhere (actions-execute_tag_mutation rt api config tags arn later begun)))
        (update_action-Runs id (outcome_updates rt api config outcome later) false later mutated)

  pub exhaust-Runs :
      (id actor arn : String) (now : ℕ) (w : World W)
      → Runs w (exhaust rt api config id actor arn now w)
  unfolding exhaust log_audit
  exhaust-Runs id actor arn now w =
      let run = update_action-Runs id (exhausted_updates rt api config) true now w in
      let u =
        update_action rt api config id (exhausted_updates rt api config) (some failed_retryable) now
          w in
      elim (Bool-cases u.1) [ inl e ↦ rw (e, exhaust) run | inr e ↦ rw (e, exhaust) run ]

  after_lost_claim-Runs :
      (id : String) (action : Action) (now : ℕ) (w : World W)
      → Runs w (after_lost_claim rt api config id action now w).1
  unfolding after_lost_claim
  after_lost_claim-Runs id action now w = elim (Option-cases (read_action rt api config id now w)) [
    | inl e ↦ rw (e, after_lost_claim) start
    | inr (a, e) ↦ elim (Bool-cases (is_exhausted rt api config a)) [
      | inl f ↦ rw (e, f, after_lost_claim) (exhaust-Runs id action.actor action.resource_arn now w)
      | inr f ↦ rw (e, f, after_lost_claim) start
    ]
  ]

  -- Whatever a worker does with a message is a run of steps on the store.
  pub process_async-Run :
      (id worker : String) (now later : ℕ) (w : World W)
      → Run config.max_remediation_attempts w.store
          (process_async rt api config id worker now later w).1.store
  unfolding process_async
  process_async-Run id worker now later w =
      elim (Option-cases (read_action rt api config id now w)) [
        | inl e ↦ rw (e, process_async) start
        | inr (a, e) ↦ elim (Bool-cases (is_terminal a.status)) [
          | inl t ↦ rw (e, t, process_async) start
          | inr t ↦
              let c = claim_action rt api config id (some worker) now w in
              let w' = record w { store = c.0 } in
              let first = claim_action-Runs id (some worker) now w in
              elim (Bool-cases c.1) [
                | inl h ↦
                    rw (e, t, h, process_async)
                      (Run-append first
                        (run_claimed-Runs id a.requested_tags a.resource_arn a.actor later w'))
                | inr h ↦
                    rw (e, t, h, process_async)
                      (Run-append first (after_lost_claim-Runs id a later w'))
              ]
        ]
      ]
