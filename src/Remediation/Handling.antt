-- ===== src/Remediation/Handling.antt =====
-- What a worker may do to the store with one message, as a relation, and that it does no more and
-- no less.
use aws_tagging_utils.Base.{ℕ, ◌≤◌, String, true, false, ◌||◌, Option, none, some, ◌≡◌, ap}
use aws_tagging_utils.Base.{Option-cases, Bool-cases, inl, inr, string_eq, ◌⊎◌, arith}
use aws_tagging_utils.Base.Dict
use aws_tagging_utils.Runtime.{Runtime}
use aws_tagging_utils.Governance.Models.{Tags}
use aws_tagging_utils.State.{
  Store, Action, Status, in_progress, failed, failed_retryable, status_eq, is_outcome, apart,
  can_claim, get_remediation_action, claim_remediation_action, Updates, update_remediation_action,
}
use aws_tagging_utils.State.Claims.{claimable}
use aws_tagging_utils.State.Steps.{is_terminal}
use aws_tagging_utils.Services.{AwsApi, Faults, World, Config, log_audit}
use aws_tagging_utils.Remediation.{
  execute_tag_mutation, outcome_updates, exhausted_updates, run_claimed, exhaust, entry,
  is_exhausted, read_action, claim_action, update_action,
}
use aws_tagging_utils.Remediation.Async.{process_async, after_lost_claim}
use aws_tagging_utils.Remediation.Outcomes.{
  apart-execute_tag_mutation, execute_tag_mutation-is_outcome,
}
use aws_tagging_utils.Remediation.Delivery.{claim_of, get-read_action}

-- The update with an outcome: its status, the time, and the error code if there is one.
abbrev pub outcome_at : Status → Option String → ℕ → Updates
outcome_at status code later = record {
  status = some status;
  last_attempt_at = some later;
  last_error_code = code;
}

abbrev pub given_up : Updates
given_up = record {
  status = some failed;
  last_attempt_at = none;
  last_error_code = some "MAX_RETRIES_EXHAUSTED";
}

-- The store before and after one message for the action `id`, with at most `max` attempts, by a
-- worker that starts at `now` and has its answer from AWS at `later`.
pub data Handled (faults : Faults) (max : ℕ) (id worker : String) (now later : ℕ) (s : Store)
    : Store → Type 0 where
  -- nothing, where the action cannot be claimed or a call fails
  untouched :
      ((claim_remediation_action s id claimable max (some worker) 300000000 now).1 ≡ false)
        ⊎ ((faults.read_fails now || faults.claim_fails now) ≡ true)
      → Handled faults max id worker now later s s
  -- the move to FAILED of an action without attempts left
  gave_up :
      (a : Action)
      → Dict.get s.actions id ≡ some a
      → a.status ≡ failed_retryable
      → max ≤ a.attempt_count
      → Handled faults max id worker now later s
          (update_remediation_action s id given_up (some failed_retryable) later).0
  -- a claim, writes to baselines, and the outcome
  attempted :
      (claimed tagged : Store) (status : Status) (code : Option String)
      → claim_remediation_action s id claimable max (some worker) 300000000 now ≡ (claimed, true)
      → apart tagged ≡ apart claimed
      → is_outcome status ≡ true
      → Handled faults max id worker now later s
          (update_remediation_action tagged id
            (outcome_at status code later)
            (some in_progress)
            later).0
  -- a claim and writes to baselines, where the store does not take the outcome
  unfinished :
      (claimed tagged : Store)
      → claim_remediation_action s id claimable max (some worker) 300000000 now ≡ (claimed, true)
      → apart tagged ≡ apart claimed
      → faults.update_fails later ≡ true
      → Handled faults max id worker now later s tagged

module _ (rt : Runtime) {W : Type 0} (api : AwsApi W) (config : Config) (id worker : String)
    (now later : ℕ) where
  Handles : Store → World W → Type 0
  Handles s w = Handled api.faults config.max_remediation_attempts id worker now later s w.store

  no_claim :
      (w : World W)
      → (claim_of rt api config id worker now w).1 ≡ false
      → ((claim_remediation_action w.store id claimable config.max_remediation_attempts
            (some worker)
            300000000
            now).1
          ≡ false)
        ⊎ ((api.faults.read_fails now || api.faults.claim_fails now) ≡ true)
  unfolding claim_action
  no_claim w h = ground arith

  no_claim-store :
      (w : World W)
      → (claim_of rt api config id worker now w).1 ≡ false
      → (claim_of rt api config id worker now w).0 ≡ w.store
  unfolding claim_action claim_remediation_action
  no_claim-store w h = ground arith

  won_claim :
      (w : World W)
      → (claim_of rt api config id worker now w).1 ≡ true
      → claim_remediation_action w.store id claimable config.max_remediation_attempts
          (some worker)
          300000000
          now
        ≡ ((claim_of rt api config id worker now w).0, true)
  unfolding claim_action
  won_claim w h =
      let c =
        claim_remediation_action w.store id claimable config.max_remediation_attempts (some worker)
          300000000 now in
      elim (Bool-cases (api.faults.claim_fails now)) [
        | inl e ↦ absurd (ground arith)
        | inr e ↦ rw (e, claim_action) (ap (λ b. (c.0, b)) (rw (e, claim_action) at h))
      ]

  not_read :
      (w : World W)
      → read_action rt api config id now w ≡ none
      → ((claim_remediation_action w.store id claimable config.max_remediation_attempts
            (some worker)
            300000000
            now).1
          ≡ false)
        ⊎ ((api.faults.read_fails now || api.faults.claim_fails now) ≡ true)
  unfolding read_action get_remediation_action claim_remediation_action
  not_read w e = ground arith

  read_over :
      (w : World W) (a : Action)
      → read_action rt api config id now w ≡ some a
      → is_terminal a.status ≡ true
      → (claim_remediation_action w.store id claimable config.max_remediation_attempts
          (some worker)
          300000000
          now).1
        ≡ false
  unfolding read_action get_remediation_action claim_remediation_action can_claim status_eq
  read_over w a e t = ground arith

  run_claimed-Handles :
      (tags : Tags) (arn actor : String) (w : World W)
      → (claim_of rt api config id worker now w).1 ≡ true
      → Handles w.store
          (run_claimed rt api config id tags arn actor later
            (record w { store = (claim_of rt api config id worker now w).0 })).1
  unfolding Handles run_claimed log_audit update_action outcome_updates
  run_claimed-Handles tags arn actor w h =
      let w' = record w { store = (claim_of rt api config id worker now w).0 } in
      let begun = log_audit (entry rt api config actor "REMEDIATE_STARTED" arn) w' in
      let r = execute_tag_mutation rt api config tags arn later begun in
      let same = apart-execute_tag_mutation rt api config tags arn later begun in
      elim (Bool-cases (api.faults.update_fails later)) [
        | inl e ↦ rw (e, run_claimed) (unfinished w'.store r.1.store (won_claim w h) same e)
        | inr e ↦
            rw (e, run_claimed)
              (attempted w'.store r.1.store r.0.0 r.0.1 (won_claim w h) same
                (execute_tag_mutation-is_outcome rt api config tags arn later begun))
      ]

  exhaust-Handles :
      (actor arn : String) (w : World W) (a : Action)
      → (claim_of rt api config id worker now w).1 ≡ false
      → Dict.get w.store.actions id ≡ some a
      → is_exhausted rt api config a ≡ true
      → Handles w.store (exhaust rt api config id actor arn later w)
  unfolding Handles exhaust log_audit update_action is_exhausted status_eq
  exhaust-Handles actor arn w a h e f =
      let u =
        update_remediation_action w.store id (exhausted_updates rt api config)
          (some failed_retryable) later in
      elim (Bool-cases (api.faults.update_fails later)) [
        | inl g ↦ rw (g, exhaust) (untouched (no_claim w h))
        | inr g ↦ elim (Bool-cases u.1) [
          | inl d ↦ rw (g, d, exhaust) (gave_up a e (ground arith) (ground arith))
          | inr d ↦ rw (g, d, exhaust) (gave_up a e (ground arith) (ground arith))
        ]
      ]

  after_lost_claim-Handles :
      (action : Action) (w : World W)
      → (claim_of rt api config id worker now w).1 ≡ false
      → Handles w.store (after_lost_claim rt api config id action later w).1
  unfolding Handles after_lost_claim
  after_lost_claim-Handles action w h = elim (Option-cases (read_action rt api config id later w)) [
    | inl e ↦ rw (e, after_lost_claim) (untouched (no_claim w h))
    | inr (a, e) ↦ elim (Bool-cases (is_exhausted rt api config a)) [
      | inl f ↦
          rw (e, f, after_lost_claim)
            (exhaust-Handles action.actor action.resource_arn w a h
              (get-read_action rt api config id later w a e) f)
      | inr f ↦ rw (e, f, after_lost_claim) (untouched (no_claim w h))
    ]
  ]

  -- A message changes the store in one of four ways: nothing, where the action cannot be claimed or
  -- a call of the store fails; a claim, writes to baselines only, and the update with an outcome; the
  -- same without the update, only where the update fails; or the move to FAILED of an action that is
  -- FAILED_RETRYABLE with no attempt left.
  pub process_async-Handled :
      (w : World W)
      → Handled api.faults config.max_remediation_attempts id worker now later w.store
          (process_async rt api config id worker now later w).1.store
  unfolding process_async Handles
  process_async-Handled w = elim (Option-cases (read_action rt api config id now w)) [
    | inl e ↦ rw (e, process_async) (untouched (not_read w e))
    | inr (a, e) ↦ elim (Bool-cases (is_terminal a.status)) [
      | inl t ↦ rw (e, t, process_async) (untouched (inl (read_over w a e t)))
      | inr t ↦
          let c = claim_of rt api config id worker now w in
          elim (Bool-cases c.1) [
            | inl h ↦
                rw (e, t, h, process_async)
                  (run_claimed-Handles a.requested_tags a.resource_arn a.actor w h)
            | inr h ↦
                rw (e, t, h, no_claim-store w h, process_async) (after_lost_claim-Handles a w h)
          ]
    ]
  ]
