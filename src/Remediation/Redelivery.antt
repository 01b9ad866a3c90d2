-- ===== src/Remediation/Redelivery.antt =====
-- A queue that delivers a message again until it may be deleted.
use aws_tagging_utils.Base.{ℕ, suc, ◌+◌, ◌≤◌, ◌<◌, String, Bool, true, false, not}
use aws_tagging_utils.Base.{some, List, [], ◌∷◌, ◌≡◌, refl, contains, length, All, Bool-cases}
use aws_tagging_utils.Base.{inl, inr, string_eq, ◌==◌, arith, ◌⊎◌}
use aws_tagging_utils.Base.Dict
use aws_tagging_utils.Runtime.{Runtime}
use aws_tagging_utils.State.{
  Action, Status, pending, in_progress, completed, failed, failed_retryable, skipped_exempt,
  status_eq, is_outcome, updated_item, claim_remediation_action, can_claim,
}
use aws_tagging_utils.State.Claims.{claimable}
use aws_tagging_utils.Services.{AwsApi, World, Config}
use aws_tagging_utils.Remediation.{outcome_updates, claim_action}
use aws_tagging_utils.Remediation.Async.{process_async}
use aws_tagging_utils.Remediation.Outcomes.{run_claimed-is_outcome}
use aws_tagging_utils.Remediation.Delivery.{
  process_async-runs, process_async-exhausts, get-run_of, run_of, claim_of, claim-fields, Over,
  process_async-Over, claimed_by,
}

-- A delivery: the worker, the time at which it starts and the time after its AWS call.
pub record Delivery : Type 0 where
  pub worker_id : String
  pub now : ℕ
  pub later : ℕ

outcome-cases :
    (s : Status)
    → is_outcome s ≡ true
    → (not (s == failed_retryable) ≡ true) ⊎ (s ≡ failed_retryable)
unfolding is_outcome status_eq
outcome-cases pending h = absurd (ground arith)
outcome-cases in_progress h = absurd (ground arith)
outcome-cases skipped_exempt h = absurd (ground arith)
outcome-cases completed h = inl refl
outcome-cases failed h = inl refl
outcome-cases failed_retryable h = inr refl

module _ (rt : Runtime) {W : Type 0} (api : AwsApi W) (config : Config) where
  -- Deliver until the answer is that the message can go.
  unfoldable pub deliver : String → List Delivery → World W → Bool × World W
  deliver id [] w = (false, w)
  deliver id (d ∷ ds) w =
      let (done, w') = process_async rt api config id d.worker_id d.now d.later w in
      elim done [ true ↦ (true, w') | false ↦ deliver id ds w' ]

  -- The calls of the store on the action do not fail.
  abbrev pub Reaches : Delivery → Type 0
  Reaches d =
      (api.faults.read_fails d.now ≡ false)
      × (api.faults.claim_fails d.now ≡ false)
      × (api.faults.read_fails d.later ≡ false)
      × (api.faults.update_fails d.later ≡ false)

  -- An action that can be claimed, or has no attempt left, with `n` deliveries that are enough.
  abbrev pub Waits : String → ℕ → World W → Type 0
  Waits id n w =
      (a : Action) × ((Dict.get w.store.actions id ≡ some a)
        × (((a.status ≡ failed_retryable) × (a.attempt_count ≤ config.max_remediation_attempts))
            ⊎ ((a.status ≡ pending) × (a.attempt_count < config.max_remediation_attempts)))
        × (config.max_remediation_attempts < a.attempt_count + n))

  claim-wins :
      (id worker : String) (now : ℕ) (w : World W) (a : Action)
      → Dict.get w.store.actions id ≡ some a
      → contains claimable a.status ≡ true
      → a.attempt_count < config.max_remediation_attempts
      → api.faults.claim_fails now ≡ false
      → (claim_of rt api config id worker now w).1 ≡ true
  unfolding claim_action claim_remediation_action can_claim
  claim-wins id worker now w a e waiting left claims = ground arith

  -- The first delivery of an action with attempts left: it is over, or waits with one attempt less.
  deliver-step :
      (id worker : String) (now later n : ℕ) (w : World W) (a : Action)
      → Dict.get w.store.actions id ≡ some a
      → contains claimable a.status ≡ true
      → a.attempt_count < config.max_remediation_attempts
      → config.max_remediation_attempts < a.attempt_count + suc n
      → Reaches (record { worker_id = worker; now = now; later = later })
      → ((process_async rt api config id worker now later w).0 ≡ true)
        ⊎ (((process_async rt api config id worker now later w).0 ≡ false)
            × Waits id n (process_async rt api config id worker now later w).1)
  unfolding outcome_updates updated_item status_eq
  deliver-step id worker now later n w a e waiting left enough (reads, claims, more, stored) =
      let r = run_of rt api config id worker now later w a in
      let h = claim-wins id worker now w a e waiting left claims in
      rw (process_async-runs rt api config id worker now later w a e waiting left reads claims)
        (elim (outcome-cases r.0.0 (
          run_claimed-is_outcome rt api config id a.requested_tags a.resource_arn a.actor later
            (record w { store = (claim_of rt api config id worker now w).0 }))) [
              | inl done ↦ inl done
              | inr again ↦ inr (
                rw again refl,
                (
                  updated_item (claimed_by a worker now) (outcome_updates rt api config r.0 later)
                      later,
                  (
                    get-run_of rt api config id worker now later w a e h stored,
                    inl (again, omega (arith, (claim-fields a worker now).1)),
                    omega (arith, (claim-fields a worker now).1),
                  ),
                ),
              )
            ])

  Waits-cases :
      (id : String) (n : ℕ) (w : World W) (a : Action)
      → ((a.status ≡ failed_retryable) × (a.attempt_count ≤ config.max_remediation_attempts))
        ⊎ ((a.status ≡ pending) × (a.attempt_count < config.max_remediation_attempts))
      → ((contains claimable a.status ≡ true) × (a.attempt_count < config.max_remediation_attempts))
        ⊎ ((a.status ≡ failed_retryable) × (config.max_remediation_attempts ≤ a.attempt_count))
  unfolding status_eq
  Waits-cases id n w a waits = ground arith

  deliver-ends :
      (id : String) (ds : List Delivery) (w : World W)
      → Waits id (length ds) w
      → All Reaches ds
      → (deliver id ds w).0 ≡ true
  unfolding deliver
  deliver-ends id [] w (a, (e, waits, enough)) all = absurd (ground arith)
  deliver-ends id (d ∷ ds) w (a, (e, waits, enough)) ((reads, claims, more, stored), all) =
      elim (Waits-cases id (length ds) w a waits) [
        | inl (waiting, left) ↦
            elim (deliver-step id d.worker_id d.now d.later (length ds) w a e waiting left enough
              (reads, claims, more, stored)) [
                | inl done ↦ rw (done, deliver) refl
                | inr (kept, again) ↦
                    rw (kept, deliver)
                      (deliver-ends id ds
                        (process_async rt api config id d.worker_id d.now d.later w).1 again all)
              ]
        | inr (waiting, spent) ↦
            rw
              (
                process_async-exhausts rt api config id d.worker_id d.now d.later w a e waiting
                    spent reads claims more,
                deliver,
              )
              refl
      ]

  deliver-Over :
      (id : String) (ds : List Delivery) (w : World W)
      → All Reaches ds
      → (deliver id ds w).0 ≡ true
      → Over id (deliver id ds w).1
  unfolding deliver
  deliver-Over id [] w all done = absurd (cc)
  deliver-Over id (d ∷ ds) w ((reads, claims, more, stored), all) done =
      let r = process_async rt api config id d.worker_id d.now d.later w in
      elim (Bool-cases r.0) [
        | inl e ↦
            rw (e, deliver)
              (process_async-Over rt api config id d.worker_id d.now d.later w stored e)
        | inr e ↦ rw (e, deliver) (deliver-Over id ds r.1 all (rw (e, deliver) at done))
      ]

  -- An action that is PENDING with attempts left, or FAILED_RETRYABLE within the limit, is over
  -- (COMPLETED, FAILED or SKIPPED_EXEMPT) after one delivery more than it has attempts left, and
  -- the message is deleted, whatever AWS answers, if the store's calls on actions do not fail and
  -- nothing else changes the store in between.
  pub deliver-Waits :
      (id : String) (ds : List Delivery) (w : World W)
      → Waits id (length ds) w
      → All Reaches ds
      → ((deliver id ds w).0 ≡ true) × Over id (deliver id ds w).1
  deliver-Waits id ds w waits all =
      let done = deliver-ends id ds w waits all in (done, deliver-Over id ds w all done)
