-- ===== src/Remediation/Delivery.antt =====
-- What the answer of `process_async` says of the action, and how often a message comes back.
use aws_tagging_utils.Base.{ℕ, ◌+◌, ◌≤◌, ◌<◌, String, Bool, true, false, not}
use aws_tagging_utils.Base.{Option, some, ◌≡◌, refl, ◌∙◌, sym, contains}
use aws_tagging_utils.Base.{Option-cases, Bool-cases, inl, inr, string_eq, ◌==◌, arith}
use aws_tagging_utils.Base.Dict
use aws_tagging_utils.Runtime.{Runtime}
use aws_tagging_utils.State.{
  Store, Action, Status, pending, in_progress, completed, failed, failed_retryable, skipped_exempt,
  status_eq, can_claim, claimed_item, get_remediation_action, claim_remediation_action, is_outcome,
  updated_item, refused_transition, unexpected_status,
}
use aws_tagging_utils.State.Claims.{claimable, get-claim, get-update}
use aws_tagging_utils.State.Steps.{is_terminal}
use aws_tagging_utils.Services.{AwsApi, World, Config, log_audit}
use aws_tagging_utils.Remediation.{
  outcome_updates, exhausted_updates, run_claimed, exhaust, is_exhausted, read_action, claim_action,
}
use aws_tagging_utils.Remediation.Async.{process_async, after_lost_claim}
use aws_tagging_utils.Remediation.Outcomes.{
  get-run_claimed, actions-run_claimed, run_claimed-is_outcome,
}

-- The action of that id is stored, and over.
abbrev pub Over : {W : Type 0} → String → World W → Type 0
Over id w = (a : Action) × ((Dict.get w.store.actions id ≡ some a) × (is_terminal a.status ≡ true))

-- The item that a worker's claim writes, if it claims.
abbrev pub claimed_by : Action → String → ℕ → Action
claimed_by a worker now = claimed_item a (some worker) 300000000 now

pub claim-fields :
    (a : Action) (worker : String) (now : ℕ)
    → ((claimed_by a worker now).status ≡ in_progress)
      × ((claimed_by a worker now).attempt_count ≡ a.attempt_count + 1)
unfolding claimed_item
claim-fields a worker now = ground arith

get-claimed :
    (s : Store) (id worker : String) (max now : ℕ) (a : Action)
    → Dict.get s.actions id ≡ some a
    → (claim_remediation_action s id claimable max (some worker) 300000000 now).1 ≡ true
    → Dict.get
        (claim_remediation_action s id claimable max (some worker) 300000000 now).0.actions
        id
      ≡ some (claimed_by a worker now)
unfolding claim_remediation_action
get-claimed s id worker max now a e h =
    ground (arith, get-claim s id id claimable max (some worker) 300000000 now)

pub terminal-outcome :
    (s : Status) → is_outcome s ≡ true → not (s == failed_retryable) ≡ is_terminal s
unfolding is_outcome status_eq
terminal-outcome pending h = absurd (ground arith)
terminal-outcome in_progress h = absurd (ground arith)
terminal-outcome skipped_exempt h = absurd (ground arith)
terminal-outcome completed h = refl
terminal-outcome failed h = refl
terminal-outcome failed_retryable h = refl

module _ (rt : Runtime) {W : Type 0} (api : AwsApi W) (config : Config) where
  get-exhaust :
      (id actor arn : String) (now : ℕ) (w : World W) (a : Action)
      → Dict.get w.store.actions id ≡ some a
      → is_exhausted rt api config a ≡ true
      → api.faults.update_fails now ≡ false
      → Dict.get (exhaust rt api config id actor arn now w).store.actions id
        ≡ some (updated_item a (exhausted_updates rt api config) now)
  unfolding exhaust log_audit is_exhausted refused_transition unexpected_status status_eq
  get-exhaust id actor arn now w a e h stored = ground (
    arith,
    get-update w.store id id (exhausted_updates rt api config) (some failed_retryable) now,
  )

  abbrev pub claim_of : String → String → ℕ → World W → Store × Bool
  claim_of id worker now w = claim_action rt api config id (some worker) now w

  get-claim_of :
      (id worker : String) (now : ℕ) (w : World W) (a : Action)
      → Dict.get w.store.actions id ≡ some a
      → (claim_of id worker now w).1 ≡ true
      → Dict.get (claim_of id worker now w).0.actions id ≡ some (claimed_by a worker now)
  unfolding claim_action
  get-claim_of id worker now w a e h =
      ground (arith, get-claimed w.store id worker config.max_remediation_attempts now a e)

  -- The run of an action after its claim.
  abbrev pub run_of :
      String → String → ℕ → ℕ → World W → Action → (Status × Option String) × World W
  run_of id worker now later w a =
      run_claimed rt api config id a.requested_tags a.resource_arn a.actor later
        (record w { store = (claim_of id worker now w).0 })

  -- What a run of a claimed action leaves in the store.
  pub get-run_of :
      (id worker : String) (now later : ℕ) (w : World W) (a : Action)
      → Dict.get w.store.actions id ≡ some a
      → (claim_of id worker now w).1 ≡ true
      → api.faults.update_fails later ≡ false
      → Dict.get (run_of id worker now later w a).1.store.actions id
        ≡ some (
            updated_item
              (claimed_by a worker now)
              (outcome_updates rt api config (run_of id worker now later w a).0 later)
              later)
  get-run_of id worker now later w a e h stored =
      get-run_claimed rt api config id a.requested_tags a.resource_arn a.actor later
        (record w { store = (claim_of id worker now w).0 }) (claimed_by a worker now)
        (get-claim_of id worker now w a e h) (claim-fields a worker now).0 stored

  run_of-Over :
      (id worker : String) (now later : ℕ) (w : World W) (a : Action)
      → Dict.get w.store.actions id ≡ some a
      → (claim_of id worker now w).1 ≡ true
      → api.faults.update_fails later ≡ false
      → not ((run_of id worker now later w a).0.0 == failed_retryable) ≡ true
      → Over id (run_of id worker now later w a).1
  unfolding outcome_updates updated_item
  run_of-Over id worker now later w a e h stored done =
      let r = run_of id worker now later w a in
      (
        updated_item (claimed_by a worker now) (outcome_updates rt api config r.0 later) later,
        (
          get-run_of id worker now later w a e h stored,
          sym (
                terminal-outcome r.0.0 (
                  run_claimed-is_outcome rt api config id a.requested_tags a.resource_arn a.actor
                    later (record w { store = (claim_of id worker now w).0 })))
              ∙ done,
        ),
      )

  pub get-read_action :
      (id : String) (now : ℕ) (w : World W) (a : Action)
      → read_action rt api config id now w ≡ some a
      → Dict.get w.store.actions id ≡ some a
  unfolding read_action get_remediation_action
  get-read_action id now w a e = ground arith

  after_lost_claim-Over :
      (id : String) (action : Action) (now : ℕ) (w : World W)
      → api.faults.update_fails now ≡ false
      → (after_lost_claim rt api config id action now w).0 ≡ true
      → Over id (after_lost_claim rt api config id action now w).1
  unfolding after_lost_claim updated_item
  after_lost_claim-Over id action now w stored done =
      elim (Option-cases (read_action rt api config id now w)) [
        | inl e ↦ absurd (ground arith)
        | inr (a, e) ↦ elim (Bool-cases (is_exhausted rt api config a)) [
          | inl f ↦
              rw (e, f, after_lost_claim)
                (
                  updated_item a (exhausted_updates rt api config) now,
                  (
                    get-exhaust id action.actor action.resource_arn now w a
                        (get-read_action id now w a e) f stored,
                    refl,
                  ),
                )
          | inr f ↦
              rw (e, f, after_lost_claim)
                (a, (get-read_action id now w a e, rw (e, f, after_lost_claim) at done))
        ]
      ]

  -- If the store takes the last write, a message is deleted only when its action is stored and
  -- over: COMPLETED, FAILED or SKIPPED_EXEMPT. Its reads and the claim may fail.
  pub process_async-Over :
      (id worker : String) (now later : ℕ) (w : World W)
      → api.faults.update_fails later ≡ false
      → (process_async rt api config id worker now later w).0 ≡ true
      → Over id (process_async rt api config id worker now later w).1
  unfolding process_async
  process_async-Over id worker now later w stored done =
      elim (Option-cases (read_action rt api config id now w)) [
        | inl e ↦ absurd (ground arith)
        | inr (a, e) ↦ elim (Bool-cases (is_terminal a.status)) [
          | inl t ↦ rw (e, t, process_async) (a, (get-read_action id now w a e, t))
          | inr t ↦ elim (Bool-cases (claim_of id worker now w).1) [
            | inl h ↦
                rw (e, t, h, process_async)
                  (run_of-Over id worker now later w a (get-read_action id now w a e) h stored
                    (rw (e, t, h, process_async) at done))
            | inr h ↦
                rw (e, t, h, process_async)
                  (after_lost_claim-Over id a later
                    (record w { store = (claim_of id worker now w).0 }) stored
                    (rw (e, t, h, process_async) at done))
          ]
        ]
      ]

  pub process_async-runs :
      (id worker : String) (now later : ℕ) (w : World W) (a : Action)
      → Dict.get w.store.actions id ≡ some a
      → contains claimable a.status ≡ true
      → a.attempt_count < config.max_remediation_attempts
      → api.faults.read_fails now ≡ false
      → api.faults.claim_fails now ≡ false
      → process_async rt api config id worker now later w ≡ (
        not ((run_of id worker now later w a).0.0 == failed_retryable),
        (run_of id worker now later w a).1,
      )
  unfolding process_async get_remediation_action claim_remediation_action can_claim status_eq
      read_action claim_action
  process_async-runs id worker now later w a e waiting left reads claims = ground arith

  pub process_async-exhausts :
      (id worker : String) (now later : ℕ) (w : World W) (a : Action)
      → Dict.get w.store.actions id ≡ some a
      → a.status ≡ failed_retryable
      → config.max_remediation_attempts ≤ a.attempt_count
      → api.faults.read_fails now ≡ false
      → api.faults.claim_fails now ≡ false
      → api.faults.read_fails later ≡ false
      → (process_async rt api config id worker now later w).0 ≡ true
  unfolding process_async get_remediation_action claim_remediation_action can_claim status_eq
      after_lost_claim is_exhausted read_action claim_action
  process_async-exhausts id worker now later w a e waiting spent reads claims reads' = ground arith

  -- Where the read and the claim at the start do not fail and the last write does: an action that is
  -- PENDING or FAILED_RETRYABLE with attempts left stays as it was claimed, IN_PROGRESS, while the
  -- message is deleted unless the outcome was to be FAILED_RETRYABLE.
  pub process_async-lost :
      (id worker : String) (now later : ℕ) (w : World W) (a : Action)
      → Dict.get w.store.actions id ≡ some a
      → contains claimable a.status ≡ true
      → a.attempt_count < config.max_remediation_attempts
      → api.faults.read_fails now ≡ false
      → api.faults.claim_fails now ≡ false
      → api.faults.update_fails later ≡ true
      → (Dict.get (process_async rt api config id worker now later w).1.store.actions id
          ≡ some (claimed_item a (some worker) 300000000 now))
        × ((claimed_item a (some worker) 300000000 now).status ≡ in_progress)
        × ((process_async rt api config id worker now later w).0
            ≡ not ((run_of id worker now later w a).0.0 == failed_retryable))
  unfolding claim_remediation_action can_claim claim_action status_eq
  process_async-lost id worker now later w a e waiting left reads claims lost =
      let h : (claim_of id worker now w).1 ≡ true = ground arith in
      rw (process_async-runs id worker now later w a e waiting left reads claims) (
        rw
            (actions-run_claimed rt api config id a.requested_tags a.resource_arn a.actor later
              (record w { store = (claim_of id worker now w).0 }) lost)
            (get-claim_of id worker now w a e h),
        (claim-fields a worker now).0,
        refl,
      )
