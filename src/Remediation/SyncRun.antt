-- ===== src/Remediation/SyncRun.antt =====
-- A request to `process_sync` is a run of the steps of `State.Steps` too.
use aws_tagging_utils.Base.{ℕ, String, not, ◌&&◌, ◌||◌, none, ◌≡◌, refl}
use aws_tagging_utils.Base.{Option-cases, Bool-cases, inl, inr, string_eq, ◌==◌}
use aws_tagging_utils.Runtime.{Runtime}
use aws_tagging_utils.Errors.{Result, ok, err}
use aws_tagging_utils.Governance.Models.{Tags}
use aws_tagging_utils.State.{
  Action, in_progress, skipped_exempt, status_eq, get_remediation_action, create_remediation_action,
}
use aws_tagging_utils.State.Steps
use aws_tagging_utils.State.Steps.{Step, Run, is_terminal, start, next}
use aws_tagging_utils.Exemptions.{Calendar, is_exempt}
use aws_tagging_utils.Services.{AwsApi, World, Config, log_audit}
use aws_tagging_utils.Remediation.{claim_action, is_exhausted, extract_type, extract_account}
use aws_tagging_utils.Remediation.Sync.{
  Request, lost_claim, claim_and_run, proceed, resolve, process_sync, new_action, key_or, stored_or,
}
use aws_tagging_utils.Remediation.Refinement.{
  claim_action-Runs, Run-append, Runs, run_claimed-Runs, exhaust-Runs,
}

module _ (rt : Runtime) (cal : Calendar) {W : Type 0} (api : AwsApi W) (config : Config)
    (fingerprint_of : String → String → Tags → String) where
  lost_claim-Runs :
      (id : String) (a : Action) (request : Request) (actor : String) (now : ℕ) (w : World W)
      → Runs rt api config w
          (lost_claim rt cal api config fingerprint_of id a request actor now w).1
  unfolding lost_claim
  lost_claim-Runs id a request actor now w =
      elim (Bool-cases
        (is_exhausted rt api config (stored_or (get_remediation_action w.store id) a))) [
          | inl e ↦
              rw (e, lost_claim) (exhaust-Runs rt api config id actor request.resource_arn now w)
          | inr e ↦ rw (e, lost_claim) start
        ]

  claim_and_run-Runs :
      (id : String) (a : Action) (request : Request) (actor : String) (now later : ℕ) (w : World W)
      → Runs rt api config w
          (claim_and_run rt cal api config fingerprint_of id a request actor now later w).1
  unfolding claim_and_run
  claim_and_run-Runs id a request actor now later w =
      let c = claim_action rt api config id none now w in
      let w' = record w { store = c.0 } in
      let first = claim_action-Runs rt api config id none now w in
      elim (Bool-cases c.1) [
        | inl h ↦
            rw (h, claim_and_run)
              (Run-append first (
                run_claimed-Runs rt api config id request.requested_tags request.resource_arn actor
                  later w'))
        | inr h ↦
            rw (h, claim_and_run) (Run-append first (lost_claim-Runs id a request actor later w'))
      ]

  proceed-Runs :
      (id : String) (a : Action) (request : Request) (actor : String) (now later : ℕ) (w : World W)
      → Runs rt api config w
          (proceed rt cal api config fingerprint_of id a request actor now later w).1
  unfolding proceed log_audit
  proceed-Runs id a request actor now later w = elim (Bool-cases (a.status == skipped_exempt)) [
    | inl e ↦ rw (e, proceed) start
    | inr e ↦ rw (e, proceed) (claim_and_run-Runs id a request actor now later w)
  ]

  -- A result that is no error is reached by a run.
  abbrev ResultRuns : World W → Result (Action × World W) → Type 0
  ResultRuns w (ok (a, w')) = Runs rt api config w w'
  ResultRuns w (err m) = Unit

  resolve-Runs :
      (id fingerprint : String) (request : Request) (actor : String) (now later : ℕ) (w : World W)
      → ResultRuns w
          (resolve rt cal api config fingerprint_of id fingerprint request actor now later w)
  unfolding resolve
  resolve-Runs id fingerprint request actor now later w =
      elim (Option-cases (get_remediation_action w.store id)) [
        | inl e ↦ rw (e, resolve) tt
        | inr (a, e) ↦
            let mismatch =
              not (a.request_fingerprint == "") && not (a.request_fingerprint == fingerprint) in
            elim (Bool-cases mismatch) [
              | inl h ↦ rw (e, h, resolve) tt
              | inr h ↦ elim (Bool-cases (a.status == in_progress || is_terminal a.status)) [
                | inl t ↦ rw (e, h, t, resolve) start
                | inr t ↦ rw (e, h, t, resolve) (proceed-Runs id a request actor now later w)
              ]
            ]
      ]

  process_sync-ResultRuns :
      (request : Request) (actor request_id : String) (now later : ℕ) (w : World W)
      → ResultRuns w
          (process_sync rt cal api config fingerprint_of request actor request_id now later w)
  unfolding process_sync new_action
  process_sync-ResultRuns request actor request_id now later w =
      let arn = request.resource_arn in
      let fingerprint = fingerprint_of arn (extract_type arn) request.requested_tags in
      let key = key_or request.idempotency_key fingerprint in
      let exemption = is_exempt cal w.store now (extract_account arn) (extract_type arn) arn none in
      let a = new_action request key fingerprint exemption actor request_id now in
      let c = create_remediation_action w.store a in
      elim (Bool-cases (arn == "" || not request.tags_are_dict)) [
        | inl e ↦ rw (e, process_sync) tt
        | inr e ↦ elim (Bool-cases c.1) [
          | inl h ↦
              rw (e, h, process_sync)
                (Run-append (next start (Steps.create a refl))
                  (proceed-Runs key a request actor now later (record w { store = c.0 })))
          | inr h ↦ rw (e, h, process_sync) (resolve-Runs key fingerprint request actor now later w)
        ]
      ]

  -- A request that is answered with an action is a run of steps on the store.
  process_sync-Run :
      (request : Request) (actor request_id : String) (now later : ℕ) (w w' : World W) (a : Action)
      → process_sync rt cal api config fingerprint_of request actor request_id now later w
        ≡ ok (a, w')
      → Run config.max_remediation_attempts w.store w'.store
  process_sync-Run request actor request_id now later w w' a e =
      let h = process_sync-ResultRuns request actor request_id now later w in rw e at h
