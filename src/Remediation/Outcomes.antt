-- ===== src/Remediation/Outcomes.antt =====
-- What the tag mutation and the steps after a claim do to the stored actions.
use aws_tagging_utils.Base.{ℕ, String, true, false, Option, none, some, ◌≡◌, refl, ap}
use aws_tagging_utils.Base.{[], ◌∷◌, arith, string_eq}
use aws_tagging_utils.Base.Dict
use aws_tagging_utils.Runtime.{Runtime}
use aws_tagging_utils.Governance.Models.{Tags}
use aws_tagging_utils.Governance.Engine.{evaluate}
use aws_tagging_utils.State.{
  Action, apart, in_progress, status_eq, is_outcome, refused_transition, unexpected_status,
  updated_item,
}
use aws_tagging_utils.State.Claims.{get-update}
use aws_tagging_utils.Services.{Failure, AwsApi, World, Config, log_audit}
use aws_tagging_utils.TagWriter.{Results, tag_resources}
use aws_tagging_utils.TagWriter.Batches.{apart-tag_resources}
use aws_tagging_utils.Remediation.{
  classify, governance_engine, execute_tag_mutation, outcome_updates, run_claimed, entry,
}

classify-is_outcome : (f : Option Failure) → is_outcome (classify f).0 ≡ true
unfolding classify is_outcome
classify-is_outcome none = refl
classify-is_outcome (some f) = ground arith

module _ (rt : Runtime) {W : Type 0} (api : AwsApi W) (config : Config) where
  abbrev mutation : Tags → String → ℕ → World W → Results × World W
  mutation tags arn now w =
      tag_resources api config
        (evaluate rt (governance_engine rt api config) tags (some arn) [] false).normalized_tags now
        (arn ∷ []) config.default_region w

  -- A mutation ends in COMPLETED, FAILED or FAILED_RETRYABLE.
  pub execute_tag_mutation-is_outcome :
      (tags : Tags) (arn : String) (now : ℕ) (w : World W)
      → is_outcome (execute_tag_mutation rt api config tags arn now w).0.0 ≡ true
  unfolding execute_tag_mutation is_outcome
  execute_tag_mutation-is_outcome tags arn now w =
      ground
        (arith, classify-is_outcome (Dict.get (mutation tags arn now w).0.failed_resources arn))

  -- A mutation writes baselines, and no action or exemption.
  pub apart-execute_tag_mutation :
      (tags : Tags) (arn : String) (now : ℕ) (w : World W)
      → apart (execute_tag_mutation rt api config tags arn now w).1.store ≡ apart w.store
  unfolding execute_tag_mutation
  apart-execute_tag_mutation tags arn now w = ground (
    arith,
    apart-tag_resources api config
        (evaluate rt (governance_engine rt api config) tags (some arn) [] false).normalized_tags now
        (arn ∷ []) config.default_region w,
  )

  pub actions-execute_tag_mutation :
      (tags : Tags) (arn : String) (now : ℕ) (w : World W)
      → (execute_tag_mutation rt api config tags arn now w).1.store.actions ≡ w.store.actions
  actions-execute_tag_mutation tags arn now w =
      ap (λ p. p.0) (apart-execute_tag_mutation tags arn now w)

  -- What a run after a claim writes: its outcome, on the action that it claimed.
  pub get-run_claimed :
      (id : String) (tags : Tags) (arn actor : String) (later : ℕ) (w : World W) (a : Action)
      → Dict.get w.store.actions id ≡ some a
      → a.status ≡ in_progress
      → api.faults.update_fails later ≡ false
      → Dict.get (run_claimed rt api config id tags arn actor later w).1.store.actions id
        ≡ some (
            updated_item a
              (outcome_updates rt api config
                (run_claimed rt api config id tags arn actor later w).0
                later)
              later)
  unfolding run_claimed log_audit refused_transition unexpected_status outcome_updates status_eq
  get-run_claimed id tags arn actor later w a e running stored =
      let started = log_audit (entry rt api config actor "REMEDIATE_STARTED" arn) w in
      let (outcome, mutated) = execute_tag_mutation rt api config tags arn later started in
      ground (
        arith,
        get-update mutated.store id id (outcome_updates rt api config outcome later)
            (some in_progress) later,
        actions-execute_tag_mutation tags arn later started,
        execute_tag_mutation-is_outcome tags arn later started,
      )

  -- Where the last write fails, the actions are as they were.
  pub actions-run_claimed :
      (id : String) (tags : Tags) (arn actor : String) (later : ℕ) (w : World W)
      → api.faults.update_fails later ≡ true
      → (run_claimed rt api config id tags arn actor later w).1.store.actions ≡ w.store.actions
  unfolding run_claimed log_audit
  actions-run_claimed id tags arn actor later w lost =
      let started = log_audit (entry rt api config actor "REMEDIATE_STARTED" arn) w in
      ground (arith, actions-execute_tag_mutation tags arn later started)

  pub run_claimed-is_outcome :
      (id : String) (tags : Tags) (arn actor : String) (later : ℕ) (w : World W)
      → is_outcome (run_claimed rt api config id tags arn actor later w).0.0 ≡ true
  unfolding run_claimed
  run_claimed-is_outcome id tags arn actor later w =
      execute_tag_mutation-is_outcome tags arn later
        (log_audit (entry rt api config actor "REMEDIATE_STARTED" arn) w)
