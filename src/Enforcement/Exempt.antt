-- ===== src/Enforcement/Exempt.antt =====
-- Enforcement skips a resource that is exempt.
use aws_tagging_utils.Base.{refl, ℕ, String, ◌≡◌, true, false, none, some, [], arith}
use aws_tagging_utils.Base.{◌==◌, string_eq}
use aws_tagging_utils.Base.Dict
use aws_tagging_utils.Runtime.{Runtime}
use aws_tagging_utils.Errors.{ok}
use aws_tagging_utils.Governance.Models.{Tags, ValidationResult}
use aws_tagging_utils.Governance.Engine.{evaluate}
use aws_tagging_utils.State.{Action, Exemption, skipped_exempt}
use aws_tagging_utils.Exemptions.{Calendar, is_exempt}
use aws_tagging_utils.Services.{AwsApi, World, Config}
use aws_tagging_utils.Remediation.{governance_engine, extract_type, extract_account}
use aws_tagging_utils.Remediation.SyncExempt.{key_of, process_sync-exempt}
use aws_tagging_utils.Enforcement.{remediated, request_for, enforce_one}

module _ (rt : Runtime) (cal : Calendar) {W : Type 0} (api : AwsApi W) (config : Config)
    (fingerprint_of : String → String → Tags → String) (request_id : String) where
  -- With remediation enabled, a resource that is not compliant, is exempt and has no action for the
  -- same request yet gets a skipped action, which names the exemption and stands in the store; AWS
  -- is not called, and nothing else in the store changes.
  pub enforce_one-exempt :
      (arn : String) (tags : Tags) (now later : ℕ) (w : World W) (ex : Exemption)
      → (val_res : ValidationResult)
      → evaluate rt (governance_engine rt api config) tags (some arn) [] false ≡ val_res
      → val_res.compliant ≡ false
      → (arn == "") ≡ false
      → Dict.get w.store.actions (
          key_of rt cal api config fingerprint_of
            (request_for rt cal api config fingerprint_of true request_id arn val_res))
        ≡ none
      → is_exempt cal w.store now (extract_account arn) (extract_type arn) arn none ≡ some ex
      → let after =
          enforce_one rt cal api config fingerprint_of true request_id arn tags now later w in
        let key =
          key_of rt cal api config fingerprint_of
            (request_for rt cal api config fingerprint_of true request_id arn val_res) in
        (a : Action) × ((after.0 ≡ ok (remediated a))
          × (a.status ≡ skipped_exempt)
          × (a.exemption_id ≡ some ex.id)
          × (after.1.aws ≡ w.aws)
          × (after.1.store ≡ record w.store { actions = Dict.insert w.store.actions key a }))
  unfolding enforce_one request_for
  enforce_one-exempt arn tags now later w ex val_res checked bad given fresh exempt =
      let request = request_for rt cal api config fingerprint_of true request_id arn val_res in
      let (a, (w', (done, status, names, tried, aws, stored))) =
        process_sync-exempt rt cal api config fingerprint_of request "eventbridge" request_id now
          later w ex given refl fresh exempt in
      (a, (ground arith, status, names, ground arith, ground arith))
