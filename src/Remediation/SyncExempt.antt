-- ===== src/Remediation/SyncExempt.antt =====
-- A request for an exempt resource is stored as skipped, and AWS is left alone.
use aws_tagging_utils.Base.{ℕ, String, true, false, none, some, ◌≡◌, refl, arith}
use aws_tagging_utils.Base.{◌==◌, string_eq}
use aws_tagging_utils.Base.Dict
use aws_tagging_utils.Runtime.{Runtime}
use aws_tagging_utils.Errors.{ok}
use aws_tagging_utils.Governance.Models.{Tags}
use aws_tagging_utils.State.{
  Action, Exemption, skipped_exempt, status_eq, create_remediation_action,
}
use aws_tagging_utils.Exemptions.{Calendar, is_exempt}
use aws_tagging_utils.Services.{AwsApi, World, Config, log_audit}
use aws_tagging_utils.Remediation.{extract_type, extract_account}
use aws_tagging_utils.Remediation.Sync.{
  Request, proceed, process_sync, new_action, key_or, exemption_id_of, skipped_entry,
}

module _ (rt : Runtime) (cal : Calendar) {W : Type 0} (api : AwsApi W) (config : Config)
    (fingerprint_of : String → String → Tags → String) where
  -- The idempotency key of a request, or the fingerprint where it has none.
  abbrev pub key_of : Request → String
  key_of request = key_or request.idempotency_key (
      fingerprint_of request.resource_arn (extract_type request.resource_arn)
        request.requested_tags)

  -- A new and well-formed request for a resource that is exempt is answered with a skipped action, which names the
  -- exemption, was never tried and stands in the store; AWS is not called, and no other action of
  -- the store, no exemption and no baseline changes.
  pub process_sync-exempt :
      (request : Request) (actor request_id : String) (now later : ℕ) (w : World W) (ex : Exemption)
      → (request.resource_arn == "") ≡ false
      → request.tags_are_dict ≡ true
      → Dict.get w.store.actions (key_of request) ≡ none
      → is_exempt cal w.store now
          (extract_account request.resource_arn)
          (extract_type request.resource_arn)
          request.resource_arn
          none
        ≡ some ex
      → (a : Action) × ((w' : World W) × ((process_sync rt cal api config fingerprint_of request
                actor request_id now later w
              ≡ ok (a, w'))
            × (a.status ≡ skipped_exempt)
            × (a.exemption_id ≡ some ex.id)
            × (a.attempt_count ≡ 0)
            × (w'.aws ≡ w.aws)
            × (w'.store
                ≡ record w.store { actions = Dict.insert w.store.actions (key_of request) a })))
  unfolding process_sync proceed new_action exemption_id_of create_remediation_action log_audit
      status_eq
  process_sync-exempt request actor request_id now later w ex given dict fresh exempt =
      let arn = request.resource_arn in
      let fingerprint = fingerprint_of arn (extract_type arn) request.requested_tags in
      let a = new_action request (key_of request) fingerprint (some ex) actor request_id now in
      (
        a,
        (
          log_audit (skipped_entry actor arn)
              (record w { store = (create_remediation_action w.store a).0 }),
          (ground arith, refl, refl, refl, refl, ground arith),
        ),
      )
