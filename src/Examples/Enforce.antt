-- ===== src/Examples/Enforce.antt =====
-- Examples of enforcement.
use aws_tagging_utils.Base.{
  String, ℕ, ◌≡◌, refl, true, false, some, [], ◌∷◌, string_eq, option_eq, keep,
}
use aws_tagging_utils.Base.Dict
use aws_tagging_utils.Base.Text.{split}
use aws_tagging_utils.Errors.{ok}
use aws_tagging_utils.Governance.Models.{Tags, ValidationResult}
use aws_tagging_utils.Governance.Engine.{evaluate}
use aws_tagging_utils.State.{Action, skipped_exempt, list_exemptions}
use aws_tagging_utils.Exemptions.{
  is_exempt, is_exempt_among, list_active_exemptions, is_active, matches_resource, get_scope_rank,
}
use aws_tagging_utils.Services.{World}
use aws_tagging_utils.Remediation.{governance_engine, extract_type, extract_account}
use aws_tagging_utils.Remediation.Sync.{key_or}
use aws_tagging_utils.Enforcement.{enforce_one, remediated, request_for}
use aws_tagging_utils.Enforcement.Exempt.{enforce_one-exempt}
use aws_tagging_utils.Governance.Engine.{make_engine, warn_on_unknown, normalize_step}
use aws_tagging_utils.Governance.Policy.{evaluate_policy}
use aws_tagging_utils.Governance.Validators.{
  validate_required, validate_allowed_values, validate_pattern, validate_unknown, is_missing,
  tolerates_unknown,
}
use aws_tagging_utils.Governance.Normalizer.{
  normalize, normalize_by, keep_first, get_canonical_key, append_original, conflicts,
  make_normalizer, normalize_loop,
}
use aws_tagging_utils.Base.{collect, nat_eq}
use aws_tagging_utils.Base.Text.{is_blank, starts_with, strip}
use aws_tagging_utils.Exemptions.{choose, has}
use aws_tagging_utils.Examples.{runtime, calendar, flaky, config, exempt_store, of_resource, arn}

abbrev fixed : String → String → Tags → String
fixed resource kind new_tags = "f"

abbrev untagged : Tags
untagged = ("Env", "test") ∷ []

abbrev exempt_site : World ℕ
exempt_site = record { aws = 0; store = exempt_store; audit = [] }

abbrev checked : ValidationResult
checked = evaluate runtime (governance_engine runtime flaky config) untagged (some arn) [] false

enforce_one-exempt_example :
    let after =
      enforce_one runtime calendar flaky config fixed true "r" arn untagged 1 2 exempt_site in
    (a : Action) × ((after.0 ≡ ok (remediated a))
      × (a.status ≡ skipped_exempt)
      × (a.exemption_id ≡ some "e1")
      × (after.1.aws ≡ 0)
      × (after.1.store ≡ record exempt_store { actions = Dict.insert [] "f" a }))
unfolding Dict.get string_eq is_exempt is_exempt_among keep list_active_exemptions list_exemptions
    is_active matches_resource get_scope_rank option_eq extract_account split extract_type key_or
    evaluate evaluate_policy validate_required collect make_engine normalize normalize_by keep_first
    Dict.insert get_canonical_key Dict.has_key make_normalizer validate_allowed_values is_blank
    validate_pattern validate_unknown starts_with warn_on_unknown nat_eq strip choose has is_missing
    tolerates_unknown append_original conflicts normalize_loop normalize_step request_for
enforce_one-exempt_example =
    enforce_one-exempt runtime calendar flaky config fixed "r" arn untagged 1 2 exempt_site
      of_resource checked refl refl refl refl refl
