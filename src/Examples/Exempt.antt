-- ===== src/Examples/Exempt.antt =====
-- Examples of exemptions: a resource's own, and its account's.
use aws_tagging_utils.Base.{◌≡◌, refl, ap, ◌↔◌, string_eq, String, none, some}
use aws_tagging_utils.Base.{[], ◌∷◌, inl, inr, Member, keep, arith, option_eq}
use aws_tagging_utils.Base.Dict
use aws_tagging_utils.State.{Exemption, list_exemptions, put_exemption}
use aws_tagging_utils.Exemptions.{
  ExemptionData, create_exemption, get_scope_rank, is_exempt, is_active, matches_resource,
  list_active_exemptions, same_scope, is_valid_scope, has,
}
use aws_tagging_utils.Exemptions.Precedence.{Highest, of_rank, matching, is_exempt_iff}
use aws_tagging_utils.Exemptions.Conflicts.{AllApart, ScopesApart, create_exemption-ScopesApart}
use aws_tagging_utils.Exemptions.Totality.{NoBlank, is_exempt-total}
use aws_tagging_utils.Examples.{calendar, arn, of_resource, of_account, exempt_store, exemption}

abbrev account : String
account = "111122223333"

is_exempt_iff_example :
    (is_exempt calendar exempt_store 1 account "s3" arn none ≡ some of_resource) ↔ (
      (of_rank (get_scope_rank of_resource) (matching calendar exempt_store 1 account "s3" arn none)
        ≡ of_resource ∷ [])
      × Highest of_resource (matching calendar exempt_store 1 account "s3" arn none))
is_exempt_iff_example = is_exempt_iff calendar exempt_store 1 account "s3" arn none of_resource

apart : AllApart (list_active_exemptions calendar exempt_store 1)
unfolding list_active_exemptions keep list_exemptions is_active string_eq same_scope get_scope_rank
apart = ((refl, tt), (tt, tt))

resource-NoBlank : NoBlank of_resource
unfolding has string_eq
resource-NoBlank =
    (λ h. ground (arith, ap has h), λ h. ground arith, λ h. ground arith, λ h. ground arith)

account-NoBlank : NoBlank of_account
unfolding has string_eq
account-NoBlank =
    (λ h. ground arith, λ h. ground arith, λ h. ground arith, λ h. ground (arith, ap has h))

clean : (e : Exemption) → Member e (list_active_exemptions calendar exempt_store 1) → NoBlank e
unfolding list_active_exemptions keep list_exemptions is_active string_eq
clean e (inl h) = rw h resource-NoBlank
clean e (inr (inl h)) = rw h account-NoBlank
clean e (inr (inr m)) = absurd m

is_exempt-total_example :
    (x : Exemption) × (is_exempt calendar exempt_store 1 account "s3" arn none ≡ some x)
unfolding is_exempt keep list_active_exemptions list_exemptions is_active string_eq matches_resource
    get_scope_rank option_eq
is_exempt-total_example =
    is_exempt-total calendar exempt_store 1 account "s3" arn none apart clean of_account
      (inr (inl refl))

abbrev data_ : ExemptionData
data_ = record {
  resource_id = none;
  resource_type = some "s3";
  environment = none;
  account_id = none;
  expires_at = none;
  reason = none;
}

abbrev created : Exemption
created = record (exemption "e3" none none) { resource_type = some "s3"; created_at = 1 }

create_exemption-ScopesApart_example : ScopesApart calendar (put_exemption exempt_store created) 1
unfolding create_exemption Dict.get string_eq is_valid_scope get_scope_rank list_active_exemptions
    keep list_exemptions is_active same_scope
create_exemption-ScopesApart_example =
    create_exemption-ScopesApart calendar exempt_store (put_exemption exempt_store created) 1 data_
      "ann" "e3" created refl apart refl
