-- ===== src/Exemptions.antt =====
-- `ExemptionManager`: src/governance/exemptions.py
pub mod Precedence
pub mod Conflicts
pub mod Totality
use mathlib.Core.List.{map}
use aws_tagging_utils.Base.{ℕ, String, Bool, true, false, not, ◌||◌, ◌&&◌, Option, none, some}
use aws_tagging_utils.Base.{
  List, [], ◌∷◌, ◌++◌, ◌==◌, string_eq, option_eq, if◌then◌else◌, ltb, keep,
}
use aws_tagging_utils.Base.Int.{ℤ, pos, negsuc, ltb_ℤ, eq_ℤ}
use aws_tagging_utils.Base.Text.{strip, len}
use aws_tagging_utils.Errors.{ApiError, Result, ok, err}
use aws_tagging_utils.State.{Store, Exemption, list_exemptions, get_exemption, put_exemption}

-- An aware or naive datetime that `datetime.fromisoformat` returns. `instant` is the time that it
-- names, with UTC for a missing time zone; `offset` is the time zone in minutes, `none` for a naive
-- datetime.
pub record Datetime : Type 0 where
  pub instant : ℕ
  pub offset : Option ℤ

-- The calendar of the Python runtime.
pub record Calendar : Type 0 where
  -- `datetime.fromisoformat`: `none` is a `ValueError`.
  pub fromisoformat : String → Option Datetime
  -- `s.replace("Z", "+00:00")`
  pub replace_z : String → String
  -- `dt.isoformat()`, which writes the offset of an aware datetime
  pub isoformat : Datetime → String

-- `bool(exemption.get(field))`
unfoldable pub has : Option String → Bool
has none = false
has (some s) = if s == "" then false else true

unfoldable pub get_scope_rank : Exemption → ℤ
unfolding has
get_scope_rank exemption =
    let has_res_id = has exemption.resource_id in
    let has_res_type = has exemption.resource_type in
    let has_env = has exemption.environment in
    let has_acc = has exemption.account_id in
    if has_res_id && not (has_res_type || has_env || has_acc)
    then pos 5
    else if has_res_type && has_env && not (has_res_id || has_acc)
    then pos 4
    else if has_res_type && not (has_res_id || has_env || has_acc)
    then pos 3
    else if has_acc && has_env && not (has_res_id || has_res_type)
    then pos 2
    else if has_acc && not (has_res_id || has_res_type || has_env)
    then pos 1
    else negsuc 0

unfoldable pub is_valid_scope : Exemption → Bool
is_valid_scope exemption = ltb_ℤ (pos 0) (get_scope_rank exemption)

unfoldable pub matches_resource : Exemption → String → String → String → Option String → Bool
matches_resource exemption account_id resource_type resource_id environment =
    let rank = get_scope_rank exemption in
    if eq_ℤ rank (pos 5)
    then exemption.resource_id == some resource_id
    else if eq_ℤ rank (pos 4)
    then exemption.resource_type == some resource_type && exemption.environment == environment
    else if eq_ℤ rank (pos 3)
    then exemption.resource_type == some resource_type
    else if eq_ℤ rank (pos 2)
    then exemption.account_id == some account_id && exemption.environment == environment
    else if eq_ℤ rank (pos 1)
    then exemption.account_id == some account_id
    else false

-- `max(ranked.keys())`, from the rank of the first match on
pub max_rank : ℤ → List Exemption → ℤ
max_rank best [] = best
max_rank best (ex ∷ rest) =
    max_rank (if ltb_ℤ best (get_scope_rank ex) then get_scope_rank ex else best) rest

-- `ranked[highest_rank]`, if it holds one exemption only.
only_one : List Exemption → Option Exemption
only_one (ex ∷ []) = some ex
only_one _ = none

-- The choice among the exemptions that match.
unfoldable pub choose : List Exemption → Option Exemption
unfolding max_rank only_one
choose [] = none
choose (ex ∷ rest) =
    let highest_rank = max_rank (get_scope_rank ex) rest in
    only_one (keep (λ e. eq_ℤ (get_scope_rank e) highest_rank) (ex ∷ rest))

unfoldable pub is_exempt_among :
    List Exemption → String → String → String → Option String → Option Exemption
unfolding choose
is_exempt_among active account_id resource_type resource_id environment =
    choose
      (keep (λ ex. matches_resource ex account_id resource_type resource_id environment) active)

-- `if dt.tzinfo is None: dt = dt.replace(tzinfo=timezone.utc)`
with_utc : Datetime → Datetime
with_utc dt = elim dt.offset [ none ↦ record dt { offset = some (pos 0) } | some offset ↦ dt ]

module _ (cal : Calendar) where
  open cal use {fromisoformat, replace_z, isoformat}

  -- `parse_expiry` of a value that is not empty: an aware datetime, or a `ValueError`.
  unfoldable pub parse_expiry : String → Option Datetime
  unfolding with_utc
  parse_expiry value = elim (fromisoformat (replace_z (strip value))) [
    | none ↦ none
    | some dt ↦ some (with_utc dt)
  ]

  not_expired : Option String → ℕ → Bool
  not_expired none now = true
  not_expired (some expires_at) now =
      if expires_at == "" then true else elim (parse_expiry expires_at) [
        | none ↦ false
        | some exp_dt ↦ not (ltb exp_dt.instant now)
      ]

  unfoldable pub is_active : Exemption → ℕ → Bool
  unfolding not_expired
  is_active exemption now = exemption.status == "ACTIVE" && not_expired exemption.expires_at now

  unfoldable pub list_active_exemptions : Store → ℕ → List Exemption
  list_active_exemptions s now = keep (λ ex. is_active ex now) (list_exemptions s)

  unfoldable pub is_exempt : Store → ℕ → String → String → String → Option String → Option Exemption
  is_exempt s now = is_exempt_among (list_active_exemptions s now)

-- The body of the request; a field that is `none` is missing or null.
pub record ExemptionData : Type 0 where
  pub resource_id : Option String
  pub resource_type : Option String
  pub environment : Option String
  pub account_id : Option String
  pub expires_at : Option String
  pub reason : Option String

-- `rank` and the four scope fields of an exemption agree with those of another.
unfoldable pub same_scope : Exemption → Exemption → Bool
same_scope active data_ =
    eq_ℤ (get_scope_rank active) (get_scope_rank data_)
    && active.resource_id == data_.resource_id
    && active.resource_type == data_.resource_type
    && active.environment == data_.environment
    && active.account_id == data_.account_id

any_conflict : List Exemption → Exemption → Bool
any_conflict [] data_ = false
any_conflict (active ∷ rest) data_ = same_scope active data_ || any_conflict rest data_

invalid_request : String → ApiError
invalid_request message = record {
  message = message;
  status_code = 400;
  error_code = "INVALID_REQUEST";
}

clean_reason : Option String → Result (Option String)
unfolding invalid_request
clean_reason none = ok none
clean_reason (some reason) =
    if ltb 1000 (len (strip reason))
    then err (invalid_request "Reason must be at most 1000 characters.")
    else ok (some (strip reason))

-- The record that is stored, from the checked data.
new_exemption : ExemptionData → Option String → Option String → String → String → ℕ → Exemption
new_exemption data_ reason expires_at actor_id exemption_id now = record {
  id = exemption_id;
  status = "ACTIVE";
  created_by = actor_id;
  created_at = now;
  updated_at = none;
  resource_id = data_.resource_id;
  resource_type = data_.resource_type;
  environment = data_.environment;
  account_id = data_.account_id;
  expires_at = expires_at;
  reason = reason;
}

module _ (cal : Calendar) where
  clean_expiry : Option String → Result (Option String)
  unfolding invalid_request
  clean_expiry none = ok none
  clean_expiry (some expires_at) =
      if expires_at == "" then ok (some expires_at) else elim (parse_expiry cal expires_at) [
        | none ↦ err (invalid_request "expires_at must be an ISO-8601 date or datetime.")
        | some expiry ↦ ok (some (cal.isoformat expiry))
      ]

  -- The conflict test and the write.
  store_exemption : Store → ℕ → Exemption → Result (Exemption × Store)
  unfolding any_conflict
  store_exemption s now new =
      if any_conflict (list_active_exemptions cal s now) new
      then err (record {
        message = "A conflicting exemption with equal specificity already exists.";
        status_code = 409;
        error_code = "EXEMPTION_CONFLICT";
      })
      else ok (new, put_exemption s new)

  -- `exemption_id` is the fresh UUID.
  unfoldable pub create_exemption :
      Store → ℕ → ExemptionData → String → String → Result (Exemption × Store)
  unfolding store_exemption new_exemption clean_reason clean_expiry
  create_exemption s now data_ actor_id exemption_id =
      if is_valid_scope
        (new_exemption data_ data_.reason data_.expires_at actor_id exemption_id now)
      then elim (clean_reason data_.reason) [
        | err e ↦ err e
        | ok reason ↦ elim (clean_expiry data_.expires_at) [
          | err e ↦ err e
          | ok expires_at ↦
              store_exemption s now
                (new_exemption data_ reason expires_at actor_id exemption_id now)
        ]
      ]
      else err (record {
        message = "Unsupported exemption scope combination.";
        status_code = 400;
        error_code = "INVALID_EXEMPTION_SCOPE";
      })

unfoldable pub revoke_exemption : Store → ℕ → String → Result Store
revoke_exemption s now exemption_id = elim (get_exemption s exemption_id) [
  | none ↦
      err (record { message = "Exemption not found"; status_code = 404; error_code = "NOT_FOUND" })
  | some existing ↦
      ok (put_exemption s (record existing { status = "REVOKED"; updated_at = some now }))
]
