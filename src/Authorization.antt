-- ===== src/Authorization.antt =====
-- Roles and ownership: src/authorization/, and the owner matching of src/insights.py.
pub mod Roles
use mathlib.Core.List.{map}
use aws_tagging_utils.Base.{
  String, ◌<>◌, Bool, true, false, not, ◌&&◌, ◌||◌, Option, none, some, List, [],
}
use aws_tagging_utils.Base.{
  ◌∷◌, ◌++◌, ◌==◌, contains, string_eq, if◌then◌else◌, is_empty, keep, ◌≡◌, refl,
}
use aws_tagging_utils.Base.{arith, Member, inl, inr}
use aws_tagging_utils.Base.Dict
use aws_tagging_utils.Base.Dict.{Dict}
use aws_tagging_utils.Base.Text.{strip, is_blank, ends_with, sorted_set}
use aws_tagging_utils.Runtime.{Runtime}
use aws_tagging_utils.Governance.Models.{Tags}

pub record UserIdentity : Type 0 where
  pub user_id : Option String
  pub roles : List String
  pub email : Option String

module _ (rt : Runtime) where
  open rt use {lower}

  identifier : Option String → List String
  identifier none = []
  identifier (some i) = if is_blank i then [] else lower (strip i) ∷ []

  unfoldable pub owner_identifiers : UserIdentity → List String
  unfolding identifier
  owner_identifiers identity = sorted_set (identifier identity.user_id ++ identifier identity.email)

  -- `[i.lower() for i in identifiers if i]`
  unfoldable pub usable : List String → List String
  usable identifiers = map lower (keep (λ i. not (i == "")) identifiers)

  -- `{str(k).lower(): str(v).strip().lower() for k, v in tags.items()}`
  unfoldable pub lowered : Tags → Tags → Tags
  lowered [] d = d
  lowered ((k, v) ∷ tags) d = lowered tags (Dict.insert d (lower k) (lower (strip v)))

  unfoldable pub names : String → List String → Bool
  names value [] = false
  names value (ident ∷ ids) = (value == ident || ends_with value ("/" <> ident)) || names value ids

  unfoldable pub match_keys : Tags → List String → List String → Bool
  unfolding names
  match_keys tags [] ids = false
  match_keys tags (key ∷ more) ids =
      let rest = match_keys tags more ids in
      elim (Dict.get tags (lower key)) [
        | none ↦ rest
        | some value ↦ (not (value == "") && names value ids) || rest
      ]

  -- `owner_match_tags` is OWNER_MATCH_TAGS.
  unfoldable pub owner_matches : List String → List String → Tags → Bool
  unfolding match_keys
  owner_matches owner_match_tags identifiers tags =
      let ids = usable identifiers in
      if is_empty ids then false else match_keys (lowered tags []) owner_match_tags ids

  unfoldable pub application_of : Tags → String
  application_of [] = ""
  application_of ((k, v) ∷ tags) =
      if lower k == "application" then lower (strip v) else application_of tags

  unfoldable pub is_owned : List String → List String → Tags → Bool
  unfolding application_of
  is_owned owner_match_tags identifiers tags =
      let ids = usable identifiers in
      let app = application_of tags in
      owner_matches owner_match_tags ids tags || (not (app == "") && contains ids app)

  unfoldable pub is_owner : List String → UserIdentity → Tags → Bool
  is_owner owner_match_tags identity resource_tags =
      is_owned owner_match_tags (owner_identifiers identity) resource_tags

  unfoldable pub can_modify_tags : List String → UserIdentity → Tags → Bool
  can_modify_tags owner_match_tags identity resource_tags =
      (contains identity.roles "PlatformAdmin" || contains identity.roles "TagOperator")
      || (contains identity.roles "ApplicationOwner"
          && is_owner owner_match_tags identity resource_tags)

unfoldable pub can_write_any_tags : UserIdentity → Bool
can_write_any_tags identity =
    contains identity.roles "PlatformAdmin"
    || (contains identity.roles "TagOperator" || contains identity.roles "ApplicationOwner")

unfoldable pub can_write_all_resources : UserIdentity → Bool
can_write_all_resources identity =
    contains identity.roles "PlatformAdmin" || contains identity.roles "TagOperator"

unfoldable pub can_view_finops : UserIdentity → Bool
can_view_finops identity =
    contains identity.roles "FinOps" || contains identity.roles "PlatformAdmin"

unfoldable pub can_manage_protected_tags : UserIdentity → Bool
can_manage_protected_tags identity =
    contains identity.roles "SecurityAdmin" || contains identity.roles "PlatformAdmin"

unfoldable pub can_manage_exemptions : UserIdentity → Bool
can_manage_exemptions identity =
    contains identity.roles "SecurityAdmin" || contains identity.roles "PlatformAdmin"
