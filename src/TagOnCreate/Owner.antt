-- ===== src/TagOnCreate/Owner.antt =====
-- `owner_from_user_identity`: src/tag_on_create.py
use aws_tagging_utils.Base.{
  ℕ, ◌≤◌, String, ◌<>◌, Bool, true, false, not, ◌&&◌, Option, none, some, List, [], ◌∷◌, ◌≡◌, arith,
}
use aws_tagging_utils.Base.{◌==◌, string_eq, option_eq, contains, if◌then◌else◌}
use aws_tagging_utils.Base.Text.{len, len-prefix, prefix, split, has_char, has_text, last_of}
use aws_tagging_utils.Json.{Json, text, object, Fields, get_field, truthy}
use mathlib.Core.Path.{subst}
use aws_tagging_utils.TagOnCreate.{Setting, str_or, str_of, or_else}

-- `s.split(sep)[-1]`
last_part : ℕ → String → String
last_part sep s = last_of "" (split sep s)

-- `uid.get("type") == name`, for the text of a type
type_of : Option Json → Option String
type_of (some (text s)) = some s
type_of _ = none

-- `f"{parts[1]}/{parts[2]}"`, or the last part, or nothing.
role_session : List String → Option String
role_session (_ ∷ role ∷ session ∷ rest) = some (role <> ("/" <> session))
role_session (_ ∷ last ∷ []) = some last
role_session _ = none

module _ (setting : Setting) where
  owner_of_user : Fields → Option String
  unfolding last_part
  owner_of_user uid =
      let name = get_field uid "userName" in
      let pid = str_or setting (get_field uid "principalId") "" in
      if truthy name
      then some (prefix 256 (str_of setting name))
      else if not (pid == "") && has_char b':' pid
      then some (prefix 256 (last_part b':' pid))
      else if pid == ""
      then none
      else some (prefix 256 pid)

  owner_of_role : Fields → Option String
  unfolding role_session
  owner_of_role uid =
      let name = str_or setting (get_field uid "userName") "" in
      let arn = str_or setting (get_field uid "arn") "" in
      let other = some (prefix 256 (str_or setting (get_field uid "principalId") "assumed-role")) in
      if not (name == "")
      then some (prefix 256 name)
      else if has_text "assumed-role/" arn
      then (elim (role_session (split b'/' arn)) [
        | some session ↦ some (prefix 256 session)
        | none ↦ other
      ])
      else other

  owner_of_federated : Fields → Option String
  owner_of_federated uid = some (
      prefix 256 (
        str_or setting (or_else (get_field uid "userName") (get_field uid "principalId"))
          "federated"))

  owner_of_other : Fields → Option String
  owner_of_other uid =
      let pid = get_field uid "principalId" in
      if truthy pid then some (prefix 256 (str_of setting pid)) else none

  owner_of_fields : Fields → Option String
  unfolding type_of owner_of_user owner_of_role owner_of_federated owner_of_other
  owner_of_fields uid =
      let ut = type_of (get_field uid "type") in
      if ut == some "IAMUser"
      then owner_of_user uid
      else if ut == some "AssumedRole"
      then owner_of_role uid
      else if ut == some "Root"
      then some "root"
      else if contains (some "WebIdentityUser" ∷ some "IdentityCenterUser" ∷ some "SAMLUser" ∷ [])
          ut
      then owner_of_federated uid
      else if contains (some "AWSService" ∷ some "AWSAccount" ∷ some "Unknown" ∷ []) ut
      then none
      else owner_of_other uid

  unfoldable pub owner_from_user_identity : Option Json → Option String
  unfolding owner_of_fields
  owner_from_user_identity (some (object uid)) = owner_of_fields uid
  owner_from_user_identity _ = none

-- No owner, or one of at most 256 characters.
abbrev Short : Option String → Type 0
Short none = Unit
Short (some owner) = len owner ≤ 256

Short-if : (b : Bool) (x y : Option String) → Short x → Short y → Short (if b then x else y)
Short-if true x y hx hy = hx
Short-if false x y hx hy = hy

module _ (setting : Setting) where
  owner_of_user-Short : (uid : Fields) → Short (owner_of_user setting uid)
  unfolding owner_of_user
  owner_of_user-Short uid =
      let name = get_field uid "userName" in
      let pid = str_or setting (get_field uid "principalId") "" in
      Short-if (truthy name) _ _ (len-prefix 256 (str_of setting name)) (
        Short-if (not (pid == "") && has_char b':' pid) _ _ (len-prefix 256 (last_part b':' pid))
          (Short-if (pid == "") _ _ tt (len-prefix 256 pid)))

  role_session-Short :
      (o other : Option String)
      → Short other
      → Short (elim o [ some session ↦ some (prefix 256 session) | none ↦ other ])
  role_session-Short none other h = h
  role_session-Short (some session) other h = len-prefix 256 session

  owner_of_role-Short : (uid : Fields) → Short (owner_of_role setting uid)
  unfolding owner_of_role
  owner_of_role-Short uid =
      let name = str_or setting (get_field uid "userName") "" in
      let arn = str_or setting (get_field uid "arn") "" in
      let other = len-prefix 256 (str_or setting (get_field uid "principalId") "assumed-role") in
      Short-if (not (name == "")) _ _ (len-prefix 256 name) (
        Short-if (has_text "assumed-role/" arn) _ _
          (role_session-Short (role_session (split b'/' arn)) _ other) other)

  owner_of_fields-Short : (uid : Fields) → Short (owner_of_fields setting uid)
  unfolding owner_of_fields owner_of_federated owner_of_other len
  owner_of_fields-Short uid =
      let ut = type_of (get_field uid "type") in
      let pid = get_field uid "principalId" in
      Short-if (ut == some "IAMUser") _ _ (owner_of_user-Short uid) (
        Short-if (ut == some "AssumedRole") _ _ (owner_of_role-Short uid) (
          Short-if (ut == some "Root") _ _ (omega arith) (
            Short-if
              (contains (some "WebIdentityUser" ∷ some "IdentityCenterUser" ∷ some "SAMLUser" ∷ [])
                ut)
              _ _ (len-prefix 256 _)
              (Short-if (contains (some "AWSService" ∷ some "AWSAccount" ∷ some "Unknown" ∷ []) ut)
                _ _ tt (Short-if (truthy pid) _ _ (len-prefix 256 (str_of setting pid)) tt)))))

  -- The owner has at most 256 characters, the most that a tag value may have, whatever the
  -- identity in the event.
  pub owner_from_user_identity_bounded :
      (identity : Option Json) (owner : String)
      → owner_from_user_identity setting identity ≡ some owner
      → len owner ≤ 256
  unfolding owner_from_user_identity
  owner_from_user_identity_bounded (some (object uid)) owner h =
      subst Short h (owner_of_fields-Short uid)
  owner_from_user_identity_bounded identity owner h = absurd (cc)
