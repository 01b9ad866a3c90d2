-- ===== src/TagOnCreate.antt =====
-- Tagging new resources with their owner: src/tag_on_create.py. A function that may raise on an
-- event of another shape answers `none` then. A resource is known by the text of its ARN, which
-- CloudTrail gives as a text.
pub mod Owner
pub mod Computing
pub mod Network
pub mod Platform
pub mod Table
pub mod Lookup
pub mod Writes
pub mod Scan
pub mod Handler
use aws_tagging_utils.Base.{
  ℕ, String, ◌<>◌, Bool, true, false, not, ◌&&◌, ◌||◌, Option, none, some, List, [], ◌∷◌,
}
use aws_tagging_utils.Base.{◌==◌, string_eq, if◌then◌else◌}
use aws_tagging_utils.Base.Text.{strip}
use aws_tagging_utils.Json.{
  Json, null, boolean, number, text, array, object, Items, no_items, item, Fields, no_fields, field,
  get_field, truthy, Loader,
}
use aws_tagging_utils.Runtime.{Runtime}

-- What the functions read of the configuration and of the runtime. `match_queue_url` is the match
-- of `_QUEUE_URL_ARN_RE` with its three groups.
pub record Setting : Type 0 where
  pub rt : Runtime
  pub loader : Loader
  pub default_region : String
  pub owner_tag_key : String
  pub tag_api_batch : ℕ
  pub tag_lookup_retries : ℕ
  pub match_queue_url : String → Option (String × String × String)

-- `a or b` of values that may be missing
unfoldable pub or_else : Option Json → Option Json → Option Json
or_else a b = if truthy a then a else b

-- `value if isinstance(value, dict) else {}`
unfoldable pub as_object : Option Json → Fields
as_object (some (object fields)) = fields
as_object _ = no_fields

-- `value or {}`, where a method of dict is called on it.
unfoldable pub dict_of : Option Json → Option Fields
dict_of none = some no_fields
dict_of (some (object fields)) = some fields
dict_of (some v) = if truthy (some v) then none else some no_fields

-- `(fields.get(outer) or {}).get(inner)`: `none` where it raises.
unfoldable pub nested : Fields → String → String → Option (Option Json)
nested fields outer inner = elim (dict_of (get_field fields outer)) [
  | none ↦ none
  | some d ↦ some (get_field d inner)
]

unfoldable pub request_of : Fields → Fields
request_of detail = as_object (get_field detail "requestParameters")

unfoldable pub response_of : Fields → Fields
response_of detail = as_object (get_field detail "responseElements")

module _ (setting : Setting) where
  open setting use {loader, default_region}

  -- `str(value)` of a value that may be missing
  unfoldable pub str_of : Option Json → String
  str_of none = "None"
  str_of (some v) = loader.str v

  -- `str(value or default)`
  unfoldable pub str_or : Option Json → String → String
  unfolding str_of
  str_or value default = if truthy value then str_of value else default

  unfoldable pub account_id : Fields → Fields → String
  unfolding str_or
  account_id detail envelope =
      strip
        (str_or (or_else (get_field detail "recipientAccountId") (get_field envelope "account")) "")

  unfoldable pub region_name : Fields → Fields → String
  unfolding str_or
  region_name detail envelope =
      let region = strip (
        str_or (or_else (get_field detail "awsRegion") (get_field envelope "region"))
          default_region) in
      if region == "" then default_region else region

  -- `[arn] if arn else []`
  unfoldable pub one : Option Json → List String
  unfolding str_of
  one value = if truthy value then str_of value ∷ [] else []

  -- `f"arn:aws:{service}:{region}:{account}:{prefix}{id}"`, if there is an id.
  unfoldable pub one_arn : String → String → Fields → Fields → Option Json → List String
  unfolding account_id region_name str_of
  one_arn service start detail envelope id =
      if truthy id
      then ("arn:aws:"
          <> (service
              <> (":"
                  <> (region_name detail envelope
                      <> (":" <> (account_id detail envelope <> (":" <> (start <> str_of id))))))))
        ∷ []
      else []

-- A result that is only there if nothing raised.
unfoldable pub then_one : {A : Type 0} → Option (Option Json) → (Option Json → A) → Option A
then_one none f = none
then_one (some value) f = some (f value)
