-- ===== src/TagWrite.antt =====
-- The tag-write command: src/tag_write.py. A `ValueError` is kept by its text.
pub mod Reports
use aws_tagging_utils.Base.{
  ℕ, String, ◌<>◌, Bool, true, false, not, ◌&&◌, ◌||◌, Option, none, some, List, [], ◌∷◌, ◌++◌,
}
use aws_tagging_utils.Base.{◌==◌, string_eq, if◌then◌else◌, is_empty, contains, get_elem?}
use aws_tagging_utils.Base.Dict
use aws_tagging_utils.Base.Dict.{Dict, append_to}
use aws_tagging_utils.Base.Text.{strip, split}
use aws_tagging_utils.Json.{
  Json, null, boolean, number, text, array, object, Items, no_items, item, Fields, no_fields, field,
  get_field, Loader,
}
use aws_tagging_utils.Governance.Models.{Tags}
use aws_tagging_utils.Services.{Failure, Reply, raised, returned, AwsApi}
use aws_tagging_utils.TagWriter.{batches}
use aws_tagging_utils.TagWriter.Handler.{Attempted, value_error, value}

-- `event.get(key)` with `None` for a missing key
abbrev pub not_none : Option Json → Option Json
not_none none = none
not_none (some null) = none
not_none (some v) = some v

module _ (loader : Loader) where
  open loader use {str}

  -- The loop over the items of the tags, from what it has.
  unfoldable pub normalize_fields : Fields → Tags → Attempted Tags
  normalize_fields no_fields normalized = value normalized
  normalize_fields (field k v rest) normalized =
      let key_str = strip k in
      let more = normalize_fields rest (Dict.insert normalized key_str (strip (str v))) in
      if key_str == ""
      then value_error "Tag keys must be non-empty strings"
      else (elim v [ null ↦ value_error ("Tag '" <> (key_str <> "' has a null value")) | _ ↦ more ])

  unfoldable pub normalize_tags : Json → Attempted Tags
  unfolding normalize_fields
  normalize_tags (object (field k v rest)) = normalize_fields (field k v rest) []
  normalize_tags tags = value_error "'tags' must be a non-empty object"

  stripped : Items → List String
  stripped no_items = []
  stripped (item v items) =
      let s = strip (str v) in let rest = stripped items in if s == "" then rest else s ∷ rest

  -- `out`, before its duplicates are dropped
  unfoldable pub raw_arns : Fields → Attempted (List String)
  unfolding stripped
  raw_arns event = elim (not_none (get_field event "arns")) [
    | some arns_raw ↦ elim arns_raw [
      | array items ↦ value (stripped items)
      | _ ↦ value_error "'arns' must be a list of ARN strings."
    ]
    | none ↦ elim (not_none (get_field event "arn")) [
      | none ↦ value []
      | some single ↦ let s = strip (str single) in value (if s == "" then [] else s ∷ [])
    ]
  ]

  -- The loop with `seen`, which holds the items of `unique`.
  unfoldable pub unique : List String → List String → List String
  unique [] seen = seen
  unique (a ∷ out) seen = unique out (if contains seen a then seen else seen ++ (a ∷ []))

  unfoldable pub normalize_arn_list : Fields → Attempted (List String)
  unfolding raw_arns unique
  normalize_arn_list event = elim (raw_arns event) [
    | value_error e ↦ value_error e
    | value out ↦
        if is_empty out
        then value_error "Provide 'arn' (string) or 'arns' (non-empty list)."
        else value (unique out [])
  ]

-- `{"ErrorMessage": str(e)}` for each ARN of a region
unfoldable pub fail_region : List String → String → Dict String Failure → Dict String Failure
fail_region [] e failed = failed
fail_region (arn ∷ arns) e failed =
    fail_region arns e
      (Dict.insert failed arn (record { error_code = none; error_message = some e }))

unfoldable pub region_of_arn : String → String → String
region_of_arn arn default = elim (get_elem? (split b':' arn) 3) [
  | none ↦ default
  | some region ↦ if region == "" then default else region
]

unfoldable pub region_groups :
    String → List String → Dict String (List String) → Dict String (List String)
unfolding region_of_arn
region_groups default_region [] groups = groups
region_groups default_region (arn ∷ arns) groups =
    region_groups default_region arns (append_to groups (region_of_arn arn default_region) arn)

-- The failures of a region's calls, or the text of an exception.
pub data Calls : Type 0 where
  call_raised : String → Calls
  calls_done : Dict String Failure → Calls

pub data Answer : Type 0 where
  bad_request : String → Answer
  partial_failures : List String → Tags → Dict String Failure → Answer
  applied : List String → Tags → Answer

module _ {W : Type 0} (api : AwsApi W) (batch_size : ℕ) (tags : Tags) where
  -- `tag_resources_batched` for the client of a region, from the failures so far.
  unfoldable pub tag_resources_batched :
      String → List (List String) → Dict String Failure → W → Calls × W
  tag_resources_batched reg [] failed w = (calls_done failed, w)
  tag_resources_batched reg (chunk ∷ chunks) failed w =
      let (reply, w') = api.tag_resources reg chunk tags w in
      elim reply [
        | raised e ↦ (call_raised e, w')
        | returned more ↦ tag_resources_batched reg chunks (Dict.update failed more) w'
      ]

  -- The loop over the regions.
  unfoldable pub write_groups :
      Dict String (List String) → Dict String Failure → W → Dict String Failure × W
  unfolding tag_resources_batched fail_region
  write_groups [] all_failed w = (all_failed, w)
  write_groups ((reg, reg_arns) ∷ groups) all_failed w =
      let (calls, w') = tag_resources_batched reg (batches batch_size reg_arns) [] w in
      elim calls [
        | call_raised e ↦ write_groups groups (fail_region reg_arns e all_failed) w'
        | calls_done failed ↦ write_groups groups (Dict.update all_failed failed) w'
      ]

module _ {W : Type 0} (loader : Loader) (api : AwsApi W) (batch_size : ℕ) (default : String) where
  -- `str(event.get("region", DEFAULT_REGION)).strip()`
  region_field : Option Json → String
  region_field none = strip default
  region_field (some v) = strip (loader.str v)

  -- `event.get("tags", {})`
  tags_field : Option Json → Json
  tags_field none = object no_fields
  tags_field (some v) = v

  write_arns : String → List String → Tags → W → Answer × W
  unfolding write_groups region_groups
  write_arns default_region arns tags w =
      let (all_failed, w') =
        write_groups api batch_size tags (region_groups default_region arns []) [] w in
      if is_empty all_failed
      then (applied arns tags, w')
      else (partial_failures arns tags all_failed, w')

  unfoldable pub lambda_handler : Fields → W → Answer × W
  unfolding write_arns region_field tags_field
  lambda_handler event w = elim (normalize_arn_list loader event) [
    | value_error e ↦ (bad_request e, w)
    | value arns ↦ elim (normalize_tags loader (tags_field (get_field event "tags"))) [
      | value_error e ↦ (bad_request e, w)
      | value tags ↦ write_arns (region_field (get_field event "region")) arns tags w
    ]
  ]
