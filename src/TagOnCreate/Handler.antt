-- ===== src/TagOnCreate/Handler.antt =====
-- `parse_detail` and `lambda_handler`: src/tag_on_create.py
pub mod Kept
use aws_tagging_utils.Base.{
  ℕ, String, Bool, true, false, not, ◌&&◌, ◌||◌, Option, none, some, List, [], ◌∷◌, ◌++◌,
}
use aws_tagging_utils.Base.{
  ◌==◌, string_eq, option_eq, if◌then◌else◌, contains, is_empty, keep, get_elem?,
}
use aws_tagging_utils.Base.Dict
use aws_tagging_utils.Base.Dict.{Dict, append_to}
use aws_tagging_utils.Base.Text.{split, strip, starts_with}
use aws_tagging_utils.Json.{
  Json, null, boolean, number, text, array, object, Items, no_items, item, Fields, no_fields, field,
  get_field, truthy,
}
use aws_tagging_utils.Governance.Models.{Tags}
use aws_tagging_utils.Governance.Engine.{Engine}
use aws_tagging_utils.Services.{Failure, AwsApi, World, Config}
use aws_tagging_utils.TagOnCreate.{Setting, str_or, region_name}
use aws_tagging_utils.TagOnCreate.Owner.{owner_from_user_identity}
use aws_tagging_utils.TagOnCreate.Table.{event_extractors}
use aws_tagging_utils.TagOnCreate.Lookup.{GetResources, fetch_tags_for_arns, is_missing_owner_tag}
use aws_tagging_utils.TagOnCreate.Writes.{tag_untagged_arns}
use aws_tagging_utils.TagOnCreate.Scan.{Sources, RegionScan, process_discovery_scan}

-- `get_region_from_arn` of this module: the fourth part, or the default.
unfoldable pub region_from_arn : String → String → String
region_from_arn arn default = elim (get_elem? (split b':' arn) 3) [
  | none ↦ default
  | some region ↦ if region == "" then default else region
]

-- `results.append({"region": reg, "tagged": tagged, "failed": failed})`
pub record Tagged : Type 0 where
  pub region : String
  pub tagged : List String
  pub failed : Dict String Failure

-- The answer of the handler; `raises` stands for an exception that passes.
pub data Answer : Type 0 where
  ignored skipped_no_owner no_arns raises : Answer
  tagged_resources : List Tagged → Answer
  scanned : ℕ × Dict String RegionScan → Answer

-- The regions or types of a request, as a list of texts.
texts_of : Items → List String
texts_of no_items = []
texts_of (item (text s) items) = s ∷ texts_of items
texts_of (item other items) = texts_of items

-- `event.get("types", [])`
target_types : Option Json → List String
target_types (some (array items)) = texts_of items
target_types _ = []

module _ (setting : Setting) where
  open setting use {loader, owner_tag_key, tag_api_batch, tag_lookup_retries}

  -- `_parse_json_if_string`, with `none` for a missing value
  unfoldable pub parse_json_if_string : Option Json → Option Json
  parse_json_if_string (some (text value)) =
      let s = strip value in
      if starts_with s "{" || starts_with s "["
      then (elim (loader.loads s) [ none ↦ some (text value) | some v ↦ some v ])
      else some (text value)
  parse_json_if_string value = value

  unfoldable pub parse_detail : Json → Fields × Fields
  unfolding parse_json_if_string
  parse_detail (object event) = elim (parse_json_if_string (get_field event "detail")) [
    | none ↦ if truthy (get_field event "eventName") then (event, no_fields) else (no_fields, event)
    | some v ↦ elim v [
      | object detail ↦ (detail, event)
      | _ ↦ if truthy (get_field event "eventName") then (event, no_fields) else (no_fields, event)
    ]
  ]
  parse_detail event = (no_fields, no_fields)

  unfoldable pub group_by_region :
      String → List String → Dict String (List String) → Dict String (List String)
  unfolding region_from_arn
  group_by_region default [] groups = groups
  group_by_region default (arn ∷ arns) groups =
      group_by_region default arns (append_to groups (region_from_arn arn default) arn)

  -- `[a for a in reg_arns if a not in tag_maps or is_missing_owner_tag(tag_maps[a])]`
  unfoldable pub to_tag : Dict String Tags → List String → List String
  to_tag tag_maps reg_arns =
      keep
        (λ a. elim (Dict.get tag_maps a) [
          | none ↦ true
          | some tags ↦ is_missing_owner_tag owner_tag_key tags
        ])
        reg_arns

  module _ {W : Type 0} (engine : Engine) (get_resources : String → GetResources W) (api : AwsApi W)
      (config : Config) where
    -- One round of the loop over the regions.
    unfoldable pub tag_group : String → List String → String → ℕ → World W → List Tagged × World W
    unfolding to_tag
    tag_group reg reg_arns owner now w =
        let (tag_maps, aws') =
          fetch_tags_for_arns (get_resources reg) tag_api_batch tag_lookup_retries reg_arns w.aws in
        let chosen = to_tag tag_maps reg_arns in
        let w' = record w { aws = aws' } in
        let ((tagged, failed), w'') =
          tag_untagged_arns setting engine api config reg chosen owner now w' in
        if is_empty chosen
        then ([], w')
        else (record { region = reg; tagged = tagged; failed = failed } ∷ [], w'')

    unfoldable pub tag_groups :
        Dict String (List String) → String → ℕ → World W → List Tagged × World W
    unfolding tag_group
    tag_groups [] owner now w = ([], w)
    tag_groups ((reg, reg_arns) ∷ groups) owner now w =
        let (results, w') = tag_group reg reg_arns owner now w in
        let (more, w'') = tag_groups groups owner now w' in (results ++ more, w'')

    -- From the extracted ARNs on.
    unfoldable pub tag_extracted : List String → String → String → ℕ → World W → Answer × World W
    unfolding tag_groups group_by_region
    tag_extracted extracted owner default_event_region now w =
        let arns = keep (λ a. not (a == "")) extracted in
        let (results, w') = tag_groups (group_by_region default_event_region arns []) owner now w in
        if is_empty arns then (no_arns, w) else (tagged_resources results, w')

    -- `target_regions`; `all_regions` is the answer of `get_all_regions`.
    target_regions : Option Json → List String → List String
    target_regions (some (text s)) all_regions =
        if s == "all" then all_regions else setting.default_region ∷ []
    target_regions (some (array items)) all_regions = texts_of items
    target_regions _ all_regions = setting.default_region ∷ []

    -- `isinstance(event, dict) and event.get("action") == "scan"`
    unfoldable pub is_scan : Json → Bool
    is_scan (object event) = elim (get_field event "action") [
      | none ↦ false
      | some v ↦ elim v [ text s ↦ s == "scan" | _ ↦ false ]
    ]
    is_scan event = false

    fields_of : Json → Fields
    fields_of (object event) = event
    fields_of event = no_fields

    -- An event that is no scan.
    unfoldable pub handle_event : Json → ℕ → World W → Answer × World W
    unfolding tag_extracted parse_detail
    handle_event event now w =
        let (detail, envelope) = parse_detail event in
        let event_name = str_or setting (get_field detail "eventName") "" in
        elim (Dict.get (event_extractors setting) event_name) [
          | none ↦ (ignored, w)
          | some extractor ↦
              elim (owner_from_user_identity setting (get_field detail "userIdentity")) [
                | none ↦ (skipped_no_owner, w)
                | some owner ↦
                    if owner == ""
                    then (skipped_no_owner, w)
                    else (elim (extractor detail envelope) [
                      | none ↦ (raises, w)
                      | some extracted ↦
                          tag_extracted extracted owner (region_name setting detail envelope) now w
                    ])
              ]
        ]

    -- `sources` and `all_regions` are what a scan reads.
    unfoldable pub lambda_handler : Sources → List String → Json → ℕ → World W → Answer × World W
    unfolding handle_event target_types target_regions texts_of fields_of
    lambda_handler sources all_regions event now w =
        let fields = fields_of event in
        let regions = target_regions (get_field fields "regions") all_regions in
        let types = target_types (get_field fields "types") in
        let (summary, w') =
          process_discovery_scan setting sources engine api config regions types now (0, []) w in
        if is_scan event then (scanned summary, w') else handle_event event now w
