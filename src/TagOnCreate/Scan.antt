-- ===== src/TagOnCreate/Scan.antt =====
-- `lookup_owner_for_resource` and `process_discovery_scan`: src/tag_on_create.py. The parameters
-- are the calls of CloudTrail and of the tagging API.
use aws_tagging_utils.Base.{
  ℕ, ◌+◌, String, Bool, true, false, ◌||◌, Option, none, some, List, [], ◌∷◌, ◌++◌,
}
use aws_tagging_utils.Base.{◌==◌, string_eq, if◌then◌else◌, contains, is_empty, ltb}
use aws_tagging_utils.Base.Dict
use aws_tagging_utils.Base.Dict.{Dict}
use aws_tagging_utils.Base.Text.{split, last_of, has_text}
use aws_tagging_utils.Json.{object, get_field}
use aws_tagging_utils.Governance.Engine.{Engine}
use aws_tagging_utils.Services.{Failure, AwsApi, World, Config}
use aws_tagging_utils.TagOnCreate.{Setting}
use aws_tagging_utils.TagOnCreate.Owner.{owner_from_user_identity}
use aws_tagging_utils.TagOnCreate.Lookup.{tags_from, is_missing_owner_tag}
use aws_tagging_utils.TagOnCreate.Writes.{tag_untagged_arns}

-- An event of CloudTrail: `EventTime`, `EventName` and `CloudTrailEvent`, with their defaults.
pub record TrailEvent : Type 0 where
  pub event_time : ℕ
  pub event_name : String
  pub cloud_trail_event : String

-- A resource of a scan: its ARN, and its keys with their values.
abbrev pub Scanned : Type 0
Scanned = String × List (String × String)

-- A page of `lookup_events` is `none` where reading it raises. The pages of `get_resources` for
-- some resource types are `none` if one of them raises.
pub record Sources : Type 0 where
  pub lookup_events : String → String → List (Option (List TrailEvent))
  pub get_resources : String → List String → Option (List Scanned)
  pub resource_type_map : Dict String String

-- `reg_results`
pub record RegionScan : Type 0 where
  pub tagged : List String
  pub failed : Dict String Failure
  pub unidentified : List String
  pub error : Bool

insert_event : TrailEvent → List TrailEvent → List TrailEvent
insert_event ev [] = ev ∷ []
insert_event ev (x ∷ events) =
    if ltb x.event_time ev.event_time then x ∷ insert_event ev events else ev ∷ x ∷ events

-- `sorted(events, key=lambda x: x.get("EventTime", 0))`
sort_events : List TrailEvent → List TrailEvent
unfolding insert_event
sort_events [] = []
sort_events (ev ∷ events) = insert_event ev (sort_events events)

abbrev creating_words : List String
creating_words = "create" ∷ "run" ∷ "deploy" ∷ "putbucket" ∷ "import" ∷ "allocate" ∷ []

any_in : List String → String → Bool
any_in [] name = false
any_in (x ∷ words) name = has_text x name || any_in words name

-- What reading a page or an event may do: raise, find the owner, or find nothing.
pub data Search : Type 0 where
  raises nothing : Search
  found : String → Search

module _ (setting : Setting) where
  open setting use {rt, loader, owner_tag_key}

  -- `owner_from_user_identity(json.loads(...).get("userIdentity", {}))`
  search_event : TrailEvent → Search
  search_event ev = elim (loader.loads (ev.cloud_trail_event)) [
    | none ↦ raises
    | some v ↦ elim v [
      | object fields ↦ elim (owner_from_user_identity setting (get_field fields "userIdentity")) [
        | none ↦ nothing
        | some owner ↦ if owner == "" then nothing else found owner
      ]
      | _ ↦ raises
    ]
  ]

  search_events : List TrailEvent → Search
  unfolding search_event any_in
  search_events [] = nothing
  search_events (ev ∷ events) =
      let rest = search_events events in
      if any_in creating_words (rt.lower ev.event_name)
      then (elim (search_event ev) [ raises ↦ raises | found owner ↦ found owner | nothing ↦ rest ])
      else rest

  search_pages : List (Option (List TrailEvent)) → Search
  unfolding search_events sort_events
  search_pages [] = nothing
  search_pages (none ∷ pages) = raises
  search_pages (some events ∷ pages) = elim (search_events (sort_events events)) [
    | raises ↦ raises
    | found owner ↦ found owner
    | nothing ↦ search_pages pages
  ]

  module _ (sources : Sources) where
    -- The loop over the search values: an exception goes on with the next one.
    search_values : String → List String → Option String
    unfolding search_pages
    search_values region [] = none
    search_values region (value ∷ more) = elim (search_pages (sources.lookup_events region value)) [
      | found owner ↦ some owner
      | raises ↦ search_values region more
      | nothing ↦ search_values region more
    ]

    unfoldable pub lookup_owner_for_resource : String → String → Option String
    unfolding search_values
    lookup_owner_for_resource region resource_arn =
        let resource_id = last_of "" (split b'/' (last_of "" (split b':' resource_arn))) in
        search_values region (resource_id ∷ resource_arn ∷ [])

    -- `[v for k, v in RESOURCE_TYPE_MAP.items() if v in target_types or k in target_types]`
    select_types : List String → Dict String String → List String
    select_types target_types [] = []
    select_types target_types ((k, v) ∷ types) =
        let rest = select_types target_types types in
        if is_empty target_types || contains target_types v || contains target_types k
        then v ∷ rest
        else rest

    unfoldable pub to_process : List Scanned → List String
    to_process [] = []
    to_process ((arn, tags) ∷ items) =
        let rest = to_process items in
        if is_missing_owner_tag owner_tag_key (tags_from tags []) then arn ∷ rest else rest

    module _ {W : Type 0} (engine : Engine) (api : AwsApi W) (config : Config) where
      -- One round of the loop over `to_process`.
      unfoldable pub scan_one : String → ℕ → String → RegionScan → World W → RegionScan × World W
      scan_one reg now arn results w = elim (lookup_owner_for_resource reg arn) [
        | none ↦ (record results { unidentified = results.unidentified ++ (arn ∷ []) }, w)
        | some owner ↦
            let ((t, f), w') =
              tag_untagged_arns setting engine api config reg (arn ∷ []) owner now w in
            (
              record results {
                tagged = if is_empty t then results.tagged else results.tagged ++ (arn ∷ []);
                failed = Dict.update results.failed f;
              },
              w',
            )
      ]

      unfoldable pub scan_each :
          String → ℕ → List String → RegionScan → World W → RegionScan × World W
      unfolding scan_one
      scan_each reg now [] results w = (results, w)
      scan_each reg now (arn ∷ arns) results w =
          let (results', w') = scan_one reg now arn results w in scan_each reg now arns results' w'

      unfoldable pub scan_region : String → List String → ℕ → World W → RegionScan × World W
      unfolding scan_each select_types to_process
      scan_region reg target_types now w =
          let results : RegionScan = record {
            tagged = [];
            failed = [];
            unidentified = [];
            error = false;
          } in
          elim (sources.get_resources reg (select_types target_types sources.resource_type_map)) [
            | none ↦ (record results { error = true }, w)
            | some items ↦ scan_each reg now (to_process items) results w
          ]

      count_tagged : List String → ℕ
      count_tagged [] = 0
      count_tagged (a ∷ arns) = 1 + count_tagged arns

      -- `total_tagged` and `results`, from what they are so far.
      unfoldable pub process_discovery_scan :
          List String
          → List String
          → ℕ
          → ℕ × Dict String RegionScan
          → World W
          → (ℕ × Dict String RegionScan) × World W
      unfolding scan_region count_tagged
      process_discovery_scan [] target_types now out w = (out, w)
      process_discovery_scan (reg ∷ regions) target_types now (total, results) w =
          let (reg_results, w') = scan_region reg target_types now w in
          process_discovery_scan regions target_types now
            (total + count_tagged reg_results.tagged, Dict.insert results reg reg_results) w'
