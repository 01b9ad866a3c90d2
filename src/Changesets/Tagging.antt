-- ===== src/Changesets/Tagging.antt =====
-- The calls of the tagging API by change sets: `_group_key`, `fetch_current_tags`, `_tag_batches`
-- and `_run_tagging` of src/changesets.py. The account and region of a call choose its client. An
-- ARN stands in one item of a change set at most, since `build_plan` merges its targets by ARN: a
-- failure is kept here under its ARN, in place of a mark on the item.
pub mod Frame
use mathlib.Core.List.{map}
use aws_tagging_utils.Base.{ℕ, String, Bool, true, false, not, Option, none, some, List, [], ◌∷◌}
use aws_tagging_utils.Base.{
  Eq, ◌==◌, contains, string_eq, option_eq, pair_eq, list_eq, if◌then◌else◌, keep,
}
use aws_tagging_utils.Base.Dict
use aws_tagging_utils.Base.Dict.{Dict, append_to}
use aws_tagging_utils.Base.Text.{sort_by_key}
use aws_tagging_utils.Governance.Models.{Schema, Tags}
use aws_tagging_utils.Arn.{account_of, region_of}
use aws_tagging_utils.Protected.{record_writes}
use aws_tagging_utils.State.{Store}
use aws_tagging_utils.TagWriter.{batches}
use aws_tagging_utils.Services.{Failure, Reply, raised, returned, World}

-- The account to act in, if it is not that of the credentials, and the region.
abbrev pub Home : Type 0
Home = Option String × String

-- An item of `ResourceTagMappingList`: the ARN, and its tags with the values that are given.
abbrev pub Mapping : Type 0
Mapping = String × List (String × Option String)

-- The client's calls. `get_resources` is the list over all pages, or `none` for an exception.
pub record ResourceApi (W : Type 0) : Type 0 where
  pub get_resources : Home → List String → W → Option (List Mapping)
  pub tag_resources : Home → List String → Tags → W → Reply × W
  pub untag_resources : Home → List String → List String → W → Reply × W

unfoldable pub home_partition_account : String → Option String
home_partition_account arn =
    let acct = account_of arn in
    if contains ("unknown" ∷ "" ∷ "aws" ∷ []) acct then none else some acct

unfoldable pub group_key : String → String → Home
unfolding home_partition_account
group_key default_region arn =
    let region = region_of arn "" in
    (home_partition_account arn, if region == "" then default_region else region)

-- `{t["Key"]: t.get("Value", "") for t in item.get("Tags", [])}`
read_tags : List (String × Option String) → Tags → Tags
read_tags [] d = d
read_tags ((k, none) ∷ tags) d = read_tags tags (Dict.insert d k "")
read_tags ((k, some v) ∷ tags) d = read_tags tags (Dict.insert d k v)

store_mappings : List Mapping → Dict String Tags → Dict String Tags
unfolding read_tags
store_mappings [] out = out
store_mappings ((arn, tags) ∷ more) out =
    store_mappings more (Dict.insert out arn (read_tags tags []))

group_arns : String → List String → Dict Home (List String) → Dict Home (List String)
unfolding group_key
group_arns default_region [] groups = groups
group_arns default_region (arn ∷ arns) groups =
    group_arns default_region arns (append_to groups (group_key default_region arn) arn)

-- `{a: {} for a in arns}`
untagged : List String → Dict String Tags → Dict String Tags
untagged [] out = out
untagged (a ∷ arns) out = untagged arns (Dict.insert out a [])

module _ {W : Type 0} (api : ResourceApi W) (default_region : String) where
  fetch_batches : Home → List (List String) → W → Dict String Tags → Option (Dict String Tags)
  unfolding store_mappings
  fetch_batches home [] w out = some out
  fetch_batches home (batch ∷ more) w out = elim (api.get_resources home batch w) [
    | none ↦ none
    | some mappings ↦ fetch_batches home more w (store_mappings mappings out)
  ]

  fetch_groups : Dict Home (List String) → W → Dict String Tags → Option (Dict String Tags)
  unfolding fetch_batches
  fetch_groups [] w out = some out
  fetch_groups ((home, group) ∷ groups) w out =
      elim (fetch_batches home (batches 100 group) w out) [
        | none ↦ none
        | some out' ↦ fetch_groups groups w out'
      ]

  -- `none` where a call raises: nothing catches the exception.
  unfoldable pub fetch_current_tags : List String → W → Option (Dict String Tags)
  unfolding fetch_groups group_arns untagged
  fetch_current_tags arns w = fetch_groups (group_arns default_region arns []) w (untagged arns [])

-- `failed[arn].get("ErrorMessage") or failed[arn].get("ErrorCode")`
unfoldable pub error_text : Failure → Option String
error_text failure = elim (failure.error_message) [
  | none ↦ failure.error_code
  | some message ↦ if message == "" then failure.error_code else some message
]

-- The failures after a call: all resources of the batch, if it raised.
unfoldable pub failures : List String → Reply → Dict String Failure
failures arns (raised message) =
    map (λ a. (a, record { error_code = none; error_message = some message })) arns
failures arns (returned failed) = failed

-- `for it in batch: if it["arn"] in failed: ...`
unfoldable pub mark_items :
    List String → Dict String Failure → Dict String (Option String) → Dict String (Option String)
unfolding error_text
mark_items [] failed errors = errors
mark_items (a ∷ batch) failed errors = mark_items batch failed (elim (Dict.get failed a) [
  | none ↦ errors
  | some failure ↦ Dict.insert errors a (error_text failure)
])

-- `P` is the payload: the tags to set, or the keys to remove.
module _ {P : Type 0} ⦃e : Eq P⦄ (default_region : String) where
  unfoldable pub tag_batches :
      List (String × P) → Dict (Home × P) (List String) → Dict (Home × P) (List String)
  unfolding group_key
  tag_batches [] groups = groups
  tag_batches ((arn, payload) ∷ items) groups =
      tag_batches items (append_to groups (group_key default_region arn, payload) arn)

  module _ {W : Type 0} (call : Home → List String → P → W → Reply × W)
      (record_done : P → List String → Store → Store) where
    unfoldable pub run_batches :
        Home
        → P
        → List (List String)
        → Dict String (Option String)
        → World W
        → Dict String (Option String) × World W
    unfolding failures mark_items
    run_batches home payload [] errors w = (errors, w)
    run_batches home payload (batch ∷ more) errors w =
        let (reply, aws') = call home batch payload w.aws in
        let failed = failures batch reply in
        let done = keep (λ a. not (Dict.has_key failed a)) batch in
        run_batches home payload more (mark_items batch failed errors)
          (record w { aws = aws'; store = record_done payload done w.store })

    unfoldable pub run_groups :
        Dict (Home × P) (List String)
        → Dict String (Option String)
        → World W
        → Dict String (Option String) × World W
    unfolding run_batches
    run_groups [] errors w = (errors, w)
    run_groups (((home, payload), group) ∷ groups) errors w =
        let (errors', w') = run_batches home payload (batches 20 group) errors w in
        run_groups groups errors' w'

-- The payloads of the items, as `json.loads` gives them back.
unfoldable pub canonical : List (String × Tags) → List (String × Tags)
canonical [] = []
canonical ((arn, tags) ∷ items) = (arn, sort_by_key tags) ∷ canonical items

module _ {W : Type 0} (api : ResourceApi W) (default_region : String) (schema : Schema) where
  -- `record_writes` after a batch of either kind
  unfoldable pub record_set : ℕ → Tags → List String → Store → Store
  record_set now tags done store =
      record_writes schema done tags [] "aws-tagging-utils" "change-set" now store

  unfoldable pub record_removed : ℕ → List String → List String → Store → Store
  record_removed now removed done store =
      record_writes schema done [] removed "aws-tagging-utils" "change-set" now store

  -- `_run_tagging(items)`: the failed ARNs with their errors.
  unfoldable pub set_all :
      ℕ → List (String × Tags) → World W → Dict String (Option String) × World W
  unfolding tag_batches run_groups canonical record_set
  set_all now items w =
      run_groups default_region api.tag_resources (record_set now)
        (tag_batches default_region (canonical items) []) [] w

  -- `_run_tagging(items, untag=True)`
  unfoldable pub remove_all :
      ℕ → List (String × List String) → World W → Dict String (Option String) × World W
  unfolding tag_batches run_groups record_removed
  remove_all now items w =
      run_groups default_region api.untag_resources (record_removed now)
        (tag_batches default_region items []) [] w
