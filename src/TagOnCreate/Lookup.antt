-- ===== src/TagOnCreate/Lookup.antt =====
-- `fetch_tags_for_arns` and `is_missing_owner_tag`: src/tag_on_create.py
pub mod Rounds
use aws_tagging_utils.Base.{
  ℕ, zero, suc, String, Bool, true, false, not, ◌||◌, Option, none, some, List, [], ◌∷◌, ◌++◌,
}
use aws_tagging_utils.Base.{◌==◌, string_eq, if◌then◌else◌, contains, keep}
use aws_tagging_utils.Base.Dict
use aws_tagging_utils.Base.Dict.{Dict}
use aws_tagging_utils.Base.Text.{is_blank}
use aws_tagging_utils.Governance.Models.{Tags}
use aws_tagging_utils.TagWriter.{batches}

-- An item of a response of GetResources: the ARN, if there is one, and the keys with their values.
abbrev pub Resource : Type 0
Resource = Option String × List (String × String)

-- A call of `get_resources`, `none` for a `ClientError` or a `BotoCoreError`. What AWS knows may
-- have changed at the next call.
abbrev pub GetResources : Type 0 → Type 0
GetResources W = List String → W → Option (List Resource) × W

-- `{t["Key"]: t["Value"] for t in ...}`
unfoldable pub tags_from : List (String × String) → Tags → Tags
tags_from [] d = d
tags_from ((k, v) ∷ tags) d = tags_from tags (Dict.insert d k v)

-- `if not arn: continue`
unfoldable pub arn_given : Option String → Option String
arn_given none = none
arn_given (some arn) = if arn == "" then none else some arn

-- `batch_found`
unfoldable pub found_in : List Resource → List String
unfolding arn_given
found_in [] = []
found_in ((arn, tags) ∷ items) = elim (arn_given arn) [
  | none ↦ found_in items
  | some a ↦ a ∷ found_in items
]

-- `result[str(arn)] = tags` of each item
unfoldable pub add_found : List Resource → Dict String Tags → Dict String Tags
unfolding arn_given tags_from
add_found [] result = result
add_found ((arn, tags) ∷ items) result = elim (arn_given arn) [
  | none ↦ add_found items result
  | some a ↦ add_found items (Dict.insert result a (tags_from tags []))
]

module _ {W : Type 0} (get_resources : GetResources W) (batch_size : ℕ) where
  -- One attempt over the batches: the result so far, and what stays pending.
  unfoldable pub attempt :
      List (List String) → Dict String Tags → List String → W → Dict String Tags × (List String × W)
  unfolding found_in add_found
  attempt [] result next_pending w = (result, (next_pending, w))
  attempt (batch ∷ more) result next_pending w =
      let (reply, w') = get_resources batch w in
      elim reply [
        | none ↦ attempt more result (next_pending ++ batch) w'
        | some items ↦
            attempt more (add_found items result)
              (next_pending ++ keep (λ a. not (contains (found_in items) a)) batch) w'
      ]

  -- `for attempt in range(TAG_LOOKUP_RETRIES)`; the first argument counts the rounds left.
  unfoldable pub rounds :
      ℕ → List String → Dict String Tags → W → Dict String Tags × (List String × W)
  unfolding attempt
  rounds zero pending result w = (result, (pending, w))
  rounds (suc n) [] result w = (result, ([], w))
  rounds (suc n) (a ∷ pending) result w =
      let (result', (next_pending, w')) = attempt (batches batch_size (a ∷ pending)) result [] w in
      rounds n next_pending result' w'

  unfoldable pub fetch_tags_for_arns : ℕ → List String → W → Dict String Tags × W
  unfolding rounds
  fetch_tags_for_arns retries arns w =
      let (result, (pending, w')) = rounds retries arns [] w in (result, w')

-- `OWNER_TAG_KEY not in tags or not str(tags.get(OWNER_TAG_KEY, "")).strip()`
unfoldable pub is_missing_owner_tag : String → Tags → Bool
is_missing_owner_tag owner_tag_key tags = elim (Dict.get tags owner_tag_key) [
  | none ↦ true
  | some v ↦ is_blank v
]
