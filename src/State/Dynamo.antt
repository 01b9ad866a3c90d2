-- ===== src/State/Dynamo.antt =====
-- `DynamoDBStateStore`: src/governance/state.py. DynamoDB is a parameter: its table holds three
-- families of items, told apart by the prefixes of their keys, and the model has a set of calls
-- for each. The expressions that the code writes for DynamoDB are data here.
pub mod Scans
pub mod Agreement
use aws_tagging_utils.Base.{
  ℕ, zero, suc, ◌+◌, String, Bool, true, false, not, ◌&&◌, ◌||◌, Option, none, some, List, [], ◌∷◌,
  ◌++◌,
}
use aws_tagging_utils.Base.{◌==◌, string_eq, if◌then◌else◌, ltb, take}
use aws_tagging_utils.Errors.{ApiError, Result, ok, err, Raised, map_boto_error}
use aws_tagging_utils.State.{
  ResourceState, Exemption, Action, Status, in_progress, status_eq, is_named, Updates,
  refused_transition,
}

-- A read returns a value or raises.
pub data Read {ℓ} (A : Type ℓ) : Type ℓ where
  raises : Raised → Read A
  reads : A → Read A

-- A write is done, or fails its condition, or raises.
pub data Write : Type 0 where
  written check_failed write_raises : Write

-- A page of a scan: its items, and the key to go on from if there are more.
pub record Page {ℓ} (A : Type ℓ) : Type ℓ where
  pub items : List A
  pub last_evaluated_key : Option String

-- The calls on one family of items.
pub record Items (A W : Type 0) : Type 0 where
  pub get_item : String → W → Read (Option A)
  pub put_item : A → W → Write × W
  pub delete_item : String → W → Write × W
  pub scan : Option String → W → Read (Page A)

-- A condition expression on an action, and one clause of an update expression.
pub data Condition : Type 0 where
  has_status : Status → Condition
  lease_before : ℕ → Condition
  no_attempts : Condition
  attempts_below : ℕ → Condition
  both either : Condition → Condition → Condition

pub data Clause : Type 0 where
  set_status : Status → Clause
  set_updated_at set_lease_until set_claimed_at set_last_attempt_at : ℕ → Clause
  set_worker_id set_last_error_code : String → Clause
  add_attempt : Clause

-- The table: `create_item` puts an item under the condition `attribute_not_exists(PK)`.
pub record Table (W : Type 0) : Type 0 where
  pub resources : Items ResourceState W
  pub exemptions : Items Exemption W
  pub actions : Items Action W
  pub create_item : Action → W → Write × W
  pub update_item : String → List Clause → Option Condition → W → Write × W

module _ {A W : Type 0} (items : Items A W) where
  -- The loop while `LastEvaluatedKey` is in the response, on fuel: `none` for not enough.
  unfoldable pub scan_from : ℕ → Option String → List A → W → Option (Read (List A))
  scan_from zero start found w = none
  scan_from (suc fuel) start found w = elim (items.scan start w) [
    | raises e ↦ some (raises e)
    | reads page ↦ elim (page.last_evaluated_key) [
      | none ↦ some (reads (found ++ page.items))
      | some key ↦ scan_from fuel (some key) (found ++ page.items) w
    ]
  ]

-- `raise APIError(msg, ...)` on an exception
unfoldable pub or_api_error : {A : Type 0} → Read A → Result A
or_api_error (raises e) = err (map_boto_error e)
or_api_error (reads a) = ok a

-- `x.get("updated_at") or x.get("created_at")`: an action always has the first.
unfoldable pub insert_recent : Action → List Action → List Action
insert_recent a [] = a ∷ []
insert_recent a (b ∷ actions) =
    if ltb a.updated_at b.updated_at then b ∷ insert_recent a actions else a ∷ b ∷ actions

-- `items.sort(key=..., reverse=True)`, which keeps the order of equal items
unfoldable pub sort_recent : List Action → List Action
unfolding insert_recent
sort_recent [] = []
sort_recent (a ∷ actions) = insert_recent a (sort_recent actions)

-- `items[:limit]` of the sorted items, of this store and of the memory store
unfoldable pub most_recent : ℕ → List Action → List Action
unfolding sort_recent
most_recent limit actions = take limit (sort_recent actions)

-- The alternatives that are joined by `|`
unfoldable pub any_status : Condition → List Status → Condition
any_status cond [] = cond
any_status cond (s ∷ statuses) = any_status (either cond (has_status s)) statuses

-- `cond`, with the alternative of an expired lease at its end; `none` for no alternative.
unfoldable pub claim_condition : List Status → ℕ → Option String → ℕ → Option Condition
unfolding is_named any_status
claim_condition current_statuses max_attempts worker_id now =
    let expired = both (has_status in_progress) (lease_before now) in
    let attempts = either no_attempts (attempts_below max_attempts) in
    elim current_statuses [
      | [] ↦ if is_named worker_id then some (both expired attempts) else none
      | s ∷ statuses ↦
          let cond = any_status (has_status s) statuses in
          some (both (if is_named worker_id then either cond expired else cond) attempts)
    ]

worker_clauses : Option String → ℕ → ℕ → List Clause
worker_clauses none lease_duration now = []
worker_clauses (some worker_id) lease_duration now =
    if worker_id == ""
    then []
    else set_worker_id worker_id ∷ set_lease_until (now + lease_duration) ∷ set_claimed_at now ∷ []

-- `update_expr` of a claim, with its values
unfoldable pub claim_clauses : Option String → ℕ → ℕ → List Clause
unfolding worker_clauses
claim_clauses worker_id lease_duration now =
    set_status in_progress
    ∷ set_updated_at now
    ∷ add_attempt
    ∷ worker_clauses worker_id lease_duration now

-- `update_expr` of an update: the time, and a clause for each field
unfoldable pub update_clauses : Updates → ℕ → List Clause
update_clauses updates now =
    set_updated_at now
    ∷ ((elim (updates.status) [ none ↦ [] | some s ↦ set_status s ∷ [] ])
        ++ ((elim (updates.last_attempt_at) [ none ↦ [] | some t ↦ set_last_attempt_at t ∷ [] ])
            ++ (elim (updates.last_error_code) [
              | none ↦ []
              | some c ↦ set_last_error_code c ∷ []
            ])))

-- Whether the call returns `True`: a failed condition and an exception return `False`.
unfoldable pub succeeded : Write → Bool
succeeded written = true
succeeded check_failed = false
succeeded write_raises = false

-- `create_remediation_action` lets an exception pass.
pub data Creation : Type 0 where
  created exists creation_raises : Creation

module _ {W : Type 0} (table : Table W) where
  -- An exception is logged and looks like a missing item.
  unfoldable pub get_resource_state : String → W → Option ResourceState
  get_resource_state resource_id w = elim (table.resources.get_item resource_id w) [
    | raises e ↦ none
    | reads item ↦ item
  ]

  -- An exception is logged, and the caller does not learn of it.
  unfoldable pub put_resource_state : ResourceState → W → W
  put_resource_state state w = (table.resources.put_item state w).1

  unfoldable pub list_exemptions : ℕ → W → Option (Result (List Exemption))
  unfolding scan_from or_api_error
  list_exemptions fuel w = elim (scan_from table.exemptions fuel none [] w) [
    | none ↦ none
    | some read ↦ some (or_api_error read)
  ]

  unfoldable pub get_exemption : String → W → Result (Option Exemption)
  unfolding or_api_error
  get_exemption exemption_id w = or_api_error (table.exemptions.get_item exemption_id w)

  -- `now` is the new `updated_at`. The answer tells whether the call raised an `APIError`.
  unfoldable pub put_exemption : Exemption → ℕ → W → Write × W
  put_exemption exemption now w =
      table.exemptions.put_item (record exemption { updated_at = some now }) w

  unfoldable pub delete_exemption : String → W → Write × W
  delete_exemption exemption_id w = table.exemptions.delete_item exemption_id w

  unfoldable pub list_remediation_actions : ℕ → ℕ → W → Option (Result (List Action))
  unfolding scan_from most_recent
  list_remediation_actions fuel limit w = elim (scan_from table.actions fuel none [] w) [
    | none ↦ none
    | some read ↦ some (elim read [
      | raises e ↦ err (map_boto_error e)
      | reads actions ↦ ok (most_recent limit actions)
    ])
  ]

  unfoldable pub get_remediation_action : String → W → Option Action
  get_remediation_action action_id w = elim (table.actions.get_item action_id w) [
    | raises e ↦ none
    | reads item ↦ item
  ]

  unfoldable pub create_remediation_action : Action → W → Creation × W
  create_remediation_action a w =
      let (reply, w') = table.create_item a w in
      (
        elim reply [ written ↦ created | check_failed ↦ exists | write_raises ↦ creation_raises ],
        w',
      )

  unfoldable pub claim_remediation_action :
      String → List Status → ℕ → Option String → ℕ → ℕ → W → Bool × W
  unfolding claim_condition claim_clauses succeeded
  claim_remediation_action action_id current_statuses max_attempts worker_id lease_duration now w =
      elim (claim_condition current_statuses max_attempts worker_id now) [
        | none ↦ (false, w)
        | some cond ↦
            let (reply, w') =
              table.update_item action_id (claim_clauses worker_id lease_duration now) (some cond)
                w in
            (succeeded reply, w')
      ]

  -- `if expected_status: kwargs["ConditionExpression"] = ...`
  expected_condition : Option Status → Option Condition
  expected_condition none = none
  expected_condition (some status) = some (has_status status)

  unfoldable pub update_remediation_action : String → Updates → Option Status → ℕ → W → Bool × W
  unfolding update_clauses succeeded expected_condition
  update_remediation_action action_id updates expected_status now w =
      let (reply, w') =
        table.update_item action_id (update_clauses updates now)
          (expected_condition expected_status) w in
      if refused_transition updates.status expected_status
      then (false, w)
      else (succeeded reply, w')
