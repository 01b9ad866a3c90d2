-- ===== src/State/Dynamo/Agreement.antt =====
-- The DynamoDB store and the memory store agree on claims and updates.
use mathlib.Core.Path.{subst}
use aws_tagging_utils.Base.{
  ℕ, ◌+◌, String, Bool, true, false, ◌&&◌, ◌||◌, Option, none, some, List, [], ◌∷◌, ◌≡◌, refl,
  arith, ◌∙◌, sym,
}
use aws_tagging_utils.Base.{
  ◌==◌, string_eq, option_eq, if◌then◌else◌, ltb, contains, Bool-cases, Option-cases, inl, inr,
}
use aws_tagging_utils.Base.Dict
use aws_tagging_utils.Base.Dict.{Dict}
use aws_tagging_utils.State
use aws_tagging_utils.State.{
  Store, Action, Status, in_progress, status_eq, is_named, lease_expired, can_claim, claimed_item,
  Updates, updated_item, refused_transition, unexpected_status,
}
use aws_tagging_utils.State.Dynamo.{
  Table, Write, written, check_failed, write_raises, Condition, has_status, lease_before,
  no_attempts, attempts_below, both, either, Clause, set_status, set_updated_at, set_lease_until,
  set_claimed_at, set_last_attempt_at, set_worker_id, set_last_error_code, add_attempt, any_status,
  claim_condition, worker_clauses, claim_clauses, update_clauses, succeeded, expected_condition,
  claim_remediation_action, update_remediation_action,
}

-- What AWS documents of a condition: a comparison with a missing attribute is false.
abbrev pub holds : Condition → Option Action → Bool
holds (has_status s) none = false
holds (has_status s) (some item) = item.status == s
holds (lease_before t) none = false
holds (lease_before t) (some item) = lease_expired item.lease_until t
holds no_attempts none = true
holds no_attempts (some item) = false
holds (attempts_below n) none = false
holds (attempts_below n) (some item) = ltb item.attempt_count n
holds (both a b) item = holds a item && holds b item
holds (either a b) item = holds a item || holds b item

-- What AWS documents of the clauses of an update.
abbrev pub assign : Clause → Action → Action
assign (set_status s) item = record item { status = s }
assign (set_updated_at t) item = record item { updated_at = t }
assign (set_lease_until t) item = record item { lease_until = some t }
assign (set_claimed_at t) item = record item { claimed_at = some t }
assign (set_last_attempt_at t) item = record item { last_attempt_at = some t }
assign (set_worker_id worker) item = record item { worker_id = some worker }
assign (set_last_error_code c) item = record item { last_error_code = some c }
assign add_attempt item = record item { attempt_count = item.attempt_count + 1 }

abbrev pub assign_all : List Clause → Action → Action
assign_all [] item = item
assign_all (c ∷ clauses) item = assign_all clauses (assign c item)

-- What a conditional update that did not raise has done to the actions `before`.
abbrev pub Updated :
    Dict String Action → String → List Clause → Condition → Write → Dict String Action → Type 0
Updated before key clauses cond written after =
    (holds cond (Dict.get before key) ≡ true)
    × ((item : Action)
        → Dict.get before key ≡ some item
        → after ≡ Dict.insert before key (assign_all clauses item))
Updated before key clauses cond check_failed after =
    (holds cond (Dict.get before key) ≡ false) × (after ≡ before)
Updated before key clauses cond write_raises after = Unit

holds-any_status :
    (cond : Condition) (statuses : List Status) (item : Action)
    → holds (any_status cond statuses) (some item)
      ≡ (holds cond (some item) || contains statuses item.status)
unfolding any_status
holds-any_status cond [] item = ground arith
holds-any_status cond (s ∷ statuses) item =
    holds-any_status (either cond (has_status s)) statuses item ∙ ground arith

any_status-none :
    (cond : Condition) (statuses : List Status)
    → holds (any_status cond statuses) none ≡ holds cond none
unfolding any_status
any_status-none cond [] = refl
any_status-none cond (s ∷ statuses) =
    any_status-none (either cond (has_status s)) statuses ∙ ground arith

-- The answer and the actions of an operation of the memory store that writes `new item` over an
-- item that passes a test.
abbrev passes : (Action → Bool) → Option Action → Bool
passes test none = false
passes test (some item) = test item

abbrev actions_after :
    (Action → Bool) → (Action → Action) → Dict String Action → String → Dict String Action
actions_after test new before id = elim (Dict.get before id) [
  | none ↦ before
  | some item ↦ if test item then Dict.insert before id (new item) else before
]

reply_agrees :
    (test : Action → Bool) (new : Action → Action) (before after : Dict String Action) (id : String)
    → (clauses : List Clause) (cond : Condition) (r : Write)
    → holds cond (Dict.get before id) ≡ passes test (Dict.get before id)
    → ((item : Action) → assign_all clauses item ≡ new item)
    → Updated before id clauses cond r after
    → (r ≡ write_raises → ⊥)
    → (succeeded r ≡ passes test (Dict.get before id)) × (after ≡ actions_after test new before id)
unfolding succeeded
reply_agrees test new before after id clauses cond written same assigned (h, done) quiet = (
  ground arith,
  elim (Option-cases (Dict.get before id)) [
    | inl e ↦ ground arith
    | inr (item, e) ↦ ground (arith, done item e, assigned item)
  ],
)
reply_agrees test new before after id clauses cond check_failed same assigned (h, kept) quiet =
    (ground arith, ground arith)
reply_agrees test new before after id clauses cond write_raises same assigned u quiet =
    absurd (quiet refl)

-- Whether a claim may go ahead, and an update, by the memory store.
abbrev claims : List Status → ℕ → Option String → ℕ → Action → Bool
claims statuses max worker now item =
    can_claim item statuses worker now && ltb item.attempt_count max

holds-claim_condition :
    (statuses : List Status) (max : ℕ) (worker : Option String) (now : ℕ) (o : Option Action)
    → (elim (claim_condition statuses max worker now) [ none ↦ false | some cond ↦ holds cond o ])
      ≡ passes (claims statuses max worker now) o
unfolding claim_condition can_claim
holds-claim_condition [] max worker now none = ground arith
holds-claim_condition [] max worker now (some item) = ground arith
holds-claim_condition (s ∷ statuses) max worker now none =
    ground (arith, any_status-none (has_status s) statuses)
holds-claim_condition (s ∷ statuses) max worker now (some item) =
    ground (arith, holds-any_status (has_status s) statuses item)

assign-claim :
    (item : Action) (worker : Option String) (lease now : ℕ)
    → assign_all (claim_clauses worker lease now) item ≡ claimed_item item worker lease now
unfolding claim_clauses worker_clauses claimed_item is_named
assign-claim item none lease now = refl
assign-claim item (some w) lease now = ground arith

assign-update :
    (item : Action) (updates : Updates) (now : ℕ)
    → assign_all (update_clauses updates now) item ≡ updated_item item updates now
unfolding update_clauses updated_item
assign-update item updates now = ground arith

memory_claim :
    (s : Store) (id : String) (statuses : List Status) (max : ℕ) (worker : Option String)
    → (lease now : ℕ)
    → (let memory = State.claim_remediation_action s id statuses max worker lease now in
        (memory.1 ≡ passes (claims statuses max worker now) (Dict.get s.actions id))
        × (memory.0.actions
            ≡ actions_after
                (claims statuses max worker now)
                (λ item. claimed_item item worker lease now)
                s.actions
                id))
unfolding State.claim_remediation_action
memory_claim s id statuses max worker lease now = (ground arith, ground arith)

abbrev expects : Status → Action → Bool
expects expected item = item.status == expected

memory_update :
    (s : Store) (id : String) (updates : Updates) (expected : Status) (now : ℕ)
    → refused_transition updates.status (some expected) ≡ false
    → (let memory = State.update_remediation_action s id updates (some expected) now in
        (memory.1 ≡ passes (expects expected) (Dict.get s.actions id))
        × (memory.0.actions
            ≡ actions_after
                (expects expected)
                (λ item. updated_item item updates now)
                s.actions
                id))
unfolding State.update_remediation_action unexpected_status
memory_update s id updates expected now h = (ground arith, ground arith)

memory_refused :
    (s : Store) (id : String) (updates : Updates) (expected : Status) (now : ℕ)
    → refused_transition updates.status (some expected) ≡ true
    → (let memory = State.update_remediation_action s id updates (some expected) now in
        (memory.1 ≡ false) × (memory.0.actions ≡ s.actions))
unfolding State.update_remediation_action
memory_refused s id updates expected now h = (ground arith, ground arith)

-- `view w` are the actions in the table, and `documented` is what AWS promises of a conditional
-- update. The call of an operation does not raise.
module _ {W : Type 0} (table : Table W) (view : W → Dict String Action)
    (documented : (key : String) (clauses : List Clause) (cond : Condition) (w : W)
      → (let out = table.update_item key clauses (some cond) w in
          Updated (view w) key clauses cond out.0 (view out.1)))
    (w : W) (id : String)
    (quiet : (clauses : List Clause) (cond : Condition)
      → (table.update_item id clauses (some cond) w).0 ≡ write_raises
      → ⊥)
    (s : Store) (same : s.actions ≡ view w) where
  conditional_agrees :
      (test : Action → Bool) (new : Action → Action) (clauses : List Clause) (cond : Condition)
      → holds cond (Dict.get s.actions id) ≡ passes test (Dict.get s.actions id)
      → ((item : Action) → assign_all clauses item ≡ new item)
      → (let out = table.update_item id clauses (some cond) w in
          (succeeded out.0 ≡ passes test (Dict.get s.actions id))
          × (view out.1 ≡ actions_after test new s.actions id))
  conditional_agrees test new clauses cond h assigned =
      let out = table.update_item id clauses (some cond) w in
      reply_agrees test new s.actions (view out.1) id clauses cond out.0 h assigned
        (subst (λ d. Updated d id clauses cond out.0 (view out.1)) (sym same)
          (documented id clauses cond w))
        (quiet clauses cond)

  -- Where both stores hold the same actions and the call does not raise, a claim has the same
  -- answer in the DynamoDB store as in the memory store, and leaves the same actions.
  pub claim_agrees :
      (statuses : List Status) (max : ℕ) (worker : Option String) (lease now : ℕ)
      → (let dynamo = claim_remediation_action table id statuses max worker lease now w in
          let memory = State.claim_remediation_action s id statuses max worker lease now in
          (dynamo.0 ≡ memory.1) × (view dynamo.1 ≡ memory.0.actions))
  unfolding claim_remediation_action
  claim_agrees statuses max worker lease now =
      let memory = memory_claim s id statuses max worker lease now in
      let condition = holds-claim_condition statuses max worker now (Dict.get s.actions id) in
      elim (Option-cases (claim_condition statuses max worker now)) [
        | inl e ↦ ground (arith, memory, same, condition)
        | inr (cond, e) ↦
            let agrees =
              conditional_agrees (claims statuses max worker now)
                (λ item. claimed_item item worker lease now) (claim_clauses worker lease now) cond
                (ground (arith, condition)) (λ item. assign-claim item worker lease now) in
            rw (e, claim_remediation_action) (agrees.0 ∙ sym memory.0, agrees.1 ∙ sym memory.1)
      ]

  -- The same for an update that names the status it expects, as all updates of the engine do.
  pub update_agrees :
      (updates : Updates) (expected : Status) (now : ℕ)
      → (let dynamo = update_remediation_action table id updates (some expected) now w in
          let memory = State.update_remediation_action s id updates (some expected) now in
          (dynamo.0 ≡ memory.1) × (view dynamo.1 ≡ memory.0.actions))
  unfolding update_remediation_action expected_condition
  update_agrees updates expected now =
      elim (Bool-cases (refused_transition updates.status (some expected))) [
        | inl e ↦ refused e
        | inr e ↦
            let memory = memory_update s id updates expected now e in
            let agrees =
              conditional_agrees (expects expected) (λ item. updated_item item updates now)
                (update_clauses updates now) (has_status expected)
                (status_passes (Dict.get s.actions id)) (λ item. assign-update item updates now) in
            rw (e, update_remediation_action) (agrees.0 ∙ sym memory.0, agrees.1 ∙ sym memory.1)
      ]
    where
      status_passes :
          (o : Option Action) → holds (has_status expected) o ≡ passes (expects expected) o
      status_passes none = refl
      status_passes (some item) = refl

      refused :
          refused_transition updates.status (some expected) ≡ true
          → (let dynamo = update_remediation_action table id updates (some expected) now w in
              let memory = State.update_remediation_action s id updates (some expected) now in
              (dynamo.0 ≡ memory.1) × (view dynamo.1 ≡ memory.0.actions))
      refused e =
          let memory = memory_refused s id updates expected now e in
          rw (e, update_remediation_action) (sym memory.0, sym same ∙ sym memory.1)
