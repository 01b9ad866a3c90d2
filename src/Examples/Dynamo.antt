-- ===== src/Examples/Dynamo.antt =====
-- Examples of the DynamoDB store.
use aws_tagging_utils.Base.{
  ◌≤◌, String, Bool, true, false, Option, none, some, List, [], ◌∷◌, ◌≡◌, refl, ap, arith,
}
use aws_tagging_utils.Base.{string_eq, option_eq, if◌then◌else◌, length}
use aws_tagging_utils.Base.Dict
use aws_tagging_utils.Base.Dict.{Dict}
use aws_tagging_utils.Errors.{ok, other_error}
use aws_tagging_utils.State
use aws_tagging_utils.State.{
  Store, Action, Status, in_progress, completed, status_eq, values, Updates,
}
use aws_tagging_utils.State.Claims.{claimable}
use aws_tagging_utils.State.Dynamo.{
  Table, Items, reads, raises, Write, written, check_failed, write_raises, Clause, Condition,
  claim_remediation_action, update_remediation_action, list_remediation_actions,
}
use aws_tagging_utils.State.Dynamo.Agreement.{
  holds, assign_all, Updated, claim_agrees, update_agrees,
}
use aws_tagging_utils.State.Dynamo.Scans.{Descending, list_remediation_actions_lem}
use mathlib.Core.List.{Perm}
use aws_tagging_utils.Base.{◌++◌, ◌⊎◌}
use aws_tagging_utils.Examples.{action, store}

abbrev Actions : Type 0
Actions = Dict String Action

-- A family of items that is not used here.
abbrev no_items : {A : Type 0} → Items A Actions
no_items = record {
  get_item = λ key w. reads none;
  put_item = λ a w. (write_raises, w);
  delete_item = λ key w. (write_raises, w);
  scan = λ start w. raises other_error;
}

-- The actions on two pages, the second from the key "next" on.
abbrev late_action : Action
late_action = record action { action_id = "a2"; updated_at = 9 }

abbrev action_items : Items Action Actions
action_items = record {
  get_item = λ key w. reads (Dict.get w key);
  put_item = λ a w. (written, Dict.insert w a.action_id a);
  delete_item = λ key w. (written, Dict.erase w key);
  scan = λ start w. elim start [
    | none ↦ reads (record { items = action ∷ []; last_evaluated_key = some "next" })
    | some key ↦ reads (record { items = late_action ∷ []; last_evaluated_key = none })
  ];
}

abbrev conditional : String → List Clause → Condition → Actions → Write × Actions
conditional key clauses cond w =
    if holds cond (Dict.get w key)
    then (elim (Dict.get w key) [
      | none ↦ (written, w)
      | some item ↦ (written, Dict.insert w key (assign_all clauses item))
    ])
    else (check_failed, w)

abbrev table : Table Actions
table = record {
  resources = no_items;
  exemptions = no_items;
  actions = action_items;
  create_item = λ a w. (written, Dict.insert w a.action_id a);
  update_item = λ key clauses cond w. elim cond [
    | none ↦ (write_raises, w)
    | some c ↦ conditional key clauses c w
  ];
}

documented :
    (key : String) (clauses : List Clause) (cond : Condition) (w : Actions)
    → (let out = table.update_item key clauses (some cond) w in
        Updated w key clauses cond out.0 out.1)
documented key clauses cond w = answers (holds cond (Dict.get w key)) (Dict.get w key) refl refl
  where
    answer : Bool → Option Action → Write × Actions
    answer go o =
        if go
        then (elim o [
          | none ↦ (written, w)
          | some item ↦ (written, Dict.insert w key (assign_all clauses item))
        ])
        else (check_failed, w)

    answers :
        (go : Bool) (o : Option Action)
        → holds cond (Dict.get w key) ≡ go
        → Dict.get w key ≡ o
        → Updated w key clauses cond (answer go o).0 (answer go o).1
    answers false o e f = (e, refl)
    answers true none e f = (e, λ item g. absurd (cc))
    answers true (some old) e f =
        (e, λ item g. ap (λ i. Dict.insert w key (assign_all clauses i)) (cc))

quiet :
    (clauses : List Clause) (cond : Condition)
    → (table.update_item "a1" clauses (some cond) store.actions).0 ≡ write_raises
    → ⊥
quiet clauses cond h = ground arith

claim_agrees_example :
    let dynamo = claim_remediation_action table "a1" claimable 3 (some "w1") 300 5 store.actions in
    let memory = State.claim_remediation_action store "a1" claimable 3 (some "w1") 300 5 in
    (dynamo.0 ≡ memory.1) × (dynamo.1 ≡ memory.0.actions)
claim_agrees_example =
    claim_agrees table (λ w. w) documented store.actions "a1" quiet store refl claimable 3
      (some "w1") 300 5

abbrev done : Updates
done = record { status = some completed; last_attempt_at = some 6; last_error_code = none }

update_agrees_example :
    let dynamo = update_remediation_action table "a1" done (some in_progress) 6 store.actions in
    let memory = State.update_remediation_action store "a1" done (some in_progress) 6 in
    (dynamo.0 ≡ memory.1) × (dynamo.1 ≡ memory.0.actions)
update_agrees_example =
    update_agrees table (λ w. w) documented store.actions "a1" quiet store refl done in_progress 6

list_remediation_actions_lem_example :
    (listed : List Action) × ((left_out : List Action) × ((list_remediation_actions table 2 1
            store.actions
          ≡ some (ok listed))
        × Perm (listed ++ left_out) (action ∷ late_action ∷ [])
        × Descending (listed ++ left_out)
        × (length listed ≤ 1)
        × ((left_out ≡ []) ⊎ (length listed ≡ 1))))
list_remediation_actions_lem_example =
    list_remediation_actions_lem table store.actions 2 1 ((action ∷ []) ∷ (late_action ∷ []) ∷ [])
      ("next", (refl, refl)) (omega arith)
