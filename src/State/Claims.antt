-- ===== src/State/Claims.antt =====
-- Each operation on a remediation action as a function of that action alone.
use aws_tagging_utils.Base.{ℕ, String, ◌≡◌, ◌&&◌, ◌||◌}
use aws_tagging_utils.Base.{Option, none, some, List, [], ◌∷◌, arith, ltb, ◌==◌, string_eq}
use aws_tagging_utils.Base.{if◌then◌else◌, Option-cases, inl, inr}
use mathlib.Core.Option.{get_or}
use aws_tagging_utils.Base.Dict
use aws_tagging_utils.State.{
  Store, Action, Status, pending, failed_retryable, status_eq, can_claim, claimed_item,
  create_remediation_action, claim_remediation_action, Updates, updated_item, refused_transition,
  unexpected_status, update_remediation_action,
}

-- The statuses from which the engine claims.
abbrev pub claimable : List Status
claimable = pending ∷ failed_retryable ∷ []

-- What a claim, and an update, make of the action that they find.
abbrev pub after_claim : Option Action → List Status → ℕ → Option String → ℕ → ℕ → Option Action
after_claim none statuses max worker lease now = none
after_claim (some item) statuses max worker lease now =
    if can_claim item statuses worker now && ltb item.attempt_count max
    then some (claimed_item item worker lease now)
    else some item

abbrev pub after_update : Option Action → Updates → Option Status → ℕ → Option Action
after_update none updates expected now = none
after_update (some item) updates expected now =
    if refused_transition updates.status expected || unexpected_status item expected
    then some item
    else some (updated_item item updates now)

module _ (s : Store) (id j : String) where
  pub get-claim :
      (statuses : List Status) (max : ℕ) (worker : Option String) (lease now : ℕ)
      → Dict.get (claim_remediation_action s id statuses max worker lease now).0.actions j ≡ (
          if j == id
          then after_claim (Dict.get s.actions id) statuses max worker lease now
          else Dict.get s.actions j)
  unfolding claim_remediation_action
  get-claim statuses max worker lease now = elim (Option-cases (Dict.get s.actions id)) [
    | inl e ↦ ground arith
    | inr (item, e) ↦
        ground (arith, Dict.get-insert s.actions id (claimed_item item worker lease now) j)
  ]

  pub get-update :
      (updates : Updates) (expected : Option Status) (now : ℕ)
      → Dict.get (update_remediation_action s id updates expected now).0.actions j ≡ (
          if j == id
          then after_update (Dict.get s.actions id) updates expected now
          else Dict.get s.actions j)
  unfolding update_remediation_action
  get-update updates expected now = elim (Option-cases (Dict.get s.actions id)) [
    | inl e ↦ ground arith
    | inr (item, e) ↦ ground (arith, Dict.get-insert s.actions id (updated_item item updates now) j)
  ]

pub get-create :
    (s : Store) (a : Action) (j : String)
    → Dict.get (create_remediation_action s a).0.actions j
      ≡ (if j == a.action_id then some (get_or (Dict.get s.actions j) a) else Dict.get s.actions j)
unfolding create_remediation_action
get-create s a j = ground (arith, Dict.get-insert s.actions a.action_id a j)
