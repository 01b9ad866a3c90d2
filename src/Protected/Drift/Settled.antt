-- ===== src/Protected/Drift/Settled.antt =====
-- When an event is a drift, and what each mode does about it.
use aws_tagging_utils.Base.{ℕ, String, ◌≡◌, ◌≢◌, refl, Bool, Option, none}
use aws_tagging_utils.Base.{some, List, [], ◌∷◌, ◌==◌, string_eq, option_eq, if◌then◌else◌}
use aws_tagging_utils.Base.{arith, contains}
use aws_tagging_utils.Base.Dict
use aws_tagging_utils.Base.Dict.{Dict}
use aws_tagging_utils.Base.Text.{sorted_set}
use aws_tagging_utils.Governance.Models.{Schema, Tags}
use aws_tagging_utils.State.{Exemption}
use aws_tagging_utils.Exemptions.{Calendar}
use aws_tagging_utils.Protected.{DriftMode, off, detect, revert, exact, get_baseline}
use aws_tagging_utils.Protected.Event.{
  Event, Drift, DriftWorld, Answer, RevertApi, drifted, expected_tags, learned_tags, invalid_event,
}
use aws_tagging_utils.Protected.Drift.{
  handle_tag_change_event, handle_change, evaluate_change, respond, react, announce, accept_exempt,
  learn, exemption_for,
}

-- A key whose baseline value the resource no longer has.
abbrev pub Drifts : Tags → Tags → String → Type 0
Drifts baseline current k =
    (v : String) × ((Dict.get baseline k ≡ some v) × (Dict.get current k ≢ some v))

-- A revert writes the baseline value of each key that drifted, and no other key.
pub get-expected-drifted :
    (baseline current : Tags) (ks : List String) (k : String)
    → Dict.get (expected_tags (drifted baseline current ks)) k ≡ (
        if contains ks k
        then (if Dict.get current k == Dict.get baseline k then none else Dict.get baseline k)
        else none)
unfolding Dict.get expected_tags drifted
get-expected-drifted baseline current [] k = refl
get-expected-drifted baseline current (j ∷ ks) k =
    ground (arith, get-expected-drifted baseline current ks k)

module _ (schema : Schema) {W : Type 0} (api : RevertApi W) where
  aws-respond :
      (ex : Option Exemption) (notifier : Bool) (event : Event) (arn : String)
      (drift : Dict String Drift) (baseline : Tags) (now : ℕ) (w : DriftWorld W)
      → (respond schema api detect ex notifier event arn drift baseline now w).1.aws ≡ w.aws
  unfolding respond react announce accept_exempt
  aws-respond none notifier event arn drift baseline now w = refl
  aws-respond (some ex) notifier event arn drift baseline now w = refl

  aws-handle_change :
      (manager : Option Calendar) (notifier : Bool) (event : Event) (arn : String) (now : ℕ)
      (w : DriftWorld W)
      → (handle_change schema api detect manager notifier event arn now w).1.aws ≡ w.aws
  unfolding handle_change evaluate_change
  aws-handle_change manager notifier event arn now w =
      let baseline = get_baseline w.store arn in
      let learned = learned_tags baseline event.tags (exact schema event.changed_tag_keys) in
      let w' = record w { store = learn schema api arn learned baseline now w.store } in
      ground (
        arith,
        aws-respond (exemption_for schema api manager w'.store now event arn) notifier event arn
            (drifted baseline event.tags (sorted_set (exact schema event.changed_tag_keys)))
            (Dict.update baseline learned) now w',
      )

  -- An event in the mode "off" or "detect" makes no call of AWS.
  pub aws-handle_tag_change_event :
      (mode : DriftMode) (manager : Option Calendar) (notifier : Bool) (event : Event) (now : ℕ)
      (w : DriftWorld W)
      → mode ≢ revert
      → (handle_tag_change_event schema api mode manager notifier event now w).1.aws ≡ w.aws
  unfolding handle_tag_change_event
  aws-handle_tag_change_event off manager notifier event now w h = refl
  aws-handle_tag_change_event revert manager notifier event now w h = absurd (h refl)
  aws-handle_tag_change_event detect manager notifier event now w h = first_resource event.resources
    where
      first_resource :
          (arns : List String)
          → (elim arns as (λ _. Answer × DriftWorld W) [
            | [] ↦ (invalid_event, w)
            | arn ∷ rest ↦ handle_change schema api detect manager notifier event arn now w
          ]).1.aws
            ≡ w.aws
      first_resource [] = refl
      first_resource (arn ∷ rest) = aws-handle_change manager notifier event arn now w
