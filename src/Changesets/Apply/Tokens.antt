-- ===== src/Changesets/Apply/Tokens.antt =====
-- The preview token of a change set.
use aws_tagging_utils.Base.{
  ℕ, String, Bool, Option, none, some, List, [], ◌∷◌, ◌≡◌, refl, sym, ap, ◌∙◌, arith,
}
use aws_tagging_utils.Base.{◌==◌, if◌then◌else◌}
use aws_tagging_utils.Base.Dict
use aws_tagging_utils.Base.{string_eq, ◌≢◌}
use aws_tagging_utils.Base.Dict.{Dict}
use aws_tagging_utils.Base.Text.{sort_by_key, get-sort_by_key}
use aws_tagging_utils.Changesets.{Target, Change, PlanItem}
use aws_tagging_utils.Changesets.Log.{Site, finished, refused}
use aws_tagging_utils.Changesets.Apply.{
  Context, canonical_plan, plan_token, plan_for, is_stale, apply,
}

-- What the token of a plan is the hash of.
abbrev pub hashed : List PlanItem → Dict String (Dict String Change)
hashed plan = sort_by_key (canonical_plan plan)

-- The change that a plan makes to a key of a resource.
unfoldable pub change_of : List PlanItem → String → String → Option Change
change_of [] arn k = none
change_of (p ∷ plan) arn k = if arn == p.arn then Dict.get p.changes k else change_of plan arn k

change_in : Dict String (Dict String Change) → String → String → Option Change
change_in d arn k = elim (Dict.get d arn) [ none ↦ none | some changes ↦ Dict.get changes k ]

change_in-canonical_plan :
    (plan : List PlanItem) (arn k : String)
    → change_in (canonical_plan plan) arn k ≡ change_of plan arn k
unfolding change_in canonical_plan change_of Dict.get
change_in-canonical_plan [] arn k = refl
change_in-canonical_plan (p ∷ plan) arn k =
    ground (arith, get-sort_by_key p.changes k, change_in-canonical_plan plan arn k)

-- The hash of a plan covers each of its changes.
change_in-hashed :
    (plan : List PlanItem) (arn k : String) → change_in (hashed plan) arn k ≡ change_of plan arn k
unfolding change_in
change_in-hashed plan arn k =
    ground (arith, get-sort_by_key (canonical_plan plan) arn, change_in-canonical_plan plan arn k)

module _ {W Op : Type 0} (ctx : Context W Op) where
  -- Given the token of a previewed plan, where the hash is not empty and does not collide for this
  -- plan and the live one: if the live plan makes another change to some key of some resource than
  -- the previewed one, or one of the two makes none, the call is refused with 409 and changes
  -- nothing.
  pub apply_stale :
      (cs_id : String) (now : ℕ) (targets : List Target) (overwrite : Bool)
      → (actor kind description : String) (ops : List Op) (site : Site W Op)
      → (previewed live : List PlanItem) (arn k : String)
      → plan_for ctx overwrite targets site.world.aws ≡ finished live
      → (plan_token ctx previewed ≢ "")
      → (plan_token ctx live ≡ plan_token ctx previewed → hashed live ≡ hashed previewed)
      → (change_of live arn k ≢ change_of previewed arn k)
      → apply ctx cs_id now targets overwrite actor kind description
          (some (plan_token ctx previewed))
          ops
          site
        ≡ (refused 409 "PLAN_CHANGED", site)
  unfolding apply is_stale
  apply_stale cs_id now targets overwrite actor kind description ops site previewed live arn k h
        full apart differ =
      let other : hashed live ≢ hashed previewed = λ e. differ (
        sym (change_in-hashed live arn k)
        ∙ ap (λ d. change_in d arn k) e
        ∙ change_in-hashed previewed arn k) in
      ground arith
