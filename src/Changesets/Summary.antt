-- ===== src/Changesets/Summary.antt =====
-- `_plan_summary`: src/changesets.py
use aws_tagging_utils.Base.{ℕ, ◌+◌, ◌≤◌, Bool, false, not, ◌&&◌, none, some, List, []}
use aws_tagging_utils.Base.{◌∷◌, if◌then◌else◌, is_empty, length, arith, ◌≡◌}
use aws_tagging_utils.Base.Dict.{Dict}
use aws_tagging_utils.Base.{String}
use aws_tagging_utils.Changesets.{Change, PlanItem}

pub record Summary : Type 0 where
  pub resources : ℕ
  pub resources_changing : ℕ
  pub keys_added : ℕ
  pub keys_changed : ℕ
  pub keys_skipped : ℕ
  pub invalid_resources : ℕ
  pub compliant_before : ℕ
  pub compliant_after : ℕ

-- `sum(1 for p in plan if test(p))`
unfoldable pub count_if : (PlanItem → Bool) → List PlanItem → ℕ
count_if test [] = 0
count_if test (p ∷ plan) = (if test p then 1 else 0) + count_if test plan

-- `sum(n(p) for p in plan)`
unfoldable pub total : (PlanItem → ℕ) → List PlanItem → ℕ
total n [] = 0
total n (p ∷ plan) = n p + total n plan

-- The changes of one item that add a key, and those that replace a value.
unfoldable pub added : Dict String Change → ℕ
added [] = 0
added ((k, c) ∷ changes) = (elim c.before [ none ↦ 1 | some v ↦ 0 ]) + added changes

unfoldable pub replaced : Dict String Change → ℕ
replaced [] = 0
replaced ((k, c) ∷ changes) = (elim c.before [ none ↦ 0 | some v ↦ 1 ]) + replaced changes

unfoldable pub plan_summary : List PlanItem → Summary
unfolding count_if total added replaced
plan_summary plan = record {
  resources = length plan;
  resources_changing = count_if (λ p. not (is_empty p.changes) && is_empty p.invalid) plan;
  keys_added = total (λ p. added p.changes) plan;
  keys_changed = total (λ p. replaced p.changes) plan;
  keys_skipped = total (λ p. length p.skipped) plan;
  invalid_resources = count_if (λ p. not (is_empty p.invalid)) plan;
  compliant_before = count_if (λ p. p.compliant_before) plan;
  compliant_after =
      count_if (λ p. p.compliant_after && is_empty p.invalid) plan
      + count_if (λ p. not (is_empty p.invalid) && p.compliant_before) plan;
}

count_if_apart :
    (f g : PlanItem → Bool) (plan : List PlanItem)
    → ((p : PlanItem) → (f p && g p) ≡ false)
    → count_if f plan + count_if g plan ≤ length plan
unfolding count_if
count_if_apart f g [] h = omega arith
count_if_apart f g (p ∷ plan) h = ground (arith, h p, count_if_apart f g plan h)

-- In the summary of a plan, the resources that change and those that are invalid are together at
-- most all resources, and those that are compliant after it are at most all.
pub plan_summary_bounded :
    (plan : List PlanItem)
    → ((plan_summary plan).resources_changing + (plan_summary plan).invalid_resources
        ≤ (plan_summary plan).resources)
      × ((plan_summary plan).compliant_after ≤ (plan_summary plan).resources)
unfolding plan_summary
plan_summary_bounded plan = (
  count_if_apart (λ p. not (is_empty p.changes) && is_empty p.invalid)
      (λ p. not (is_empty p.invalid)) plan (λ p. ground arith),
  count_if_apart (λ p. p.compliant_after && is_empty p.invalid)
      (λ p. not (is_empty p.invalid) && p.compliant_before) plan (λ p. ground arith),
)
