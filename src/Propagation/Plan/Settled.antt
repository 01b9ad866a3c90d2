-- ===== src/Propagation/Plan/Settled.antt =====
-- That the plan for a child's finding leaves the child without one.
use mathlib.Core.List.{map}
use aws_tagging_utils.Base.{String, Bool, true, false, ◌≡◌, refl, ◌&&◌, none, List, ◌++◌}
use aws_tagging_utils.Base.{[], ◌∷◌, ◌==◌, string_eq, is_empty, contains, arith}
use aws_tagging_utils.Base.Dict
use aws_tagging_utils.Base.Dict.{Dict, NodupKeys}
use aws_tagging_utils.Runtime.{Runtime}
use aws_tagging_utils.Governance.Models.{Tags}
use aws_tagging_utils.Propagation.{
  Settings, Child, Mismatch, missing_of, mismatched_of, finding_of, child_findings,
}
use aws_tagging_utils.Propagation.Fixes.{missing_of_clean}
use aws_tagging_utils.Propagation.Plan.Values.{get-fixed}
use aws_tagging_utils.Propagation.Plan.{
  tags_kind, config_kind, Finding, expected_values, fix_tags, target_of, add_target, fix_loop,
  fix_plan,
}

abbrev arn_of : Child → String
arn_of child = child.arn

fix_of : Bool → Tags → Child → Tags
unfolding fix_tags
fix_of overwrite expected child =
    fix_tags overwrite (missing_of child.tags expected) (mismatched_of child.tags expected)

no_fix :
    (overwrite : Bool) (missing : Tags) (mismatched : Dict String Mismatch)
    → (is_empty missing && is_empty mismatched) ≡ true
    → fix_tags overwrite missing mismatched ≡ []
unfolding fix_tags expected_values Dict.update
no_fix true [] [] h = refl
no_fix false [] [] h = refl
no_fix overwrite [] (m ∷ mismatched) h = absurd (cc)
no_fix overwrite (m ∷ missing) mismatched h = absurd (cc)

target-other :
    (targets : Dict String Tags) (arn other : String) (tags : Tags)
    → (arn == other) ≡ false
    → Dict.get (add_target targets other tags) arn ≡ Dict.get targets arn
unfolding add_target
target-other targets arn other tags h =
    ground (arith, Dict.get-insert targets other (Dict.update (target_of targets other) tags) arn)

target-own :
    (targets : Dict String Tags) (arn : String) (tags : Tags)
    → Dict.get targets arn ≡ none
    → target_of (add_target targets arn tags) arn ≡ Dict.update [] tags
unfolding add_target target_of Dict.update
target-own targets arn [] h = ground arith
target-own targets arn (t ∷ tags) h =
    ground (arith, Dict.get-insert targets arn (Dict.update (target_of targets arn) (t ∷ tags)) arn)

module _ (rt : Runtime) (settings : Settings) (rule parent_arn : String) (expected : Tags)
    {Op : Type 0} where
  findings : List Child → List (Finding Op)
  unfolding child_findings
  findings children = map tags_kind (child_findings rt settings rule parent_arn expected children)

  -- A child's step, whether it has a finding or not.
  fix_loop-child :
      (overwrite : Bool) (child : Child) (children : List Child) (targets : Dict String Tags)
      (ops : List Op)
      → fix_loop overwrite (findings (child ∷ children)) targets ops
        ≡ fix_loop overwrite
            (findings children)
            (add_target targets child.arn (fix_of overwrite expected child))
            ops
  unfolding fix_loop findings child_findings finding_of fix_of
  fix_loop-child overwrite child children targets ops =
      ground (
        arith,
        no_fix overwrite (missing_of child.tags expected) (mismatched_of child.tags expected),
      )

  -- The findings of other children leave a target as it is.
  fix_loop-other :
      (overwrite : Bool) (arn : String) (children : List Child) (targets : Dict String Tags)
      (ops : List Op)
      → contains (map arn_of children) arn ≡ false
      → Dict.get (fix_loop overwrite (findings children) targets ops).targets arn
        ≡ Dict.get targets arn
  unfolding fix_loop findings child_findings
  fix_loop-other overwrite arn [] targets ops h = refl
  fix_loop-other overwrite arn (child ∷ children) targets ops h = ground (
    arith,
    fix_loop-child overwrite child children targets ops,
    fix_loop-other overwrite arn children
        (add_target targets child.arn (fix_of overwrite expected child)) ops,
    target-other targets arn child.arn (fix_of overwrite expected child),
  )

  -- The target of a child is its own fix.
  target-fix_loop :
      (before : List Child) (child : Child) (after : List Child) (targets : Dict String Tags)
      (ops : List Op)
      → contains (map arn_of before) child.arn ≡ false
      → contains (map arn_of after) child.arn ≡ false
      → Dict.get targets child.arn ≡ none
      → target_of
          (fix_loop true (findings (before ++ (child ∷ after))) targets ops).targets
          child.arn
        ≡ Dict.update [] (fix_of true expected child)
  unfolding target_of
  target-fix_loop [] child after targets ops hb ha hn = ground (
    arith,
    fix_loop-child true child after targets ops,
    fix_loop-other true child.arn after (add_target targets child.arn (fix_of true expected child))
        ops ha,
    target-own targets child.arn (fix_of true expected child) hn,
  )
  target-fix_loop (b ∷ before) child after targets ops hb ha hn = ground (
    arith,
    fix_loop-child true b (before ++ (child ∷ after)) targets ops,
    target-fix_loop before child after (add_target targets b.arn (fix_of true expected b)) ops,
    target-other targets child.arn b.arn (fix_of true expected b),
  )

module _ (rt : Runtime) (settings : Settings) {Op : Type 0} where
  -- Findings on the configuration give no target.
  target-fix_loop-configs :
      (configs : List Op) (rule parent_arn : String) (expected : Tags) (before : List Child)
      (child : Child) (after : List Child) (ops : List Op)
      → contains (map arn_of before) child.arn ≡ false
      → contains (map arn_of after) child.arn ≡ false
      → target_of
          (fix_loop true
            (map config_kind configs
              ++ findings rt settings rule parent_arn expected (before ++ (child ∷ after)))
            []
            ops).targets
          child.arn
        ≡ Dict.update [] (fix_of true expected child)
  unfolding fix_loop Dict.get
  target-fix_loop-configs [] rule parent_arn expected before child after ops hb ha =
      target-fix_loop rt settings rule parent_arn expected before child after [] ops hb ha refl
  target-fix_loop-configs (op ∷ configs) rule parent_arn expected before child after ops hb ha =
      target-fix_loop-configs configs rule parent_arn expected before child after (ops ++ (op ∷ []))
        hb ha

  -- The plan with "overwrite" for a parent's findings, those on its configuration first, applied
  -- to the tags of a child, leaves that child without a finding, if no key is expected twice and
  -- no other child has its ARN.
  pub fix_plan_settles :
      (configs : List Op) (rule parent_arn : String) (expected : Tags) (before : List Child)
      (child : Child) (after : List Child)
      → NodupKeys expected
      → contains (map (λ c. Child.arn c) before) child.arn ≡ false
      → contains (map (λ c. Child.arn c) after) child.arn ≡ false
      → finding_of rt settings rule parent_arn expected (record child {
        tags = Dict.update child.tags (
            target_of
              (fix_plan
                (map config_kind configs
                  ++ map tags_kind (
                      child_findings rt settings rule parent_arn expected
                        (before ++ (child ∷ after))))
                true).targets
              child.arn);
      })
        ≡ []
  unfolding finding_of fix_plan findings fix_of
  fix_plan_settles configs rule parent_arn expected before child after u hb ha =
      let own =
        target-fix_loop-configs configs rule parent_arn expected before child after [] hb ha in
      let clean =
        missing_of_clean rt settings
          (Dict.update child.tags (Dict.update [] (fix_of true expected child))) expected
          (λ k v e. get-fixed child.tags expected k v u e) u in
      ground (arith, own)
