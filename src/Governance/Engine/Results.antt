-- ===== src/Governance/Engine/Results.antt =====
-- The result of `evaluate` in closed form: the loops that add violations one at a time, summed up.
use mathlib.Core.List.{foldl, append-nil, append_assoc}
use aws_tagging_utils.Base.{String, ◌≡◌, refl, sym, ◌∙◌, Bool, true, false, not, ◌&&◌, Option}
use aws_tagging_utils.Base.{List, [], ◌∷◌, ◌++◌, arith, contains, string_eq, if◌then◌else◌, keep}
use aws_tagging_utils.Base.{is_empty}
use aws_tagging_utils.Base.Dict
use aws_tagging_utils.Runtime.{Runtime}
use aws_tagging_utils.Governance.Models.{
  Tags, ValidationViolation, ValidationResult, add_violation, is_missing_required, is_unknown_tag,
}
use aws_tagging_utils.Governance.Validators.{is_missing, missing}
use aws_tagging_utils.Governance.Policy.{evaluate_policy}
use aws_tagging_utils.Governance.Engine.{
  Engine, warn_on_unknown, normalize_step, report, extra_key, check_extra, missing_tags, evaluate,
}

-- The result with more violations, noted all at once.
abbrev pub plus : ValidationResult → List ValidationViolation → ValidationResult
plus r vs = record r { compliant = r.compliant && is_empty vs; violations = r.violations ++ vs }

plus-nil : (r : ValidationResult) → plus r [] ≡ r
plus-nil r =
    λ i. record r { compliant = and_true r.compliant i; violations = append-nil r.violations i }
  where
    and_true : (b : Bool) → (b && true) ≡ b
    and_true true = refl
    and_true false = refl

plus-cons :
    (r : ValidationResult) (v : ValidationViolation) (vs : List ValidationViolation)
    → plus (add_violation r v) vs ≡ plus r (v ∷ vs)
unfolding add_violation
plus-cons r v vs = λ i. record r {
  compliant = and_false r.compliant i;
  violations = append_assoc r.violations (v ∷ []) vs i;
}
  where
    and_false : (b : Bool) → false ≡ (b && false)
    and_false true = refl
    and_false false = refl

foldl-add_violation :
    (vs : List ValidationViolation) (r : ValidationResult) → foldl add_violation r vs ≡ plus r vs
foldl-add_violation [] r = sym (plus-nil r)
foldl-add_violation (v ∷ vs) r = foldl-add_violation vs (add_violation r v) ∙ plus-cons r v vs

is_empty-append :
    (xs ys : List ValidationViolation) → is_empty (xs ++ ys) ≡ (is_empty xs && is_empty ys)
is_empty-append [] ys = refl
is_empty-append (x ∷ xs) ys = refl

module _ (rt : Runtime) (self : Engine) where
  -- The violations that step 2 counts against compliance, and those that it only warns of.
  unfoldable pub counts : Bool → ValidationViolation → Bool
  counts partial v =
      not (partial && is_missing_required v.type)
      && not (warn_on_unknown rt self && is_unknown_tag v.type)

  unfoldable pub warns : Bool → ValidationViolation → Bool
  warns partial v =
      not (partial && is_missing_required v.type)
      && (warn_on_unknown rt self && is_unknown_tag v.type)

  report_step :
      (partial : Bool) (vs ws : List ValidationViolation) (r : ValidationResult)
      (v : ValidationViolation)
      → let reported = report rt self partial r v in
        record (plus reported vs) { warnings = reported.warnings ++ ws }
        ≡ record (plus r (if counts partial v then v ∷ vs else vs)) {
          warnings = r.warnings ++ (if warns partial v then v ∷ ws else ws);
        }
  unfolding report counts warns
  report_step partial vs ws r v =
      ground (arith, append_assoc r.violations (v ∷ []) vs, append_assoc r.warnings (v ∷ []) ws)

  foldl-report :
      (partial : Bool) (vs : List ValidationViolation) (r : ValidationResult)
      → foldl (report rt self partial) r vs ≡ record (plus r (keep (counts partial) vs)) {
        warnings = r.warnings ++ keep (warns partial) vs;
      }
  unfolding keep
  foldl-report partial [] r = ground (arith, append-nil r.violations, append-nil r.warnings)
  foldl-report partial (v ∷ vs) r =
      foldl-report partial vs (report rt self partial r v)
      ∙ report_step partial (keep (counts partial) vs) (keep (warns partial) vs) r v

  -- What step 3 adds, from the keys that are missing already.
  unfoldable pub extra_missing : Tags → List String → List String → List ValidationViolation
  extra_missing tags [] already = []
  extra_missing tags (key ∷ rest) already =
      let canonical = extra_key rt self key in
      if contains already canonical
      then extra_missing tags rest already
      else if is_missing (Dict.get tags canonical)
      then missing canonical ∷ extra_missing tags rest (canonical ∷ already)
      else extra_missing tags rest already

  check_extra-plus :
      (keys already : List String) (r : ValidationResult)
      → check_extra rt self keys already r ≡ plus r (extra_missing r.normalized_tags keys already)
  unfolding check_extra extra_missing
  check_extra-plus [] already r = sym (plus-nil r)
  check_extra-plus (key ∷ keys) already r =
      let canonical = extra_key rt self key in
      ground (
        arith,
        check_extra-plus keys already r,
        check_extra-plus keys (canonical ∷ already) (add_violation r (missing canonical)),
        plus-cons r (missing canonical)
            (extra_missing r.normalized_tags keys (canonical ∷ already)),
      )

  module _ (tags : Tags) where
    -- The tags that are evaluated, and what each step counts.
    abbrev pub evaluated : Tags
    evaluated = (normalize_step rt self tags).0

    abbrev pub policy_findings : List ValidationViolation
    policy_findings = evaluate_policy rt self.schema self.unknown_tags_behavior evaluated

    abbrev pub counted : Bool → List ValidationViolation
    counted partial = (normalize_step rt self tags).1 ++ keep (counts partial) policy_findings

    unfoldable pub extra_findings : List String → Bool → List ValidationViolation
    unfolding missing_tags
    extra_findings extra_required partial =
        if partial
        then []
        else extra_missing evaluated extra_required (missing_tags (counted partial))

    -- What `evaluate` returns: the violations of the three steps in this order, the warnings apart
    -- from them, and compliance exactly if there is no violation.
    pub evaluate_lem :
        (resource_id : Option String) (extra_required : List String) (partial : Bool)
        → let violations = counted partial ++ extra_findings extra_required partial in
          evaluate rt self tags resource_id extra_required partial ≡ record {
            compliant = is_empty violations;
            resource = resource_id;
            violations = violations;
            warnings = keep (warns partial) policy_findings;
            normalized_tags = evaluated;
          }
    unfolding evaluate extra_findings
    evaluate_lem resource_id extra_required true =
        let (normalized, conflicts) = normalize_step rt self tags in
        let kept = keep (counts true) policy_findings in
        rw (foldl-add_violation, foldl-report)
          (ground (arith, is_empty-append conflicts kept, append-nil (conflicts ++ kept)))
    evaluate_lem resource_id extra_required false =
        let (normalized, conflicts) = normalize_step rt self tags in
        let kept = keep (counts false) policy_findings in
        let extra = extra_missing normalized extra_required (missing_tags (conflicts ++ kept)) in
        rw (foldl-add_violation, foldl-report, check_extra-plus)
          (ground
            (arith, is_empty-append conflicts kept, is_empty-append (conflicts ++ kept) extra))
