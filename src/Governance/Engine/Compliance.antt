-- ===== src/Governance/Engine/Compliance.antt =====
-- When `evaluate` calls a set of tags compliant, stated without its loops.
use aws_tagging_utils.Base.{String, ◌≡◌, refl, ◌↔◌, ◌≤◌, Bool, true, false, not, Option}
use aws_tagging_utils.Base.{
  List, [], ◌∷◌, ◌++◌, arith, Member, All, keep, keep-append, keep-eq_self,
}
use aws_tagging_utils.Base.{keep-eq-nil, append-eq-nil_iff, is_empty_iff, All-map, length}
use aws_tagging_utils.Base.{Bool-cases, inl, inr, ◌∙◌, ap, sym, if◌then◌else◌}
use aws_tagging_utils.Runtime.{Runtime}
use aws_tagging_utils.Governance.Models.{
  Tags, ValidationViolation, ViolationType, missing_required, invalid_value, invalid_format,
  unknown_tag,
}
use aws_tagging_utils.Governance.Normalizer.{get_canonical_key, normalize}
use aws_tagging_utils.Governance.Normalizer.Loop.{originals_of, normalize_by-eq-nil_iff}
use aws_tagging_utils.Governance.Validators.{
  validate_required, validate_allowed_values, validate_pattern, validate_unknown, tolerates_unknown,
}
use aws_tagging_utils.Governance.Validators.Types.{
  HasType, validate_required-HasType, validate_allowed_values-HasType, validate_pattern-HasType,
  validate_unknown-HasType,
}
use aws_tagging_utils.Governance.Validators.Conforms.{
  Present, RequiredPresent, ValuesAllowed, FormatsMatch, KeysKnown, is_missing_iff,
  validate_required-eq-nil_iff, validate_allowed_values-eq-nil_iff, validate_pattern-eq-nil_iff,
  validate_unknown-eq-nil_iff,
}
use aws_tagging_utils.Governance.Policy.{evaluate_policy}
use aws_tagging_utils.Governance.Engine.{
  Engine, warn_on_unknown, normalize_step, extra_key, evaluate,
}
use aws_tagging_utils.Governance.Engine.Results.{
  counts, evaluated, policy_findings, counted, extra_missing, extra_findings, evaluate_lem,
}

module _ (rt : Runtime) (self : Engine) (tags : Tags) where
  counts_type :
      (partial : Bool) (t : ViolationType) (b : Bool)
      → ((v : ValidationViolation) → v.type ≡ t → counts rt self partial v ≡ b)
      → (vs : List ValidationViolation) → All (HasType t) vs
      → keep (counts rt self partial) vs ≡ (if b then vs else [])
  counts_type partial t true h vs all = keep-eq_self _ vs (All-map _ _ vs h all)
  counts_type partial t false h vs all = keep-eq-nil _ vs (All-map _ _ vs h all)

  -- What step 2 counts: the required keys in a full evaluation, the values and formats always,
  -- the unknown keys unless the mode is "warn".
  keep-counts :
      (partial : Bool)
      → let behavior = self.unknown_tags_behavior in
        keep (counts rt self partial) (evaluate_policy rt self.schema behavior tags)
        ≡ (if not partial then validate_required tags self.schema else [])
          ++ (validate_allowed_values tags self.schema
              ++ (validate_pattern rt tags self.schema
                  ++ (if not (warn_on_unknown rt self)
                      then validate_unknown rt tags self.schema behavior
                      else [])))
  unfolding evaluate_policy counts
  keep-counts partial = rw (
    keep-append,
    keep-append,
    keep-append,
    counts_type partial missing_required (not partial) (λ v e. ground arith) _
        (validate_required-HasType self.schema tags),
    counts_type partial invalid_value true (λ v e. ground arith) _
        (validate_allowed_values-HasType self.schema tags),
    counts_type partial invalid_format true (λ v e. ground arith) _
        (validate_pattern-HasType self.schema tags rt),
    counts_type partial unknown_tag (not (warn_on_unknown rt self)) (λ v e. ground arith) _
        (validate_unknown-HasType self.schema tags rt self.unknown_tags_behavior),
  )

  extra_missing-eq-nil_iff :
      (keys : List String)
      → (extra_missing rt self tags keys [] ≡ [])
        ↔ ((k : String) → Member k keys → Present tags (extra_key rt self k))
  unfolding extra_missing
  extra_missing-eq-nil_iff [] = (λ h k m. absurd m, λ h. refl)
  extra_missing-eq-nil_iff (key ∷ keys) =
      let ih = extra_missing-eq-nil_iff keys in
      let here = is_missing_iff tags (extra_key rt self key) in
      (
        λ h k m. elim m [ inl e ↦ rw e (here.0 (ground arith)) | inr n ↦ ih.0 (ground arith) k n ],
        λ h. rw (here.1 (h key (inl refl))) (ih.1 (λ k m. h k (inr m))),
      )

  no_conflicts_iff : ((normalize_step rt self tags).1 ≡ []) ↔ (
      self.enable_normalization ≡ true
      → (c : String) → length (originals_of (get_canonical_key rt self.normalizer) tags c) ≤ 1)
  unfolding normalize_step normalize
  no_conflicts_iff =
      let spec = normalize_by-eq-nil_iff (get_canonical_key rt self.normalizer) tags in
      elim (Bool-cases self.enable_normalization) [
        | inl e ↦ (λ h _. spec.0 (ground arith), λ h. rw e (spec.1 (h e)))
        | inr e ↦ (λ h e'. cc, λ h. rw e)
      ]

-- What a full or partial evaluation of `tags` asks for. The values are those of `evaluated`, the
-- tags under their canonical keys where normalisation is on.
pub record Accepts (rt : Runtime) (self : Engine) (tags : Tags) (extra_required : List String)
    (partial : Bool) : Type 0 where
  pub one_key_each :
      self.enable_normalization ≡ true
      → (c : String) → length (originals_of (get_canonical_key rt self.normalizer) tags c) ≤ 1
  pub required_present : partial ≡ false → RequiredPresent self.schema (evaluated rt self tags)
  pub values_allowed : ValuesAllowed self.schema (evaluated rt self tags)
  pub formats_match : FormatsMatch rt self.schema (evaluated rt self tags)
  pub keys_known :
      warn_on_unknown rt self ≡ false
      → tolerates_unknown rt self.unknown_tags_behavior ≡ false
      → KeysKnown rt self.schema (evaluated rt self tags)
  pub extra_present :
      partial ≡ false
      → (k : String) → Member k extra_required
      → Present (evaluated rt self tags) (extra_key rt self k)

module _ (rt : Runtime) (self : Engine) (tags : Tags) (extra_required : List String) where
  if_nil :
      (b : Bool) (vs : List ValidationViolation) → (if b then vs else []) ≡ [] → b ≡ true → vs ≡ []
  if_nil b vs h e = ground arith

  abbrev PolicyClean : Bool → Type 0
  PolicyClean partial = keep (counts rt self partial) (policy_findings rt self tags) ≡ []

  PolicyClean-parts :
      (partial : Bool)
      → PolicyClean partial
      → (partial ≡ false → RequiredPresent self.schema (evaluated rt self tags))
        × ValuesAllowed self.schema (evaluated rt self tags)
        × FormatsMatch rt self.schema (evaluated rt self tags)
        × (warn_on_unknown rt self ≡ false
            → tolerates_unknown rt self.unknown_tags_behavior ≡ false
            → KeysKnown rt self.schema (evaluated rt self tags))
  PolicyClean-parts partial h =
      let t = evaluated rt self tags in
      let parts = sym (keep-counts rt self t partial) ∙ h in
      let p1 = (append-eq-nil_iff _ _).0 parts in
      let p2 = (append-eq-nil_iff _ _).0 p1.1 in
      let p3 = (append-eq-nil_iff _ _).0 p2.1 in
      (
        λ full.
            (validate_required-eq-nil_iff self.schema t).0
              (if_nil (not partial) _ p1.0 (ap not full)),
        (validate_allowed_values-eq-nil_iff self.schema t).0 p2.0,
        (validate_pattern-eq-nil_iff self.schema t rt).0 p3.0,
        λ strict.
            (validate_unknown-eq-nil_iff self.schema t rt _).0
              (if_nil (not (warn_on_unknown rt self)) _ p3.1 (ap not strict)),
      )

  parts-PolicyClean :
      (partial : Bool) → Accepts rt self tags extra_required partial → PolicyClean partial
  parts-PolicyClean partial a =
      let t = evaluated rt self tags in
      keep-counts rt self t partial
      ∙ (append-eq-nil_iff _ _).1 (
        only_if (not partial) _ (λ e.
            (validate_required-eq-nil_iff self.schema t).1
              (a.required_present (not_true partial e))),
        (append-eq-nil_iff _ _).1 (
          (validate_allowed_values-eq-nil_iff self.schema t).1 a.values_allowed,
          (append-eq-nil_iff _ _).1 (
            (validate_pattern-eq-nil_iff self.schema t rt).1 a.formats_match,
            only_if (not (warn_on_unknown rt self)) _ (λ e.
                (validate_unknown-eq-nil_iff self.schema t rt _).1
                  (a.keys_known (not_true (warn_on_unknown rt self) e))),
          ),
        ),
      )
    where
      not_true : (b : Bool) → not b ≡ true → b ≡ false
      not_true true e = cc
      not_true false e = refl

      only_if :
          (b : Bool) (vs : List ValidationViolation)
          → (b ≡ true → vs ≡ [])
          → (if b then vs else []) ≡ []
      only_if true vs h = h refl
      only_if false vs h = refl

  extra_clean_iff :
      (partial : Bool)
      → counted rt self tags partial ≡ []
      → (extra_findings rt self tags extra_required partial ≡ []) ↔ (
          partial ≡ false
          → (k : String) → Member k extra_required
          → Present (evaluated rt self tags) (extra_key rt self k))
  unfolding extra_findings keep
  extra_clean_iff true clean = (λ h e. cc, λ h. refl)
  extra_clean_iff false clean =
      let spec = extra_missing-eq-nil_iff rt self (evaluated rt self tags) extra_required in
      rw clean (λ h _. spec.0 h, λ h. spec.1 (h refl))

  -- `evaluate` calls the tags compliant if and only if they are acceptable: no two keys of one
  -- canonical key, every required key present (in a full evaluation), every value allowed and well
  -- formed, every key known (unless the mode warns or tolerates), every extra key present (in a
  -- full evaluation).
  pub evaluate-compliant_iff :
      (resource_id : Option String) (partial : Bool)
      → ((evaluate rt self tags resource_id extra_required partial).compliant ≡ true)
        ↔ Accepts rt self tags extra_required partial
  evaluate-compliant_iff resource_id partial =
      let conflicts = no_conflicts_iff rt self tags in
      rw evaluate_lem (
        λ h.
            let both = (append-eq-nil_iff _ _).0 ((is_empty_iff _).0 h) in
            let parts = (append-eq-nil_iff _ _).0 both.0 in
            let policy = PolicyClean-parts partial parts.1 in
            record {
              one_key_each = conflicts.0 parts.0;
              required_present = policy.0;
              values_allowed = policy.1;
              formats_match = policy.2;
              keys_known = policy.3;
              extra_present = (extra_clean_iff partial both.0).0 both.1;
            },
        λ a.
            let clean =
              (append-eq-nil_iff _ _).1 (conflicts.1 a.one_key_each, parts-PolicyClean partial a) in
            (is_empty_iff _).1 (
              (append-eq-nil_iff _ _).1 (clean, (extra_clean_iff partial clean).1 a.extra_present)),
      )
