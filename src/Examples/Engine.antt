-- ===== src/Examples/Engine.antt =====
-- Examples of the governance engine.
use aws_tagging_utils.Base.{◌≡◌, ◌↔◌, ◌++◌, String, true, false, none}
use aws_tagging_utils.Base.{[], ◌∷◌, is_empty, keep, string_eq}
use aws_tagging_utils.Governance.Models.{Tags}
use aws_tagging_utils.Governance.Normalizer.{make_normalizer, normalize, get_canonical_key}
use aws_tagging_utils.Governance.Normalizer.Canonical.{normalize_idem}
use aws_tagging_utils.Governance.Engine
use aws_tagging_utils.Governance.Engine.{make_engine, evaluate}
use aws_tagging_utils.Governance.Engine.Results.{
  counted, extra_findings, warns, policy_findings, evaluated, evaluate_lem,
}
use aws_tagging_utils.Governance.Engine.Compliance.{Accepts, evaluate-compliant_iff}
use aws_tagging_utils.Examples.{runtime, schema, tags}

abbrev engine : Engine.Engine
engine = make_engine runtime schema "warn" true

evaluate-compliant_iff_example :
    ((evaluate runtime engine tags none ("team" ∷ []) false).compliant ≡ true)
    ↔ Accepts runtime engine tags ("team" ∷ []) false
evaluate-compliant_iff_example = evaluate-compliant_iff runtime engine tags ("team" ∷ []) none false

evaluate_lem_example : evaluate runtime engine tags none ("team" ∷ []) false ≡ record {
  compliant =
      is_empty (
        counted runtime engine tags false
        ++ extra_findings runtime engine tags ("team" ∷ []) false);
  resource = none;
  violations =
      counted runtime engine tags false ++ extra_findings runtime engine tags ("team" ∷ []) false;
  warnings = keep (warns runtime engine false) (policy_findings runtime engine tags);
  normalized_tags = evaluated runtime engine tags;
}
evaluate_lem_example = evaluate_lem runtime engine tags none ("team" ∷ []) false

-- Two spellings of one key.
abbrev doubled : Tags
doubled = ("team", "ann") ∷ ("Owner", "bob") ∷ []

abbrev canonical : String → String
canonical = get_canonical_key runtime (make_normalizer runtime schema)

normalize_idem_example :
    normalize runtime
      (make_normalizer runtime schema)
      (normalize runtime (make_normalizer runtime schema) doubled).0
    ≡ ((normalize runtime (make_normalizer runtime schema) doubled).0, [])
normalize_idem_example = normalize_idem runtime schema doubled
