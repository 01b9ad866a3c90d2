-- ===== src/Governance/Normalizer.antt =====
-- `TagNormalizer`: src/governance/normalizer.py
pub mod Loop
pub mod Canonical
use aws_tagging_utils.Base.{String, ◌<>◌, ℕ, Bool, Option, none, some, List, [], ◌∷◌, ◌++◌}
use aws_tagging_utils.Base.{◌==◌, string_eq, if◌then◌else◌, ltb, length}
use aws_tagging_utils.Base.Dict
use aws_tagging_utils.Base.Dict.{Dict}
use aws_tagging_utils.Base.Text.{join}
use aws_tagging_utils.Runtime.{Runtime}
use aws_tagging_utils.Governance.Models.{
  Schema, Tags, TagSchema, ValidationViolation, normalization_conflict,
}

pub record TagNormalizer : Type 0 where
  pub schema : Schema
  pub alias_map : Dict String String

aliases_of : Option (List String) → List String
aliases_of none = []
aliases_of (some aliases) = aliases

module _ (rt : Runtime) where
  open rt use {lower}

  -- `for alias in rules.aliases`
  add_aliases : String → List String → Dict String String → Dict String String
  add_aliases canonical_key [] m = m
  add_aliases canonical_key (alias ∷ more) m =
      add_aliases canonical_key more (Dict.insert m (lower alias) canonical_key)

  -- `for canonical_key, rules in schema.items()`
  build_alias_map : Schema → Dict String String → Dict String String
  unfolding add_aliases aliases_of
  build_alias_map [] m = m
  build_alias_map ((canonical_key, rules) ∷ rest) m =
      build_alias_map rest (add_aliases canonical_key (aliases_of rules.aliases) m)

  -- `TagNormalizer(schema)`
  unfoldable pub make_normalizer : Schema → TagNormalizer
  unfolding build_alias_map
  make_normalizer schema = record { schema = schema; alias_map = build_alias_map schema [] }

  -- `for schema_key in self.schema: if schema_key.lower() == lower_key: return schema_key`
  case_variant : Schema → String → String → String
  case_variant [] lower_key original_key = original_key
  case_variant ((schema_key, rules) ∷ rest) lower_key original_key =
      if lower schema_key == lower_key then schema_key else case_variant rest lower_key original_key

  unfoldable pub get_canonical_key : TagNormalizer → String → String
  unfolding case_variant
  get_canonical_key self original_key =
      if Dict.has_key self.schema original_key
      then original_key
      else elim (Dict.get self.alias_map (lower original_key)) [
        | some canonical ↦ canonical
        | none ↦ case_variant self.schema (lower original_key) original_key
      ]

-- `canonical_to_original.setdefault(canonical_key, []).append(original_key)`
unfoldable pub append_original :
    Dict String (List String) → String → String → Dict String (List String)
append_original d key original = elim (Dict.get d key) [
  | none ↦ Dict.insert d key (original ∷ [])
  | some originals ↦ Dict.insert d key (originals ++ (original ∷ []))
]

-- `if canonical_key not in normalized_tags: normalized_tags[canonical_key] = value`
unfoldable pub keep_first : Tags → String → String → Tags
keep_first d key value = elim (Dict.get d key) [ none ↦ Dict.insert d key value | some old ↦ d ]

-- The first loop of `normalize`, over the canonical key of each original key.
module _ (canonical : String → String) where
  unfoldable pub normalize_loop :
      Tags → Tags → Dict String (List String) → Tags × Dict String (List String)
  normalize_loop [] normalized originals = (normalized, originals)
  normalize_loop ((original_key, value) ∷ rest) normalized originals =
      normalize_loop rest (keep_first normalized (canonical original_key) value)
        (append_original originals (canonical original_key) original_key)

conflict : String → List String → ValidationViolation
conflict canonical_key original_keys = record {
  tag = canonical_key;
  type = normalization_conflict;
  expected = some ("Only one tag mapping to " <> canonical_key);
  actual = some ("Conflicting keys provided: " <> join ", " original_keys);
}

-- The second loop of `normalize`.
unfoldable pub conflicts : Dict String (List String) → List ValidationViolation
unfolding conflict
conflicts [] = []
conflicts ((canonical_key, original_keys) ∷ rest) =
    if ltb 1 (length original_keys)
    then conflict canonical_key original_keys ∷ conflicts rest
    else conflicts rest

unfoldable pub normalize_by : (String → String) → Tags → Tags × List ValidationViolation
unfolding normalize_loop conflicts
normalize_by canonical tags =
    let (normalized, originals) = normalize_loop canonical tags [] [] in
    (normalized, conflicts originals)

unfoldable pub normalize : Runtime → TagNormalizer → Tags → Tags × List ValidationViolation
normalize rt self tags = normalize_by (get_canonical_key rt self) tags
