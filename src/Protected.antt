-- ===== src/Protected.antt =====
-- Protected tags and their baselines: src/protected_tags.py. The store is `MemoryStateStore`.
pub mod Event
pub mod Drift
pub mod Frame
use mathlib.Core.List.{map}
use aws_tagging_utils.Base.{
  ℕ, ◌+◌, ◌||◌, String, ◌<>◌, Bool, true, false, ◌&&◌, Option, none, some, List, [], ◌∷◌,
}
use aws_tagging_utils.Base.{
  ◌++◌, ◌==◌, contains, string_eq, option_eq, if◌then◌else◌, keep, is_empty,
}
use aws_tagging_utils.Base.Dict
use aws_tagging_utils.Base.Dict.{keys}
use aws_tagging_utils.Governance.Models.{Schema, Tags, TagSchema}
use aws_tagging_utils.State.{Store, ResourceState, get_resource_state, put_resource_state}

-- `{k for k, rule in schema.items() if rule.protected}`
unfoldable pub protected_keys : Schema → List String
protected_keys [] = []
protected_keys ((k, rule) ∷ rest) =
    if rule.protected then k ∷ protected_keys rest else protected_keys rest

-- The items of a set, each once.
dedupe : List String → List String
dedupe [] = []
dedupe (k ∷ ks) = let rest = dedupe ks in if contains rest k then rest else k ∷ rest

-- `set(keys) & protected_keys()`
unfoldable pub exact : Schema → List String → List String
unfolding dedupe
exact schema ks = keep (contains (protected_keys schema)) (dedupe ks)

unfoldable pub get_baseline : Store → String → Tags
get_baseline store arn = elim (get_resource_state store arn) [
  | none ↦ []
  | some item ↦ item.protected_tags
]

unfoldable pub put_baseline : Store → String → Tags → String → String → ℕ → Store
put_baseline store arn baseline actor source now = put_resource_state store (record {
  resource_id = arn;
  protected_tags = baseline;
  protected_updated_by = actor;
  protected_source = source;
  protected_updated_at = now;
})

-- `for k in changed`: the value that was set, or no value.
unfoldable pub authorize : List String → Tags → Tags → Tags
authorize [] set_tags baseline = baseline
authorize (k ∷ changed) set_tags baseline = authorize changed set_tags (elim (Dict.get set_tags k) [
  | some v ↦ Dict.insert baseline k v
  | none ↦ Dict.erase baseline k
])

-- `{k: tags[k] for k in _exact(tags)}`
unfoldable pub select : List String → Tags → Tags
select [] tags = []
select (k ∷ ks) tags = elim (Dict.get tags k) [
  | none ↦ select ks tags
  | some v ↦ (k, v) ∷ select ks tags
]

-- `{k: v for k, v in present.items() if k not in baseline}`
unfoldable pub unknown_to : Tags → Tags → Tags
unknown_to baseline [] = []
unknown_to baseline ((k, v) ∷ present) =
    if Dict.has_key baseline k
    then unknown_to baseline present
    else (k, v) ∷ unknown_to baseline present

module _ (schema : Schema) where
  unfoldable pub record_write : String → Tags → List String → String → String → ℕ → Store → Store
  record_write arn set_tags removed actor source now store =
      let changed = exact schema (keys set_tags ++ removed) in
      if is_empty changed
      then store
      else put_baseline store arn (authorize changed set_tags (get_baseline store arn)) actor source
          now

  write_each : List String → Tags → List String → String → String → ℕ → Store → Store
  unfolding record_write
  write_each [] set_tags removed actor source now store = store
  write_each (arn ∷ arns) set_tags removed actor source now store =
      write_each arns set_tags removed actor source now
        (record_write arn set_tags removed actor source now store)

  unfoldable pub record_writes :
      List String → Tags → List String → String → String → ℕ → Store → Store
  unfolding write_each
  record_writes arns set_tags removed actor source now store =
      if is_empty (exact schema (keys set_tags ++ removed))
      then store
      else write_each arns set_tags removed actor source now store

  -- One round of the loop of `seed_baselines`.
  seed_one : ℕ → String × Tags → Store × ℕ → Store × ℕ
  seed_one now (arn, tags) (store, updated) =
      let baseline = get_baseline store arn in
      let missing = unknown_to baseline (select (exact schema (keys tags)) tags) in
      if arn == "" || is_empty missing then (store, updated) else (
        put_baseline store arn (Dict.update baseline missing) "compliance-scan" "scan" now,
        updated + 1,
      )

  seed_loop : List (String × Tags) → ℕ → Store × ℕ → Store × ℕ
  unfolding seed_one
  seed_loop [] now state = state
  seed_loop (r ∷ resources) now state = seed_loop resources now (seed_one now r state)

-- `drift_mode`, from DRIFT_ENABLED and DRIFT_AUTO_REVERT
pub data DriftMode : Type 0 where
  off detect revert : DriftMode

unfoldable pub drift_mode : Bool → Bool → DriftMode
drift_mode drift_enabled drift_auto_revert =
    if drift_enabled then (if drift_auto_revert then revert else detect) else off

-- The store after a scan, and the number of resources updated.
unfoldable pub seed_baselines : Schema → DriftMode → List (String × Tags) → ℕ → Store → Store × ℕ
unfolding seed_loop
seed_baselines schema off resources now store = (store, 0)
seed_baselines schema mode resources now store =
    if is_empty (protected_keys schema)
    then (store, 0)
    else seed_loop schema resources now (store, 0)

-- `touched`: the protected keys among the given ones, in any case, as the schema writes them. The
-- dict maps the lower case of a protected key to the key.
by_lower : (String → String) → List String → Dict.Dict String String → Dict.Dict String String
by_lower lower [] d = d
by_lower lower (k ∷ ks) d = by_lower lower ks (Dict.insert d (lower k) k)

touched_loop : (String → String) → Dict.Dict String String → List String → List String
touched_loop lower d [] = []
touched_loop lower d (k ∷ ks) =
    let rest = touched_loop lower d ks in
    elim (Dict.get d (lower k)) [ none ↦ rest | some key ↦ key ∷ rest ]

unfoldable pub touched : (String → String) → Schema → List String → List String
unfolding by_lower touched_loop dedupe
touched lower schema ks = dedupe (touched_loop lower (by_lower lower (protected_keys schema) []) ks)
