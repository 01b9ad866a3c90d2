-- ===== src/Examples/Changes.antt =====
-- Examples of change sets that are applied and undone.
use aws_tagging_utils.Base.{
  String, true, false, ◌&&◌, Option, none, some, List, [], ◌∷◌, ◌≡◌, ◌≢◌, ◌⊎◌, refl, arith,
}
use aws_tagging_utils.Base.{
  ◌==◌, contains, string_eq, option_eq, nat_eq, pair_eq, list_eq, if◌then◌else◌,
}
use aws_tagging_utils.Base.Dict
use aws_tagging_utils.Base.Dict.{Dict, NodupKeys}
use aws_tagging_utils.Governance.Models.{Tags}
use aws_tagging_utils.Governance.Engine.{make_engine}
use aws_tagging_utils.Services.{returned}
use aws_tagging_utils.State.{empty_store}
use aws_tagging_utils.Changesets.{plan_item, Target, PlanItem, changes_of, afters, apply_changes}
use aws_tagging_utils.Changesets.Log.{
  TagItem, tags_item, success, ChangeSet, Site, finished, refused, get_change_set,
}
use aws_tagging_utils.Changesets.Tagging.{Home, ResourceApi}
use aws_tagging_utils.Changesets.Apply.{Context, apply, plan_for, plan_token, befores}
use aws_tagging_utils.Changesets.Apply.Tokens.{apply_stale, change_of}
use aws_tagging_utils.Changesets.Undo.{reverse_item, undo, undo_from, before_of}
use aws_tagging_utils.Changesets.Undo.Once.{undo_twice}
use aws_tagging_utils.Changesets.Undo.Safe.{undo_safe}
use aws_tagging_utils.Changesets.Undo.Steps.{reverse_item_lem, reversed, reversed-apply_changes}
use aws_tagging_utils.Examples.{runtime, schema, arn}
use aws_tagging_utils.Examples.Plans.{live, wanted, wanted-NodupKeys}
use aws_tagging_utils.Changesets.Tagging.{fetch_current_tags}
use aws_tagging_utils.TagWriter.{batches}
use aws_tagging_utils.Changesets.Apply.{run_ops}
use aws_tagging_utils.Changesets.Undo.{current_of}
use aws_tagging_utils.Changesets.Undo.{tag_items}
use aws_tagging_utils.Changesets.Undo.{done_ops}
use aws_tagging_utils.Changesets.{tags_of}
use aws_tagging_utils.Changesets.Apply.{live_plan}
use aws_tagging_utils.Base.{Bool, sym, none}
use aws_tagging_utils.Changesets.Apply.{canonical_plan}
use aws_tagging_utils.Changesets.{validate_targets, Change}
use aws_tagging_utils.Base.Text.{starts_with}
use aws_tagging_utils.Base.Text.{strip}
use aws_tagging_utils.Base.Text.{sort_by_key}
use aws_tagging_utils.Base.Text.{sort_by_key}

-- AWS as the tags of each resource.
abbrev Aws : Type 0
Aws = String → Tags

abbrev without : List String → Tags → Tags
without ks [] = []
without ks ((k, v) ∷ tags) = if contains ks k then without ks tags else (k, v) ∷ without ks tags

abbrev values_of : Tags → List (String × Option String)
values_of [] = []
values_of ((k, v) ∷ tags) = (k, some v) ∷ values_of tags

abbrev mappings_of : List String → Aws → List (String × List (String × Option String))
mappings_of [] w = []
mappings_of (a ∷ arns) w = (a, values_of (w a)) ∷ mappings_of arns w

abbrev aws_api : ResourceApi Aws
aws_api = record {
  get_resources = λ home arns w. some (mappings_of arns w);
  tag_resources = λ home arns tags w.
      (returned [], λ a. if contains arns a then Dict.update (w a) tags else w a);
  untag_resources = λ home arns removed w.
      (returned [], λ a. if contains arns a then without removed (w a) else w a);
}

tag_frame :
    (home : Home) (arns : List String) (tags : Tags) (w : Aws) (a k : String)
    → (contains arns a && Dict.has_key tags k) ≡ false
    → Dict.get ((aws_api.tag_resources home arns tags w).1 a) k ≡ Dict.get (w a) k
unfolding Dict.has_key
tag_frame home arns tags w a k h = ground (arith, Dict.get-update-none (w a) tags k)

get-without :
    (removed : List String) (tags : Tags) (k : String)
    → contains removed k ≡ false
    → Dict.get (without removed tags) k ≡ Dict.get tags k
unfolding Dict.get
get-without removed [] k h = refl
get-without removed ((j, v) ∷ tags) k h = ground (arith, get-without removed tags k h)

untag_frame :
    (home : Home) (arns removed : List String) (w : Aws) (a k : String)
    → (contains arns a && contains removed k) ≡ false
    → Dict.get ((aws_api.untag_resources home arns removed w).1 a) k ≡ Dict.get (w a) k
untag_frame home arns removed w a k h = ground (arith, get-without removed (w a) k)

abbrev ctx : Context Aws Unit
ctx = record {
  rt = runtime;
  engine = make_engine runtime schema "warn" true;
  api = aws_api;
  ops = record { handlers = []; name = λ op. none; target = λ op. "" };
  default_region = "us-east-1";
  schema = schema;
  mandatory_tags = "Owner" ∷ [];
  max_bulk_resources = 10;
  retention = 90;
  upper = λ s. s;
  digest = λ plan. elim plan [ [] ↦ "empty" | (arn_, changes) ∷ more ↦ arn_ ];
  error_of = λ violations. "invalid";
}

-- A change set that gave the resource an owner and an environment; the owner was changed since.
abbrev set_item : TagItem
set_item = record {
  arn = arn;
  before = ("Owner", none) ∷ ("Env", some "prod") ∷ [];
  after = ("Owner", "ann") ∷ ("Env", "dev") ∷ [];
  skipped = [];
  removed = [];
  conflicts = [];
  result = success;
  error = none;
}

abbrev change_set : ChangeSet Unit
change_set = record {
  id = "cs-1";
  created_at = 100;
  actor = "ann";
  kind = "bulk_fix";
  description = "";
  status = "APPLIED";
  summary = [];
  items = tags_item set_item ∷ [];
  undo_of = none;
  undone_by = none;
}

abbrev now_tags : Tags
now_tags = ("Owner", "bob") ∷ ("Env", "dev") ∷ []

abbrev site : Site Aws Unit
site = record {
  world = record { aws = λ a. now_tags; store = empty_store; audit = [] };
  change_sets = change_set ∷ [];
}

abbrev current : Dict String Tags
current = (arn, now_tags) ∷ []

abbrev undone : ChangeSet Unit × Site Aws Unit
undone = undo_from ctx "cs-2" 101 "cs-1" "ann" change_set.items current site

undone_finished : undo ctx "cs-2" 101 "cs-1" "ann" site ≡ (finished undone.0, undone.1)
unfolding undo get_change_set string_eq fetch_current_tags Dict.append_to batches Dict.insert
    run_ops
undone_finished = refl

undo_safe_example :
    Dict.get (undone.1.world.aws arn) "Owner" ≡ Dict.get (site.world.aws arn) "Owner"
unfolding get_change_set string_eq current_of tag_items fetch_current_tags Dict.append_to batches
    Dict.insert done_ops Dict.get option_eq tags_of
undo_safe_example =
    undo_safe ctx (λ w a. w a) tag_frame untag_frame arn "Owner" "cs-2" 101 "cs-1" "ann" site
      undone.1 change_set undone.0 current refl refl refl (((refl, (refl, tt)), refl), tt)
      undone_finished

undo_twice_example :
    (undo ctx "cs-3" 102 "cs-1" "bob" undone.1 ≡ (refused 409 "ALREADY_UNDONE", undone.1))
    ⊎ (undo ctx "cs-3" 102 "cs-1" "bob" undone.1 ≡ (refused 404 "NOT_FOUND", undone.1))
undo_twice_example =
    undo_twice ctx "cs-2" 101 "cs-1" "ann" site undone.1 undone.0 "cs-3" 102 "bob" undone_finished

reverse_item_lem_example :
    let r = reverse_item set_item.after set_item.before now_tags in
    (Dict.get r.restore "Env" ≡ some "prod")
    × (contains r.remove "Env" ≡ false)
    × (Dict.has_key r.conflicts "Env" ≡ false)
unfolding Dict.get string_eq option_eq Dict.has_key before_of
reverse_item_lem_example =
    reverse_item_lem set_item.after set_item.before now_tags "Env" (refl, (refl, tt))

reversed-apply_changes_example :
    let changes = changes_of runtime live true wanted in
    let made = apply_changes runtime live changes in
    reversed made (reverse_item (afters runtime changes) (befores changes) made) "Env" ≡ none
unfolding Dict.get string_eq
reversed-apply_changes_example =
    reversed-apply_changes runtime live wanted true "Env" wanted-NodupKeys

abbrev targets : List Target
targets = record { arn = arn; tags = wanted } ∷ []

abbrev live_items : List PlanItem
live_items = plan_item runtime ctx.engine ctx.mandatory_tags true current (arn, wanted) ∷ []

planned : plan_for ctx true targets site.world.aws ≡ finished live_items
unfolding plan_for live_plan validate_targets starts_with strip fetch_current_tags Dict.get
    Dict.insert Dict.append_to batches
planned = refl

texts_differ : (s t : String) → (s == t) ≡ false → s ≢ t
texts_differ s t h = λ e. ground arith

-- A plan for another resource.
abbrev previewed : List PlanItem
previewed =
    record {
      arn = "arn:aws:s3:::other";
      changes = ("Env", record { before = none; after = "dev" }) ∷ [];
      skipped = [];
      invalid = [];
      compliant_before = false;
      compliant_after = true;
      remaining_violations = [];
    }
    ∷ []

token_empty : plan_token ctx previewed ≢ ""
unfolding string_eq plan_token sort_by_key canonical_plan
token_empty = texts_differ (plan_token ctx previewed) "" refl

tokens_differ : plan_token ctx live_items ≢ plan_token ctx previewed
unfolding string_eq plan_token sort_by_key canonical_plan plan_item
tokens_differ = texts_differ (plan_token ctx live_items) (plan_token ctx previewed) refl

abbrev is_change : Option Change → Bool
is_change none = false
is_change (some c) = true

change_given : (c : Option Change) → is_change c ≡ true → c ≢ none
change_given none h = λ e. absurd (ground arith)
change_given (some c) h = λ e. absurd (ground arith)

changes_differ :
    change_of live_items "arn:aws:s3:::other" "Env" ≢ change_of previewed "arn:aws:s3:::other" "Env"
unfolding change_of Dict.get string_eq plan_item
changes_differ = λ e. change_given (change_of previewed "arn:aws:s3:::other" "Env") refl (sym e)

apply_stale_example :
    apply ctx "cs-9" 103 targets true "ann" "bulk_fix" "" (some (plan_token ctx previewed)) [] site
    ≡ (refused 409 "PLAN_CHANGED", site)
apply_stale_example =
    apply_stale ctx "cs-9" 103 targets true "ann" "bulk_fix" "" [] site previewed live_items
      "arn:aws:s3:::other" "Env" planned token_empty (λ e. absurd (tokens_differ e)) changes_differ
