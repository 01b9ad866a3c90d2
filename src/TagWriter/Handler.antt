-- ===== src/TagWriter/Handler.antt =====
-- `lambda_handler` and `collect_arns`: src/tag_writer.py
pub mod Requests
use aws_tagging_utils.Base.{
  ℕ, String, Bool, true, false, not, ◌&&◌, ◌||◌, Option, none, some, List, [],
}
use aws_tagging_utils.Base.{◌∷◌, ◌++◌, ◌==◌, contains, string_eq, if◌then◌else◌, is_empty}
use aws_tagging_utils.Base.Dict
use aws_tagging_utils.Base.Int.{ℤ}
use aws_tagging_utils.Base.Text.{strip, is_blank, starts_with}
use aws_tagging_utils.Json.{
  Json, null, boolean, number, text, array, object, Items, no_items, item, Fields, no_fields, field,
  get_field, truthy, Loader,
}
use aws_tagging_utils.Runtime.{Runtime}
use aws_tagging_utils.Governance.Models.{Tags, ValidationViolation}
use aws_tagging_utils.Governance.Engine.{Engine, evaluate}
use aws_tagging_utils.Services.{AwsApi, World, Config}
use aws_tagging_utils.TagWriter.{Results, tag_resources}
use aws_tagging_utils.Remediation.{governance_engine}

-- A call that may raise a `ValueError` with its text.
pub data Attempted {ℓ} (A : Type ℓ) : Type ℓ where
  value_error : String → Attempted A
  value : A → Attempted A

pub data Response : Type 0 where
  bad_request : String → Response
  not_compliant : List ValidationViolation → Response
  partial_success : Results → Response
  success : ℤ → Tags → List ValidationViolation → Response

module _ (loader : Loader) where
  open loader use {str}

  -- `if event.get(key): raw.append(event[key])`
  unfoldable pub single : Fields → String → List Json
  single event key = elim (get_field event key) [
    | none ↦ []
    | some v ↦ if truthy (some v) then v ∷ [] else []
  ]

  unfoldable pub items_of : Items → List Json
  items_of no_items = []
  items_of (item v rest) = v ∷ items_of rest

  -- `event.get("arns") or []`, as a list of ARNs.
  unfoldable pub arns_field : Option Json → Attempted (List Json)
  unfolding items_of
  arns_field none = value []
  arns_field (some (array xs)) = value (items_of xs)
  arns_field (some (text s)) = if s == "" then value [] else value (text s ∷ [])
  arns_field (some v) =
      if truthy (some v) then value_error "'arns' must be a list of ARNs." else value []

  -- The loop of `collect_arns`, from what it has found.
  unfoldable pub collect_loop : Bool → List Json → List String → Attempted (List String)
  collect_loop validate [] out = value out
  collect_loop validate (v ∷ raw) out =
      let a = strip (str v) in
      let rest = collect_loop validate raw (if contains out a then out else out ++ (a ∷ [])) in
      if validate && not (starts_with a "arn:") then value_error "Invalid ARN" else rest

  unfoldable pub collect_arns : Fields → Bool → Attempted (List String)
  unfolding single arns_field collect_loop
  collect_arns event validate = elim (arns_field (get_field event "arns")) [
    | value_error e ↦ value_error e
    | value listed ↦
        collect_loop validate (single event "arn" ++ (single event "resource_arn" ++ listed)) []
  ]

  -- `isinstance(v, (str, int, float))`
  is_scalar : Json → Bool
  is_scalar (boolean b) = true
  is_scalar (number is_zero digits) = true
  is_scalar (text s) = true
  is_scalar _ = false

  scalars : Fields → Bool
  unfolding is_scalar
  scalars no_fields = true
  scalars (field k v rest) = is_scalar v && scalars rest

  -- `{k.strip(): str(v).strip() for k, v in tags.items()}`
  strip_tags : Fields → Tags → Tags
  strip_tags no_fields d = d
  strip_tags (field k v rest) d = strip_tags rest (Dict.insert d (strip k) (strip (str v)))

  module _ (rt : Runtime) where
    keys_fine : Fields → Bool
    keys_fine no_fields = true
    keys_fine (field k v rest) =
        not (is_blank k || starts_with (rt.lower k) "aws:") && keys_fine rest

    unfoldable pub check_tags : Option Json → Attempted Tags
    unfolding scalars strip_tags keys_fine
    check_tags (some (object (field k v rest))) =
        if not (keys_fine (field k v rest))
        then value_error "Invalid tag keys (empty or reserved 'aws:' prefix)"
        else if not (scalars (field k v rest))
        then value_error "Tag values must be strings."
        else value (strip_tags (field k v rest) [])
    check_tags _ = value_error "Field 'tags' must be a non-empty object."

    -- The ARNs and tags of a request.
    unfoldable pub check_request : Fields → Attempted (List String × Tags)
    check_request event = elim (collect_arns event true) [
      | value_error e ↦ value_error e
      | value arns ↦
          if is_empty arns
          then value_error "Field 'arn' or 'arns' is required."
          else (elim (check_tags (get_field event "tags")) [
            | value_error e ↦ value_error e
            | value tags ↦ value (arns, tags)
          ])
    ]

    unfoldable pub region_text : Option Json → String → String
    region_text none default_region = strip default_region
    region_text (some v) default_region = strip (str v)

    module _ {W : Type 0} (api : AwsApi W) (config : Config) where
      -- From the checked request on.
      unfoldable pub write_tags : String → List String → Tags → ℕ → World W → Response × World W
      write_tags region arns tags now w =
          let checked = evaluate rt (governance_engine rt api config) tags none [] true in
          let (result, w') = tag_resources api config checked.normalized_tags now arns region w in
          if config.strict_mode && not checked.compliant
          then (not_compliant checked.violations, w)
          else if not (is_empty result.failed_resources)
          then (partial_success result, w')
          else (success result.tagged_count checked.normalized_tags checked.warnings, w')

      unfoldable pub lambda_handler : Fields → ℕ → World W → Response × World W
      unfolding write_tags region_text
      lambda_handler event now w = elim (check_request event) [
        | value_error e ↦ (bad_request e, w)
        | value request ↦
            let (arns, tags) = request in
            write_tags (region_text (get_field event "region") config.default_region) arns tags now
              w
      ]
