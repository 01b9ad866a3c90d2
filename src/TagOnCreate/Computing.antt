-- ===== src/TagOnCreate/Computing.antt =====
-- The ARNs that the creation of instances, volumes, databases and queues names:
-- src/tag_on_create.py, from `extract_run_instances` to `extract_create_secret`.
use aws_tagging_utils.Base.{
  String, ◌<>◌, Bool, true, false, not, ◌&&◌, Option, none, some, List, [], ◌∷◌,
}
use aws_tagging_utils.Base.{◌==◌, string_eq, option_eq, if◌then◌else◌}
use aws_tagging_utils.Base.Text.{strip}
use aws_tagging_utils.Json.{
  Json, array, object, Items, no_items, item, Fields, no_fields, field, get_field, truthy,
}
use aws_tagging_utils.TagOnCreate.{
  Setting, or_else, as_object, dict_of, nested, request_of, response_of, str_of, one, one_arn,
}

-- `_VOLUME_ARN_RE`
abbrev volume_arn_re : String
volume_arn_re = "^arn:aws:ec2:[a-z0-9-]+:\\d{12}:volume/vol-[a-f0-9]+$"

module _ (setting : Setting) where
  -- `(it or {}).get("instanceId")` of each item
  instances_of : Fields → Fields → Items → Option (List String)
  instances_of detail envelope no_items = some []
  instances_of detail envelope (item it items) = elim (dict_of (some it)) [
    | none ↦ none
    | some d ↦ elim (instances_of detail envelope items) [
      | none ↦ none
      | some rest ↦
          elim (one_arn setting "ec2" "instance/" detail envelope (get_field d "instanceId")) [
            | [] ↦ some rest
            | a ∷ none_more ↦ some (a ∷ rest)
          ]
    ]
  ]

  -- Iterating a dict gives its keys: an empty text stands for `{}`, another has no `get`.
  keys_blank : Fields → Bool
  keys_blank no_fields = true
  keys_blank (field k v rest) = k == "" && keys_blank rest

  -- The loop over `... .get("items") or []`
  instances_in : Fields → Fields → Option Json → Option (List String)
  unfolding instances_of keys_blank
  instances_in detail envelope none = some []
  instances_in detail envelope (some (array items)) = instances_of detail envelope items
  instances_in detail envelope (some (object fields)) = if keys_blank fields then some [] else none
  instances_in detail envelope (some v) = if truthy (some v) then none else some []

  unfoldable pub extract_run_instances : Fields → Fields → Option (List String)
  unfolding instances_in
  extract_run_instances detail envelope =
      elim (nested (response_of detail) "instancesSet" "items") [
        | none ↦ none
        | some items ↦ instances_in detail envelope items
      ]

  -- `_VOLUME_ARN_RE.match(s)`
  is_volume_arn : String → Bool
  is_volume_arn s = elim (setting.rt.re_match volume_arn_re s) [
    | some matched ↦ matched
    | none ↦ false
  ]

  volume_arns : Items → List String
  unfolding is_volume_arn
  volume_arns no_items = []
  volume_arns (item r items) =
      let rest = volume_arns items in
      let s = strip (setting.loader.str r) in if is_volume_arn s then s ∷ rest else rest

  volume_arns_from_envelope : Fields → List String
  unfolding volume_arns
  volume_arns_from_envelope envelope = elim (get_field envelope "resources") [
    | none ↦ []
    | some raw ↦ elim raw [ array items ↦ volume_arns items | _ ↦ [] ]
  ]

  -- `if not vid and isinstance(resp.get("CreateVolumeResponse"), dict)`
  volume_id : Fields → Option Json
  volume_id resp =
      or_else (get_field resp "volumeId")
        (get_field (as_object (get_field resp "CreateVolumeResponse")) "volumeId")

  unfoldable pub extract_create_volume : Fields → Fields → Option (List String)
  unfolding volume_arns_from_envelope volume_id
  extract_create_volume detail envelope =
      let vid = volume_id (response_of detail) in
      if truthy vid
      then some (one_arn setting "ec2" "volume/" detail envelope vid)
      else some (volume_arns_from_envelope envelope)

  unfoldable pub extract_create_function : Fields → Fields → Option (List String)
  extract_create_function detail envelope =
      some (one setting (get_field (response_of detail) "functionArn"))

  unfoldable pub extract_create_bucket : Fields → Fields → Option (List String)
  extract_create_bucket detail envelope =
      let name = get_field (request_of detail) "bucketName" in
      some (if truthy name then ("arn:aws:s3:::" <> str_of setting name) ∷ [] else [])

  unfoldable pub extract_create_db_instance : Fields → Fields → Option (List String)
  extract_create_db_instance detail envelope =
      some (one setting (get_field (response_of detail) "dBInstanceArn"))

  unfoldable pub extract_create_db_cluster : Fields → Fields → Option (List String)
  extract_create_db_cluster detail envelope =
      some (one setting (get_field (response_of detail) "dBClusterArn"))

  unfoldable pub extract_create_topic : Fields → Fields → Option (List String)
  extract_create_topic detail envelope =
      some (one setting (get_field (response_of detail) "topicArn"))

  unfoldable pub extract_create_queue : Fields → Fields → Option (List String)
  extract_create_queue detail envelope =
      let url = get_field (response_of detail) "queueUrl" in
      if not (truthy url)
      then some []
      else some (elim (setting.match_queue_url (strip (str_of setting url))) [
        | none ↦ []
        | some (reg, acct, qname) ↦
            ("arn:aws:sqs:" <> (reg <> (":" <> (acct <> (":" <> qname))))) ∷ []
      ])

  unfoldable pub extract_create_table : Fields → Fields → Option (List String)
  extract_create_table detail envelope = some (
      one setting
        (get_field (as_object (get_field (response_of detail) "tableDescription")) "tableArn"))

  unfoldable pub extract_create_secret : Fields → Fields → Option (List String)
  extract_create_secret detail envelope = some (one setting (get_field (response_of detail) "ARN"))
