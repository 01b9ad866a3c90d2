-- ===== src/TagOnCreate/Platform.antt =====
-- The ARNs that the creation of streams, keys, interfaces and jobs names:
-- src/tag_on_create.py, from `extract_create_stream` to `extract_create_sagemaker_resource`.
use aws_tagging_utils.Base.{String, ◌<>◌, Option, none, some, List, [], ◌∷◌}
use aws_tagging_utils.Base.{string_eq, option_eq, if◌then◌else◌}
use aws_tagging_utils.Base.Text.{has_text}
use aws_tagging_utils.Json.{Json, text, object, Fields, get_field, truthy}
use aws_tagging_utils.TagOnCreate.{
  Setting, or_else, dict_of, nested, request_of, response_of, str_of, one, one_arn, account_id,
  region_name, then_one,
}

module _ (setting : Setting) where
  unfoldable pub extract_create_stream : Fields → Fields → Option (List String)
  extract_create_stream detail envelope = some (
      one_arn setting "kinesis" "stream/" detail envelope
        (get_field (request_of detail) "streamName"))

  unfoldable pub extract_create_key : Fields → Fields → Option (List String)
  extract_create_key detail envelope =
      then_one (nested (response_of detail) "keyMetadata" "arn") (one setting)

  unfoldable pub extract_create_log_group : Fields → Fields → Option (List String)
  extract_create_log_group detail envelope = some (
      one_arn setting "logs" "log-group:" detail envelope
        (get_field (request_of detail) "logGroupName"))

  unfoldable pub extract_create_api : Fields → Fields → Option (List String)
  extract_create_api detail envelope =
      let r = response_of detail in
      let start = "arn:aws:apigateway:" <> region_name setting detail envelope in
      let id = get_field r "id" in
      let api_id = get_field r "apiId" in
      if truthy id
      then some ((start <> ("::/restapis/" <> str_of setting id)) ∷ [])
      else if truthy api_id
      then some ((start <> ("::/apis/" <> str_of setting api_id)) ∷ [])
      else some []

  -- `f"arn:aws:elasticache:{reg}:{acc}:{start}{value.get(key)}"` of a truthy value
  cache_arn : String → String → Fields → Fields → Option Json → Option (List String)
  cache_arn start key detail envelope value = elim (dict_of value) [
    | none ↦ none
    | some d ↦ some (
        ("arn:aws:elasticache:"
          <> (region_name setting detail envelope
              <> (":"
                  <> (account_id setting detail envelope
                      <> (":" <> (start <> str_of setting (get_field d key)))))))
        ∷ [])
  ]

  unfoldable pub extract_create_elasticache : Fields → Fields → Option (List String)
  unfolding cache_arn
  extract_create_elasticache detail envelope =
      let cc = get_field (response_of detail) "cacheCluster" in
      let rg = get_field (response_of detail) "replicationGroup" in
      if truthy cc
      then cache_arn "cluster:" "cacheClusterId" detail envelope cc
      else if truthy rg
      then cache_arn "replicationgroup:" "replicationGroupId" detail envelope rg
      else some []

  unfoldable pub extract_create_work_group : Fields → Fields → Option (List String)
  extract_create_work_group detail envelope = some (
      one_arn setting "athena" "workgroup/" detail envelope
        (get_field (request_of detail) "workGroup"))

  -- `req.get("DatabaseInput", {}).get("Name")`
  database_name : Fields → Option (Option Json)
  database_name req = elim (get_field req "DatabaseInput") [
    | none ↦ some none
    | some v ↦ elim v [ object d ↦ some (get_field d "Name") | _ ↦ none ]
  ]

  -- The first name of the four; the last one is only asked for if the others are not there.
  glue_name : Fields → Option (Option Json)
  unfolding database_name
  glue_name req =
      let name =
        or_else (or_else (get_field req "name") (get_field req "JobName"))
          (get_field req "CrawlerName") in
      if truthy name then some name else database_name req

  -- The type that the name of the event tells. The name is the text that chose the extractor.
  glue_type : String → String
  glue_type ev =
      if has_text "Crawler" ev
      then "crawler"
      else if has_text "Database" ev
      then "database"
      else if has_text "Trigger" ev
      then "trigger"
      else "job"

  unfoldable pub extract_create_glue_resource : Fields → Fields → Option (List String)
  unfolding glue_name glue_type
  extract_create_glue_resource detail envelope = elim (glue_name (request_of detail)) [
    | none ↦ none
    | some name ↦ elim (get_field detail "eventName") [
      | none ↦ none
      | some ev ↦ elim ev [
        | text s ↦ some (one_arn setting "glue" (glue_type s <> "/") detail envelope name)
        | _ ↦ none
      ]
    ]
  ]

  unfoldable pub extract_create_state_machine : Fields → Fields → Option (List String)
  extract_create_state_machine detail envelope =
      some (one setting (get_field (response_of detail) "stateMachineArn"))

  unfoldable pub extract_create_stack : Fields → Fields → Option (List String)
  extract_create_stack detail envelope =
      some (one setting (get_field (response_of detail) "stackId"))

  unfoldable pub extract_create_emr_cluster : Fields → Fields → Option (List String)
  extract_create_emr_cluster detail envelope = some (
      one_arn setting "elasticmapreduce" "cluster/" detail envelope
        (get_field (response_of detail) "clusterId"))

  unfoldable pub extract_create_sagemaker_resource : Fields → Fields → Option (List String)
  extract_create_sagemaker_resource detail envelope =
      let r = response_of detail in
      some (
        one setting (
          or_else
            (or_else (or_else (get_field r "NotebookInstanceArn") (get_field r "ModelArn"))
              (get_field r "TrainingJobArn"))
            (get_field r "EndpointArn")))
