-- ===== src/TagRead.antt =====
-- The tag-read command: src/tag_read.py. A `ValueError` is kept by its text.
pub mod Filters
use aws_tagging_utils.Base.{
  ℕ, String, ◌<>◌, Bool, true, false, not, ◌&&◌, ◌||◌, Option, none, some, List, [], ◌∷◌, ◌++◌,
}
use aws_tagging_utils.Base.{◌==◌, string_eq, if◌then◌else◌, is_empty, contains, keep, length}
use aws_tagging_utils.Base.Dict
use aws_tagging_utils.Base.Dict.{Dict}
use aws_tagging_utils.Base.Text.{strip, is_blank, has_char}
use aws_tagging_utils.Json.{
  Json, null, boolean, number, text, array, object, Items, no_items, item, Fields, no_fields, field,
  get_field, Loader,
}
use aws_tagging_utils.Governance.Models.{Tags}
use aws_tagging_utils.State.{values}
use aws_tagging_utils.TagWriter.Handler.{Attempted, value_error, value}
use aws_tagging_utils.TagWrite.{unique, not_none}

abbrev pub resource_type_map : Dict String String
resource_type_map =
    ("Elasticache", "elasticache:cluster")
    ∷ ("RDS", "rds:db")
    ∷ ("RDSCluster", "rds:cluster")
    ∷ ("DynamoDB", "dynamodb:table")
    ∷ ("Elasticsearch", "es")
    ∷ ("ELB", "elasticloadbalancing:loadbalancer")
    ∷ ("S3", "s3:bucket")
    ∷ ("EC2Instance", "ec2:instance")
    ∷ ("EBSVolume", "ec2:volume")
    ∷ ("EBSSnapshot", "ec2:snapshot")
    ∷ ("VPC", "ec2:vpc")
    ∷ ("Subnet", "ec2:subnet")
    ∷ ("SecurityGroup", "ec2:security-group")
    ∷ ("InternetGateway", "ec2:internet-gateway")
    ∷ ("NatGateway", "ec2:natgateway")
    ∷ ("RouteTable", "ec2:route-table")
    ∷ ("NetworkInterface", "ec2:network-interface")
    ∷ ("Lambda", "lambda:function")
    ∷ ("ECSCluster", "ecs:cluster")
    ∷ ("ECSService", "ecs:service")
    ∷ ("ECR", "ecr:repository")
    ∷ ("EKS", "eks:cluster")
    ∷ ("SNS", "sns:topic")
    ∷ ("SQS", "sqs:queue")
    ∷ ("Redshift", "redshift:cluster")
    ∷ ("KinesisStream", "kinesis:stream")
    ∷ ("KMS", "kms:key")
    ∷ ("LogGroup", "logs:log-group")
    ∷ ("ApiGateway", "apigateway:restapis")
    ∷ ("Athena", "athena:workgroup")
    ∷ ("Glue", "glue:job")
    ∷ ("EMR", "elasticmapreduce:cluster")
    ∷ ("StepFunction", "states:stateMachine")
    ∷ ("CloudFormation", "cloudformation:stack")
    ∷ ("EventBridge", "events:rule")
    ∷ ("SageMaker", "sagemaker:notebook-instance")
    ∷ []

-- An entry of TagFilters.
pub record TagFilter : Type 0 where
  pub key : String
  pub filter_values : List String

-- An item of ResourceTagMappingList: its ARN, and its tags as far as keys and values are given.
pub record Mapping : Type 0 where
  pub resource_arn : Option String
  pub tags : List (Option String × Option String)

pub record Resource : Type 0 where
  pub arn : String
  pub name : String
  pub tags : Tags
  pub region : String

unfoldable pub resolve_resource_type : String → Attempted String
resolve_resource_type resource_name =
    let name = strip resource_name in
    if name == ""
    then value_error "Field 'resource' is required."
    else (elim (Dict.get resource_type_map name) [
      | some resolved ↦ value resolved
      | none ↦
          if has_char b':' name
          then value name
          else value_error ("Unsupported resource type '" <> (name <> "'."))
    ])

module _ (loader : Loader) where
  open loader use {str}

  -- `out`: the resolved types of the items that are not blank
  unfoldable pub resolve_items : Items → Attempted (List String)
  unfolding resolve_resource_type
  resolve_items no_items = value []
  resolve_items (item v items) =
      let s = strip (str v) in
      let rest = resolve_items items in
      if s == "" then rest else (elim (resolve_resource_type s) [
        | value_error e ↦ value_error e
        | value t ↦ elim rest [ value_error e ↦ value_error e | value out ↦ value (t ∷ out) ]
      ])

  resolve_one : String → Attempted (List String)
  resolve_one s = elim (resolve_resource_type s) [
    | value_error e ↦ value_error e
    | value t ↦ value (t ∷ [])
  ]

  unfoldable pub resolve_resource_types : Option Json → Attempted (List String)
  unfolding resolve_items resolve_one
  resolve_resource_types (some (text s)) =
      let name = strip s in
      if name == ""
      then value_error "Field 'resource' or 'resources' is required."
      else resolve_one name
  resolve_resource_types (some (array no_items)) =
      value_error "'resources' must be a non-empty list."
  resolve_resource_types (some (array (item v items))) = elim (resolve_items (item v items)) [
    | value_error e ↦ value_error e
    | value out ↦
        if is_empty out
        then value_error "'resources' must contain at least one non-empty type."
        else value (unique loader out [])
  ]
  resolve_resource_types none = value_error "Field 'resource' or 'resources' is required."
  resolve_resource_types (some null) = value_error "Field 'resource' or 'resources' is required."
  resolve_resource_types (some other) =
      value_error "'resource' must be a string or 'resources' must be a list of strings."

  stripped_values : Items → List String
  stripped_values no_items = []
  stripped_values (item v items) = strip (str v) ∷ stripped_values items

  -- `values` of one filter, without the empty ones; `none` for a value of another kind.
  unfoldable pub filter_values_of : Json → Option (List String)
  unfolding stripped_values
  filter_values_of (text s) = some (keep (λ v. not (v == "")) (strip s ∷ []))
  filter_values_of (array items) = some (keep (λ v. not (v == "")) (stripped_values items))
  filter_values_of other = none

  -- The loop of `normalize_tag_filters`.
  unfoldable pub filters_of : Fields → Attempted (List TagFilter)
  unfolding filter_values_of
  filters_of no_fields = value []
  filters_of (field k v rest) =
      let more = filters_of rest in
      if is_blank k
      then value_error "All filter keys must be non-empty strings"
      else (elim (filter_values_of v) [
        | none ↦
            value_error ("Filter value for '" <> (k <> "' must be a string or list of strings"))
        | some vs ↦
            if is_empty vs
            then value_error ("Filter '" <> (k <> "' must contain at least one non-empty value"))
            else (elim more [
              | value_error e ↦ value_error e
              | value filters ↦ value (record { key = strip k; filter_values = vs } ∷ filters)
            ])
      ])

  unfoldable pub normalize_tag_filters_optional : Json → Bool → Attempted (List TagFilter)
  unfolding filters_of
  normalize_tag_filters_optional (object (field k v rest)) allow_empty = filters_of (field k v rest)
  normalize_tag_filters_optional (object no_fields) allow_empty =
      if allow_empty then value [] else value_error "'filters' must be a non-empty object"
  normalize_tag_filters_optional null allow_empty =
      if allow_empty then value [] else value_error "'filters' must be a non-empty object"
  normalize_tag_filters_optional filters allow_empty = value_error "'filters' must be an object"

-- `{tag["Key"]: tag["Value"] for tag in ... if "Key" in tag and "Value" in tag}`
given_tags : List (Option String × Option String) → Tags → Tags
given_tags [] d = d
given_tags ((some k, some v) ∷ tags) d = given_tags tags (Dict.insert d k v)
given_tags ((k, v) ∷ tags) d = given_tags tags d

text_or_default : Option String → String → String
text_or_default none default = default
text_or_default (some s) default = s

-- `extract_resource_info`, with the region that the handler adds
unfoldable pub extract_resource_info : String → Mapping → Resource
unfolding given_tags text_or_default
extract_resource_info region mapping =
    let tags = given_tags mapping.tags [] in
    record {
      arn = text_or_default mapping.resource_arn "";
      name = text_or_default (Dict.get tags "Name") "---";
      tags = tags;
      region = region;
    }

-- `by_arn`: the first mapping of an ARN counts.
unfoldable pub add_resources : String → List Mapping → Dict String Resource → Dict String Resource
unfolding extract_resource_info
add_resources region [] by_arn = by_arn
add_resources region (mapping ∷ page) by_arn =
    let resource = extract_resource_info region mapping in
    add_resources region page (
      if resource.arn == "" || Dict.has_key by_arn resource.arn
      then by_arn
      else Dict.insert by_arn resource.arn resource)

unfoldable pub resource_missing_tag_key : Tags → String → Bool
resource_missing_tag_key tags tag_key = elim (Dict.get tags tag_key) [
  | none ↦ true
  | some v ↦ strip v == ""
]

-- The calls of GetResources in a region: the items of all pages, or `none` where one raises.
abbrev pub Client : Type 0
Client = String → List String → List TagFilter → Option (List Mapping)

-- The loop over the regions; a region whose calls raise is left out.
unfoldable pub read_regions : Client → List String → List TagFilter → List String → List Resource
unfolding add_resources
read_regions client types filters [] = []
read_regions client types filters (reg ∷ regions) =
    let rest = read_regions client types filters regions in
    elim (client reg types filters) [
      | none ↦ rest
      | some items ↦ values (add_resources reg items []) ++ rest
    ]

-- The body of a 200: the resources with their count, and the count before the missing tag is
-- asked for.
pub record Body : Type 0 where
  pub count : ℕ
  pub scanned_count : ℕ
  pub resolved_resource_types : List String
  pub resources : List Resource

pub data Answer : Type 0 where
  bad_request : String → Answer
  found : Body → Answer

module _ (loader : Loader) (client : Client) (default_region : String)
    (all_regions : List String) where
  open loader use {str}

  -- `missing_tag`: the text of the field, if it is not blank
  unfoldable pub missing_tag_of : Option Json → Option String
  missing_tag_of field_value = elim (not_none field_value) [
    | none ↦ none
    | some v ↦ let s = strip (str v) in if s == "" then none else some s
  ]

  unfoldable pub is_given : Option String → Bool
  is_given none = false
  is_given (some s) = true

  -- The types of the request, `none` where neither field is given.
  unfoldable pub types_of : Fields → Option (Attempted (List String))
  types_of event = elim (not_none (get_field event "resources")) [
    | some v ↦ some (resolve_resource_types loader (some v))
    | none ↦ elim (missing_tag_of (get_field event "resource")) [
      | none ↦ none
      | some display ↦ some (resolve_resource_types loader (some (text display)))
    ]
  ]

  region_texts : Items → List String
  region_texts no_items = []
  region_texts (item v items) = str v ∷ region_texts items

  unfoldable pub regions_of : Option Json → String → List String
  unfolding region_texts
  regions_of (some (text s)) region = if s == "all" then all_regions else s ∷ []
  regions_of (some (array items)) region = region_texts items
  regions_of other region = region ∷ []

  unfoldable pub select_missing : Option String → List Resource → List Resource
  select_missing none resources = resources
  select_missing (some tag_key) resources =
      keep (λ r. resource_missing_tag_key r.tags tag_key) resources

  unfoldable pub region_or_default : Option Json → String
  region_or_default none = strip default_region
  region_or_default (some v) = strip (str v)

  unfoldable pub filters_field : Option Json → Json
  filters_field none = object no_fields
  filters_field (some v) = v

  unfoldable pub lambda_handler : Fields → Answer
  unfolding types_of missing_tag_of is_given regions_of select_missing region_or_default
      filters_field
  lambda_handler event =
      let region = region_or_default (get_field event "region") in
      let missing_tag = missing_tag_of (get_field event "missing_tag") in
      elim (types_of event) [
        | none ↦ bad_request "Provide 'resource' (string) or 'resources' (non-empty list)."
        | some resolved ↦ elim resolved [
          | value_error e ↦ bad_request e
          | value types ↦
              elim (normalize_tag_filters_optional loader
                (filters_field (get_field event "filters")) (is_given missing_tag)) [
                  | value_error e ↦ bad_request e
                  | value filters ↦
                      let resources =
                        read_regions client types filters
                          (regions_of (get_field event "regions") region) in
                      let listed = select_missing missing_tag resources in
                      if not (is_given missing_tag) && is_empty filters
                      then bad_request "'filters' must be a non-empty object"
                      else found (record {
                        count = length listed;
                        scanned_count = length resources;
                        resolved_resource_types = types;
                        resources = listed;
                      })
                ]
        ]
      ]
