-- ===== src/Examples/Listed.antt =====
-- Examples of the tag-read command.
use aws_tagging_utils.Base.{true, false, some, List, [], ◌∷◌, ◌≡◌, refl}
use aws_tagging_utils.Base.{All}
use aws_tagging_utils.Base.Dict
use aws_tagging_utils.Json.{text, object, Fields, no_fields, field}
use aws_tagging_utils.TagRead.{Resource, Client, Body}
use aws_tagging_utils.TagRead.Filters.{IsUsable, normalize_tag_filters_sound}
use aws_tagging_utils.Examples.{arn}
use aws_tagging_utils.Examples.Access.{texts}
use aws_tagging_utils.TagRead.{normalize_tag_filters_optional}
use aws_tagging_utils.Base.Text.{is_blank}
use aws_tagging_utils.Base.{keep}
use aws_tagging_utils.TagRead.{normalize_tag_filters_optional}
use aws_tagging_utils.Base.{keep}

abbrev filters : Fields
filters = field "Env" (text " prod ") no_fields

normalize_tag_filters_sound_example :
    All IsUsable (record { key = "Env"; filter_values = "prod" ∷ [] } ∷ []) × (true ≡ true)
unfolding normalize_tag_filters_optional is_blank keep
normalize_tag_filters_sound_example =
    normalize_tag_filters_sound texts (object filters) false
      (record { key = "Env"; filter_values = "prod" ∷ [] } ∷ []) refl

-- A bucket with a blank owner, and one with an owner.
abbrev client : Client
client region types wanted = some (
    record { resource_arn = some arn; tags = (some "Owner", some " ") ∷ [] }
    ∷ record { resource_arn = some "arn:aws:s3:::b"; tags = (some "Owner", some "ann") ∷ [] }
    ∷ [])

abbrev request : Fields
request = field "resource" (text "S3") (field "missing_tag" (text "Owner") no_fields)

abbrev listed : List Resource
listed = record { arn = arn; name = "---"; tags = ("Owner", " ") ∷ []; region = "us-east-1" } ∷ []

abbrev body : Body
body = record {
  count = 1;
  scanned_count = 2;
  resolved_resource_types = "s3:bucket" ∷ [];
  resources = listed;
}
