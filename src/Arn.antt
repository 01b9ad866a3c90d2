-- ===== src/Arn.antt =====
-- ARN helpers: src/arn_utils.py, and `get_region_from_arn` of src/tag_writer.py.
pub mod Parsing
use aws_tagging_utils.Base.{String, ◌<>◌, Bool, true, false, not, ◌&&◌, ◌||◌, Option, none, some}
use aws_tagging_utils.Base.{List, [], ◌∷◌, ◌==◌, string_eq, if◌then◌else◌, get_elem?}
use aws_tagging_utils.Base.Dict
use aws_tagging_utils.Base.Text.{split, split_max, starts_with, has_char, before, lstrip_char}

pub record Arn : Type 0 where
  pub partition : String
  pub service : String
  pub region : String
  pub account : String
  pub resource : String

-- `_NAME_ONLY_TYPES`
abbrev name_only_types : Dict.Dict String String
name_only_types = ("s3", "bucket") ∷ ("sns", "topic") ∷ ("sqs", "queue") ∷ []

of_parts : List String → Option Arn
of_parts (_ ∷ partition ∷ service ∷ region ∷ account ∷ resource ∷ rest) = some (record {
  partition = partition;
  service = service;
  region = region;
  account = account;
  resource = resource;
})
of_parts _ = none

unfoldable pub parse_arn : String → Option Arn
unfolding of_parts
parse_arn arn = if starts_with arn "arn:" then of_parts (split_max b':' 5 arn) else none

type_of_parsed : Arn → String
type_of_parsed p = elim (Dict.get name_only_types p.service) [
  | some kind ↦ p.service <> (":" <> kind)
  | none ↦
      let resource = lstrip_char b'/' p.resource in
      let head = before b':' (before b'/' resource) in
      if head == ""
        || (head == resource && not (has_char b':' p.resource) && not (has_char b'/' p.resource))
      then p.service
      else p.service <> (":" <> head)
]

unfoldable pub resource_type_from_arn : String → String
unfolding type_of_parsed
resource_type_from_arn arn = elim (parse_arn arn) [ none ↦ "unknown" | some p ↦ type_of_parsed p ]

-- One round of the loop of `type_matches`.
selects : String → String → Bool
selects resource_type f =
    if f == ""
    then false
    else if not (has_char b':' f)
    then before b':' resource_type == f
    else resource_type == f || starts_with resource_type (f <> "/")

unfoldable pub type_matches : String → List String → Bool
unfolding selects
type_matches resource_type [] = false
type_matches resource_type (f ∷ filters) =
    selects resource_type f || type_matches resource_type filters

or_default : String → String → String
or_default value default = if value == "" then default else value

unfoldable pub account_of : String → String
unfolding or_default
account_of arn = elim (parse_arn arn) [ none ↦ "unknown" | some p ↦ or_default p.account "unknown" ]

unfoldable pub region_of : String → String → String
unfolding or_default
region_of arn default = elim (parse_arn arn) [
  | none ↦ default
  | some p ↦ or_default p.region default
]

-- `get_region_from_arn` of the tag writer: the fourth part, if it is not empty.
unfoldable pub get_region_from_arn : String → Option String
get_region_from_arn arn = elim (get_elem? (split b':' arn) 3) [
  | none ↦ none
  | some region ↦ if region == "" then none else some region
]
