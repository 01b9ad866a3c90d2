-- ===== src/Examples/Texts.antt =====
-- Examples of ARNs and batches.
use aws_tagging_utils.Base.{◌≡◌, refl, string_eq, String, some, List, [], ◌∷◌}
use aws_tagging_utils.Base.Text.{has_char}
use aws_tagging_utils.Arn.{Arn, parse_arn}
use aws_tagging_utils.Arn.Parsing.{format_arn, NoColon, parse_arn-format_arn}

abbrev table : Arn
table = record {
  partition = "aws";
  service = "dynamodb";
  region = "eu-west-1";
  account = "111122223333";
  resource = "table/orders:index";
}

table-NoColon : NoColon table
unfolding has_char
table-NoColon = record { partition = refl; service = refl; region = refl; account = refl }

parse_arn-format_arn_example : parse_arn (format_arn table) ≡ some table
parse_arn-format_arn_example = parse_arn-format_arn table table-NoColon

abbrev three : List String
three = "a" ∷ "b" ∷ "c" ∷ []
