-- ===== src/Examples/Access.antt =====
-- Examples of roles, ownership and requests of the tag writer.
use aws_tagging_utils.Base.{String, ◌≡◌, ◌≢◌, ◌⊎◌, refl, true, none, some}
use aws_tagging_utils.Base.{List, [], ◌∷◌, contains, string_eq, Member, arith, keep}
use aws_tagging_utils.Base.Dict
use aws_tagging_utils.Base.Text.{strip}
use aws_tagging_utils.Json.{Json, text, Fields, no_fields, field, Loader}
use aws_tagging_utils.Authorization.{
  UserIdentity, usable, lowered, is_owned, application_of, owner_matches,
}
use aws_tagging_utils.Authorization.Roles.{is_owned_sound, Matches}
use aws_tagging_utils.Examples.{runtime, arn, tags}

abbrev ann : UserIdentity
ann = record { user_id = some "ann"; roles = "TagOperator" ∷ []; email = none }

abbrev more_roles : List String
more_roles = "Viewer" ∷ "TagOperator" ∷ []

all_kept : (r : String) → contains ann.roles r ≡ true → contains more_roles r ≡ true
all_kept r h = ground arith

is_owned_sound_example :
    ((key : String) × (Member key ("Owner" ∷ [])
        × Matches runtime
            ("Owner" ∷ [])
            (lowered runtime tags [])
            (usable runtime (usable runtime ("ann" ∷ [])))
            key))
    ⊎ ((application_of runtime tags ≢ "")
        × (contains (usable runtime ("ann" ∷ [])) (application_of runtime tags) ≡ true))
unfolding is_owned owner_matches usable keep string_eq Dict.get lowered Dict.insert strip
is_owned_sound_example = is_owned_sound runtime ("Owner" ∷ []) ("ann" ∷ []) tags refl

abbrev pub text_of : Json → String
text_of (text s) = s
text_of _ = ""

abbrev pub texts : Loader
texts = record { loads = λ body. none; str = text_of }

abbrev request : Fields
request = field "arn" (text arn) (field "resource_arn" (text arn) no_fields)
