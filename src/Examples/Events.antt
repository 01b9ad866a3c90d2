-- ===== src/Examples/Events.antt =====
-- Examples of tag change events.
use aws_tagging_utils.Base.{ℕ, suc, ◌≢◌, none}
use aws_tagging_utils.Base.{[], ◌∷◌}
use aws_tagging_utils.Base.Dict
use aws_tagging_utils.Governance.Models.{Tags}
use aws_tagging_utils.State.{Store}
use aws_tagging_utils.Services.{returned}
use aws_tagging_utils.Protected.{detect, revert}
use aws_tagging_utils.Protected.Event.{Event, DriftWorld, RevertApi}
use aws_tagging_utils.Examples.{arn}

-- AWS counts its calls.
abbrev counting : RevertApi ℕ
counting = record { tag_resource = λ account region a values n. (returned [], suc n) }

abbrev owned : Tags
owned = ("Owner", "ann") ∷ []

abbrev baseline_store : Store
baseline_store = record {
  resources =
      (
        arn,
        record {
          resource_id = arn;
          protected_tags = owned;
          protected_updated_by = "ann";
          protected_source = "app";
          protected_updated_at = 0;
        },
      )
      ∷ [];
  exemptions = [];
  actions = [];
}

abbrev before_event : DriftWorld ℕ
before_event = record { aws = 0; store = baseline_store; log = []; notices = [] }

abbrev event_with : Tags → Event
event_with new_tags = record {
  resources = arn ∷ [];
  changed_tag_keys = "Owner" ∷ "Name" ∷ [];
  tags = new_tags;
  account = none;
  region = none;
  service = "s3";
  resource_type = "bucket";
}

abbrev stolen : Tags
stolen = ("Owner", "eve") ∷ []

detect_ne_revert : detect ≢ revert
detect_ne_revert e = absurd (cc)
