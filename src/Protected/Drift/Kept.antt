-- ===== src/Protected/Drift/Kept.antt =====
-- What an event does to the baseline of its resource.
use aws_tagging_utils.Base.{ℕ, String}
use aws_tagging_utils.Base.{string_eq, option_eq}
use aws_tagging_utils.Base.Dict
use aws_tagging_utils.Base.Dict.{Dict}
use aws_tagging_utils.Governance.Models.{Tags}
use aws_tagging_utils.State.{ResourceState}
use aws_tagging_utils.Protected.Event.{Event, Drift}

baseline_state : String → Tags → String → String → ℕ → ResourceState
baseline_state arn b actor source now = record {
  resource_id = arn;
  protected_tags = b;
  protected_updated_by = actor;
  protected_source = source;
  protected_updated_at = now;
}
