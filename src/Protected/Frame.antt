-- ===== src/Protected/Frame.antt =====
-- Baseline writes touch nothing but the baselines.
use aws_tagging_utils.Base.{ℕ, String, ◌≡◌, refl, ◌∙◌, List, [], ◌∷◌, arith}
use aws_tagging_utils.Governance.Models.{Schema, Tags}
use aws_tagging_utils.State.{Store, apart, put_resource_state}
use aws_tagging_utils.Protected.{put_baseline, record_write, write_each, record_writes}

module _ (schema : Schema) (set_tags : Tags) (removed : List String) (actor source : String)
    (now : ℕ) where
  apart-record_write :
      (arn : String) (store : Store)
      → apart (record_write schema arn set_tags removed actor source now store) ≡ apart store
  unfolding record_write put_baseline put_resource_state
  apart-record_write arn store = ground arith

  apart-write_each :
      (arns : List String) (store : Store)
      → apart (write_each schema arns set_tags removed actor source now store) ≡ apart store
  unfolding write_each
  apart-write_each [] store = refl
  apart-write_each (arn ∷ arns) store = apart-write_each arns _ ∙ apart-record_write arn store

  pub apart-record_writes :
      (arns : List String) (store : Store)
      → apart (record_writes schema arns set_tags removed actor source now store) ≡ apart store
  unfolding record_writes
  apart-record_writes arns store = ground (arith, apart-write_each arns store)
