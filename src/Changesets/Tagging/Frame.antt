-- ===== src/Changesets/Tagging/Frame.antt =====
-- What the calls of a change set leave alone.
use aws_tagging_utils.Base.{
  String, Bool, true, false, ◌&&◌, Option, List, [], ◌∷◌, ◌≡◌, refl, ◌∙◌, ap, arith,
}
use aws_tagging_utils.Base.{
  Eq, ◌==◌, contains, string_eq, option_eq, pair_eq, list_eq, All, Bool-cases,
}
use aws_tagging_utils.Base.{contains-append, All-each, All-map, inl, inr}
use aws_tagging_utils.Base.Dict
use aws_tagging_utils.Base.Dict.{Dict, append_to}
use aws_tagging_utils.Governance.Models.{Tags}
use aws_tagging_utils.State.{Store}
use aws_tagging_utils.Services.{Reply, World}
use aws_tagging_utils.TagWriter.{batches}
use aws_tagging_utils.TagWriter.Batches.{append_all, batches_lem}
use aws_tagging_utils.Changesets.Tagging.{Home, group_key, tag_batches, run_batches, run_groups}

pub contains-append_all :
    (xss : List (List String)) (a : String)
    → contains (append_all xss) a ≡ false
    → All (λ xs. contains xs a ≡ false) xss
contains-append_all [] a h = tt
contains-append_all (xs ∷ xss) a h = (
  ground (arith, contains-append xs (append_all xss) a),
  contains-append_all xss a (ground (arith, contains-append xs (append_all xss) a)),
)

same-eq {ℓ} : {A : Type ℓ} → ⦃e : Eq A⦄ → (x y : A) → (x == y) ≡ true → x ≡ y
same-eq x y h = ground arith

-- `names payload k`: a call with this payload is about the key `k`.
module _ {P : Type 0} ⦃e : Eq P⦄ (names : P → String → Bool) (a k : String) where
  -- No group has a call about this key of this resource.
  abbrev Avoids : (Home × P) × List String → Type 0
  Avoids (key, arns) = (contains arns a && names key.1 k) ≡ false

  append_to-Avoids :
      (groups : Dict (Home × P) (List String)) (key : Home × P) (arn : String)
      → (a == arn && names key.1 k) ≡ false
      → All Avoids groups
      → All Avoids (append_to groups key arn)
  unfolding append_to
  append_to-Avoids [] key arn h all = (ground arith, tt)
  append_to-Avoids ((j, arns) ∷ groups) key arn h (g, all) = elim (Bool-cases (key == j)) [
    | inl q ↦
        rw (q, append_to)
          (
            ground (
              arith,
              contains-append arns (arn ∷ []) a,
              ap (λ (r : Home × P). names r.1 k) (same-eq key j q),
            ),
            all,
          )
    | inr q ↦ rw (q, append_to) (g, append_to-Avoids groups key arn h all)
  ]

  pub tag_batches-Avoids :
      (default_region : String) (items : List (String × P)) (groups : Dict (Home × P) (List String))
      → All (λ i. (a == i.0 && names i.1 k) ≡ false) items
      → All Avoids groups
      → All Avoids (tag_batches default_region items groups)
  unfolding tag_batches
  tag_batches-Avoids default_region [] groups h all = all
  tag_batches-Avoids default_region ((arn, payload) ∷ items) groups (h, hs) all =
      tag_batches-Avoids default_region items
        (append_to groups (group_key default_region arn, payload) arn) hs
        (append_to-Avoids groups (group_key default_region arn, payload) arn h all)

  module _ {W : Type 0} (view : W → String → Tags) (default_region : String)
      (call : Home → List String → P → W → Reply × W)
      (record_done : P → List String → Store → Store)
      (frame : (home : Home) (arns : List String) (payload : P) (w : W)
        → (contains arns a && names payload k) ≡ false
        → Dict.get (view (call home arns payload w).1 a) k ≡ Dict.get (view w a) k) where
    run_batches_frame :
        (home : Home) (payload : P) (bs : List (List String)) (errors : Dict String (Option String))
        → (w : World W) → All (λ b. (contains b a && names payload k) ≡ false) bs
        → Dict.get
            (view (run_batches default_region call record_done home payload bs errors w).1.aws a)
            k
          ≡ Dict.get (view w.aws a) k
    unfolding run_batches
    run_batches_frame home payload [] errors w h = refl
    run_batches_frame home payload (b ∷ bs) errors w (h, hs) =
        run_batches_frame home payload bs _ _ hs ∙ frame home b payload w.aws h

    batches-Avoids :
        (arns : List String) (payload : P)
        → (contains arns a && names payload k) ≡ false
        → All (λ b. (contains b a && names payload k) ≡ false) (batches 20 arns)
    batches-Avoids arns payload h = elim (Bool-cases (contains arns a)) [
      | inl q ↦ All-each _ (batches 20 arns) (λ b. ground arith)
      | inr q ↦
          All-map _ _ (batches 20 arns) (λ b r. ground arith)
            (contains-append_all (batches 20 arns) a
              (ap (λ xs. contains xs a) ((batches_lem 20 arns (omega arith)).0) ∙ q))
    ]

    pub run_groups_frame :
        (groups : Dict (Home × P) (List String)) (errors : Dict String (Option String))
        (w : World W)
        → All Avoids groups
        → Dict.get (view (run_groups default_region call record_done groups errors w).1.aws a) k
          ≡ Dict.get (view w.aws a) k
    unfolding run_groups
    run_groups_frame [] errors w h = refl
    run_groups_frame (((home, payload), arns) ∷ groups) errors w (h, hs) =
        run_groups_frame groups _ _ hs
        ∙ run_batches_frame home payload (batches 20 arns) errors w (batches-Avoids arns payload h)
