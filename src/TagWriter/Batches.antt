-- ===== src/TagWriter/Batches.antt =====
-- What `tag_resources` leaves alone, and how it cuts a region's resources into batches.
use aws_tagging_utils.Base.{ℕ, zero, suc, ◌≤◌, ◌<◌, String, ◌≡◌, refl, ◌∙◌}
use aws_tagging_utils.Base.{List, [], ◌∷◌, ◌++◌, arith, length, take, drop, All}
use aws_tagging_utils.Base.Dict.{Dict}
use aws_tagging_utils.Governance.Models.{Tags}
use aws_tagging_utils.State.{apart}
use aws_tagging_utils.Protected.Frame.{apart-record_writes}
use aws_tagging_utils.Base.{Option-cases, inl, inr, ◌⊎◌}
use aws_tagging_utils.Services.{Failure, Reply, raised, returned, AwsApi, World, Config}
use aws_tagging_utils.Base.Int.{pos}
use aws_tagging_utils.TagWriter.{
  chunks, batches, Results, tag_batches, tag_region, tag_regions, tag_resources, add_batch,
  record_batch, batch_size, group_by_region,
}

take-append-drop {ℓ} : {A : Type ℓ} (n : ℕ) (xs : List A) → take n xs ++ drop n xs ≡ xs
take-append-drop zero xs = refl
take-append-drop (suc n) [] = refl
take-append-drop (suc n) (x ∷ xs) = rw (take-append-drop n xs)

length-take-le {ℓ} : {A : Type ℓ} (n : ℕ) (xs : List A) → length (take n xs) ≤ n
length-take-le zero xs = omega arith
length-take-le (suc n) [] = omega arith
length-take-le (suc n) (x ∷ xs) = omega (arith, length-take-le n xs)

length-drop-le {ℓ} : {A : Type ℓ} (n : ℕ) (xs : List A) → length (drop n xs) ≤ length xs
length-drop-le zero xs = omega arith
length-drop-le (suc n) [] = omega arith
length-drop-le (suc n) (x ∷ xs) = omega (arith, length-drop-le n xs)

abbrev pub append_all {ℓ} : {A : Type ℓ} → List (List A) → List A
append_all [] = []
append_all (xs ∷ xss) = xs ++ append_all xss

chunks-append_all {ℓ} :
    {A : Type ℓ} (n rounds : ℕ) (xs : List A)
    → 0 < n
    → length xs ≤ rounds
    → append_all (chunks n rounds xs) ≡ xs
unfolding chunks
chunks-append_all n zero [] positive fits = refl
chunks-append_all n zero (x ∷ xs) positive fits = absurd (omega arith)
chunks-append_all n (suc rounds) [] positive fits = refl
chunks-append_all zero (suc rounds) (x ∷ xs) positive fits = absurd (omega arith)
chunks-append_all (suc n) (suc rounds) (x ∷ xs) positive fits =
    rw (chunks-append_all (suc n) rounds (drop n xs) positive (omega (arith, length-drop-le n xs)))
      (rw (take-append-drop n xs))

chunks-bounded {ℓ} :
    {A : Type ℓ} (n rounds : ℕ) (xs : List A) → All (λ c. length c ≤ n) (chunks n rounds xs)
unfolding chunks
chunks-bounded n zero xs = tt
chunks-bounded n (suc rounds) [] = tt
chunks-bounded n (suc rounds) (x ∷ xs) =
    (length-take-le n (x ∷ xs), chunks-bounded n rounds (drop n (x ∷ xs)))

-- The batches of a positive size hold all the items, in order, and none is larger than the size.
pub batches_lem :
    {A : Type 0} (n : ℕ) (xs : List A)
    → 0 < n
    → (append_all (batches n xs) ≡ xs) × All (λ c. length c ≤ n) (batches n xs)
unfolding batches
batches_lem n xs positive =
    (chunks-append_all n (length xs) xs positive (omega arith), chunks-bounded n (length xs) xs)

pub Reply-cases :
    (r : Reply) → ((m : String) × (r ≡ raised m)) ⊎ ((f : Dict String Failure) × (r ≡ returned f))
Reply-cases (raised m) = inl (m, refl)
Reply-cases (returned f) = inr (f, refl)

module _ {W : Type 0} (api : AwsApi W) (config : Config) (tags : Tags) (now : ℕ) where
  apart-record_batch :
      (b : List String) (f : Dict String Failure) (w : World W)
      → apart (record_batch api config tags now b f w).store ≡ apart w.store
  unfolding record_batch
  apart-record_batch b f w = apart-record_writes config.tag_schema tags [] _ _ now _ w.store

  apart-tag_batches :
      (reg : String) (bs : List (List String)) (results : Results) (w : World W)
      → apart (tag_batches api config tags now reg bs results w).world.store ≡ apart w.store
  unfolding tag_batches
  apart-tag_batches reg [] results w = refl
  apart-tag_batches reg (b ∷ bs) results w =
      let (reply, aws') = api.tag_resources reg b tags w.aws in
      let w' = record w { aws = aws' } in
      elim (Reply-cases reply) [
        | inl (m, e) ↦ rw (e, tag_batches) refl
        | inr (f, e) ↦
            rw (e, tag_batches)
              (apart-tag_batches reg bs (add_batch api config tags now b f results)
                  (record_batch api config tags now b f w')
                ∙ apart-record_batch b f w')
      ]

  apart-tag_region :
      (reg : String) (arns : List String) (results : Results) (w : World W)
      → apart (tag_region api config tags now reg arns results w).1.store ≡ apart w.store
  unfolding tag_region
  apart-tag_region reg arns results w =
      let bs = batches (batch_size api config tags now) arns in
      let done = tag_batches api config tags now reg bs results w in
      elim (Option-cases done.exception) [
        | inl e ↦ rw (e, tag_region) (apart-tag_batches reg bs results w)
        | inr (m, e) ↦ rw (e, tag_region) (apart-tag_batches reg bs results w)
      ]

  apart-tag_regions :
      (groups : Dict String (List String)) (results : Results) (w : World W)
      → apart (tag_regions api config tags now groups results w).1.store ≡ apart w.store
  unfolding tag_regions
  apart-tag_regions [] results w = refl
  apart-tag_regions ((reg, arns) ∷ rest) results w =
      apart-tag_regions rest _ _ ∙ apart-tag_region reg arns results w

  -- Tagging writes baselines, and no remediation action or exemption.
  pub apart-tag_resources :
      (arns : List String) (default_region : String) (w : World W)
      → apart (tag_resources api config tags now arns default_region w).1.store ≡ apart w.store
  unfolding tag_resources
  apart-tag_resources arns default_region w =
      apart-tag_regions (group_by_region default_region arns [])
        (record { tagged_count = pos 0; failed_resources = [] }) w
