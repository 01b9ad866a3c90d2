-- ===== src/TagOnCreate/Lookup/Rounds.antt =====
-- What the rounds of a lookup keep, and how many calls they make.
use aws_tagging_utils.Base.{
  ℕ, zero, suc, ◌+◌, ◌*◌, ◌≤◌, ◌<◌, String, Bool, true, not, ◌||◌, List, [], ◌∷◌, ◌++◌, ◌≡◌, refl,
  arith, ap,
}
use aws_tagging_utils.Base.{
  string_eq, contains, keep, length, contains-append, contains-keep, length-keep-le, length-append,
  drop, Option-cases, inl, inr,
}
use aws_tagging_utils.Base.Dict
use aws_tagging_utils.Base.Dict.{Dict}
use aws_tagging_utils.Governance.Models.{Tags}
use aws_tagging_utils.TagWriter.{batches, chunks}
use aws_tagging_utils.TagWriter.Batches.{append_all, batches_lem}
use aws_tagging_utils.TagOnCreate.Lookup.{
  Resource, GetResources, arn_given, found_in, add_found, tags_from, attempt, rounds,
  fetch_tags_for_arns,
}

-- Whether the result holds the resource.
abbrev pub known : Dict String Tags → String → Bool
known result a = Dict.has_key result a

known-add_found :
    (items : List Resource) (result : Dict String Tags) (a : String)
    → known (add_found items result) a ≡ (contains (found_in items) a || known result a)
unfolding add_found found_in Dict.has_key
known-add_found [] result a = refl
known-add_found ((arn, tags) ∷ items) result a = elim (Option-cases (arn_given arn)) [
  | inl e ↦ rw (e, add_found, found_in) (known-add_found items result a)
  | inr (b, e) ↦ ground (
    arith,
    known-add_found items (Dict.insert result b (tags_from tags [])) a,
    Dict.get-insert result b (tags_from tags []) a,
  )
]

length-chunks : (n fuel : ℕ) (xs : List String) → length (chunks n fuel xs) ≤ fuel
unfolding chunks
length-chunks n zero xs = omega arith
length-chunks n (suc fuel) [] = omega arith
length-chunks n (suc fuel) (x ∷ xs) = omega (arith, length-chunks n fuel (drop n (x ∷ xs)))

length-batches : (n : ℕ) (xs : List String) → length (batches n xs) ≤ length xs
unfolding batches
length-batches n xs = length-chunks n (length xs) xs

module _ {W : Type 0} (get_resources : GetResources W) (batch_size : ℕ) where
  attempt_keeps :
      (bs : List (List String)) (result : Dict String Tags) (next : List String) (w : W)
      (a : String)
      → (known result a || contains next a || contains (append_all bs) a) ≡ true
      → (let out = attempt get_resources batch_size bs result next w in
          (known out.0 a || contains out.1.0 a) ≡ true)
  unfolding attempt
  attempt_keeps [] result next w a h = ground arith
  attempt_keeps (b ∷ bs) result next w a h = elim (Option-cases (get_resources b w).0) [
    | inl e ↦
        rw (e, attempt)
          (attempt_keeps bs result (next ++ b) (get_resources b w).1 a
            (ground (arith, contains-append next b a, contains-append b (append_all bs) a)))
    | inr (items, e) ↦
        let fresh = keep (λ x. not (contains (found_in items) x)) b in
        rw (e, attempt)
          (attempt_keeps bs (add_found items result) (next ++ fresh) (get_resources b w).1 a
            (kept items fresh refl))
  ]
    where
      kept :
          (items : List Resource) (fresh : List String)
          → fresh ≡ keep (λ x. not (contains (found_in items) x)) b
          → (known (add_found items result) a
              || contains (next ++ fresh) a
              || contains (append_all bs) a)
            ≡ true
      kept items fresh q = ground (
        arith,
        known-add_found items result a,
        contains-append next fresh a,
        contains-append b (append_all bs) a,
        contains-keep (λ x. not (contains (found_in items) x)) b a,
        ap (λ xs. contains xs a) q,
      )

  attempt_shrinks :
      (bs : List (List String)) (result : Dict String Tags) (next : List String) (w : W)
      → length (attempt get_resources batch_size bs result next w).1.0
        ≤ length next + length (append_all bs)
  unfolding attempt
  attempt_shrinks [] result next w = omega arith
  attempt_shrinks (b ∷ bs) result next w = elim (Option-cases (get_resources b w).0) [
    | inl e ↦
        rw (e, attempt)
          (omega (
            arith,
            attempt_shrinks bs result (next ++ b) (get_resources b w).1,
            length-append next b,
            length-append b (append_all bs),
          ))
    | inr (items, e) ↦
        let p : String → Bool = λ x. not (contains (found_in items) x) in
        rw (e, attempt)
          (omega (
            arith,
            attempt_shrinks bs (add_found items result) (next ++ keep p b) (get_resources b w).1,
            length-append next (keep p b),
            length-keep-le p b,
            length-append b (append_all bs),
          ))
  ]

  rounds_keep :
      (n : ℕ) (pending : List String) (result : Dict String Tags) (w : W) (a : String)
      → 0 < batch_size
      → (known result a || contains pending a) ≡ true
      → (let out = rounds get_resources batch_size n pending result w in
          (known out.0 a || contains out.1.0 a) ≡ true)
  unfolding rounds
  rounds_keep zero pending result w a positive h = h
  rounds_keep (suc n) [] result w a positive h = h
  rounds_keep (suc n) (b ∷ pending) result w a positive h =
      let all = b ∷ pending in
      let out = attempt get_resources batch_size (batches batch_size all) result [] w in
      rounds_keep n out.1.0 out.0 out.1.1 a positive (
        attempt_keeps (batches batch_size all) result [] w a
          (ground (arith, ap (λ xs. contains xs a) ((batches_lem batch_size all positive).0))))

  -- With batches of a positive size, every resource that was asked for is in the result of a
  -- lookup, unless it is pending after the last attempt.
  pub fetch_settles :
      (retries : ℕ) (arns : List String) (w : W) (a : String)
      → 0 < batch_size
      → contains arns a ≡ true
      → (known (fetch_tags_for_arns get_resources batch_size retries arns w).0 a
          || contains (rounds get_resources batch_size retries arns [] w).1.0 a)
        ≡ true
  unfolding fetch_tags_for_arns Dict.has_key Dict.get
  fetch_settles retries arns w a positive h =
      rounds_keep retries arns [] w a positive (ground arith)

  module _ (calls : W → ℕ)
      (counted : (b : List String) (w : W) → calls (get_resources b w).1 ≤ suc (calls w)) where
    attempt_calls :
        (bs : List (List String)) (result : Dict String Tags) (next : List String) (w : W)
        → calls (attempt get_resources batch_size bs result next w).1.1 ≤ calls w + length bs
    unfolding attempt
    attempt_calls [] result next w = omega arith
    attempt_calls (b ∷ bs) result next w = elim (Option-cases (get_resources b w).0) [
      | inl e ↦
          rw (e, attempt)
            (omega (arith, attempt_calls bs result (next ++ b) (get_resources b w).1, counted b w))
      | inr (items, e) ↦
          rw (e, attempt)
            (omega (
              arith,
              attempt_calls bs (add_found items result)
                  (next ++ keep (λ x. not (contains (found_in items) x)) b) (get_resources b w).1,
              counted b w,
            ))
    ]

    rounds_calls :
        (n bound : ℕ) (pending : List String) (result : Dict String Tags) (w : W)
        → 0 < batch_size
        → length pending ≤ bound
        → calls (rounds get_resources batch_size n pending result w).1.1 ≤ calls w + n * bound
    unfolding rounds
    rounds_calls zero bound pending result w positive h = omega arith
    rounds_calls (suc n) bound [] result w positive h = omega arith
    rounds_calls (suc n) bound (b ∷ pending) result w positive h =
        let all = b ∷ pending in
        let bs = batches batch_size all in
        let out = attempt get_resources batch_size bs result [] w in
        omega (
          arith,
          rounds_calls n bound out.1.0 out.0 out.1.1 positive (
              omega (
                arith,
                attempt_shrinks bs result [] w,
                ap length ((batches_lem batch_size all positive).0),
              )),
          attempt_calls bs result [] w,
          length-batches batch_size all,
        )

    -- With batches of a positive size, a lookup makes at most as many calls as attempts are
    -- allowed for each resource, however many of them fail; `calls` counts the calls.
    pub fetch_bounded :
        (retries : ℕ) (arns : List String) (w : W)
        → 0 < batch_size
        → calls (fetch_tags_for_arns get_resources batch_size retries arns w).1
          ≤ calls w + retries * length arns
    unfolding fetch_tags_for_arns
    fetch_bounded retries arns w positive =
        rounds_calls retries (length arns) arns [] w positive (omega arith)
