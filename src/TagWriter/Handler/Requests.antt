-- ===== src/TagWriter/Handler/Requests.antt =====
-- What requests the handler takes, and what it does with those it refuses.
use aws_tagging_utils.Base.{ℕ, String, ◌≡◌, ◌⊎◌, refl, ap, Bool, true, false, ◌||◌}
use aws_tagging_utils.Base.{List, [], ◌∷◌, ◌++◌, ◌==◌, contains, string_eq}
use aws_tagging_utils.Base.{arith, All, All-append, Bool-cases, inl, inr}
use aws_tagging_utils.Base.Text.{strip, starts_with}
use aws_tagging_utils.Json.{Json, Fields, get_field, Loader}
use aws_tagging_utils.Runtime.{Runtime}
use aws_tagging_utils.Governance.Models.{Tags}
use aws_tagging_utils.Services.{AwsApi, World, Config}
use aws_tagging_utils.TagWriter.Handler.{
  Attempted, value, value_error, Response, bad_request, not_compliant, single, arns_field,
  collect_loop, collect_arns, check_request, write_tags, lambda_handler, region_text,
}

-- No text stands twice.
abbrev pub Nodup : List String → Type 0
Nodup [] = Unit
Nodup (x ∷ xs) = (contains xs x ≡ false) × Nodup xs

contains-snoc :
    (xs : List String) (a k : String) → contains (xs ++ (a ∷ [])) k ≡ (contains xs k || k == a)
contains-snoc [] a k = ground arith
contains-snoc (x ∷ xs) a k = ground (arith, contains-snoc xs a k)

Nodup-snoc :
    (xs : List String) (a : String) → contains xs a ≡ false → Nodup xs → Nodup (xs ++ (a ∷ []))
Nodup-snoc [] a h n = (refl, tt)
Nodup-snoc (x ∷ xs) a h (fresh, n) =
    (ground (arith, contains-snoc xs a x), Nodup-snoc xs a (ground arith) n)

-- An ARN as far as `collect_arns` looks.
abbrev pub LooksLikeArn : String → Type 0
LooksLikeArn a = starts_with a "arn:" ≡ true

pub value-injective {ℓ} : {A : Type ℓ} {x y : A} → value x ≡ value y → x ≡ y
value-injective {x} e = ap (λ c. elim c [ value v ↦ v | value_error m ↦ x ]) e

module _ (loader : Loader) where
  collect_loop_sound :
      (raw : List Json) (out arns : List String)
      → All LooksLikeArn out
      → Nodup out
      → collect_loop loader true raw out ≡ value arns
      → All LooksLikeArn arns × Nodup arns
  unfolding collect_loop
  collect_loop_sound [] out arns h n e = rw⁻¹ (value-injective e) (h, n)
  collect_loop_sound (v ∷ raw) out arns h n e =
      let a = strip (loader.str v) in
      elim (Bool-cases (starts_with a "arn:")) [
        | inr bad ↦ absurd (ground arith)
        | inl good ↦ elim (Bool-cases (contains out a)) [
          | inl old ↦ collect_loop_sound raw out arns h n (ground arith)
          | inr new ↦
              collect_loop_sound raw (out ++ (a ∷ [])) arns
                (All-append LooksLikeArn out (a ∷ []) h (good, tt)) (Nodup-snoc out a new n)
                (ground arith)
        ]
      ]

  -- The ARNs that `collect_arns` accepts all start with "arn:", and none stands twice.
  pub collect_arns_sound :
      (event : Fields) (arns : List String)
      → collect_arns loader event true ≡ value arns
      → All LooksLikeArn arns × Nodup arns
  unfolding collect_arns
  collect_arns_sound event arns e = by_listed (arns_field loader (get_field event "arns")) e
    where
      by_listed :
          (listed : Attempted (List Json))
          → (elim listed as (λ _. Attempted (List String)) [
            | value_error m ↦ value_error m
            | value raw ↦
                collect_loop loader true
                  (single loader event "arn" ++ (single loader event "resource_arn" ++ raw))
                  []
          ])
            ≡ value arns
          → All LooksLikeArn arns × Nodup arns
      by_listed (value_error m) h = absurd (cc)
      by_listed (value raw) h =
          collect_loop_sound
            (single loader event "arn" ++ (single loader event "resource_arn" ++ raw)) [] arns tt tt
            h

Attempted-cases {ℓ} :
    {A : Type ℓ} (c : Attempted A)
    → ((m : String) × (c ≡ value_error m)) ⊎ ((v : A) × (c ≡ value v))
Attempted-cases (value_error m) = inl (m, refl)
Attempted-cases (value v) = inr (v, refl)

-- A response with status 400.
abbrev pub refuses : Response → Bool
refuses (bad_request e) = true
refuses (not_compliant vs) = true
refuses _ = false

module _ (loader : Loader) (rt : Runtime) {W : Type 0} (api : AwsApi W) (config : Config) where
  write_tags_refused :
      (region : String) (arns : List String) (tags : Tags) (now : ℕ) (w : World W)
      → refuses (write_tags loader rt api config region arns tags now w).0 ≡ true
      → (write_tags loader rt api config region arns tags now w).1 ≡ w
  unfolding write_tags
  write_tags_refused region arns tags now w h = ground arith

  -- A request that is answered with 400 has changed nothing: neither AWS nor the store nor the
  -- audit log.
  pub lambda_handler_refused :
      (event : Fields) (now : ℕ) (w : World W)
      → refuses (lambda_handler loader rt api config event now w).0 ≡ true
      → (lambda_handler loader rt api config event now w).1 ≡ w
  unfolding lambda_handler
  lambda_handler_refused event now w h = elim (Attempted-cases (check_request loader rt event)) [
    | inl (m, e) ↦ rw (e, lambda_handler) refl
    | inr ((arns, new_tags), e) ↦
        rw (e, lambda_handler)
          (write_tags_refused
            (region_text loader rt (get_field event "region") config.default_region) arns new_tags
            now w (rw (e, lambda_handler) at h))
  ]
