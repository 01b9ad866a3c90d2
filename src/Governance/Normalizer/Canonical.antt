-- ===== src/Governance/Normalizer/Canonical.antt =====
-- `_get_canonical_key` is idempotent, and so is `normalize`.
use mathlib.Core.Option
use mathlib.Core.List.{append-nil, append_assoc}
use aws_tagging_utils.Base.{String, ◌≡◌, refl, ap, ◌∙◌, true, false, none, some}
use aws_tagging_utils.Base.{List, [], ◌∷◌, ◌++◌, arith, string_eq}
use aws_tagging_utils.Base.{Bool-cases, inl, inr}
use aws_tagging_utils.Base.Dict
use aws_tagging_utils.Base.Dict.{Dict}
use aws_tagging_utils.Runtime.{Runtime}
use aws_tagging_utils.Governance.Models.{Schema, Tags}
use aws_tagging_utils.Governance.Normalizer.{
  aliases_of, add_aliases, build_alias_map, make_normalizer, case_variant, get_canonical_key,
  append_original, keep_first, normalize_loop, conflicts, normalize_by, normalize,
}
use aws_tagging_utils.Governance.Normalizer.Loop.{
  first_value, get-normalize_by, normalize_by-NodupKeys,
}

-- Every value of the map is a key of the schema.
abbrev PointsInto : Schema → Dict String String → Type 0
PointsInto schema m = (a c : String) → Dict.get m a ≡ some c → Dict.has_key schema c ≡ true

PointsInto-nil : (schema : Schema) → PointsInto schema []
unfolding Dict.get
PointsInto-nil schema a c e = cc

module _ (rt : Runtime) where
  add_aliases-PointsInto :
      (schema : Schema) (c : String) (aliases : List String) (m : Dict String String)
      → Dict.has_key schema c ≡ true
      → PointsInto schema m
      → PointsInto schema (add_aliases rt c aliases m)
  unfolding add_aliases
  add_aliases-PointsInto schema c [] m known h = h
  add_aliases-PointsInto schema c (alias ∷ more) m known h =
      add_aliases-PointsInto schema c more _ known
        λ a d e. ground (arith, Dict.get-insert m (rt.lower alias) c a, h a d)

  build_alias_map-PointsInto :
      (schema rest : Schema) (m : Dict String String)
      → ((k : String) → Dict.has_key rest k ≡ true → Dict.has_key schema k ≡ true)
      → PointsInto schema m
      → PointsInto schema (build_alias_map rt rest m)
  unfolding build_alias_map Dict.has_key Dict.get
  build_alias_map-PointsInto schema [] m known h = h
  build_alias_map-PointsInto schema ((c, rules) ∷ rest) m known h =
      build_alias_map-PointsInto schema rest _ (λ k e. known k (ground arith))
        (add_aliases-PointsInto schema c (aliases_of rules.aliases) m (known c (ground arith)) h)

  -- The fallback returns the key itself or a key of the schema.
  case_variant-known :
      (schema rest : Schema) (lowered k : String)
      → ((j : String) → Dict.has_key rest j ≡ true → Dict.has_key schema j ≡ true)
      → Dict.has_key schema (case_variant rt rest lowered k) ≡ false
      → case_variant rt rest lowered k ≡ k
  unfolding case_variant Dict.has_key Dict.get
  case_variant-known schema [] lowered k known h = refl
  case_variant-known schema ((j, rules) ∷ rest) lowered k known h =
      ground
        (arith, case_variant-known schema rest lowered k (λ i e. known i (ground arith)), known j)

  module _ (schema : Schema) where
    known_fixed :
        (c : String)
        → Dict.has_key schema c ≡ true
        → get_canonical_key rt (make_normalizer rt schema) c ≡ c
    unfolding get_canonical_key make_normalizer
    known_fixed c known = rw known

    -- A canonical key stands in the schema, or is the key that was asked for.
    canonical-known :
        (k : String)
        → Dict.has_key schema (get_canonical_key rt (make_normalizer rt schema) k) ≡ false
        → get_canonical_key rt (make_normalizer rt schema) k ≡ k
    unfolding get_canonical_key make_normalizer
    canonical-known k h = ground (
      arith,
      build_alias_map-PointsInto schema schema [] (λ j e. e) (PointsInto-nil schema) (rt.lower k)
          (Option.get_or (Dict.get (build_alias_map rt schema []) (rt.lower k)) k),
      case_variant-known schema schema (rt.lower k) k (λ j e. e),
    )

    -- The canonical key of a canonical key is itself.
    pub get_canonical_key_idem :
        (k : String)
        → let self = make_normalizer rt schema in
          get_canonical_key rt self (get_canonical_key rt self k) ≡ get_canonical_key rt self k
    get_canonical_key_idem k =
        let self = make_normalizer rt schema in
        let c = get_canonical_key rt self k in
        elim (Bool-cases (Dict.has_key schema c)) [
          | inl known ↦ known_fixed c known
          | inr unknown ↦ ap (get_canonical_key rt self) (canonical-known k unknown)
        ]

-- All keys of the dict are their own canonical keys.
abbrev Fixed : (String → String) → Tags → Type 0
Fixed canonical [] = Unit
Fixed canonical ((k, v) ∷ d) = (canonical k ≡ k) × Fixed canonical d

-- No key of the second dict stands in the first.
abbrev Apart {ℓ} : {V : Type ℓ} → Dict String V → Tags → Type ℓ
Apart n [] = Unit
Apart n ((k, v) ∷ d) = (Dict.get n k ≡ none) × Apart n d

abbrev singles : Tags → Dict String (List String)
singles [] = []
singles ((k, v) ∷ d) = (k, k ∷ []) ∷ singles d

insert_fresh {ℓ} :
    {V : Type ℓ} (n : Dict String V) (k : String) (v : V)
    → Dict.get n k ≡ none
    → Dict.insert n k v ≡ n ++ ((k, v) ∷ [])
unfolding Dict.insert Dict.get
insert_fresh [] k v h = refl
insert_fresh ((j, w) ∷ n) k v h = ground (arith, insert_fresh n k v (ground arith))

Apart-insert {ℓ} :
    {V : Type ℓ} (n : Dict String V) (k : String) (v : V) (d : Tags)
    → Dict.get d k ≡ none
    → Apart n d
    → Apart (Dict.insert n k v) d
unfolding Dict.get
Apart-insert n k v [] absent h = tt
Apart-insert n k v ((j, w) ∷ d) absent (fresh, h) =
    ground (arith, Dict.get-insert n k v j, Apart-insert n k v d (ground arith) h)

keep_first_fresh :
    (n : Tags) (k v : String) → Dict.get n k ≡ none → keep_first n k v ≡ Dict.insert n k v
unfolding keep_first
keep_first_fresh n k v h = ground arith

append_original_fresh :
    (o : Dict String (List String)) (k original : String)
    → Dict.get o k ≡ none
    → append_original o k original ≡ Dict.insert o k (original ∷ [])
unfolding append_original
append_original_fresh o k original h = ground arith

conflicts-singles : (d : Tags) → conflicts (singles d) ≡ []
unfolding conflicts
conflicts-singles [] = refl
conflicts-singles ((k, v) ∷ d) = conflicts-singles d

Apart-nil {ℓ} : (V : Type ℓ) (d : Tags) → Apart {V = V} [] d
unfolding Dict.get
Apart-nil V [] = tt
Apart-nil V ((k, v) ∷ d) = (refl, Apart-nil V d)

module _ (canonical : String → String) where
  normalize_loop-Fixed :
      (d n : Tags) (o : Dict String (List String))
      → Fixed canonical d
      → Dict.NodupKeys d
      → Apart n d
      → Apart o d
      → normalize_loop canonical d n o ≡ (n ++ d, o ++ singles d)
  unfolding normalize_loop
  normalize_loop-Fixed [] n o f u an ao = simp append-nil
  normalize_loop-Fixed ((k, v) ∷ d) n o (e, f) (fresh, u) (kn, an) (ko, ao) =
      rw (e, keep_first_fresh n k v kn, append_original_fresh o k k ko)
        (normalize_loop-Fixed d (Dict.insert n k v) (Dict.insert o k (k ∷ [])) f u
            (Apart-insert n k v d fresh an) (Apart-insert o k (k ∷ []) d fresh ao)
          ∙ rw (insert_fresh n k v kn, insert_fresh o k (k ∷ []) ko) (simp append_assoc))

  normalize_by-Fixed :
      (d : Tags) → Fixed canonical d → Dict.NodupKeys d → normalize_by canonical d ≡ (d, [])
  unfolding normalize_by
  normalize_by-Fixed d f u =
      rw (normalize_loop-Fixed d [] [] f u (Apart-nil String d) (Apart-nil (List String) d))
        (rw conflicts-singles)

  Fixed-of_keys :
      (d : Tags)
      → ((c : String) → Dict.has_key d c ≡ true → canonical c ≡ c)
      → Dict.NodupKeys d
      → Fixed canonical d
  unfolding Dict.has_key Dict.get
  Fixed-of_keys [] h u = tt
  Fixed-of_keys ((k, v) ∷ d) h (fresh, u) =
      (h k (ground arith), Fixed-of_keys d (λ c e. h c (ground arith)) u)

  module _ (idem : (k : String) → canonical (canonical k) ≡ canonical k) where
    first_value-Fixed :
        (tags : Tags) (c v : String) → first_value canonical tags c ≡ some v → canonical c ≡ c
    unfolding first_value
    first_value-Fixed [] c v e = cc
    first_value-Fixed ((k, w) ∷ tags) c v e = ground (arith, idem k, first_value-Fixed tags c v)

    normalized-Fixed : (tags : Tags) → Fixed canonical (normalize_by canonical tags).0
    unfolding Dict.has_key
    normalized-Fixed tags =
        Fixed-of_keys _
          (λ c e. ground (
            arith,
            get-normalize_by canonical tags c,
            first_value-Fixed tags c (Option.get_or (first_value canonical tags c) ""),
          ))
          (normalize_by-NodupKeys canonical tags)

    normalize_by_idem :
        (tags : Tags)
        → normalize_by canonical (normalize_by canonical tags).0
          ≡ ((normalize_by canonical tags).0, [])
    normalize_by_idem tags =
        normalize_by-Fixed _ (normalized-Fixed tags) (normalize_by-NodupKeys canonical tags)

-- Normalising twice is normalising once, and the second time no conflict is reported: for every
-- schema and every list of tags.
pub normalize_idem :
    (rt : Runtime) (schema : Schema) (tags : Tags)
    → let self = make_normalizer rt schema in
      normalize rt self (normalize rt self tags).0 ≡ ((normalize rt self tags).0, [])
unfolding normalize
normalize_idem rt schema tags = normalize_by_idem _ (get_canonical_key_idem rt schema) tags
