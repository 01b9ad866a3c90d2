-- ===== src/Governance/Normalizer/Loop.antt =====
-- What the loops of `normalize` compute, whatever the canonical keys are.
use aws_tagging_utils.Base.{String, ◌≡◌, refl, ap, ◌∙◌, ◌↔◌, Bool, true, false, Option, none, some}
use aws_tagging_utils.Base.{List, [], ◌∷◌, ◌++◌, arith, ◌==◌, string_eq, if◌then◌else◌, ltb, length}
use mathlib.Core.List.{append-nil, append_assoc}
use mathlib.Core.Option
use aws_tagging_utils.Base.{◌<◌, ◌≤◌, ◌||◌, ap, false}
use aws_tagging_utils.Base.Dict
use aws_tagging_utils.Base.Dict.{Dict}
use aws_tagging_utils.Governance.Models.{Tags, ValidationViolation}
use aws_tagging_utils.Governance.Normalizer.{
  append_original, keep_first, normalize_loop, conflicts, normalize_by,
}

-- The value of the first tag, in the order given, whose canonical key is `c`.
unfoldable pub first_value : (String → String) → Tags → String → Option String
first_value canonical [] c = none
first_value canonical ((k, v) ∷ tags) c =
    if c == canonical k then some v else first_value canonical tags c

-- All the keys given whose canonical key is `c`, in the order given.
unfoldable pub originals_of : (String → String) → Tags → String → List String
originals_of canonical [] c = []
originals_of canonical ((k, v) ∷ tags) c =
    if c == canonical k then k ∷ originals_of canonical tags c else originals_of canonical tags c

abbrev or_first : Option String → Option String → Option String
or_first none later = later
or_first (some v) later = some v

get-keep_first :
    (d : Tags) (k v c : String)
    → Dict.get (keep_first d k v) c ≡ or_first (Dict.get d c) (if c == k then some v else none)
unfolding keep_first
get-keep_first d k v c = ground (arith, Dict.get-insert d k v c)

abbrev more : Option (List String) → List String → Option (List String)
more none [] = none
more none (k ∷ ks) = some (k ∷ ks)
more (some old) ks = some (old ++ ks)

module _ (canonical : String → String) where
  get-normalize_loop :
      (tags n : Tags) (o : Dict String (List String)) (c : String)
      → Dict.get (normalize_loop canonical tags n o).0 c
        ≡ or_first (Dict.get n c) (first_value canonical tags c)
  unfolding normalize_loop first_value
  get-normalize_loop [] n o c = ground arith
  get-normalize_loop ((k, v) ∷ tags) n o c = ground (
    arith,
    get-normalize_loop tags (keep_first n (canonical k) v) (append_original o (canonical k) k) c,
    get-keep_first n (canonical k) v c,
  )

  -- Under each canonical key stands the value of the first tag that has it, and nothing else.
  pub get-normalize_by :
      (tags : Tags) (c : String)
      → Dict.get (normalize_by canonical tags).0 c ≡ first_value canonical tags c
  unfolding normalize_by Dict.get
  get-normalize_by tags c = get-normalize_loop tags [] [] c

more-nil : (o : Option (List String)) → more o [] ≡ o
more-nil none = refl
more-nil (some old) = rw append-nil

more-more :
    (o : Option (List String)) (ks ls : List String) → more (more o ks) ls ≡ more o (ks ++ ls)
more-more none [] ls = refl
more-more none (k ∷ ks) ls = refl
more-more (some old) ks ls = rw append_assoc

get-append_original :
    (d : Dict String (List String)) (key original c : String)
    → Dict.get (append_original d key original) c
      ≡ more (Dict.get d c) (if c == key then original ∷ [] else [])
unfolding append_original
get-append_original d key original c = ground (
  arith,
  Dict.get-insert d key (original ∷ []) c,
  Dict.get-insert d key ((Option.get_or (Dict.get d key) []) ++ (original ∷ [])) c,
  more-nil (Dict.get d c),
)

module _ (canonical : String → String) where
  get-originals :
      (tags n : Tags) (o : Dict String (List String)) (c : String)
      → Dict.get (normalize_loop canonical tags n o).1 c
        ≡ more (Dict.get o c) (originals_of canonical tags c)
  unfolding normalize_loop originals_of
  get-originals [] n o c = rw more-nil
  get-originals ((k, v) ∷ tags) n o c =
      let n' = keep_first n (canonical k) v in
      let o' = append_original o (canonical k) k in
      get-originals tags n' o' c
      ∙ ground (
        arith,
        get-append_original o (canonical k) k c,
        more-nil (Dict.get o c),
        more-more (Dict.get o c) (k ∷ []) (originals_of canonical tags c),
      )

  originals-NodupKeys :
      (tags n : Tags) (o : Dict String (List String))
      → Dict.NodupKeys o
      → Dict.NodupKeys (normalize_loop canonical tags n o).1
  unfolding normalize_loop append_original
  originals-NodupKeys [] n o u = u
  originals-NodupKeys ((k, v) ∷ tags) n o u = originals-NodupKeys tags _ _ (
      ground (
        arith,
        Dict.insert-NodupKeys o (canonical k) (k ∷ []) u,
        Dict.insert-NodupKeys o (canonical k)
            (Option.get_or (Dict.get o (canonical k)) [] ++ (k ∷ [])) u,
      ))

  normalized-NodupKeys :
      (tags n : Tags) (o : Dict String (List String))
      → Dict.NodupKeys n
      → Dict.NodupKeys (normalize_loop canonical tags n o).0
  unfolding normalize_loop keep_first
  normalized-NodupKeys [] n o u = u
  normalized-NodupKeys ((k, v) ∷ tags) n o u =
      normalized-NodupKeys tags _ _ (ground (arith, Dict.insert-NodupKeys n (canonical k) v u))

  pub normalize_by-NodupKeys : (tags : Tags) → Dict.NodupKeys (normalize_by canonical tags).0
  unfolding normalize_by
  normalize_by-NodupKeys tags = normalized-NodupKeys tags [] [] tt

-- Some violation is about the key `c`.
abbrev pub flags : List ValidationViolation → String → Bool
flags [] c = false
flags (v ∷ vs) c = c == v.tag || flags vs c

abbrev pub is_conflict : Option (List String) → Bool
is_conflict none = false
is_conflict (some originals) = ltb 1 (length originals)

flags-conflicts :
    (o : Dict String (List String)) (c : String)
    → Dict.NodupKeys o
    → flags (conflicts o) c ≡ is_conflict (Dict.get o c)
unfolding conflicts Dict.get
flags-conflicts [] c u = refl
flags-conflicts ((k, l) ∷ o) c (fresh, u) = ground (arith, flags-conflicts o c u)

more_conflict : (ks : List String) → (is_conflict (more none ks) ≡ true) ↔ (1 < length ks)
more_conflict [] = (λ h. cc, λ h. absurd (omega arith))
more_conflict (k ∷ ks) = ground arith

-- A conflict is reported for exactly the canonical keys that two or more of the given keys have.
pub normalize_by_conflicts :
    (canonical : String → String) (tags : Tags) (c : String)
    → (flags (normalize_by canonical tags).1 c ≡ true)
      ↔ (1 < length (originals_of canonical tags c))
unfolding normalize_by Dict.get
normalize_by_conflicts canonical tags c =
    rw
      (
        flags-conflicts _ c (originals-NodupKeys canonical tags [] [] tt),
        get-originals canonical tags [] [] c,
      )
      (more_conflict (originals_of canonical tags c))

-- No conflict is reported if and only if no two of the given keys have one canonical key.
pub normalize_by-eq-nil_iff :
    (canonical : String → String) (tags : Tags)
    → ((normalize_by canonical tags).1 ≡ [])
      ↔ ((c : String) → length (originals_of canonical tags c) ≤ 1)
normalize_by-eq-nil_iff canonical tags = (
  λ h c. one_at_most c (ap (λ vs. flags vs c) h),
  λ h. nothing _ λ c. ground (arith, normalize_by_conflicts canonical tags c, h c),
)
  where
    one_at_most :
        (c : String)
        → flags (normalize_by canonical tags).1 c ≡ false
        → length (originals_of canonical tags c) ≤ 1
    one_at_most c e = ground (arith, normalize_by_conflicts canonical tags c)

    nothing : (vs : List ValidationViolation) → ((c : String) → flags vs c ≡ false) → vs ≡ []
    nothing [] h = refl
    nothing (v ∷ vs) h = ground (arith, h v.tag)
