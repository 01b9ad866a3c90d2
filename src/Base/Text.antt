-- ===== src/Base/Text.antt =====
-- The methods of `str` that the program calls. A text is a list of characters.
use Prim.Native.Nat.{ℕ, zero, suc, Ordering, ◌≤◌}
use Prim.Native.Char.{Char, code}
use Prim.Native.String.{String, ◌++◌, compare}
use mathlib.Core.Bool.{Bool, true, false, ◌&&◌, ◌||◌}
use mathlib.Core.List.{List, [], ◌∷◌}
use aws_tagging_utils.Base.Equality.{◌==◌, string_eq, nat_eq, if◌then◌else◌, contains}
use text.Mathlib.TextPositions.{compare_refl}
use mathlib.Core.Option.{some}
use mathlib.Core.Path.{◌≡◌, refl, ◌∙◌, ap}
use native.Mathlib.Omega.{arith}
use aws_tagging_utils.Base.Numbers.{leb}
use aws_tagging_utils.Base.Dict
use aws_tagging_utils.Base.Dict.{Dict}

-- `str.isspace` of one character: what `strip` takes off.
is_space : ℕ → Bool
is_space c =
    (leb 9 c && leb c 13)
    || (leb 28 c && leb c 32)
    || (leb 0x2000 c && leb c 0x200a)
    || (c == 0x85 || c == 0xa0 || c == 0x1680 || c == 0x2028 || c == 0x2029)
    || (c == 0x202f || c == 0x205f || c == 0x3000)

lstrip : String → String
unfolding is_space nat_eq
lstrip String.[] = ""
lstrip (String.◌∷◌ c s) = if is_space (code c) then lstrip s else String.◌∷◌ c s

rstrip : String → String
unfolding is_space nat_eq string_eq
rstrip String.[] = ""
rstrip (String.◌∷◌ c s) =
    let r = rstrip s in if is_space (code c) && r == "" then "" else String.◌∷◌ c r

-- `s.strip()`
unfoldable pub strip : String → String
unfolding lstrip rstrip
strip s = rstrip (lstrip s)

-- `s.strip() == ""`
unfoldable pub is_blank : String → Bool
unfolding strip
is_blank s = strip s == ""

-- `s.startswith(prefix)`
unfoldable pub starts_with : String → String → Bool
unfolding nat_eq
starts_with s String.[] = true
starts_with String.[] (String.◌∷◌ p prefix) = false
starts_with (String.◌∷◌ c s) (String.◌∷◌ p prefix) = code c == code p && starts_with s prefix

-- `s.endswith(suffix)`
unfoldable pub ends_with : String → String → Bool
unfolding string_eq
ends_with String.[] suffix = suffix == ""
ends_with (String.◌∷◌ c s) suffix = String.◌∷◌ c s == suffix || ends_with s suffix

-- `sep.join(parts)`
unfoldable pub join : String → List String → String
join sep [] = ""
join sep (x ∷ []) = x
join sep (x ∷ y ∷ rest) = x ++ (sep ++ join sep (y ∷ rest))

push : Char → List String → List String
push c [] = String.◌∷◌ c "" ∷ []
push c (w ∷ rest) = String.◌∷◌ c w ∷ rest

-- `s.split(sep, n)`: at most `n` cuts, from the left; never empty.
unfoldable pub split_max : ℕ → ℕ → String → List String
unfolding push nat_eq
split_max sep n String.[] = "" ∷ []
split_max sep zero (String.◌∷◌ c s) = String.◌∷◌ c s ∷ []
split_max sep (suc n) (String.◌∷◌ c s) =
    let kept = push c (split_max sep (suc n) s) in
    let cut = "" ∷ split_max sep n s in if code c == sep then cut else kept

-- `s.split(sep)`
unfoldable pub split : ℕ → String → List String
unfolding push nat_eq
split sep String.[] = "" ∷ []
split sep (String.◌∷◌ c s) =
    let rest = split sep s in if code c == sep then "" ∷ rest else push c rest

-- `len(s)`
unfoldable pub len : String → ℕ
len String.[] = 0
len (String.◌∷◌ c s) = suc (len s)

-- `s.lstrip(c)` and `s.strip(c)`, for one character
unfoldable pub lstrip_char : ℕ → String → String
unfolding nat_eq
lstrip_char sep String.[] = ""
lstrip_char sep (String.◌∷◌ c s) = if code c == sep then lstrip_char sep s else String.◌∷◌ c s

rstrip_char : ℕ → String → String
unfolding nat_eq string_eq
rstrip_char sep String.[] = ""
rstrip_char sep (String.◌∷◌ c s) =
    let r = rstrip_char sep s in if code c == sep && r == "" then "" else String.◌∷◌ c r

unfoldable pub strip_char : ℕ → String → String
unfolding lstrip_char rstrip_char
strip_char sep s = rstrip_char sep (lstrip_char sep s)

-- `chr(sep) in s`
unfoldable pub has_char : ℕ → String → Bool
unfolding nat_eq
has_char sep String.[] = false
has_char sep (String.◌∷◌ c s) = code c == sep || has_char sep s

-- `s.split(sep, 1)[0]`
unfoldable pub before : ℕ → String → String
unfolding nat_eq
before sep String.[] = ""
before sep (String.◌∷◌ c s) = if code c == sep then "" else String.◌∷◌ c (before sep s)

-- `s < t`
precedes : String → String → Bool
precedes s t = elim (compare s t) [ Ordering.lt ↦ true | _ ↦ false ]

insert_sorted : String → List String → List String
unfolding precedes string_eq
insert_sorted s [] = s ∷ []
insert_sorted s (t ∷ ts) =
    if s == t then t ∷ ts else if precedes s t then s ∷ t ∷ ts else t ∷ insert_sorted s ts

-- `sorted(set(texts))`
unfoldable pub sorted_set : List String → List String
unfolding insert_sorted
sorted_set [] = []
sorted_set (s ∷ rest) = insert_sorted s (sorted_set rest)

contains-insert_sorted :
    (s : String) (xs : List String) (k : String)
    → contains (insert_sorted s xs) k ≡ (k == s || contains xs k)
unfolding insert_sorted
contains-insert_sorted s [] k = refl
contains-insert_sorted s (x ∷ xs) k = ground (arith, contains-insert_sorted s xs k)

-- Sorting changes no membership.
pub contains-sorted_set :
    (xs : List String) (k : String) → contains (sorted_set xs) k ≡ contains xs k
unfolding sorted_set
contains-sorted_set [] k = refl
contains-sorted_set (x ∷ xs) k =
    contains-insert_sorted x (sorted_set xs) k ∙ ap (λ b. k == x || b) (contains-sorted_set xs k)

-- A dict with text keys, by `json.dumps(d, sort_keys=True)` and back: its entries in the order of
-- their keys.
insert_key {ℓ} : {A : Type ℓ} → String → A → Dict String A → Dict String A
unfolding precedes
insert_key k v [] = (k, v) ∷ []
insert_key k v ((j, w) ∷ d) =
    if precedes j k then (j, w) ∷ insert_key k v d else (k, v) ∷ (j, w) ∷ d

unfoldable pub sort_by_key {ℓ} : {A : Type ℓ} → Dict String A → Dict String A
unfolding insert_key
sort_by_key [] = []
sort_by_key ((k, v) ∷ d) = insert_key k v (sort_by_key d)

insert_text : String → List String → List String
unfolding precedes
insert_text s [] = s ∷ []
insert_text s (t ∷ ts) = if precedes t s then t ∷ insert_text s ts else s ∷ t ∷ ts

-- `sorted(texts)`
unfoldable pub sorted : List String → List String
unfolding insert_text
sorted [] = []
sorted (s ∷ ts) = insert_text s (sorted ts)

contains-insert_text :
    (s : String) (xs : List String) (k : String)
    → contains (insert_text s xs) k ≡ (k == s || contains xs k)
unfolding insert_text
contains-insert_text s [] k = refl
contains-insert_text s (x ∷ xs) k = ground (arith, contains-insert_text s xs k)

pub contains-sorted : (xs : List String) (k : String) → contains (sorted xs) k ≡ contains xs k
unfolding sorted
contains-sorted [] k = refl
contains-sorted (x ∷ xs) k =
    contains-insert_text x (sorted xs) k ∙ ap (λ b. k == x || b) (contains-sorted xs k)

has_key-insert_key {ℓ} :
    {A : Type ℓ} (k : String) (v : A) (d : Dict String A) (j : String)
    → Dict.has_key (insert_key k v d) j ≡ (j == k || Dict.has_key d j)
unfolding insert_key Dict.has_key Dict.get
has_key-insert_key k v [] j = ground arith
has_key-insert_key k v ((i, w) ∷ d) j = ground (arith, has_key-insert_key k v d j)

precedes_irreflexive : (s : String) → precedes s s ≡ false
unfolding precedes
precedes_irreflexive s = ground (arith, compare_refl s)

get-insert_key {ℓ} :
    {A : Type ℓ} (k : String) (v : A) (d : Dict String A) (j : String)
    → Dict.get (insert_key k v d) j ≡ (if j == k then some v else Dict.get d j)
unfolding insert_key Dict.get
get-insert_key k v [] j = refl
get-insert_key k v ((i, w) ∷ d) j = ground (arith, get-insert_key k v d j, precedes_irreflexive i)

-- Sorting a dict changes the value of no key.
pub get-sort_by_key {ℓ} :
    {A : Type ℓ} (d : Dict String A) (j : String) → Dict.get (sort_by_key d) j ≡ Dict.get d j
unfolding sort_by_key Dict.get
get-sort_by_key [] j = refl
get-sort_by_key ((k, v) ∷ d) j =
    ground (arith, get-insert_key k v (sort_by_key d) j, get-sort_by_key d j)

-- Sorting a dict changes no membership.
pub has_key-sort_by_key {ℓ} :
    {A : Type ℓ} (d : Dict String A) (j : String)
    → Dict.has_key (sort_by_key d) j ≡ Dict.has_key d j
unfolding sort_by_key Dict.has_key Dict.get
has_key-sort_by_key [] j = refl
has_key-sort_by_key ((k, v) ∷ d) j =
    ground (arith, has_key-insert_key k v (sort_by_key d) j, has_key-sort_by_key d j)

-- `sub in s`
unfoldable pub has_text : String → String → Bool
unfolding starts_with string_eq
has_text sub String.[] = sub == ""
has_text sub (String.◌∷◌ c s) = starts_with (String.◌∷◌ c s) sub || has_text sub s

-- `s[:n]`
unfoldable pub prefix : ℕ → String → String
prefix zero s = ""
prefix (suc n) String.[] = ""
prefix (suc n) (String.◌∷◌ c s) = String.◌∷◌ c (prefix n s)

-- `xs[-1]` of a list with the first item `x`
unfoldable pub last_of : String → List String → String
last_of x [] = x
last_of x (y ∷ ys) = last_of y ys

pub len-prefix : (n : ℕ) (s : String) → len (prefix n s) ≤ n
unfolding prefix len
len-prefix zero s = omega arith
len-prefix (suc n) String.[] = omega arith
len-prefix (suc n) (String.◌∷◌ c s) = omega (arith, len-prefix n s)
