-- ===== src/Changesets/Undo/Steps.antt =====
-- What an undo plans for each key.
use aws_tagging_utils.Base.{
  String, Bool, true, false, not, ◌&&◌, Option, none, some, [], ◌∷◌, ◌≡◌, refl, arith,
}
use aws_tagging_utils.Base.{
  ◌==◌, string_eq, option_eq, if◌then◌else◌, contains, Option-cases, inl, inr,
}
use aws_tagging_utils.Base.Dict
use aws_tagging_utils.Base.Dict.{Dict, NodupKeys}
use aws_tagging_utils.Runtime.{Runtime}
use aws_tagging_utils.Governance.Models.{Tags}
use aws_tagging_utils.Changesets.{changes_of, afters, apply_changes}
use aws_tagging_utils.Changesets.Effects.{afters-NodupKeys}
use aws_tagging_utils.Changesets.Apply.{befores}
use aws_tagging_utils.Changesets.Undo.{Reversal, reverse_item, before_of}

-- Whether the key still has the value that was written.
abbrev pub unchanged : Tags → Tags → String → Bool
unchanged after cur k = elim (Dict.get after k) [
  | none ↦ false
  | some written ↦ Dict.get cur k == some written
]

get-restore :
    (after : Tags) (before : Dict String (Option String)) (cur : Tags) (k : String)
    → NodupKeys after
    → Dict.get (reverse_item after before cur).restore k
      ≡ (if unchanged after cur k then before_of before k else none)
unfolding reverse_item Dict.get
get-restore [] before cur k u = refl
get-restore ((j, w) ∷ after) before cur k (fresh, u) =
    ground (arith, get-restore after before cur k u)

contains-remove :
    (after : Tags) (before : Dict String (Option String)) (cur : Tags) (k : String)
    → NodupKeys after
    → contains (reverse_item after before cur).remove k
      ≡ (unchanged after cur k && (elim (before_of before k) [ none ↦ true | some v ↦ false ]))
unfolding reverse_item Dict.get
contains-remove [] before cur k u = refl
contains-remove ((j, w) ∷ after) before cur k (fresh, u) =
    ground (arith, contains-remove after before cur k u)

has_key-conflicts :
    (after : Tags) (before : Dict String (Option String)) (cur : Tags) (k : String)
    → NodupKeys after
    → Dict.has_key (reverse_item after before cur).conflicts k
      ≡ (Dict.has_key after k && not (unchanged after cur k))
unfolding reverse_item Dict.get Dict.has_key
has_key-conflicts [] before cur k u = refl
has_key-conflicts ((j, w) ∷ after) before cur k (fresh, u) =
    ground (arith, has_key-conflicts after before cur k u)

-- For a change set that wrote no key twice to a resource, the undo plans for each key: where the
-- current value is the written one, to restore the previous value, or to remove the key if it had
-- none; where a written key has another value or none by now, nothing but a conflict; and nothing
-- for a key that was not written.
pub reverse_item_lem :
    (after : Tags) (before : Dict String (Option String)) (cur : Tags) (k : String)
    → NodupKeys after
    → (Dict.get (reverse_item after before cur).restore k
        ≡ (if unchanged after cur k then before_of before k else none))
      × (contains (reverse_item after before cur).remove k
          ≡ (unchanged after cur k && (elim (before_of before k) [ none ↦ true | some v ↦ false ])))
      × (Dict.has_key (reverse_item after before cur).conflicts k
          ≡ (Dict.has_key after k && not (unchanged after cur k)))
reverse_item_lem after before cur k u = (
  get-restore after before cur k u,
  contains-remove after before cur k u,
  has_key-conflicts after before cur k u,
)

-- The value of a key after the calls that a reversal asks for.
abbrev pub reversed : Tags → Reversal → String → Option String
reversed cur r k =
    if contains r.remove k
    then none
    else (elim (Dict.get r.restore k) [ none ↦ Dict.get cur k | some v ↦ some v ])

module _ (rt : Runtime) where
  before_of-befores :
      (cur normalized : Tags) (overwrite : Bool) (k : String)
      → before_of (befores (changes_of rt cur overwrite normalized)) k ≡ (
          if Dict.has_key (afters rt (changes_of rt cur overwrite normalized)) k
          then Dict.get cur k
          else none)
  unfolding befores changes_of afters Dict.get Dict.has_key before_of
  before_of-befores cur [] overwrite k = refl
  before_of-befores cur ((j, w) ∷ normalized) overwrite k =
      ground (arith, before_of-befores cur normalized overwrite k)

  -- An undo right after the change, when the tags are those that the change made, gives every key
  -- the value that it had before, for requested tags without a key twice.
  pub reversed-apply_changes :
      (cur normalized : Tags) (overwrite : Bool) (k : String)
      → NodupKeys normalized
      → (let changes = changes_of rt cur overwrite normalized in
          let made = apply_changes rt cur changes in
          reversed made (reverse_item (afters rt changes) (befores changes) made) k
          ≡ Dict.get cur k)
  unfolding apply_changes Dict.has_key
  reversed-apply_changes cur normalized overwrite k u =
      let more = afters rt (changes_of rt cur overwrite normalized) in
      let before = befores (changes_of rt cur overwrite normalized) in
      let unique = afters-NodupKeys rt cur normalized overwrite u in
      elim (Option-cases (Dict.get more k)) [
        | inl e ↦ ground (
          arith,
          get-restore more before (Dict.update cur more) k unique,
          contains-remove more before (Dict.update cur more) k unique,
          Dict.get-update-none cur more k e,
        )
        | inr (v, e) ↦ ground (
          arith,
          get-restore more before (Dict.update cur more) k unique,
          contains-remove more before (Dict.update cur more) k unique,
          before_of-befores cur normalized overwrite k,
          Dict.get-update-some cur more k v unique e,
        )
      ]
