-- ===== src/Changesets/Undo/Safe.antt =====
-- What an undo does to the tags in AWS.
use mathlib.Core.List.{map}
use aws_tagging_utils.Base.{
  ℕ, String, false, ◌&&◌, some, List, [], ◌∷◌, ◌++◌, ◌≡◌, refl, ◌∙◌, ap, arith,
}
use aws_tagging_utils.Base.{
  ◌==◌, contains, string_eq, option_eq, list_eq, pair_eq, All, Bool-cases, inl, inr, is_empty,
}
use aws_tagging_utils.Base.Dict
use aws_tagging_utils.Base.Dict.{Dict, NodupKeys}
use aws_tagging_utils.Base.Text.{contains-sorted, has_key-sort_by_key}
use aws_tagging_utils.Governance.Models.{Tags}
use aws_tagging_utils.Services.{World, log_audit}
use aws_tagging_utils.Changesets.{tags_of}
use aws_tagging_utils.Changesets.Log.{
  TagItem, Item, ChangeSet, Site, Ops, finished, get_change_set, record_change_set, audit_items,
  audit_item,
}
use aws_tagging_utils.Changesets.Tagging.{
  Home, set_all, remove_all, record_set, record_removed, canonical, tag_batches,
}
use aws_tagging_utils.Changesets.Tagging.Frame.{tag_batches-Avoids, run_groups_frame}
use aws_tagging_utils.Changesets.Apply.{Context, run_ops}
use aws_tagging_utils.Changesets.Undo.{
  undo, undo_from, run_steps, current_of, tag_items, done_ops, step_of, set_calls, finish_item,
  remove_calls,
}
use aws_tagging_utils.Changesets.Undo.Steps.{unchanged, reverse_item_lem}

module _ (current : Dict String Tags) (a k : String) where
  -- The item does not ask for a call about the key `k` of the resource `a`.
  abbrev pub LeavesAlone : TagItem → Type 0
  LeavesAlone it =
      NodupKeys it.after
      × ((a == it.arn && unchanged it.after (tags_of (Dict.get current it.arn)) k) ≡ false)

  step_of_avoids :
      (it : TagItem)
      → LeavesAlone it
      → ((a == (step_of current it).arn && Dict.has_key (step_of current it).reversal.restore k)
          ≡ false)
        × ((a == (step_of current it).arn && contains (step_of current it).reversal.remove k)
            ≡ false)
  unfolding step_of Dict.has_key
  step_of_avoids it (u, h) =
      let lem = reverse_item_lem it.after it.before (tags_of (Dict.get current it.arn)) k u in
      (ground (arith, lem.0), ground (arith, lem.1))

  set_calls_avoid :
      (items : List TagItem)
      → All LeavesAlone items
      → All
          (λ c. (a == c.0 && Dict.has_key c.1 k) ≡ false)
          (set_calls (map (step_of current) items))
  unfolding set_calls
  set_calls_avoid [] h = tt
  set_calls_avoid (it ∷ items) (h, hs) =
      elim (Bool-cases (is_empty (step_of current it).reversal.restore)) [
        | inl e ↦ rw (e, set_calls) (set_calls_avoid items hs)
        | inr e ↦ rw (e, set_calls) ((step_of_avoids it h).0, set_calls_avoid items hs)
      ]

  remove_calls_avoid :
      (items : List TagItem)
      → All LeavesAlone items
      → All (λ c. (a == c.0 && contains c.1 k) ≡ false) (remove_calls (map (step_of current) items))
  unfolding remove_calls
  remove_calls_avoid [] h = tt
  remove_calls_avoid (it ∷ items) (h, hs) =
      elim (Bool-cases (is_empty (step_of current it).reversal.remove)) [
        | inl e ↦ rw (e, remove_calls) (remove_calls_avoid items hs)
        | inr e ↦
            rw (e, remove_calls)
              (
                ground (
                  arith,
                  (step_of_avoids it h).1,
                  contains-sorted (step_of current it).reversal.remove k,
                ),
                remove_calls_avoid items hs,
              )
      ]

canonical_avoid :
    (a k : String) (items : List (String × Tags))
    → All (λ c. (a == c.0 && Dict.has_key c.1 k) ≡ false) items
    → All (λ c. (a == c.0 && Dict.has_key c.1 k) ≡ false) (canonical items)
unfolding canonical
canonical_avoid a k [] h = tt
canonical_avoid a k ((arn, tags) ∷ items) (h, hs) =
    (ground (arith, has_key-sort_by_key tags k), canonical_avoid a k items hs)

aws-audit_items :
    {W Op : Type 0} (ops : Ops W Op) (upper : String → String) (actor action : String)
    → (items : List (Item Op)) (w : World W)
    → (audit_items ops upper actor action items w).aws ≡ w.aws
unfolding audit_items audit_item log_audit
aws-audit_items ops upper actor action [] w = refl
aws-audit_items ops upper actor action (i ∷ items) w =
    aws-audit_items ops upper actor action items _ ∙ ground arith

-- `view w a` are the tags of the resource `a`. The frames are what AWS documents of the two calls:
-- they change no other resource than those named, and of these no other keys than those named.
module _ {W Op : Type 0} (ctx : Context W Op) (view : W → String → Tags)
    (tag_frame : (home : Home) (arns : List String) (tags : Tags) (w : W) (a k : String)
      → (contains arns a && Dict.has_key tags k) ≡ false
      → Dict.get (view (ctx.api.tag_resources home arns tags w).1 a) k ≡ Dict.get (view w a) k)
    (untag_frame : (home : Home) (arns removed : List String) (w : W) (a k : String)
      → (contains arns a && contains removed k) ≡ false
      → Dict.get (view (ctx.api.untag_resources home arns removed w).1 a) k ≡ Dict.get (view w a) k)
    (a k : String) where
  set_all_safe :
      (now : ℕ) (items : List (String × Tags)) (w : World W)
      → All (λ c. (a == c.0 && Dict.has_key c.1 k) ≡ false) items
      → Dict.get (view (set_all ctx.api ctx.default_region ctx.schema now items w).1.aws a) k
        ≡ Dict.get (view w.aws a) k
  unfolding set_all
  set_all_safe now items w h =
      run_groups_frame (λ tags j. Dict.has_key tags j) a k view ctx.default_region
        ctx.api.tag_resources (record_set ctx.api ctx.default_region ctx.schema now)
        (λ home arns tags w. tag_frame home arns tags w a k)
        (tag_batches ctx.default_region (canonical items) []) [] w
        (tag_batches-Avoids (λ tags j. Dict.has_key tags j) a k ctx.default_region (canonical items)
          [] (canonical_avoid a k items h) tt)

  remove_all_safe :
      (now : ℕ) (items : List (String × List String)) (w : World W)
      → All (λ c. (a == c.0 && contains c.1 k) ≡ false) items
      → Dict.get (view (remove_all ctx.api ctx.default_region ctx.schema now items w).1.aws a) k
        ≡ Dict.get (view w.aws a) k
  unfolding remove_all
  remove_all_safe now items w h =
      run_groups_frame (λ removed j. contains removed j) a k view ctx.default_region
        ctx.api.untag_resources (record_removed ctx.api ctx.default_region ctx.schema now)
        (λ home arns removed w. untag_frame home arns removed w a k)
        (tag_batches ctx.default_region items []) [] w
        (tag_batches-Avoids (λ removed j. contains removed j) a k ctx.default_region items [] h tt)

  run_steps_safe :
      (now : ℕ) (current : Dict String Tags) (items : List TagItem) (w : World W)
      → All (LeavesAlone current a k) items
      → Dict.get (view (run_steps ctx now (map (step_of current) items) w).1.aws a) k
        ≡ Dict.get (view w.aws a) k
  unfolding run_steps
  run_steps_safe now current items w h =
      let steps = map (step_of current) items in
      let w' = (set_all ctx.api ctx.default_region ctx.schema now (set_calls steps) w).1 in
      remove_all_safe now (remove_calls steps) w' (remove_calls_avoid current a k items h)
      ∙ set_all_safe now (set_calls steps) w (set_calls_avoid current a k items h)

  undo_from_safe :
      (new_id : String) (now : ℕ) (cs_id actor : String) (items : List (Item Op))
      → (current : Dict String Tags) (site : Site W Op) → done_ops items ≡ []
      → All (LeavesAlone current a k) (tag_items items)
      → Dict.get (view (undo_from ctx new_id now cs_id actor items current site).1.world.aws a) k
        ≡ Dict.get (view site.world.aws a) k
  unfolding undo_from record_change_set run_ops
  undo_from_safe new_id now cs_id actor items current site none_done h =
      let steps = map (step_of current) (tag_items items) in
      let done = run_steps ctx now steps site.world in
      rw (none_done, undo_from, run_ops)
        (ap (λ aws. Dict.get (view aws a) k)
            (aws-audit_items ctx.ops ctx.upper actor "TAG_UNDO"
              (map (finish_item done.0) steps ++ []) done.1)
          ∙ run_steps_safe now current (tag_items items) site.world h)

  -- Undoing a change set of tags leaves alone each key of each resource whose value, as the
  -- tagging API gives it now, is not the one that the change set wrote, and each key that it did
  -- not write; where the two calls have the frames above.
  pub undo_safe :
      (new_id : String) (now : ℕ) (cs_id actor : String) (site site' : Site W Op)
      → (cs undone : ChangeSet Op) (current : Dict String Tags)
      → get_change_set site cs_id ≡ some cs
      → current_of ctx (tag_items cs.items) site.world.aws ≡ some current
      → done_ops cs.items ≡ []
      → All (LeavesAlone current a k) (tag_items cs.items)
      → undo ctx new_id now cs_id actor site ≡ (finished undone, site')
      → Dict.get (view site'.world.aws a) k ≡ Dict.get (view site.world.aws a) k
  unfolding undo
  undo_safe new_id now cs_id actor site site' cs undone current found read none_done h done =
      ground (arith, undo_from_safe new_id now cs_id actor cs.items current site none_done h)
