-- ===== src/ConfigDb/Objects/Relations.antt =====
-- Changes of class relations (acs-configdb/lib/model.js, `_class_relation` to
-- `class_remove_subclass`).
use amrc_connectivity_stack.Prelude.{
  ℕ, suc, String, Bool, false, not, ◌&&◌, ◌||◌, List, [], ◌∷◌, Option, none, some, if◌then◌else◌,
  ◌==◌, nat_eq, filter,
}
use amrc_connectivity_stack.ConfigDb.Objects.{
  Obj, Rel, Rank, Store, obj_info, class_add, class_remove, add_rank_superclass,
}
use amrc_connectivity_stack.ConfigDb.Objects.Views.{all_subclass, all_membership}

-- What a change comes to: a status and the tables, or an exception, `none`.
abbrev pub Outcome : Type 0
Outcome = Option (ℕ × Store)

unfoldable pub add_member : Store → Obj → Obj → Outcome
add_member s c o =
    if c.rank == suc o.rank
    then some (204, record s { membership = class_add c.id o.id s.membership })
    else none

abbrev pub in_primary : Obj → Store → Bool
in_primary o s = elim o.class [ none ↦ false | some k ↦ all_membership s k o.id ]

unfoldable pub remove_member : Store → Obj → Obj → Outcome
remove_member s c o =
    let t : Store = record s { membership = class_remove c.id o.id s.membership } in
    if in_primary o t then some (204, t) else none

-- The rows of an object whose class is above another class already.
abbrev pub is_above : Store → ℕ → ℕ → Rel → Bool
is_above s c o r = r.id == o && all_subclass s r.class c

unfoldable pub add_subclass : Store → Obj → Obj → Outcome
add_subclass s c o =
    if not (o.rank == 0) && c.rank == o.rank
    then some (
      204,
      record s {
        subclass = class_add c.id o.id (filter (λ r. not (is_above s c.id o.id r)) s.subclass);
      },
    )
    else none

abbrev pub has_superclass : ℕ → List Rel → Bool
has_superclass o [] = false
has_superclass o (r ∷ rs) = r.id == o || has_superclass o rs

abbrev pub is_rank : ℕ → List Rank → Bool
is_rank o [] = false
is_rank o (r ∷ rs) = r.id == o || is_rank o rs

unfoldable pub remove_subclass : Store → Obj → Obj → Outcome
remove_subclass s c o =
    let t : Store = record s { subclass = class_remove c.id o.id s.subclass } in
    if o.rank == 0
    then some (404, s)
    else if has_superclass o.id t.subclass || is_rank o.id t.ranks
    then some (204, t)
    else elim (add_rank_superclass o.id o.rank t) [ none ↦ none | some u ↦ some (204, u) ]

-- The kinds of change: `class_add_member`, `class_remove_member`, `class_add_subclass` and
-- `class_remove_subclass`.
pub data Change : Type 0 where
  adding_member removing_member adding_subclass removing_subclass : Change

abbrev pub perform : Change → Store → Obj → Obj → Outcome
perform adding_member s c o = add_member s c o
perform removing_member s c o = remove_member s c o
perform adding_subclass s c o = add_subclass s c o
perform removing_subclass s c o = remove_subclass s c o

-- `_class_relation`: the status, and the tables then; an exception is 409 and is rolled back.
unfoldable pub class_relation : Change → String → String → Store → ℕ × Store
class_relation k klass obj s = elim (obj_info klass s.objects) [
  | none ↦ (404, s)
  | some c ↦ elim (obj_info obj s.objects) [
    | none ↦ (404, s)
    | some o ↦ elim (perform k s c o) [ none ↦ (409, s) | some r ↦ r ]
  ]
]
