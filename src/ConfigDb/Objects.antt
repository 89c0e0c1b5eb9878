-- ===== src/ConfigDb/Objects.antt =====
-- The objects of the Config Store, their ranks and their classes (acs-configdb/lib/model.js): the
-- tables `object`, `rank`, `membership` and `subclass`, with the views of sql/v8.sql. A transaction
-- that ends in an exception changes nothing.
pub mod Views
pub mod Relations
pub mod Ranks
pub mod Cycles
pub mod Membership
pub mod Registration
pub mod Creation
use amrc_connectivity_stack.Prelude.{
  ℕ, zero, suc, ◌+◌, String, Bool, true, false, not, ◌&&◌, ◌||◌, List, [], ◌∷◌, ◌++◌, Option, none,
  some, if◌then◌else◌, ◌==◌, nat_eq, string_eq, option_eq, filter,
}

-- A row of the table `object`; the class is null for the topmost rank only.
pub record Obj : Type 0 where
  pub id : ℕ
  pub uuid : String
  pub class : Option ℕ
  pub rank : ℕ
  pub owner : ℕ
  pub deleted : Bool

-- A row of `membership` or `subclass`.
pub record Rel : Type 0 where
  pub class : ℕ
  pub id : ℕ

-- A row of `rank`.
pub record Rank : Type 0 where
  pub depth : ℕ
  pub id : ℕ

-- The tables; of `config` only whose configs are of which app.
pub record Store : Type 0 where
  pub objects : List Obj
  pub ranks : List Rank
  pub membership : List Rel
  pub subclass : List Rel
  pub config_apps : List (ℕ × ℕ)
  pub next_id : ℕ

-- `_obj_id` and `_obj_info`
unfoldable pub obj_info : String → List Obj → Option Obj
obj_info u [] = none
obj_info u (o ∷ os) = if o.uuid == u then some o else obj_info u os

unfoldable pub rank_of : ℕ → List Obj → Option ℕ
rank_of i [] = none
rank_of i (o ∷ os) = if o.id == i then some o.rank else rank_of i os

-- The object of the rank at a depth.
unfoldable pub rank_at : ℕ → List Rank → Option ℕ
rank_at d [] = none
rank_at d (r ∷ rs) = if r.depth == d then some r.id else rank_at d rs

abbrev pub is_row : ℕ → ℕ → Rel → Bool
is_row c o r = r.class == c && r.id == o

unfoldable pub has_row : ℕ → ℕ → List Rel → Bool
has_row c o [] = false
has_row c o (r ∷ rs) = is_row c o r || has_row c o rs

-- `_class_add` and `_class_remove`
unfoldable pub class_add : ℕ → ℕ → List Rel → List Rel
class_add c o rs = if has_row c o rs then rs else record { class = c; id = o } ∷ rs

unfoldable pub class_remove : ℕ → ℕ → List Rel → List Rel
class_remove c o rs = filter (λ r. not (is_row c o r)) rs

-- `_add_rank_superclass`, for an object of a rank: it does nothing for individuals, and `none` is the
-- exception of a row that is there already.
unfoldable pub add_rank_superclass : ℕ → ℕ → Store → Option Store
add_rank_superclass o zero s = some s
add_rank_superclass o (suc d) s = elim (rank_at d s.ranks) [
  | none ↦ some s
  | some c ↦
      if has_row c o s.subclass
      then none
      else some (record s { subclass = record { class = c; id = o } ∷ s.subclass })
]
