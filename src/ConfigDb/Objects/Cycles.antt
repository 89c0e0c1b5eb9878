-- ===== src/ConfigDb/Objects/Cycles.antt =====
-- Superclasses of a class that becomes a subclass of one below it (acs-configdb/lib/model.js,
-- `class_add_subclass`).
use amrc_connectivity_stack.Prelude.{
  ℕ, ◌≡◌, refl, ap, subst, ◌⊎◌, inl, inr, String, true, false, not, List, [], ◌∷◌, some, ◌==◌,
  nat_eq, string_eq, option_eq, filter, In, In-filter, if_holds, ==_iff, ==_self, arith,
}
use amrc_connectivity_stack.ConfigDb.Objects.{Obj, Rel, Store, obj_info, has_row, class_add}
use amrc_connectivity_stack.ConfigDb.Objects.Views.{
  reaches, reaches_row, reaches_trans, names_class, is_class, all_subclass,
}
use amrc_connectivity_stack.ConfigDb.Objects.Relations.{
  adding_subclass, is_above, add_subclass, class_relation,
}

pub names_class-of_In : (r : Rel) (rs : List Rel) → In r rs → names_class r.class rs ≡ true
names_class-of_In r [] h = absurd h
names_class-of_In r (q ∷ rs) (inl e) = rw e (ground (arith, ==_self q.class))
names_class-of_In r (q ∷ rs) (inr i) = ground (arith, names_class-of_In r rs i)

In-class_add :
    (r : Rel) (c o : ℕ) (rs : List Rel) → In r (class_add c o rs) → In r rs ⊎ (r.class ≡ c)
unfolding class_add
In-class_add r c o rs =
    if_holds (λ (x : List Rel). In r x → In r rs ⊎ (r.class ≡ c)) (has_row c o rs) _ _
      (λ e h. inl h) (λ e h. elim h [ inl q ↦ inr (ap (λ (x : Rel). x.class) q) | inr i ↦ inl i ])

-- A row of an object whose class is above a class that the object leads to.
is_above_lem :
    (s : Store) (c o : ℕ) (r : Rel)
    → In r s.subclass
    → r.id ≡ o
    → reaches s.subclass o c ≡ true
    → is_above s c o r ≡ true
unfolding all_subclass is_class
is_above_lem s c o r i e h = ground (
  arith,
  names_class-of_In r s.subclass i,
  reaches_trans s.subclass r.class o c,
  subst (λ x. reaches s.subclass r.class x ≡ true) e (reaches_row s.subclass r i),
  ==_iff r.id o,
)

-- A class that becomes a subclass of itself, or of a class that it leads to, has then no other
-- superclass: it is cut off from all those that it had, also from the class of its rank.
pub class_relation-adding_subclass :
    (klass obj : String) (s : Store) (c o : Obj)
    → (obj_info klass s.objects ≡ some c) × (obj_info obj s.objects ≡ some o)
    → ((o.rank == 0) ≡ false) × ((c.rank == o.rank) ≡ true)
    → reaches s.subclass o.id c.id ≡ true
    → ((class_relation adding_subclass klass obj s).0 ≡ 204)
      × ((r : Rel)
          → In r (class_relation adding_subclass klass obj s).1.subclass
          → r.id ≡ o.id
          → r.class ≡ c.id)
unfolding class_relation add_subclass
class_relation-adding_subclass klass obj s c o (ec, eo) (z, same) h =
    let kept : List Rel = filter (λ q. not (is_above s c.id o.id q)) s.subclass in
    let added : add_subclass s c o ≡ some (204, record s { subclass = class_add c.id o.id kept }) =
      rw (z, same) refl in
    let done : class_relation adding_subclass klass obj s
        ≡ (204, record s { subclass = class_add c.id o.id kept }) =
      rw (class_relation, ec, eo) (rw added refl) in
    (
      ap (λ (x : ℕ × Store). x.0) done,
      λ r i e.
          elim (In-class_add r c.id o.id kept
            (subst (λ (x : ℕ × Store). In r x.1.subclass) done i)) [
              | inl k ↦
                  let row : In r s.subclass × (not (is_above s c.id o.id r) ≡ true) =
                    (In-filter r (λ q. not (is_above s c.id o.id q)) s.subclass).0 k in
                  let above : is_above s c.id o.id r ≡ true =
                    is_above_lem s c.id o.id r row.0 e h in
                  ground arith
              | inr k ↦ k
            ],
    )
