-- ===== src/ConfigDb/Objects/Membership.antt =====
-- When an object may leave a class (acs-configdb/lib/model.js, `class_remove_member`).
use amrc_connectivity_stack.Prelude.{
  ℕ, ◌≡◌, ◌≢◌, refl, sym, ◌∙◌, ap, subst, ◌⊎◌, inl, inr, ◌↔◌, String, Bool, true, false, not, ◌&&◌,
  List, [], ◌∷◌, none, some, if◌then◌else◌, ◌==◌, nat_eq, string_eq, option_eq, filter, In,
  In-filter, Bool-cases, ==_iff, arith,
}
use amrc_connectivity_stack.ConfigDb.Objects.{Obj, Rel, Store, obj_info, is_row, class_remove}
use amrc_connectivity_stack.ConfigDb.Objects.Views.{
  reaches, names_class, is_class, all_subclass, member_below, all_membership, Chain, reaches_iff,
}
use amrc_connectivity_stack.ConfigDb.Objects.Cycles.{names_class-of_In}
use amrc_connectivity_stack.ConfigDb.Objects.Relations.{
  Outcome, removing_member, in_primary, remove_member, class_relation,
}

-- A chain that is more than a start begins at a class of a row.
names_class-of_Chain :
    (rs : List Rel) (a b : ℕ) → Chain rs a b → (a ≡ b) ⊎ (names_class a rs ≡ true)
names_class-of_Chain rs a _ Chain.start = inl refl
names_class-of_Chain rs a b (Chain.down _ r w i e) = elim (names_class-of_Chain rs a r.class w) [
  | inl q ↦ inr (subst (λ x. names_class x rs ≡ true) (sym q) (names_class-of_In r rs i))
  | inr n ↦ inr n
]

module _ (s : Store) (c o : ℕ) where
  -- A row of the object whose class is reached.
  abbrev pub Below : List Rel → Type 0
  Below rs = (r : Rel) × (In r rs × ((r.id ≡ o) × Chain s.subclass c r.class))

  all_subclass-Chain : (b : ℕ) → all_subclass s c b ≡ true → Chain s.subclass c b
  unfolding all_subclass
  all_subclass-Chain b h = (reaches_iff s.subclass c b).0 (ground arith)

  member_below-Below : (rs : List Rel) → member_below s c o rs ≡ true → Below rs
  unfolding member_below
  member_below-Below [] h = cc
  member_below-Below (r ∷ rs) h = elim (Bool-cases (r.id == o && all_subclass s c r.class)) [
    | inl t ↦
        let both : ((r.id == o) ≡ true) × (all_subclass s c r.class ≡ true) = ground arith in
        (r, (inl refl, ((==_iff r.id o).0 both.0, all_subclass-Chain r.class both.1)))
    | inr f ↦ let (q, (i, w)) = member_below-Below rs (ground arith) in (q, (inr i, w))
  ]

  Below-member_below :
      (rs : List Rel) (r : Rel)
      → In r rs
      → r.id ≡ o
      → all_subclass s c r.class ≡ true
      → member_below s c o rs ≡ true
  unfolding member_below
  Below-member_below [] r i e h = absurd i
  Below-member_below (q ∷ rs) r (inl e') e h = rw (← e') (ground (arith, ==_iff r.id o))
  Below-member_below (q ∷ rs) r (inr i) e h = ground (arith, Below-member_below rs r i e h)

  Chain-all_subclass :
      (r : Rel) → In r s.membership → Chain s.subclass c r.class → all_subclass s c r.class ≡ true
  unfolding all_subclass is_class
  Chain-all_subclass r i w =
      let p : reaches s.subclass c r.class ≡ true = (reaches_iff s.subclass c r.class).1 w in
      elim (names_class-of_Chain s.subclass c r.class w) [
        | inl e ↦
            let n : names_class c s.membership ≡ true =
              subst (λ x. names_class x s.membership ≡ true) (sym e)
                (names_class-of_In r s.membership i) in
            ground (arith, n, p)
        | inr n ↦ ground (arith, n, p)
      ]

  all_membership_iff : (all_membership s c o ≡ true) ↔ Below s.membership
  unfolding all_membership
  all_membership_iff = (
    member_below-Below s.membership,
    λ (r, (i, (e, w))). Below-member_below s.membership r i e (Chain-all_subclass r i w),
  )

abbrev removed : Store → Bool → Outcome
removed t b = if b then some (204, t) else none

abbrev answer_of : Bool → ℕ
answer_of b = if b then 204 else 409

removal_status :
    (s t : Store) (b : Bool)
    → (elim (removed t b) as (λ _. ℕ × Store) [ none ↦ (409, s) | some r ↦ r ]).0 ≡ answer_of b
removal_status s t true = refl
removal_status s t false = refl

status_true : (b : Bool) → answer_of b ≡ 204 → b ≡ true
status_true true h = refl
status_true false h = absurd (omega arith)

-- `class_remove_member` of an object that has a class answers 204 exactly when the object is a member of
-- another class than the one named, to which its own class leads through rows of subclass.
pub class_relation-removing_member :
    (klass obj : String) (s : Store) (c o : Obj) (k : ℕ)
    → (obj_info klass s.objects ≡ some c) × (obj_info obj s.objects ≡ some o)
    → o.class ≡ some k
    → ((class_relation removing_member klass obj s).0 ≡ 204)
      ↔ (r : Rel) × (In r s.membership
          × ((r.id ≡ o.id) × ((r.class ≢ c.id) × Chain s.subclass k r.class)))
unfolding class_relation remove_member class_remove
class_relation-removing_member klass obj s c o k (ec, eo) ek =
    let t : Store = record s { membership = filter (λ r. not (is_row c.id o.id r)) s.membership } in
    let b : in_primary o t ≡ all_membership t k o.id =
      ap (λ q. elim q as (λ _. Bool) [ none ↦ false | some k ↦ all_membership t k o.id ]) ek in
    let answer : (class_relation removing_member klass obj s).0
        ≡ answer_of (all_membership t k o.id) =
      rw (class_relation, ec, eo)
        (rw (remove_member, b) (removal_status s t (all_membership t k o.id))) in
    (
      λ h.
          let m : all_membership t k o.id ≡ true =
            status_true (all_membership t k o.id) (sym answer ∙ h) in
          let (r, (i, (e, w))) = (all_membership_iff t k o.id).0 m in
          let (j, n) = (In-filter r (λ r. not (is_row c.id o.id r)) s.membership).0 i in
          (
            r,
            (
              j,
              (
                e,
                (λ q. absurd (ground (arith, n, q, e, ==_iff r.class c.id, ==_iff r.id o.id)), w),
              ),
            ),
          ),
      λ (r, (j, (e, (n, w)))).
          let q : not (is_row c.id o.id r) ≡ true = ground (arith, n, ==_iff r.class c.id) in
          let i = (In-filter r (λ r. not (is_row c.id o.id r)) s.membership).1 (j, q) in
          answer ∙ ap answer_of ((all_membership_iff t k o.id).1 (r, (i, (e, w)))),
    )
