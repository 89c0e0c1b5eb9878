-- ===== src/Auth/Acl/Granted.antt =====
-- What an access control list holds: a description of the permissions that grants give, which does
-- not follow the order of the code's passes, and the proof that the list is that.
use mathlib.Core.List.{map}
use mathlib.Core.Path.{subst}
use mathlib.Core.Option.{some-injective}
use amrc_connectivity_stack.Prelude.{
  ◌≡◌, ◌↔◌, inl, inr, refl, sym, ap, ◌∙◌, List, none, some, String, if◌then◌else◌, ◌==◌, string_eq,
  filter, has, flat_map, In, In-filter, In-map, In-flat_map, has_iff, Bool-cases,
}
use amrc_connectivity_stack.Auth.Uuids
use amrc_connectivity_stack.Auth.Acl.{
  Grant, Groups, Entry, accept_princ, expand_permission, expand_target, to_entry, acl_for,
}
use amrc_connectivity_stack.Auth.Acl.Expansion.{
  Map, Accepts, Permits, Targets, In-expand_permission, In-expand_target, In-accept_princ,
}

module _ (groups : Groups) (owned : Map) (principal : String) where
  -- Some grant gives the permission on the target, where "self" is the principal.
  pub record Granted (grants : List Grant) (entry : Entry) : Type 0 where
    pub grant : Grant
    pub listed : In grant grants
    pub accepted : Accepts groups principal grant.principal
    pub permits : Permits groups owned principal grant entry.permission
    pub target : String
    pub targets : Targets groups owned principal grant target
    pub resolved : entry.target ≡ (if target == Uuids.Special.self then principal else target)

  abbrev permitted_grants : List Grant → List Grant
  permitted_grants grants =
      flat_map (expand_permission groups owned principal)
        (filter (λ e. has e.principal (accept_princ groups principal)) grants)

  In-permitted_grants :
      (grants : List Grant) (e : Grant)
      → In e (permitted_grants grants) ↔ (
          (g : Grant) × In g grants
          × Accepts groups principal g.principal
          × ((perm : String) × Permits groups owned principal g perm
              × (e ≡ record g { permission = perm })))
  In-permitted_grants grants e =
      let step = expand_permission groups owned principal in
      let test = λ (g : Grant). has g.principal (accept_princ groups principal) in
      (
        λ h.
            let (g, i, k) = (In-flat_map e step (filter test grants)).0 h in
            let (l, y) = (In-filter g test grants).0 i in
            (
              g,
              l,
              (In-accept_princ groups owned principal g.principal).0
                  ((has_iff g.principal (accept_princ groups principal)).0 y),
              (In-expand_permission groups owned principal g e).0 k,
            ),
        λ (g, l, a, k). (In-flat_map e step (filter test grants)).1 (
          g,
          (In-filter g test grants).1 (
            l,
            (has_iff g.principal (accept_princ groups principal)).1
                ((In-accept_princ groups owned principal g.principal).1 a),
          ),
          (In-expand_permission groups owned principal g e).1 k,
        ),
      )

  abbrev acl_entries : List Grant → List Entry
  acl_entries grants =
      map (to_entry principal)
        (flat_map (expand_target groups owned principal) (permitted_grants grants))

  acl_entries_sound :
      (grants : List Grant) (entry : Entry) → In entry (acl_entries grants) → Granted grants entry
  unfolding to_entry
  acl_entries_sound grants entry h =
      let (e, i, p) = (In-map entry (to_entry principal) _).0 h in
      let (d, j, k) =
        (In-flat_map e (expand_target groups owned principal) (permitted_grants grants)).0 i in
      let (g, l, a, found) = (In-permitted_grants grants d).0 j in
      let (perm, pm, q) = found in
      let (targ, tg, r) = (In-expand_target groups owned principal d e).0 k in
      let same : entry.permission ≡ perm =
        ap (λ (x : Entry). x.permission) p
        ∙ ap (λ (x : Grant). x.permission) r
        ∙ ap (λ (x : Grant). x.permission) q in
      record {
        grant = g;
        listed = l;
        accepted = a;
        permits = subst (Permits groups owned principal g) (sym same) pm;
        target = targ;
        targets = subst (λ x. Targets groups owned principal x targ) q tg;
        resolved = ap (λ (x : Entry). x.target) p ∙ ap (λ x. (to_entry principal x).target) r;
      }

  acl_entries_complete :
      (grants : List Grant) (entry : Entry) → Granted grants entry → In entry (acl_entries grants)
  unfolding to_entry
  acl_entries_complete grants entry c =
      let d : Grant = record (c.grant) { permission = entry.permission } in
      let e : Grant = record d { target = c.target } in
      let from = permitted_grants grants in
      (In-map entry (to_entry principal) _).1 (
        e,
        (In-flat_map e (expand_target groups owned principal) from).1 (
          d,
          (In-permitted_grants grants d).1
              (c.grant, c.listed, c.accepted, (entry.permission, c.permits, refl)),
          (In-expand_target groups owned principal d e).1 (c.target, c.targets, refl),
        ),
        λ i. record { permission = entry.permission; target = c.resolved i },
      )

  -- The list of a known principal holds exactly the entries that some grant gives it: a grant to
  -- the principal or to a group that lists it, with a permission that the grant names or has in its
  -- group, on a target that the grant names or, if it is plural, has in its group, where "mine"
  -- stands for what the principal owns and "self" for the principal.
  pub acl_for-Granted :
      (grants : List Grant) (acl : List Entry) (entry : Entry)
      → acl_for groups grants owned principal ≡ some acl
      → In entry acl ↔ Granted grants entry
  unfolding acl_for
  acl_for-Granted grants acl entry e = elim (Bool-cases (has principal groups.princ)) [
    | inl y ↦
        let same : acl_entries grants ≡ acl = some-injective _ _ (rw y at e) in
        subst (λ l. In entry l ↔ Granted grants entry) same
          (acl_entries_sound grants entry, acl_entries_complete grants entry)
    | inr n ↦ cc (rw n at e)
  ]

  -- A principal that is not registered has no list, and a registered one has.
  pub acl_for-none_iff :
      (grants : List Grant)
      → (acl_for groups grants owned principal ≡ none) ↔ (¬ In principal groups.princ)
  unfolding acl_for
  acl_for-none_iff grants = elim (Bool-cases (has principal groups.princ)) [
    | inl y ↦ rw y (λ h. cc, λ h. absurd (h ((has_iff principal groups.princ).0 y)))
    | inr n ↦ rw n (λ h i. cc (n, (has_iff principal groups.princ).1 i), λ h. refl)
  ]
