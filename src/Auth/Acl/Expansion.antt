-- ===== src/Auth/Acl/Expansion.antt =====
-- Groups expanded: what the passes over grants produce, one pass at a time.
use mathlib.Core.Path.{subst}
use amrc_connectivity_stack.Prelude.{
  ◌≡◌, ◌≢◌, ◌⊎◌, ◌↔◌, inl, inr, refl, sym, ap, ◌∙◌, true, false, List, [], ◌∷◌, Option, none, some,
  String, ◌==◌, string_eq, filter, has, lookup, In, In-append, In-if, In-filter, In-map, has_iff,
  ==_iff, Bool-cases,
}
use amrc_connectivity_stack.Auth.Uuids
use amrc_connectivity_stack.Auth.Acl.{
  Grant, Groups, Key, permission_key, target_key, field, with_field, or_empty, members_of, expand,
  keys, accept_princ, expand_permission, expand_target,
}

abbrev pub Map : Type 0
Map = List (String × List String)

-- The grantee is the principal, or a group that lists it.
abbrev pub Accepts : Groups → String → String → Type 0
Accepts groups principal grantee =
    (grantee ≡ principal)
    ⊎ ((ms : List String) × In (grantee, ms) groups.princ_grp × In principal ms)

-- `m` is a member of the group `id`, where "mine" is what the principal owns.
abbrev pub Expands : String → Map → Map → String → String → Type 0
Expands principal owned grps id m =
    ((id ≡ Uuids.Special.mine)
      × ((ms : List String) × (lookup principal owned ≡ some ms) × In m ms))
    ⊎ ((id ≢ Uuids.Special.mine) × ((ms : List String) × (lookup id grps ≡ some ms) × In m ms))

In-or_empty :
    (m : String) (o : Option (List String))
    → In m (or_empty o) ↔ ((ms : List String) × (o ≡ some ms) × In m ms)
In-or_empty m none = (λ h. absurd h, λ (ms, e, h). cc e)
In-or_empty m (some ms) =
    (λ h. (ms, refl, h), λ (ns, e, h). subst (λ o. In m (or_empty o)) (sym e) h)

In-keys : (k : String) (m : Map) → In k (keys m) ↔ ((ms : List String) × In (k, ms) m)
unfolding keys
In-keys k [] = (λ h. absurd h, λ h. absurd h.1)
In-keys k ((j, ms) ∷ m) = (
  λ h. elim h [
    | inl e ↦ (ms, inl (λ i. (e i, ms)))
    | inr i ↦ let (ns, l) = (In-keys k m).0 i in (ns, inr l)
  ],
  λ (ns, h). elim h [
    | inl e ↦ inl (ap (λ (t : String × List String). t.0) e)
    | inr l ↦ inr ((In-keys k m).1 (ns, l))
  ],
)

-- The groups that list a principal.
pub In-holders :
    (g principal : String) (m : Map)
    → In g (keys (filter (λ (k, ms). has principal ms) m))
      ↔ ((ms : List String) × In (g, ms) m × In principal ms)
In-holders g principal m =
    let p = λ (entry : String × List String). has principal entry.1 in
    (
      λ i.
          let (ms, j) = (In-keys g (filter p m)).0 i in
          let (k, y) = (In-filter (g, ms) p m).0 j in (ms, k, (has_iff principal ms).0 y),
      λ (ms, k, i).
          (In-keys g (filter p m)).1
            (ms, (In-filter (g, ms) p m).1 (k, (has_iff principal ms).1 i)),
    )

module _ (groups : Groups) (owned : Map) (principal : String) where
  -- The permission of the grant, or one of a group of permissions.
  abbrev pub Permits : Grant → String → Type 0
  Permits g perm =
      (In g.permission groups.perm × (perm ≡ g.permission))
      ⊎ ((¬ In g.permission groups.perm)
          × Expands principal owned groups.perm_grp g.permission perm)

  -- The target of the grant, or for a plural grant a member of it.
  abbrev pub Targets : Grant → String → Type 0
  Targets g targ =
      ((g.plural ≡ false) × (targ ≡ g.target))
      ⊎ ((g.plural ≡ true) × Expands principal owned groups.targ_grp g.target targ)

  In-members_of :
      (grps : Map) (id m : String)
      → In m (members_of principal owned grps id) ↔ Expands principal owned grps id m
  unfolding members_of
  In-members_of grps id m = elim (Bool-cases (id == Uuids.Special.mine)) [
    | inl e ↦ rw e (
      λ h. inl ((==_iff id _).0 e, (In-or_empty m (lookup principal owned)).0 h),
      λ x. elim x [
        | inl a ↦ (In-or_empty m (lookup principal owned)).1 a.1
        | inr b ↦ absurd (b.0 ((==_iff id _).0 e))
      ],
    )
    | inr e ↦ rw e (
      λ h.
          inr
            (λ p. cc (e, (==_iff id Uuids.Special.mine).1 p), (In-or_empty m (lookup id grps)).0 h),
      λ x. elim x [
        | inl a ↦ cc (e, (==_iff id Uuids.Special.mine).1 a.0)
        | inr b ↦ (In-or_empty m (lookup id grps)).1 b.1
      ],
    )
  ]

  In-expand :
      (grps : Map) (g : Grant) (key : Key) (e : Grant)
      → In e (expand principal owned grps g key)
        ↔ ((m : String) × Expands principal owned grps (field g key) m × (e ≡ with_field g key m))
  unfolding expand
  In-expand grps g key e = (
    λ h.
        let (m, i, p) =
          (In-map e (λ m. with_field g key m) (members_of principal owned grps (field g key))).0
            h in
        (m, (In-members_of grps (field g key) m).0 i, p),
    λ (m, x, p).
        (In-map e (λ m. with_field g key m) _).1 (m, (In-members_of grps (field g key) m).1 x, p),
  )

  pub In-expand_permission :
      (g e : Grant)
      → In e (expand_permission groups owned principal g)
        ↔ ((perm : String) × Permits g perm × (e ≡ record g { permission = perm }))
  unfolding expand_permission
  In-expand_permission g e =
      let named = has g.permission groups.perm in
      let one = has_iff g.permission groups.perm in
      let many = expand principal owned groups.perm_grp g permission_key in
      (
        λ h. elim ((In-if e named (g ∷ []) many).0 h) [
          | inl (y, i) ↦ elim i [
            | inl p ↦ (g.permission, inl (one.0 y, refl), p)
            | inr z ↦ absurd z
          ]
          | inr (n, i) ↦
              let (m, x, p) = (In-expand groups.perm_grp g permission_key e).0 i in
              (m, inr (λ j. cc (n, one.1 j), x), p)
        ],
        λ (perm, pm, q). (In-if e named (g ∷ []) many).1 (elim pm [
          | inl (j, p) ↦ inl (one.1 j, inl (q ∙ ap (λ x. record g { permission = x }) p))
          | inr (n, x) ↦ elim (Bool-cases named) [
            | inl y ↦ absurd (n (one.0 y))
            | inr f ↦ inr (f, (In-expand groups.perm_grp g permission_key e).1 (perm, x, q))
          ]
        ]),
      )

  pub In-expand_target :
      (g e : Grant)
      → In e (expand_target groups owned principal g)
        ↔ ((targ : String) × Targets g targ × (e ≡ record g { target = targ }))
  unfolding expand_target
  In-expand_target g e =
      let many = expand principal owned groups.targ_grp g target_key in
      (
        λ h. elim ((In-if e g.plural many (g ∷ [])).0 h) [
          | inl (y, i) ↦
              let (m, x, p) = (In-expand groups.targ_grp g target_key e).0 i in (m, inr (y, x), p)
          | inr (n, i) ↦ elim i [ inl p ↦ (g.target, inl (n, refl), p) | inr z ↦ absurd z ]
        ],
        λ (targ, tg, q). (In-if e g.plural many (g ∷ [])).1 (elim tg [
          | inl (n, p) ↦ inr (n, inl (q ∙ ap (λ x. record g { target = x }) p))
          | inr (y, x) ↦ inl (y, (In-expand groups.targ_grp g target_key e).1 (targ, x, q))
        ]),
      )

  pub In-accept_princ :
      (grantee : String)
      → In grantee (accept_princ groups principal) ↔ Accepts groups principal grantee
  unfolding accept_princ
  In-accept_princ grantee =
      let holders = keys (filter (λ (k, ms). has principal ms) groups.princ_grp) in
      let iff = In-holders grantee principal groups.princ_grp in
      (
        λ h. elim ((In-append grantee holders (principal ∷ [])).0 h) [
          | inl i ↦ inr (iff.0 i)
          | inr i ↦ elim i [ inl e ↦ inl e | inr z ↦ absurd z ]
        ],
        λ h.
            (In-append grantee holders (principal ∷ [])).1
              (elim h [ inl e ↦ inr (inl e) | inr i ↦ inl (iff.1 i) ]),
      )
