-- ===== src/Auth/Permitted/Decision.antt =====
-- What a check of a permission decides.
use mathlib.Core.Option.{some-injective}
use mathlib.Core.Path.{subst}
use amrc_connectivity_stack.Prelude.{
  ◌≡◌, ◌⊎◌, ◌↔◌, inl, inr, refl, sym, Bool, true, ◌&&◌, List, [], ◌∷◌, Option, none, some, String,
  arith, ◌==◌, string_eq, filter, has, In, In-filter, In-map, has_iff, ==_iff, ==_self, Bool-cases,
  Option-cases,
}
use amrc_connectivity_stack.Auth.Uuids
use amrc_connectivity_stack.Auth.Acl.{Entry, acl_for}
use amrc_connectivity_stack.Auth.Acl.Granted.{Granted, acl_for-Granted, acl_for-none_iff}
use amrc_connectivity_stack.Auth.Permitted.{
  DataFlow, acl_of, entries, resolve_principal, targets, token, permitted, ask, is_given,
}

module _ (d : DataFlow) where
  -- The principal is registered, and some grant gives it the permission on the target.
  abbrev pub Holds : String → String → String → Type 0
  Holds input perm targ =
      (p : String) × (resolve_principal d input ≡ some p)
      × (In p d.groups.princ
          × Granted d.groups d.owned p d.grants (record { permission = perm; target = targ }))

  In-targets :
      (input perm targ : String)
      → In targ (targets d input perm)
        ↔ In (record { permission = perm; target = targ }) (acl_of d (resolve_principal d input))
  unfolding targets
  In-targets input perm targ =
      let acl = acl_of d (resolve_principal d input) in
      let test = λ (e : Entry). e.permission == perm in
      (
        λ h.
            let (e, i, p) = (In-map targ (λ (e : Entry). e.target) (filter test acl)).0 h in
            let (j, y) = (In-filter e test acl).0 i in
            let same : e ≡ record { permission = perm; target = targ } =
              λ k. record { permission = (==_iff e.permission perm).0 y k; target = sym p k } in
            subst (λ x. In x acl) same j,
        λ h. (In-map targ (λ (e : Entry). e.target) (filter test acl)).1 (
          record { permission = perm; target = targ },
          (In-filter (record { permission = perm; target = targ }) test acl).1 (h, ==_self perm),
          refl,
        ),
      )

  In-entries :
      (p : String) (e : Entry)
      → In e (entries (acl_for d.groups d.grants d.owned p))
        ↔ (In p d.groups.princ × Granted d.groups d.owned p d.grants e)
  In-entries p e =
      let none_iff = acl_for-none_iff d.groups d.owned p d.grants in
      elim (Option-cases (acl_for d.groups d.grants d.owned p)) [
        | inl n ↦ rw n (λ h. absurd h, λ (i, g). absurd (none_iff.0 n i))
        | inr (acl, s) ↦
            let iff = acl_for-Granted d.groups d.owned p d.grants acl e s in
            rw s (λ h. (registered acl s, iff.0 h), λ (i, g). iff.1 g)
      ]
    where
      registered :
          (acl : List Entry) → acl_for d.groups d.grants d.owned p ≡ some acl → In p d.groups.princ
      registered acl s = elim (Bool-cases (has p d.groups.princ)) [
        | inl y ↦ (has_iff p d.groups.princ).0 y
        | inr n ↦ cc (
          s,
          (acl_for-none_iff d.groups d.owned p d.grants).1
              (λ i. cc (n, (has_iff p d.groups.princ).1 i)),
        )
      ]

  In-acl_of :
      (o : Option String) (e : Entry)
      → In e (acl_of d o) ↔ (
          (p : String) × (o ≡ some p)
          × (In p d.groups.princ × Granted d.groups d.owned p d.grants e))
  In-acl_of none e = (λ h. absurd h, λ (p, q, r). cc q)
  In-acl_of (some p) e = (
    λ h. (p, refl, (In-entries p e).0 h),
    λ (q, same, r). (In-entries p e).1 (
        subst (λ x. In x d.groups.princ × Granted d.groups d.owned x d.grants e)
          (sym (some-injective p q same)) r),
  )

  In-targets-Holds :
      (input perm targ : String) → In targ (targets d input perm) ↔ Holds input perm targ
  In-targets-Holds input perm targ =
      let entry : Entry = record { permission = perm; target = targ } in
      let a = In-targets input perm targ in
      let b = In-acl_of (resolve_principal d input) entry in (λ h. b.0 (a.0 h), λ h. a.1 (b.1 h))

  ask-token :
      (wild : Bool) (ts : List String) (targ : String)
      → (ask (token wild ts) targ ≡ true)
        ↔ (In targ ts ⊎ ((wild ≡ true) × In Uuids.Special.wildcard ts))
  unfolding token
  ask-token wild [] targ = ground arith
  ask-token wild (t ∷ ts) targ =
      ground (arith, has_iff targ (t ∷ ts), has_iff Uuids.Special.wildcard (t ∷ ts))

  -- A check answers yes exactly when the client is the root principal, or holds the permission on
  -- the target, or, where wildcards count, on the wildcard.
  pub permitted_iff :
      (upn perm targ : String) (wild : Bool)
      → (ask (permitted d upn perm wild) targ ≡ true) ↔ (
          (upn ≡ d.root)
          ⊎ Holds upn perm targ
          ⊎ ((wild ≡ true) × Holds upn perm Uuids.Special.wildcard))
  unfolding permitted
  permitted_iff upn perm targ wild = ground (
    arith,
    ==_iff upn d.root,
    ask-token wild (targets d upn perm) targ,
    In-targets-Holds upn perm targ,
    In-targets-Holds upn perm Uuids.Special.wildcard,
  )

  given_targets :
      (wild : Bool) (ts : List String)
      → (is_given (token wild ts) ≡ true) ↔ ((t : String) × In t ts)
  unfolding token
  given_targets wild [] = (λ h. cc, λ (t, i). absurd i)
  given_targets wild (t ∷ ts) = elim (Bool-cases (wild && has Uuids.Special.wildcard (t ∷ ts))) [
    | inl y ↦ rw y (λ h. (t, inl refl), λ h. refl)
    | inr n ↦ rw n (λ h. (t, inl refl), λ h. refl)
  ]

  -- A check gives a token exactly to the root principal and to a client that holds the permission
  -- on some target, the wildcard or another.
  is_given-permitted :
      (upn perm : String) (wild : Bool)
      → (is_given (permitted d upn perm wild) ≡ true)
        ↔ ((upn ≡ d.root) ⊎ ((targ : String) × Holds upn perm targ))
  unfolding permitted
  is_given-permitted upn perm wild =
      let ts = targets d upn perm in
      elim (Bool-cases (upn == d.root)) [
        | inl y ↦ rw y (λ h. inl ((==_iff upn d.root).0 y), λ h. refl)
        | inr n ↦ rw n (
          λ h.
              let (t, i) = (given_targets wild ts).0 h in
              inr (t, (In-targets-Holds upn perm t).0 i),
          λ h. elim h [
            | inl e ↦ cc (n, (==_iff upn d.root).1 e)
            | inr (t, k) ↦ (given_targets wild ts).1 (t, (In-targets-Holds upn perm t).1 k)
          ],
        )
      ]
