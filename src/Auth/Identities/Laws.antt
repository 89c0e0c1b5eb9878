-- ===== src/Auth/Identities/Laws.antt =====
-- What the lookups answer.
use amrc_connectivity_stack.Prelude.{
  ◌≡◌, ◌≢◌, ◌↔◌, inl, inr, refl, Bool, true, false, List, [], ◌∷◌, none, some, String, string_eq,
  filter, has, In, has_iff, Bool-cases,
}
use amrc_connectivity_stack.Rx.Response.{
  response, ok, filter_body, flat_map, kind_of, empty_response,
}
use amrc_connectivity_stack.Auth.Uuids
use amrc_connectivity_stack.Auth.Acl.Expansion.{In-holders}
use amrc_connectivity_stack.Auth.Validate.{valid_uuid}
use amrc_connectivity_stack.Auth.Permitted.{DataFlow, permitted, Token, is_given}
use amrc_connectivity_stack.Auth.Identities.{
  Cond, cannot_hold, fits, non_empty, track_identities, find_identities, groups_of, track_groups,
  find_groups,
}

non_empty_of_ne {ℓ} : {A : Type ℓ} (xs : List A) → xs ≢ [] → non_empty (some xs) ≡ true
non_empty_of_ne [] h = absurd (h refl)
non_empty_of_ne (x ∷ xs) h = refl

not_given : (t : Token) → is_given t ≡ false → t ≡ none
not_given none e = refl
not_given (some f) e = cc

given : (t : Token) → is_given t ≡ true → (f : String → Bool) × (t ≡ some f)
given none e = cc
given (some f) e = (f, refl)

not-has : (x : String) (xs : List String) → (¬ In x xs) → has x xs ≡ false
not-has x xs n = elim (Bool-cases (has x xs)) [
  | inl y ↦ absurd (n ((has_iff x xs).0 y))
  | inr f ↦ f
]

-- The four answers: 410 for a condition that cannot hold, 403 without the permission, 404 where no
-- identity fits, and else 200 with the identities that fit.
find_identities_cases :
    (d : DataFlow) (upn : String) (c : Cond)
    → let r = find_identities d upn c in
      let may_read = is_given (permitted d upn Uuids.Perm.read_krb false) in
      let fitting = filter (fits c) d.identities in
      (cannot_hold c ≡ true → r.status ≡ 410)
      × (cannot_hold c ≡ false → may_read ≡ false → r.status ≡ 403)
      × (cannot_hold c ≡ false → may_read ≡ true → fitting ≡ [] → r.status ≡ 404)
      × (cannot_hold c ≡ false
          → may_read ≡ true
          → fitting ≢ []
          → (r.status ≡ 200) × (r.body ≡ some fitting))
unfolding find_identities track_identities filter_body flat_map kind_of empty_response response ok
find_identities_cases d upn c = (
  λ e. rw e refl,
  λ e n. rw (e, n) refl,
  λ e y f. rw (e, y, f) refl,
  λ e y f. rw (e, y, non_empty_of_ne _ f) (refl, refl),
)

-- The answers about groups: 410 for a malformed UUID and for a principal that is not registered,
-- 403 without the permission, and else 200 with exactly the groups that list the principal.
find_groups_cases :
    (d : DataFlow) (upn principal : String)
    → let r = find_groups d upn principal in
      let may_read = is_given (permitted d upn Uuids.Perm.read_krb false) in
      (valid_uuid principal ≡ false → r.status ≡ 410)
      × (valid_uuid principal ≡ true → may_read ≡ false → r.status ≡ 403)
      × (valid_uuid principal ≡ true
          → may_read ≡ true
          → (¬ In principal d.groups.princ)
          → r.status ≡ 410)
      × (valid_uuid principal ≡ true
          → may_read ≡ true
          → In principal d.groups.princ
          → (r.status ≡ 200)
            × ((gs : List String) × (r.body ≡ some gs)
                × ((g : String)
                    → In g gs
                      ↔ ((ms : List String) × In (g, ms) d.groups.princ_grp × In principal ms))))
unfolding find_groups track_groups groups_of response ok
find_groups_cases d upn principal = (
  λ e. rw e,
  λ e n. rw (e, not_given (permitted d upn Uuids.Perm.read_krb false) n),
  λ e y n.
      let (f, s) = given (permitted d upn Uuids.Perm.read_krb false) y in
      rw (e, s, not-has principal d.groups.princ n),
  λ e y i.
      let (f, s) = given (permitted d upn Uuids.Perm.read_krb false) y in
      rw (e, s, (has_iff principal d.groups.princ).1 i)
        (refl, (_, refl, λ g. In-holders g principal d.groups.princ_grp)),
)
