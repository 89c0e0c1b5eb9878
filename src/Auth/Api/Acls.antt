-- ===== src/Auth/Api/Acls.antt =====
-- What a client may read of access control lists.
use mathlib.Core.Path.{subst}
use amrc_connectivity_stack.Prelude.{
  ◌≡◌, ◌↔◌, inl, inr, true, List, none, some, String, string_eq, In, In-filter, Bool-cases,
  Option-cases,
}
use amrc_connectivity_stack.Auth.Uuids
use amrc_connectivity_stack.Auth.Validate.{valid_uuid}
use amrc_connectivity_stack.Auth.Acl.{Entry, acl_for}
use amrc_connectivity_stack.Auth.Acl.Granted.{Granted, acl_for-Granted}
use amrc_connectivity_stack.Auth.Permitted.{DataFlow, permitted, ask, Token}
use amrc_connectivity_stack.Auth.Api.{send_acl, send_allowed, get_acl_of, get_acl}

send_acl_inj : (es fs : List Entry) → send_acl es ≡ send_acl fs → es ≡ fs
send_acl_inj es fs h = cc

send_allowed_sound :
    (t : Token) (acl es : List Entry) (e : Entry)
    → send_allowed t acl ≡ send_acl es
    → In e es ↔ (In e acl × (ask t e.permission ≡ true))
unfolding send_allowed
send_allowed_sound none acl es e h = cc
send_allowed_sound (some f) acl es e h =
    subst (λ l. In e l ↔ (In e acl × (f e.permission ≡ true))) (send_acl_inj _ _ h)
      (In-filter e (λ e. f e.permission) acl)

-- The list that is sent holds exactly the entries that the principal is granted and whose
-- permission the client may read.
get_acl_iff :
    (d : DataFlow) (auth principal : String) (es : List Entry) (e : Entry)
    → get_acl d auth principal ≡ send_acl es
    → In e es ↔ (
        Granted d.groups d.owned principal d.grants e
        × (ask (permitted d auth Uuids.Perm.read_acl true) e.permission ≡ true))
unfolding get_acl get_acl_of
get_acl_iff d auth principal es e h = elim (Bool-cases (valid_uuid principal)) [
  | inl y ↦ of_list (rw y at h)
  | inr n ↦ cc (rw n at h)
]
  where
    of_list :
        get_acl_of d auth principal ≡ send_acl es
        → In e es ↔ (
            Granted d.groups d.owned principal d.grants e
            × (ask (permitted d auth Uuids.Perm.read_acl true) e.permission ≡ true))
    of_list h = elim (Option-cases (acl_for d.groups d.grants d.owned principal)) [
      | inl n ↦ cc (rw (n, get_acl_of) at h)
      | inr (acl, s) ↦
          let a = acl_for-Granted d.groups d.owned principal d.grants acl e s in
          let b = send_allowed_sound _ acl es e (rw (s, get_acl_of) at h) in
          (λ i. let (j, k) = b.0 i in (a.0 j, k), λ (g, k). b.1 (a.1 g, k))
    ]
