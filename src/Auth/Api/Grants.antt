-- ===== src/Auth/Api/Grants.antt =====
-- What a client may read and write of grants.
use mathlib.Core.List.{map}
use mathlib.Core.Path.{subst}
use amrc_connectivity_stack.Prelude.{
  ◌≡◌, ◌⊎◌, ◌↔◌, inl, inr, refl, ap, true, false, List, Option, none, some, String, ◌==◌, string_eq,
  In, In-filter, In-map, Bool-cases, Option-cases,
}
use amrc_connectivity_stack.Auth.Uuids
use amrc_connectivity_stack.Auth.Validate.{valid_uuid, valid_grant, GrantBody}
use amrc_connectivity_stack.Auth.Acl.{Grant}
use amrc_connectivity_stack.Auth.Permitted.{DataFlow, permitted, ask, Token}
use amrc_connectivity_stack.Auth.Store.{
  Store, Given, missing, not_callable, grant_request, run_grant, grant_find, find_row,
}
use amrc_connectivity_stack.Auth.Store.Keeps.{IsValid}
use amrc_connectivity_stack.Auth.Store.Frame.{of_permission, grant_request-frame}
use amrc_connectivity_stack.Auth.Api.{
  send_uuids, allowed_uuids, grant_list, grant_put, post_grant, body_given, body_valid,
  given_of_body,
}

send_uuids_inj : (es fs : List String) → send_uuids es ≡ send_uuids fs → es ≡ fs
send_uuids_inj es fs h = cc

allowed_uuids_iff :
    (t : Token) (grants : List Grant) (us : List String) (u : String)
    → allowed_uuids t grants ≡ send_uuids us
    → In u us ↔ (((g : Grant) × In g grants × (u ≡ g.uuid)) × (ask t u ≡ true))
unfolding allowed_uuids
allowed_uuids_iff none grants us u h = cc
allowed_uuids_iff (some f) grants us u h =
    let a = In-filter u f (map (λ (g : Grant). g.uuid) grants) in
    let b = In-map u (λ (g : Grant). g.uuid) grants in
    subst (λ l. In u l ↔ (((g : Grant) × In g grants × (u ≡ g.uuid)) × (f u ≡ true)))
      (send_uuids_inj _ _ h) (λ i. (b.0 (a.0 i).0, (a.0 i).1), λ (g, y). a.1 (b.1 g, y))

-- The list of grants asks for `WriteACL` on the UUID of each grant, and not on its permission as
-- `grant_get` does: a grant is listed exactly if the check passes for its own UUID.
grant_list_iff :
    (d : DataFlow) (auth : String) (us : List String) (u : String)
    → grant_list d auth ≡ send_uuids us
    → In u us ↔ (
        ((g : Grant) × In g d.grants × (u ≡ g.uuid))
        × (ask (permitted d auth Uuids.Perm.write_acl true) u ≡ true))
unfolding grant_list
grant_list_iff d auth us u h = allowed_uuids_iff _ d.grants us u h

find_no_token :
    (u : String) (s : Store)
    → (grant_find u none s ≡ missing) ⊎ (grant_find u none s ≡ not_callable)
unfolding grant_find
find_no_token u s = elim (Option-cases (find_row (λ a. a.uuid == u) s.aces)) [
  | inl e ↦ inl (rw (e, grant_find))
  | inr (a, e) ↦ inr (rw (e, grant_find))
]

-- A request with no token changes no row.
no_token :
    (fresh : String) (uuid : Option String) (o : Option Given) (s : Store)
    → (grant_request fresh (record { uuid = uuid; grant = o; permitted = none }) s).1 ≡ s
unfolding grant_request run_grant
no_token fresh uuid (some g) s = refl
no_token fresh none none s = refl
no_token fresh (some u) none s = elim (find_no_token u s) [
  | inl e ↦ rw (e, grant_request, run_grant)
  | inr e ↦ rw (e, grant_request, run_grant)
]

request-frame :
    (t : Token) (p fresh : String) (uuid : Option String) (o : Option Given) (s : Store)
    → IsValid s
    → ask t p ≡ false
    → of_permission p
        (grant_request fresh (record { uuid = uuid; grant = o; permitted = t }) s).1.aces
      ≡ of_permission p s.aces
request-frame none p fresh uuid o s v n =
    ap (λ (s : Store). of_permission p s.aces) (no_token fresh uuid o s)
request-frame (some f) p fresh uuid o s v n = grant_request-frame p f n fresh uuid o s v

-- Through the API too, a client that does not hold `WriteACL` on a permission leaves every grant of
-- that permission as it was, whatever it puts or deletes.
pub grant_put-frame :
    (d : DataFlow) (auth uuid p : String) (body : Option GrantBody) (s : Store)
    → IsValid s
    → ask (permitted d auth Uuids.Perm.write_acl true) p ≡ false
    → of_permission p (grant_put d auth uuid body s).1.aces ≡ of_permission p s.aces
unfolding grant_put
grant_put-frame d auth uuid p body s v n = elim (Bool-cases (valid_uuid uuid)) [
  | inr e ↦ rw e
  | inl e ↦ elim (Bool-cases (body_valid body)) [
    | inr f ↦ rw (e, f)
    | inl f ↦ rw (e, f) (request-frame _ p "" (some uuid) (body_given body) s v n)
  ]
]

-- The same of a new grant.
pub post_grant-frame :
    (d : DataFlow) (auth p fresh : String) (body : GrantBody) (s : Store)
    → IsValid s
    → ask (permitted d auth Uuids.Perm.write_acl true) p ≡ false
    → of_permission p (post_grant d auth body fresh s).1.aces ≡ of_permission p s.aces
unfolding post_grant
post_grant-frame d auth p fresh body s v n = elim (Bool-cases (valid_grant body)) [
  | inr e ↦ rw e
  | inl e ↦ rw e (request-frame _ p fresh none (given_of_body body) s v n)
]
