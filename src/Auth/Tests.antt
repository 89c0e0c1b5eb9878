-- ===== src/Auth/Tests.antt =====
-- Runs of the authorisation service, and its theorems at concrete inputs.
use amrc_connectivity_stack.Prelude.{
  ◌≡◌, ◌⊎◌, ◌↔◌, refl, Bool, true, false, List, [], ◌∷◌, none, some, String, arith, In, ◌==◌,
  string_eq,
}
use amrc_connectivity_stack.Auth.Uuids
use amrc_connectivity_stack.Auth.Validate.{valid_uuid}
use amrc_connectivity_stack.Auth.Acl.{
  Entry, acl_for, accept_princ, expand_permission, expand_target, expand, field, with_field,
  members_of, to_entry, keys,
}
use amrc_connectivity_stack.Auth.Acl.Granted.{Granted, acl_for-Granted}
use amrc_connectivity_stack.Auth.Permitted.{
  DataFlow, Identity, permitted, ask, targets, resolve_principal, find_kerberos, token,
}
use amrc_connectivity_stack.Auth.Permitted.Decision.{Holds, permitted_iff}
use amrc_connectivity_stack.Auth.Identities.{Cond}
use amrc_connectivity_stack.Auth.Store.{
  Store, Ace, Given, GrantRequest, reply, grant_request, run_grant, grant_new, grant_find,
  grant_update, grant_delete, change_grant, grant_resolve_uuids, uuid_find, find_row, has_uuid,
  insert_grant, delete_row, update_row, clashes,
}
use amrc_connectivity_stack.Auth.Store.Keeps.{IsValid, grant_request-IsValid}
use amrc_connectivity_stack.Auth.Store.Frame.{of_permission, grant_request-frame}
use amrc_connectivity_stack.Auth.Api.{
  send_acl, send_uuids, get_acl, get_acl_of, send_allowed, grant_list, allowed_uuids, grant_put,
}
use amrc_connectivity_stack.Auth.Api.Grants.{grant_put-frame}

-- All that a check of a permission runs through.
checks : Unit {0}
unfolding permitted token targets resolve_principal find_kerberos valid_uuid acl_for accept_princ
    expand_permission expand_target expand field with_field members_of to_entry keys
checks = tt

abbrev me : String
me = "11614546-b6d7-11ef-aebd-8fbb45451d7c"

abbrev upn : String
upn = "alice@REALM"

abbrev alice : Identity
alice = record { uuid = me; kind = "kerberos"; name = upn }

-- A group of which Alice is a member may write the access control entries of permission "p1", and
-- read its own entries.
abbrev world : DataFlow
world = record {
  root = "root@REALM";
  identities = alice ∷ [];
  grants =
      record {
        uuid = "g1";
        principal = "staff";
        permission = Uuids.Perm.write_acl;
        target = "p1";
        plural = false;
      }
      ∷ record {
        uuid = "g2";
        principal = "staff";
        permission = Uuids.Perm.read_acl;
        target = Uuids.Special.self;
        plural = false;
      }
      ∷ record {
        uuid = "g3";
        principal = me;
        permission = "all";
        target = Uuids.Special.mine;
        plural = true;
      }
      ∷ [];
  groups = record {
    princ = me ∷ [];
    princ_grp = ("staff", me ∷ []) ∷ ("other", []) ∷ [];
    perm = Uuids.Perm.write_acl ∷ Uuids.Perm.read_acl ∷ [];
    perm_grp = ("all", "p1" ∷ "p2" ∷ []) ∷ [];
    targ_grp = [];
  };
  owned = (me, "device" ∷ []) ∷ [];
}

abbrev acl : List Entry
acl =
    record { permission = Uuids.Perm.write_acl; target = "p1" }
    ∷ record { permission = Uuids.Perm.read_acl; target = me }
    ∷ record { permission = "p1"; target = "device" }
    ∷ record { permission = "p2"; target = "device" }
    ∷ []

acl_of_me : acl_for world.groups world.grants world.owned me ≡ some acl
unfolding checks
acl_of_me = refl

acl_for-Granted_example :
    In (record { permission = "p2"; target = "device" }) acl
    ↔ Granted world.groups world.owned me world.grants
        (record { permission = "p2"; target = "device" })
acl_for-Granted_example =
    acl_for-Granted world.groups world.owned me world.grants acl
      (record { permission = "p2"; target = "device" }) acl_of_me

abbrev registered : List (String × String)
registered = ("device", me) ∷ ("orphan", Uuids.Special.unowned) ∷ []

check_tests :
    (ask (permitted world upn Uuids.Perm.write_acl true) "p1" ≡ true)
    × (ask (permitted world upn Uuids.Perm.write_acl true) "p2" ≡ false)
    × (ask (permitted world "root@REALM" Uuids.Perm.write_acl true) "p2" ≡ true)
unfolding checks
check_tests = (refl, refl, refl)

permitted_iff_example : (ask (permitted world upn Uuids.Perm.write_acl true) "p1" ≡ true) ↔ (
    (upn ≡ world.root)
    ⊎ Holds world upn Uuids.Perm.write_acl "p1"
    ⊎ ((true ≡ true) × Holds world upn Uuids.Perm.write_acl Uuids.Special.wildcard))
permitted_iff_example = permitted_iff world upn Uuids.Perm.write_acl "p1" true

abbrev by_kind : Cond
by_kind = record { uuid = none; kind = some "kerberos"; name = none }

abbrev row : Ace
row = record {
  id = 100;
  uuid = "g1";
  principal = "staff";
  permission = "p1";
  target = "t";
  plural = false;
}

abbrev store : Store
store = record { uuids = []; aces = row ∷ []; next_id = 101 }

store-IsValid : IsValid store
store-IsValid = record {
  rows = record { ids = (tt, tt); uuids = (tt, tt); keys = (tt, tt) };
  below = omega arith;
}

abbrev given_p2 : Given
given_p2 = record { principal = "staff"; permission = "p2"; target = "t"; plural = false }

-- A client that may write "p2" and not "p1".
abbrev may_write_p2 : String → Bool
may_write_p2 p = p == "p2"

abbrev take_over : GrantRequest
take_over = record { uuid = some "g1"; grant = some given_p2; permitted = some may_write_p2 }

requests : Unit {0}
unfolding grant_request run_grant grant_new grant_find grant_update grant_delete change_grant
    grant_resolve_uuids uuid_find find_row has_uuid insert_grant delete_row update_row clashes
requests = tt

request_tests :
    ((grant_request "g2" take_over store).0 ≡ reply 403 none)
    × ((grant_request "g2"
          (record { uuid = none; grant = some given_p2; permitted = some may_write_p2 })
          store).0
        ≡ reply 201 (some "g2"))
    × ((grant_request "g2"
          (record { uuid = some "g1"; grant = some given_p2; permitted = some (λ _. true) })
          store).0
        ≡ reply 204 none)
unfolding requests
request_tests = (refl, refl, refl)

grant_request-IsValid_example : IsValid (grant_request "g2" take_over store).1
grant_request-IsValid_example = grant_request-IsValid "g2" take_over store store-IsValid

grant_request-frame_example :
    of_permission "p1" (grant_request "g2" take_over store).1.aces ≡ of_permission "p1" store.aces
grant_request-frame_example =
    grant_request-frame "p1" may_write_p2 refl "g2" (some "g1") (some given_p2) store store-IsValid

sent_acl : get_acl world world.root me ≡ send_acl acl
unfolding checks get_acl get_acl_of send_allowed
sent_acl = refl

abbrev g2 : String
g2 = "g2"

abbrev listed : List String
listed = "g1" ∷ g2 ∷ "g3" ∷ []

sent_grants : grant_list world world.root ≡ send_uuids listed
unfolding checks grant_list allowed_uuids
sent_grants = refl

not_p2 : ask (permitted world upn Uuids.Perm.write_acl true) "p2" ≡ false
unfolding checks
not_p2 = refl

grant_put-frame_example :
    of_permission "p2" (grant_put world upn me none store).1.aces ≡ of_permission "p2" store.aces
grant_put-frame_example = grant_put-frame world upn me "p2" none store store-IsValid not_p2
