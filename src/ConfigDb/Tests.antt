-- ===== src/ConfigDb/Tests.antt =====
-- Runs of the Config Store, and its theorems at concrete inputs.
mod Objects
use amrc_connectivity_stack.Prelude.{
  String, Bool, ℕ, ◌≡◌, ◌⊎◌, refl, true, not, [], ◌∷◌, none, some, ◌==◌, nat_eq, string_eq, list_eq,
  option_eq, if◌then◌else◌,
}
use amrc_connectivity_stack.Text.{Text, codes}
use amrc_connectivity_stack.Auth.Validate.{valid_uuid}
use amrc_connectivity_stack.ConfigDb.Etags.{
  quoted, parse_quoted, parse_etag, strong_compare, weak_compare, tokens, parse_all, parse_etags,
  trim, check_match, check_none_match, check_match_headers, split_commas,
}
use amrc_connectivity_stack.ConfigDb.Etags.Conditions.{check_match_headers-quoted}
use amrc_connectivity_stack.ConfigDb.Configs.{
  Model, Outside, get_special, obj_id, find_config, config_get, stored_schema, find_schema,
  special_validate, config_validate, schema_app,
}
use amrc_connectivity_stack.ConfigDb.Api.{
  Request, read_app, get_handler, put_handler, delete_handler, patch_handler,
}
use amrc_connectivity_stack.ConfigDb.Api.Access.{handlers_denied, read_with, get_handler-etag}
use amrc_connectivity_stack.ConfigDb.Configs.Transactions.{
  write_config, put_row, put_txn, config_put, delete_txn, config_delete, patch_txn,
  config_merge_patch,
}
use amrc_connectivity_stack.ConfigDb.Configs.Outcomes.{Outcome, config_put-Outcome}
use amrc_connectivity_stack.ConfigDb.Configs.Removals.{Leaves, Removes, config_delete-Removes}
use amrc_connectivity_stack.ConfigDb.Configs.Keys.{IsTable}
use amrc_connectivity_stack.ConfigDb.Configs.Invariant.{
  put_config, delete_config, serve_all, serve_all-IsTable,
}

abbrev app_id : String
app_id = "11111111-1111-4111-8111-111111111111"

abbrev thing_id : String
thing_id = "22222222-2222-4222-8222-222222222222"

-- JSON is a number; the schema n asks for at most n.
abbrev outside : Outside ℕ
outside = record {
  compiles = λ n. true;
  satisfies = λ s n. not (n == 9);
  merge = λ n p. p;
  is_truthy = λ n. true;
  is_plain_object = λ n. true;
  null_json = 0;
  registration = λ o n. 204;
  new_etag = codes "e2";
}

abbrev model : Model ℕ
model = record {
  objects =
      record { id = 16; uuid = schema_app }
      ∷ record { id = 20; uuid = app_id }
      ∷ record { id = 21; uuid = thing_id }
      ∷ [];
  configs = record { id = 1; app = 20; object = 21; json = 5; etag = codes "e1" } ∷ [];
  next_id = 2;
  schemas = [];
  updates = [];
}

checks : Unit {0}
unfolding parse_quoted parse_etag strong_compare weak_compare tokens parse_all parse_etags trim
    check_match check_none_match check_match_headers split_commas get_special obj_id find_config
    config_get stored_schema find_schema special_validate config_validate write_config put_row
    put_txn config_put delete_txn config_delete patch_txn config_merge_patch
checks =
    let t1 : parse_etag (codes "W/\"a\"")
        ≡ some (record { opaque = some (codes "a"); weak = true }) =
      refl in
    let t2 : check_match_headers (some (codes "\"x\" , \"e1\"")) none (some (codes "e1")) ≡ none =
      refl in
    let t3 : check_match_headers (some (codes "W/\"e1\"")) none (some (codes "e1")) ≡ some 412 =
      refl in
    let t4 : check_match_headers (some (codes "* ")) none (some (codes "e1")) ≡ some 400 = refl in
    let t5 : (config_put outside app_id thing_id 7 none model).0 ≡ some 204 = refl in
    let t6 : config_get app_id thing_id (config_put outside app_id thing_id 7 none model).1
        ≡ some (7, codes "e2") =
      refl in
    let t7 : (config_put outside app_id thing_id 5 none model).1.updates ≡ [] = refl in
    let t8 : (config_put outside schema_app app_id 3 none model).0 ≡ some 201 = refl in
    let t9 : (config_put outside app_id thing_id 9 none
          (config_put outside schema_app app_id 3 none model).1).0
        ≡ some 422 =
      refl in
    let t10 : (config_delete app_id thing_id none model).0 ≡ 204 = refl in
    let t11 : (config_merge_patch outside app_id app_id 6 none model).0 ≡ some 201 = refl in tt

abbrev e1 : Text
e1 = codes "e1"

check_match_headers-quoted_example :
    (check_match_headers (some (quoted e1)) none (some e1)
      ≡ (if some e1 == some e1 then none else some 412))
    × (check_match_headers none (some (quoted e1)) (some e1)
        ≡ (if some e1 == some e1 then some 412 else none))
check_match_headers-quoted_example = check_match_headers-quoted e1 (some e1) (refl, refl)

config_put-Outcome_example :
    Outcome app_id thing_id 7 none model (config_put outside app_id thing_id 7 none model)
config_put-Outcome_example =
    config_put-Outcome app_id thing_id 7 none model outside ((tt, tt), (tt, tt)) (λ t st e. cc)

config_delete-Removes_example :
    Leaves app_id thing_id none model (config_delete app_id thing_id none model)
    ⊎ Removes app_id thing_id none model (config_delete app_id thing_id none model)
config_delete-Removes_example =
    config_delete-Removes app_id thing_id none model ((tt, tt), (tt, tt)) (λ t st e. cc)

serve_all-IsTable_example : IsTable (
    serve_all
      (put_config outside app_id app_id 3 none ∷ delete_config app_id thing_id none ∷ [])
      model)
serve_all-IsTable_example =
    serve_all-IsTable
      (put_config outside app_id app_id 3 none ∷ delete_config app_id thing_id none ∷ []) model
      (((tt, tt), (tt, tt)), (refl, tt))

abbrev may_read : String → String → Bool
may_read perm target = perm == read_app

abbrev reader : Request
reader = read_with may_read app_id thing_id none

handlers_denied_example :
    ((put_handler outside reader 7 model).1 ≡ model)
    × ((delete_handler reader model).1 ≡ model)
    × ((patch_handler outside reader 7 model).1 ≡ model)
handlers_denied_example = handlers_denied outside reader 7 model refl

get_handler-etag_example :
    (get_handler reader model ≡ record { status = 200; etag = some (quoted e1); body = some 5 })
    × (get_handler (read_with may_read app_id thing_id (some (quoted e1))) model
        ≡ record { status = 304; etag = some (quoted e1); body = none })
unfolding obj_id find_config config_get
get_handler-etag_example =
    get_handler-etag may_read app_id thing_id model 5 e1 (unfold valid_uuid in refl) refl
      (refl, refl)
