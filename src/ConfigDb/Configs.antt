-- ===== src/ConfigDb/Configs.antt =====
-- The configs of the Config Store (acs-configdb/lib/model.js, `config_get` to `find_schema`, and
-- lib/special.js): the table `config`, the cache of schemas and the updates that are sent.
pub mod Transactions
pub mod Table
pub mod Writes
pub mod Outcomes
pub mod Removals
pub mod Keys
pub mod Invariant
use amrc_connectivity_stack.Prelude.{
  ℕ, suc, ◌≡◌, refl, String, Bool, true, false, not, ◌&&◌, List, [], ◌∷◌, ◌++◌, Option, none, some,
  if◌then◌else◌, ltb, leb, ◌==◌, nat_eq, string_eq, StrictEq, filter, lookup, put, remove,
}
use amrc_connectivity_stack.Text.{Text}

-- A row of the table `object`, as far as configs need it.
pub record Object : Type 0 where
  pub id : ℕ
  pub uuid : String

-- A row of the table `config`; app and object are ids.
pub record Row (J : Type 0) : Type 0 where
  pub id : ℕ
  pub app : ℕ
  pub object : ℕ
  pub json : J
  pub etag : Text

-- The events and updates that the model sends.
pub data Update (J : Type 0) : Type 0 where
  change : String → Update J
  config : String → String → Option J → Update J
  class_update : Update J

-- Compiled schemas are known by the JSON that they come from; `none` is a cached null.
pub record Model (J : Type 0) : Type 0 where
  pub objects : List Object
  pub configs : List (Row J)
  pub next_id : ℕ
  pub schemas : List (ℕ × Option J)
  pub updates : List (Update J)

-- The libraries on JSON: the schema compiler, merge patches, and JavaScript's view of a value; with
-- the status of `update_registration`, and the new etag that the database makes.
pub record Outside (J : Type 0) : Type 0 where
  pub compiles : J → Bool
  pub satisfies : J → J → Bool
  pub merge : J → J → J
  pub is_truthy : J → Bool
  pub is_plain_object : J → Bool
  pub null_json : J
  pub registration : ℕ → J → ℕ
  pub new_etag : Text

abbrev pub Check : Type 0
Check = Option Text → Option ℕ

-- `undefined` checks nothing.
abbrev pub run_check : Option Check → Check
run_check none t = none
run_check (some f) t = f t

pub data Special : Type 0 where
  no_special object_registration config_schema : Special

-- `App.Registration`, `App.ConfigSchema` and `ObjID.ConfigSchema`
abbrev pub registration_app : String
registration_app = "cb40bed5-49ad-4443-a7f5-08c75009da8f"

abbrev pub schema_app : String
schema_app = "dbd8a535-52ba-4f6e-b4f8-9b71aefe09d3"

abbrev pub schema_id : ℕ
schema_id = 16

unfoldable pub get_special : String → Special
get_special app =
    if app == registration_app
    then object_registration
    else if app == schema_app
    then config_schema
    else no_special

unfoldable pub obj_id : String → List Object → Option ℕ
obj_id u [] = none
obj_id u (o ∷ os) = if o.uuid == u then some o.id else obj_id u os

module _ {J : Type 0} where
  abbrev pub is_at : ℕ → ℕ → Row J → Bool
  is_at app object r = r.app == app && r.object == object

  -- `_config_get`
  unfoldable pub find_config : ℕ → ℕ → List (Row J) → Option (Row J)
  find_config app object [] = none
  find_config app object (r ∷ rows) =
      if is_at app object r then some r else find_config app object rows

  -- `config_get`
  unfoldable pub config_get : String → String → Model J → Option (J × Text)
  config_get app object m = elim (obj_id app m.objects) [
    | none ↦ none
    | some a ↦ elim (obj_id object m.objects) [
      | none ↦ none
      | some o ↦ elim (find_config a o m.configs) [ none ↦ none | some r ↦ some (r.json, r.etag) ]
    ]
  ]

  -- The schema that is stored for an app, null if there is none or it is falsy.
  unfoldable pub stored_schema : Outside J → ℕ → List (Row J) → Option J
  stored_schema out app rows = elim (find_config schema_id app rows) [
    | none ↦ none
    | some r ↦ if out.is_truthy r.json then some r.json else none
  ]

  -- The schema for an app, and the cache with it; a schema that does not compile is an exception,
  -- `none`.
  unfoldable pub find_schema : Outside J → ℕ → Model J → Option (Option J × Model J)
  find_schema out app m = elim (lookup app m.schemas) [
    | some s ↦ some (s, m)
    | none ↦ elim (stored_schema out app m.configs) [
      | none ↦ some (none, record m { schemas = put app none m.schemas })
      | some j ↦
          if out.compiles j
          then some (some j, record m { schemas = put app (some j) m.schemas })
          else none
    ]
  ]

  abbrev pub all_satisfy : Outside J → J → ℕ → List (Row J) → Bool
  all_satisfy out schema app [] = true
  all_satisfy out schema app (r ∷ rows) =
      let rest = all_satisfy out schema app rows in
      if r.app == app then out.satisfies schema r.json && rest else rest

  -- `SpecialApp.validate` of each kind.
  unfoldable pub special_validate : Outside J → Special → ℕ → J → Model J → ℕ × Model J
  special_validate out no_special object j m = (204, m)
  special_validate out object_registration object j m = (out.registration object j, m)
  special_validate out config_schema object j m =
      if out.compiles j
      then (if all_satisfy out j object m.configs
          then (204, record m { schemas = put object (some j) m.schemas })
          else (409, m))
      else (422, m)

  abbrev pub meets : Outside J → Option J → J → Bool
  meets out none j = true
  meets out (some s) j = out.satisfies s j

  abbrev pub capped : ℕ × Model J → ℕ × Model J
  capped (st, m) = (if ltb 299 st then st else 204, m)

  unfoldable pub config_validate : Outside J → Special → ℕ → ℕ → J → Model J → Option (ℕ × Model J)
  config_validate out special app object j m = elim (find_schema out app m) [
    | none ↦ none
    | some (schema, m') ↦
        if meets out schema j
        then some (capped (special_validate out special object j m'))
        else some (422, m')
  ]
