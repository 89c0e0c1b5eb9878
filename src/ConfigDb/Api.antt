-- ===== src/ConfigDb/Api.antt =====
-- The HTTP handlers of configs (acs-configdb/lib/api-v2.js, `config_get` to `config_patch`).
pub mod Access
use amrc_connectivity_stack.Prelude.{
  ℕ, ◌≡◌, refl, String, Bool, true, false, not, ◌&&◌, ◌||◌, List, [], ◌∷◌, ◌++◌, Option, none, some,
  if◌then◌else◌, ◌==◌, nat_eq, string_eq, StrictEq,
}
use amrc_connectivity_stack.Text.{Text, codes}
use amrc_connectivity_stack.Auth.Validate.{valid_uuid}
use amrc_connectivity_stack.ConfigDb.Etags.{quoted, check_match_headers}
use amrc_connectivity_stack.ConfigDb.Configs.{Model, Outside, Check, config_get}
use amrc_connectivity_stack.ConfigDb.Configs.Transactions.{
  config_put, config_delete, config_merge_patch,
}

abbrev pub read_app : String
read_app = "4a339562-cd57-408d-9d1a-6529a383ea4b"

abbrev pub write_app : String
write_app = "6c799ccb-d2ad-4715-a2a7-3c8728d6c0bf"

-- What the handlers read of a request; `acl` is `check_acl` for its client, wildcards included, and
-- the content type is that of the parsed header.
pub record Request : Type 0 where
  pub acl : String → String → Bool
  pub app : String
  pub object : String
  pub if_match : Option Text
  pub if_none_match : Option Text
  pub content_type : String

pub record Reply (J : Type 0) : Type 0 where
  pub status : ℕ
  pub etag : Option Text
  pub body : Option J

-- `Valid.uuid` is the regular expression of the authorisation service.
abbrev pub is_bad : Request → Bool
is_bad req = not (valid_uuid req.app) || not (valid_uuid req.object)

-- `etags.checker`
abbrev pub checker : Request → Check
checker req = check_match_headers req.if_match req.if_none_match

module _ {J : Type 0} where
  abbrev pub ends : ℕ → Reply J
  ends st = record { status = st; etag = none; body = none }

  abbrev entry_etag : Option (J × Text) → Option Text
  entry_etag none = none
  entry_etag (some (j, t)) = some t

  abbrev header_etag : Option (J × Text) → Option Text
  header_etag none = none
  header_etag (some (j, t)) = some (quoted t)

  abbrev found_reply : Option (J × Text) → Reply J
  found_reply none = ends 404
  found_reply (some (j, t)) = record { status = 200; etag = some (quoted t); body = some j }

  -- A failed precondition of a read is 304.
  abbrev checked_reply : Option (J × Text) → Option ℕ → Reply J
  checked_reply entry none = found_reply entry
  checked_reply entry (some st) =
      if st == 412 then record { status = 304; etag = header_etag entry; body = none } else ends st

  unfoldable pub get_handler : Request → Model J → Reply J
  get_handler req m =
      if is_bad req
      then ends 410
      else if not (req.acl read_app req.app)
      then ends 403
      else let entry = config_get req.app req.object m in
        checked_reply entry (checker req (entry_etag entry))

module _ {J : Type 0} ⦃e : StrictEq J⦄ where
  unfoldable pub put_handler : Outside J → Request → J → Model J → Option ℕ × Model J
  put_handler out req j m =
      if is_bad req
      then (some 410, m)
      else if not (req.acl write_app req.app)
      then (some 403, m)
      else config_put out req.app req.object j (some (checker req)) m

  unfoldable pub delete_handler : Request → Model J → ℕ × Model J
  delete_handler req m =
      if is_bad req
      then (410, m)
      else if not (req.acl write_app req.app)
      then (403, m)
      else config_delete req.app req.object (some (checker req)) m

  abbrev created_as_204 : Option ℕ × Model J → Option ℕ × Model J
  created_as_204 (none, m) = (none, m)
  created_as_204 (some st, m) = (some (if st == 201 then 204 else st), m)

  unfoldable pub patch_handler : Outside J → Request → J → Model J → Option ℕ × Model J
  patch_handler out req patch m =
      if is_bad req
      then (some 410, m)
      else if not (req.content_type == "application/merge-patch+json")
      then (some 415, m)
      else if not (req.acl read_app req.app && req.acl write_app req.app)
      then (some 403, m)
      else created_as_204 (config_merge_patch out req.app req.object patch (some (checker req)) m)
