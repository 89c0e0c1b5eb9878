-- ===== src/ConfigDb/Api/Access.antt =====
-- Access to configs over HTTP, and reads with an etag.
use amrc_connectivity_stack.Prelude.{
  ◌≡◌, refl, String, Bool, true, false, ◌&&◌, Option, none, some, arith, nat_eq, list_eq, option_eq,
  string_eq, StrictEq, ==_self,
}
use amrc_connectivity_stack.Text.{Text}
use amrc_connectivity_stack.Auth.Validate.{valid_uuid}
use amrc_connectivity_stack.ConfigDb.Etags.{
  quoted, check_match_headers, check_match, check_none_match, trim,
}
use amrc_connectivity_stack.ConfigDb.Etags.Conditions.{IsOpaque, check_match_headers-quoted}
use amrc_connectivity_stack.ConfigDb.Configs.{Model, Outside, config_get}
use amrc_connectivity_stack.ConfigDb.Api.{
  Request, read_app, write_app, get_handler, put_handler, delete_handler, patch_handler,
}

module _ {J : Type 0} ⦃e : StrictEq J⦄ where
  -- A client whose check of WriteApp fails changes nothing by a put, a removal or a patch.
  pub handlers_denied :
      (out : Outside J) (req : Request) (j : J) (m : Model J)
      → req.acl write_app req.app ≡ false
      → ((put_handler out req j m).1 ≡ m)
        × ((delete_handler req m).1 ≡ m)
        × ((patch_handler out req j m).1 ≡ m)
  unfolding put_handler delete_handler patch_handler
  handlers_denied out req j m w = (ground (arith, w), ground (arith, w), ground (arith, w))

-- A request to read one config under one tag, or none.
abbrev pub read_with : (String → String → Bool) → String → String → Option Text → Request
read_with acl app object tag = record {
  acl = acl;
  app = app;
  object = object;
  if_match = none;
  if_none_match = tag;
  content_type = "";
}

no_conditions : (o : Option Text) → check_match_headers none none o ≡ none
unfolding check_match_headers trim check_match check_none_match
no_conditions o = refl

module _ {J : Type 0} where
  -- A read sends a config with its tag in quotes; with that tag under If-None-Match it is 304 and
  -- sends the tag without the config.
  pub get_handler-etag :
      (acl : String → String → Bool) (app object : String) (m : Model J) (j : J) (tag : Text)
      → (valid_uuid app && valid_uuid object && acl read_app app) ≡ true
      → config_get app object m ≡ some (j, tag)
      → IsOpaque tag
      → (get_handler (read_with acl app object none) m
          ≡ record { status = 200; etag = some (quoted tag); body = some j })
        × (get_handler (read_with acl app object (some (quoted tag))) m
            ≡ record { status = 304; etag = some (quoted tag); body = none })
  unfolding get_handler
  get_handler-etag acl app object m j tag ok found h =
      let both = check_match_headers-quoted tag (some tag) h in
      (
        ground (arith, ok, found, no_conditions (some tag)),
        ground (arith, ok, found, both.1, ==_self tag),
      )
