-- ===== src/Auth/Uuids/Perm.antt =====
-- The UUIDs of `Perm` (acs-auth/lib/uuids.js).
use amrc_connectivity_stack.Prelude.{String}

abbrev pub read_acl : String
read_acl = "ba566181-0e8a-405b-b16e-3fb89130fbee"

abbrev pub write_acl : String
write_acl = "3a41f5ce-fc08-4669-9762-ec9e71061168"

abbrev pub read_krb : String
read_krb = "e8c9c0f7-0d54-4db2-b8d6-cd80c45f6a5c"

abbrev pub write_krb : String
write_krb = "327c4cc8-9c46-4e1e-bb6b-257ace37b0f6"
