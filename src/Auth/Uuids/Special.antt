-- ===== src/Auth/Uuids/Special.antt =====
-- The UUIDs of `Special` (acs-auth/lib/uuids.js).
use amrc_connectivity_stack.Prelude.{String}

abbrev pub wildcard : String
wildcard = "00000000-0000-0000-0000-000000000000"

abbrev pub self : String
self = "5855a1cc-46d8-4b16-84f8-ab3916ecb230"

abbrev pub unowned : String
unowned = "091e796a-65c0-4080-adff-c3ce01a65b2e"

abbrev pub mine : String
mine = "724c0316-4cfd-11f0-b355-0b70840faae8"
