-- ===== src/Auth/Validate.antt =====
-- Data validation (acs-auth/lib/validate.js): the regular expressions as tests on code units.
pub mod Laws
use amrc_connectivity_stack.Prelude.{
  ℕ, ◌+◌, ◌≡◌, refl, Bool, true, false, ◌&&◌, ◌||◌, List, [], ◌∷◌, ◌++◌, Option, none, some, String,
  if◌then◌else◌, ◌==◌, nat_eq, string_eq, leb, ltb, every,
}
use amrc_connectivity_stack.Text.{Text, codes}

-- `[0-9a-f]`
abbrev pub is_hex : ℕ → Bool
is_hex c = (leb b'0' c && leb c b'9') || (leb b'a' c && leb c b'f')

abbrev pub dash : ℕ
dash = b'-'

-- `c{n}`, then the rest of the pattern.
times : ℕ → (ℕ → Bool) → (Text → Bool) → Text → Bool
times ℕ.zero test next s = next s
times (ℕ.suc n) test next [] = false
times (ℕ.suc n) test next (c ∷ s) = test c && times n test next s

abbrev at_end : Text → Bool
at_end [] = true
at_end (c ∷ s) = false

hex : ℕ → (Text → Bool) → Text → Bool
unfolding times
hex n = times n is_hex

then_dash : (Text → Bool) → Text → Bool
unfolding times
then_dash = times 1 (λ c. c == dash)

-- `UUID_rx`
unfoldable pub is_uuid : Text → Bool
unfolding hex then_dash
is_uuid =
    hex 8 (then_dash (hex 4 (then_dash (hex 4 (then_dash (hex 4 (then_dash (hex 12 at_end))))))))

unfoldable pub valid_uuid : String → Bool
unfolding is_uuid
valid_uuid uuid = is_uuid (codes uuid)

abbrev is_alphanumeric : ℕ → Bool
is_alphanumeric c =
    (leb b'a' c && leb c b'z') || (leb b'A' c && leb c b'Z') || (leb b'0' c && leb c b'9')

-- `[a-zA-Z0-9_./-]` and `[A-Za-z0-9-.]`
abbrev pub is_krb_user : ℕ → Bool
is_krb_user c = is_alphanumeric c || c == b'_' || c == b'.' || c == b'/' || c == dash

abbrev pub is_krb_realm : ℕ → Bool
is_krb_realm c = is_alphanumeric c || c == dash || c == b'.'

-- `[A-Za-z0-9-.]+$`
krb_realm : Text → Bool
krb_realm [] = false
krb_realm (c ∷ s) = every is_krb_realm (c ∷ s)

-- Behind the first character of the user: neither class has an "@", so the first one ends it.
krb_after : Text → Bool
krb_after [] = false
krb_after (c ∷ s) =
    let rest = krb_after s in if c == b'@' then krb_realm s else is_krb_user c && rest

-- `KRB_rx`
unfoldable pub is_krb : Text → Bool
unfolding krb_realm krb_after
is_krb [] = false
is_krb (c ∷ s) = is_krb_user c && krb_after s

unfoldable pub valid_krb : String → Bool
unfolding is_krb
valid_krb krb = is_krb (codes krb)

-- A grant as a client sends it; a `plural` that is no boolean is `none`.
pub record GrantBody : Type 0 where
  pub principal : String
  pub permission : String
  pub target : String
  pub plural : Option Bool

abbrev is_boolean : Option Bool → Bool
is_boolean none = false
is_boolean (some _) = true

unfoldable pub valid_grant : GrantBody → Bool
unfolding valid_uuid
valid_grant g =
    valid_uuid g.principal && valid_uuid g.permission && valid_uuid g.target && is_boolean g.plural

validate_tests :
    (valid_uuid "00000000-0000-0000-0000-000000000000" ≡ true)
    × (valid_uuid "00000000-0000-0000-0000-00000000000G" ≡ false)
    × (valid_krb "admin@FACTORY.PLUS" ≡ true)
    × (valid_krb "admin@@FACTORY.PLUS" ≡ false)
    × (valid_krb "admin" ≡ false)
unfolding valid_uuid valid_krb
validate_tests = (refl, refl, refl, refl, refl)
