-- ===== src/HttpAuth/Tests.antt =====
-- Runs of HTTP authentication, and its theorems at concrete inputs.
use amrc_connectivity_stack.Prelude.{
  In, ◌≡◌, refl, true, String, ◌&&◌, if◌then◌else◌, List, [], ◌∷◌, Option, none, some, arith, ◌==◌,
  nat_eq, list_eq,
}
use amrc_connectivity_stack.Text.{Text, codes}
use amrc_connectivity_stack.HttpAuth.Header.{
  match_auth, match_basic, looks_like_jwt, is_jwt_shape, segment, after_dot, match_password,
}
use amrc_connectivity_stack.HttpAuth.Jwt.{
  Fetched, document, verify, discover, fetch_discovery, use_document,
}
use amrc_connectivity_stack.HttpAuth.Jwt.Discovery.{verify-document}
use amrc_connectivity_stack.HttpAuth.Server.{
  Outside, Settings, Tokens, Request, next, unauthorized, client_of, auth_basic, auth_gssapi,
  auth_jwt, use_token, auth_bearer, by_scheme, auth, issue_token, Event, after, client_name,
}
use amrc_connectivity_stack.HttpAuth.Server.Soundness.{Justified, auth-Justified}
use amrc_connectivity_stack.HttpAuth.Server.Sessions.{bearer, auth-issue_token}

-- A world with one password, one ticket and one JWT.
abbrev outside : Outside
outside = record {
  atob = λ s. if s == codes "YTpi" then some (codes "op:pw") else none;
  verify_credentials = λ client pass. client == codes "op@FP" && pass == codes "pw";
  accept_sec_context = λ s. none;
  has_alg = λ s. true;
  verify_jwt = λ s. some (some (codes "jane"));
}

abbrev settings : Settings
settings = record {
  realm = codes "FP";
  public_path = some (λ p. p == codes "/ping");
  session_length = 100000;
  accepts_jwt = true;
}

abbrev ask_with : String → Request
ask_with h = record { authorization = some (codes h); path = codes "/v2" }

abbrev token : Text
token = codes "ab+/"

abbrev op : Option Text
op = some (codes "op@FP")

checks : Unit {0}
unfolding match_auth match_basic match_password looks_like_jwt is_jwt_shape segment after_dot
    auth_basic auth_gssapi auth_jwt use_token auth_bearer by_scheme auth issue_token client_name
checks =
    let t1 : (auth outside settings [] (ask_with "Basic YTpi") 0).0 ≡ next (client_of op) = refl in
    let t2 : (auth outside settings [] (ask_with "basic YTpi") 0).0 ≡ unauthorized = refl in
    let t3 : (auth outside settings [] (ask_with "Bearer aa.bb.cc") 0).0
        ≡ next (record {
          principal = some (codes "jane");
          jwt = some (codes "aa.bb.cc");
          negotiate = none;
        }) =
      refl in
    let t4 : (auth outside settings [] (ask_with "Bearer ab+/") 0).0 ≡ unauthorized = refl in
    let t5 : (auth outside settings [] (record { authorization = none; path = codes "/ping" }) 0).0
        ≡ next (client_of none) =
      refl in
    let t6 : (auth outside settings (issue_token settings op token 5 []) (bearer token []) 7).0
        ≡ next (client_of op) =
      refl in
    let t7 : auth outside settings (issue_token settings op token 5 []) (bearer token []) 90000
        ≡ (unauthorized, []) =
      refl in
    tt

abbrev history : List Event
history = Event.issue op token 5 ∷ []

auth-Justified_example : Justified outside settings history (bearer token []) 7 (client_of op)
unfolding match_auth looks_like_jwt is_jwt_shape segment after_dot use_token auth_bearer by_scheme
    auth issue_token
auth-Justified_example =
    auth-Justified outside settings history (bearer token []) 7 (client_of op) refl

abbrev stale : Event
stale = Event.request (ask_with "Basic YTpi") 6

auth-issue_token_example :
    (auth outside settings (after outside settings (stale ∷ history)) (bearer token []) 7).0
    ≡ next (client_of op)
auth-issue_token_example =
    auth-issue_token outside settings (stale ∷ []) [] op token [] 5 7 (refl, refl) (omega arith, tt)
      (omega arith)

abbrev old : Tokens
old = (token, record { principal = op; expiry = 100 }) ∷ []

abbrev config_doc : Fetched
config_doc = document (some (codes "iss")) (some (codes "keys"))

-- Accepts every token under a key set.
abbrev accepts : Text → Option Text → Option Text → Option Text
accepts t none i = none
accepts t (some k) i = some t

verify-document_example :
    (i : Text) × (u : Text) × In
      (document (some i) (some u))
      (Fetched.failed ∷ config_doc ∷ Fetched.failed ∷ [])
    × (accepts token (some u) (some i) ≡ some token)
unfolding verify discover fetch_discovery use_document
verify-document_example =
    verify-document accepts (λ u. true) ((config_doc, token) ∷ (Fetched.failed, token) ∷ [])
      Fetched.failed token token refl
