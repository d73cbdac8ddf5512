-- ===== src/Tests/Access.antt =====
-- Tokens and roles on concrete inputs.
use climate_chain.Shared.{String, ◌≡◌, ◌≢◌, ◌↔◌, some, [], ◌∷◌}
use climate_chain.Config.Types.{AuthConfig}
use climate_chain.Js.{ok}
use climate_chain.Auth.{TokenResponse, JwtPayload, AuthenticatedUser, issue_admin_token}
use climate_chain.Auth.Laws.{issue_admin_token_iff}

abbrev test_auth : AuthConfig
test_auth = record {
  jwt_secret = "secret";
  jwt_expires_in = "1d";
  admin_api_key = some "key";
  rate_limit_ttl_seconds = 60;
  rate_limit_max = 10;
}

sign_test : JwtPayload → String → String
sign_test payload expires_in = payload.sub

issue_admin_token_iff_example :
    ((token : TokenResponse) × (issue_admin_token sign_test test_auth "key" ≡ ok token))
    ↔ ((test_auth.admin_api_key ≡ some "key") × (◌≢◌ {A = String} "key" ""))
issue_admin_token_iff_example = issue_admin_token_iff sign_test test_auth "key"

abbrev test_user : AuthenticatedUser
test_user = record { user_id = "admin"; roles = "reader" ∷ "admin" ∷ [] }
