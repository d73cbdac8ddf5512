-- ===== src/Auth/Laws.antt =====
-- Who gets a token, and who passes a route.
use climate_chain.Shared.{
  String, ◌≡◌, ◌≢◌, ◌↔◌, inl, inr, refl, sym, ◌∙◌, eq_refl, str_eq, true, false, Option, none, some,
  List, [], ◌∷◌, arith, eq_iff, includes, Bool-cases, Option-cases,
}
use climate_chain.Config.Types.{AuthConfig}
use climate_chain.Js.{ok, throw-ne-ok}
use climate_chain.Auth.{
  admin_payload, principal_roles, TokenResponse, JwtPayload, AuthenticatedUser, issue_admin_token,
  can_activate, some_included,
}

-- A token is issued exactly where a non-empty administrative key is configured and it is the one provided.
pub issue_admin_token_iff :
    (sign : JwtPayload → String → String) (auth : AuthConfig) (api_key : String)
    → ((token : TokenResponse) × (issue_admin_token sign auth api_key ≡ ok token))
      ↔ ((auth.admin_api_key ≡ some api_key) × (api_key ≢ ""))
unfolding issue_admin_token
issue_admin_token_iff sign auth api_key = elim (Option-cases auth.admin_api_key) [
  | inl absent ↦ (
    (λ p. elim (throw-ne-ok (rw (issue_admin_token, absent) at p.1)) [ ]),
    (λ q. let wrong : none ≡ some api_key = sym absent ∙ q.0 in cc),
  )
  | inr (k, present) ↦ (
    (λ p. let (token, done) = p in ground (arith, eq_iff k "", eq_iff api_key k)),
    (λ q.
        let (own, nonempty) = q in
        (
          record {
            access_token = sign admin_payload auth.jwt_expires_in;
            token_type = "Bearer";
            expires_in = auth.jwt_expires_in;
          },
          ground (arith, eq_iff k "", eq_iff api_key k),
        )),
  )
]

some_included_ok :
    (roles required : List String)
    → some_included roles required ≡ true
    → (role : String) × (includes roles role ≡ true) × (includes required role ≡ true)
unfolding some_included
some_included_ok [] required h = cc
some_included_ok (role ∷ roles) required h = elim (Bool-cases (includes required role)) [
  | inl here ↦ (role, rw eq_refl refl, here)
  | inr other ↦
      let (found, held, wanted) =
        some_included_ok roles required (rw (other, some_included) at h) in
      (found, ground (arith, held), wanted)
]

included_some :
    (roles required : List String) (role : String)
    → includes roles role ≡ true
    → includes required role ≡ true
    → some_included roles required ≡ true
unfolding some_included
included_some [] required role held wanted = cc
included_some (r ∷ roles) required role held wanted = elim (Bool-cases (str_eq r role)) [
  | inl same ↦ let one : r ≡ role = (eq_iff r role).0 same in rw (some_included, one, wanted) refl
  | inr other ↦ ground (arith, included_some roles required role (rw other at held) wanted)
]

-- A route that requires roles is open exactly to a principal that holds one of them.
pub can_activate_iff :
    (r : String) (required : List String) (user : Option AuthenticatedUser)
    → (can_activate (r ∷ required) user ≡ ok true) ↔ (
        (role : String) × (includes (principal_roles user) role ≡ true)
        × (includes (r ∷ required) role ≡ true))
unfolding can_activate
can_activate_iff r required user =
    elim (Bool-cases (some_included (principal_roles user) (r ∷ required))) [
      | inl admitted ↦ (
        (λ h. some_included_ok (principal_roles user) (r ∷ required) admitted),
        (λ q. rw (can_activate, admitted) refl),
      )
      | inr shut ↦ (
        (λ h. elim (throw-ne-ok (rw (can_activate, shut) at h)) [ ]),
        (λ q.
            let wrong : false ≡ true =
              sym shut ∙ included_some (principal_roles user) (r ∷ required) q.0 q.1 q.2 in
            cc),
      )
    ]
