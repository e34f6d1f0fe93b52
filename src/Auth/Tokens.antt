-- ===== src/Auth/Tokens.antt =====
-- Whom the middlewares let through.
use cartnova_go_microservice.Prelude.{
  ℕ, String, ◌≡◌, true, false, some, ◌==◌, eq_iff, format_int, arith,
}
use Prim.Native.String
use cartnova_go_microservice.Prelude.{ℤ, ◌+◌, ◌<◌, ◌<>◌, ap, ◌∙◌, refl}
use cartnova_go_microservice.Go.{ok}
use cartnova_go_microservice.Auth.{
  Claims, day, generate_token, strip_prefix, token_of, bearer_or, hs256, Jwt, Service, checked,
  valid, parse_token, Request, token_of, Passage, served, Identity, identified, role_test,
  middleware, require_role,
}

module _ (jwt : Jwt) (service : Service) where
  -- The token of the request is signed with HS256 and the secret of the service, and is valid at the
  -- time; its claims and the headers are those of the identity.
  pub record Verified (now : ℕ) (request : Request) (identity : Identity) : Type 0 where
    pub nonempty : (token_of request == "") ≡ false
    pub signed : jwt.method (token_of request) ≡ some hs256
    pub verified : jwt.verify service.secret now (token_of request) ≡ some identity.claims
    pub user_header : identity.x_user_id ≡ format_int identity.claims.user_id
    pub role_header : identity.x_user_role ≡ identity.claims.role

  -- `Middleware` serves nothing but requests with a verified token.
  pub middleware-Verified :
      (now : ℕ) (request : Request) (identity : Identity)
      → middleware jwt service now request ≡ served identity
      → Verified now request identity
  unfolding middleware identified parse_token checked valid
  middleware-Verified now request identity h = record {
    nonempty = ground arith;
    signed = ground arith;
    verified = ground arith;
    user_header = ground arith;
    role_header = ground arith;
  }

  role_served :
      (role : String) (p : Passage Identity) (identity : Identity)
      → role_test role p ≡ served identity
      → (p ≡ served identity) × ((identity.claims.role == role) ≡ true)
  unfolding role_test
  role_served role p identity h = ground arith

  -- `RequireRole` serves nothing but verified tokens of the role.
  pub require_role-Verified :
      (role : String) (now : ℕ) (request : Request) (identity : Identity)
      → require_role jwt service role now request ≡ served identity
      → Verified now request identity × (identity.claims.role ≡ role)
  unfolding require_role
  require_role-Verified role now request identity h =
      let (through, same) = role_served role (middleware jwt service now request) identity h in
      (middleware-Verified now request identity through, (eq_iff identity.claims.role role).0 same)

strip_prefix-append : (prefix token : String) → strip_prefix prefix (prefix <> token) ≡ some token
unfolding strip_prefix
strip_prefix-append Prim.Native.String.[] token = ap some (Prim.Native.String.append.nil token)
strip_prefix-append (Prim.Native.String.◌∷◌ c prefix) token =
    let ih = strip_prefix-append prefix token in
    ap (strip_prefix (Prim.Native.String.◌∷◌ c prefix))
      (Prim.Native.String.append.cons c prefix token)
    ∙ ground arith

-- The identity of a token that is issued at this time.
abbrev pub identity_at : ℤ → String → ℕ → Identity
identity_at user_id role time = record {
  claims = record { user_id = user_id; role = role; expires_at = time + day; issued_at = time };
  x_user_id = format_int user_id;
  x_user_role = role;
}

module _ (jwt : Jwt) (service : Service) where
  -- A token that the service has issued is accepted, as a Bearer token, for a day: with the claims
  -- that it was issued for.
  pub issued_accepted :
      ((secret : String) (claims : Claims) (token : String) (at : ℕ)
        → jwt.sign secret claims ≡ ok token
        → at < claims.expires_at
        → (jwt.method token ≡ some hs256)
          × (jwt.verify secret at token ≡ some claims)
          × ((token == "") ≡ false))
      → (user_id : ℤ) (role token : String) (time at : ℕ)
      → generate_token jwt service user_id role time ≡ ok token
      → at < time + day
      → middleware jwt service at (record { authorization = "Bearer " <> token; query_token = "" })
        ≡ served (identity_at user_id role time)
  unfolding generate_token middleware token_of bearer_or parse_token checked valid identified
  issued_accepted sound user_id role token time at e l =
      let (signed, verified, nonempty) =
        sound service.secret
          (record { user_id = user_id; role = role; expires_at = time + day; issued_at = time })
          token at e l in
      rw (strip_prefix-append "Bearer " token, nonempty, signed, verified) refl
