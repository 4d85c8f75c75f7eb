-- ===== src/Shared/ApiKey/Examples.antt =====
-- A middleware with one key, on which the theorem about packages/shared/src/auth/ApiKeyMiddleware.ts is
-- applied.
use mcp_suite.Common.{◌≡◌, ◌↔◌, none, some, [], ◌∷◌, ◌==◌, if◌then◌else◌}
use mcp_suite.Effect.{ok}
use mcp_suite.Shared.ApiKey.{ApiKeyMiddleware, ApiKeyPrincipal, HeaderMap, one, ensure_scope}
use mcp_suite.Shared.ApiKey.Authorization.{IsAuthorized, ensure_scope_iff}

abbrev reader : ApiKeyPrincipal
reader = record { id = "reader"; scopes = some ("read" ∷ []) }

abbrev middleware : ApiKeyMiddleware
middleware = record {
  header_name = "authorization";
  scheme = "Bearer";
  validator = λ token. if token == "secret" then some reader else none;
  to_lower_case = λ s. s;
}

abbrev headers : HeaderMap
headers name = if name == "authorization" then some (one "Bearer secret") else none

ensure_scope_iff_example :
    (ensure_scope middleware headers "read" ≡ ok reader)
    ↔ IsAuthorized middleware headers "read" reader
ensure_scope_iff_example = ensure_scope_iff middleware headers "read" reader
