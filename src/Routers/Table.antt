-- ===== src/Routers/Table.antt =====
-- The route table (api/routers/__init__.py, main.py) with the stubs of api/routers/_stubs.py. The first route
-- that matches serves a request, as Starlette documents; a parameter of a path matches one segment that is not
-- empty.
pub mod Shadowing
use pid_docs.Prelude.{
  ℕ, String, text_eq, Bool, true, false, not, ◌&&◌, ◌||◌, Option, none, some, List, [], ◌∷◌, ◌++◌,
  find?, if◌then◌else◌,
}
use pid_docs.Prelude.Text.{is_empty}

pub data Segment : Type 0 where
  lit : String → Segment
  param : Segment

-- What serves a request: a handler of a router, the stub of the session that owns the endpoint, or that of a
-- feature that is not scheduled; the stubs raise 501.
pub data Handler : Type 0 where
  real stub planned : String → Handler

pub record Route : Type 0 where
  pub method : String
  pub path : List Segment
  pub handler : Handler

pub record Request : Type 0 where
  pub method : String
  pub segments : List String

abbrev pub route : String → List Segment → Handler → Route
route method path handler = record { method = method; path = path; handler = handler }

segment_matches : Segment → String → Bool
segment_matches (lit s) t = text_eq s t
segment_matches param t = not (is_empty t)

pub path_matches : List Segment → List String → Bool
unfolding segment_matches
path_matches [] [] = true
path_matches [] (t ∷ ts) = false
path_matches (s ∷ path) [] = false
path_matches (s ∷ path) (t ∷ ts) = segment_matches s t && path_matches path ts

pub matches : Request → Route → Bool
unfolding path_matches
matches q r = text_eq r.method q.method && path_matches r.path q.segments

abbrev pub auth_router : List Route
auth_router =
    route "POST" (lit "auth" ∷ lit "register" ∷ []) (real "register")
    ∷ route "POST" (lit "auth" ∷ lit "login" ∷ []) (real "login")
    ∷ route "POST" (lit "auth" ∷ lit "oauth" ∷ lit "google" ∷ []) (real "oauth_google")
    ∷ route "POST" (lit "auth" ∷ lit "refresh" ∷ []) (real "refresh")
    ∷ route "POST" (lit "auth" ∷ lit "logout" ∷ []) (real "logout")
    ∷ route "POST" (lit "auth" ∷ lit "password-reset" ∷ lit "request" ∷ [])
        (real "password_reset_request")
    ∷ route "POST" (lit "auth" ∷ lit "password-reset" ∷ lit "confirm" ∷ [])
        (real "password_reset_confirm")
    ∷ []

abbrev pub symbols_router : List Route
symbols_router =
    route "GET" (lit "drawings" ∷ param ∷ lit "symbols" ∷ []) (real "list_symbols")
    ∷ route "PATCH" (lit "symbols" ∷ param ∷ []) (real "patch_symbol")
    ∷ route "POST" (lit "drawings" ∷ param ∷ lit "symbols" ∷ []) (real "create_symbol")
    ∷ []

abbrev pub account_router : List Route
account_router =
    route "GET" (lit "account" ∷ []) (real "get_account")
    ∷ route "PATCH" (lit "account" ∷ []) (real "patch_account")
    ∷ route "GET" (lit "account" ∷ lit "consent" ∷ []) (real "get_consent")
    ∷ route "PATCH" (lit "account" ∷ lit "consent" ∷ []) (real "patch_consent")
    ∷ route "DELETE" (lit "account" ∷ []) (real "delete_account")
    ∷ []

abbrev pub stubs_router : List Route
stubs_router =
    route "POST" (lit "auth" ∷ lit "register" ∷ []) (stub "S2-A")
    ∷ route "POST" (lit "auth" ∷ lit "login" ∷ []) (stub "S2-A")
    ∷ route "POST" (lit "auth" ∷ lit "oauth" ∷ lit "google" ∷ []) (stub "S2-A")
    ∷ route "POST" (lit "auth" ∷ lit "refresh" ∷ []) (stub "S2-A")
    ∷ route "POST" (lit "auth" ∷ lit "logout" ∷ []) (stub "S2-A")
    ∷ route "POST" (lit "auth" ∷ lit "password-reset" ∷ lit "request" ∷ []) (stub "S2-A")
    ∷ route "POST" (lit "auth" ∷ lit "password-reset" ∷ lit "confirm" ∷ []) (stub "S2-A")
    ∷ route "POST" (lit "drawings" ∷ lit "hash-check" ∷ []) (stub "S2-B")
    ∷ route "GET" (lit "drawings" ∷ []) (stub "S2-B")
    ∷ route "POST" (lit "drawings" ∷ []) (stub "S2-B")
    ∷ route "GET" (lit "drawings" ∷ param ∷ []) (stub "S2-B")
    ∷ route "PATCH" (lit "drawings" ∷ param ∷ []) (stub "S2-B")
    ∷ route "DELETE" (lit "drawings" ∷ param ∷ []) (stub "S2-B")
    ∷ route "POST" (lit "drawings" ∷ param ∷ lit "retry" ∷ []) (stub "S2-B")
    ∷ route "GET" (lit "drawings" ∷ param ∷ lit "status" ∷ []) (stub "S2-B")
    ∷ route "POST" (lit "drawings" ∷ param ∷ lit "upload-complete" ∷ []) (stub "S2-B")
    ∷ route "GET" (lit "drawings" ∷ param ∷ lit "symbols" ∷ []) (stub "S2-C")
    ∷ route "POST" (lit "drawings" ∷ param ∷ lit "symbols" ∷ []) (stub "S2-C")
    ∷ route "PATCH" (lit "symbols" ∷ param ∷ []) (stub "S2-C")
    ∷ route "POST" (lit "drawings" ∷ param ∷ lit "exports" ∷ []) (stub "S2-D")
    ∷ route "GET" (lit "exports" ∷ param ∷ []) (stub "S2-D")
    ∷ route "GET" (lit "account" ∷ []) (stub "S2-F")
    ∷ route "PATCH" (lit "account" ∷ []) (stub "S2-F")
    ∷ route "DELETE" (lit "account" ∷ []) (stub "S2-F")
    ∷ route "GET" (lit "account" ∷ lit "consent" ∷ []) (stub "S2-F")
    ∷ route "PATCH" (lit "account" ∷ lit "consent" ∷ []) (stub "S2-F")
    ∷ route "GET" (lit "subscription" ∷ []) (stub "S2-E")
    ∷ route "POST" (lit "subscription" ∷ lit "checkout" ∷ []) (stub "S2-E")
    ∷ route "POST" (lit "webhooks" ∷ lit "stripe" ∷ []) (stub "S2-E")
    ∷ route "GET" (lit "entity-classes" ∷ []) (stub "S2-G")
    ∷ route "GET" (lit "teams" ∷ []) (planned "team workspace")
    ∷ route "POST" (lit "teams" ∷ []) (planned "team workspace")
    ∷ route "GET" (lit "teams" ∷ param ∷ lit "members" ∷ []) (planned "team workspace")
    ∷ route "POST" (lit "teams" ∷ param ∷ lit "members" ∷ []) (planned "team workspace")
    ∷ route "DELETE" (lit "teams" ∷ param ∷ lit "members" ∷ param ∷ []) (planned "team workspace")
    ∷ route "GET" (lit "teams" ∷ param ∷ lit "consent" ∷ []) (planned "team workspace")
    ∷ route "PATCH" (lit "teams" ∷ param ∷ lit "consent" ∷ []) (planned "team workspace")
    ∷ route "POST" (lit "drawings" ∷ lit "compare" ∷ []) (planned "revision comparison")
    ∷ route "GET" (lit "comparisons" ∷ param ∷ []) (planned "revision comparison")
    ∷ route "GET" (lit "exports" ∷ param ∷ lit "comparison-csv" ∷ [])
        (planned "revision comparison")
    ∷ route "GET" (lit "drawings" ∷ param ∷ lit "tables" ∷ [])
        (planned "instrument table extraction")
    ∷ route "PATCH" (lit "table-cells" ∷ param ∷ []) (planned "instrument table extraction")
    ∷ []

-- the routers ahead of the stubs, in their order; `healthz` is registered before them
abbrev pub real_routes : List Route
real_routes =
    route "GET" (lit "healthz" ∷ []) (real "healthz")
    ∷ (auth_router ++ symbols_router ++ account_router)

unfoldable pub resolve : Request → Option Route
unfolding matches
resolve q = find? (matches q) (real_routes ++ stubs_router)
