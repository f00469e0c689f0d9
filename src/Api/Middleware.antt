-- ===== src/Api/Middleware.antt =====
-- internal/api/cors.go and `authMiddleware` of internal/api/server.go, composed as `Run` composes
-- them. The handler behind them is a parameter, on any type of states.
pub mod Guards
use companion_mission_planne.Base.{
  ℕ, Bool, true, false, not, ◌&&◌, ◌||◌, Option, none, some, List, [], ◌∷◌, Text, text_Eq, text_eq,
  codes, to_lower, has_prefix, drop, length, ltb, is_empty, elem, if◌then◌else◌,
}
use companion_mission_planne.Base.Table
use companion_mission_planne.Base.Table.{Table}
use companion_mission_planne.Api.{unauthorized, nothing, Response, write_error}

-- What the middleware reads of a request; an absent header or parameter is "".
pub record Request : Type 0 where
  pub method : Text
  pub path : Text
  pub origin : Text
  pub kam_token : Text
  pub authorization : Text
  pub query_token : Text

abbrev pub Handler : Type 0 → Type 0
Handler S = Request → S → S × Response

-- The paths that need no token.
unfoldable pub is_public : Text → Bool
unfolding text_eq has_prefix
is_public path =
    text_eq path (codes "/")
    || text_eq path (codes "/ui")
    || text_eq path (codes "/ui/")
    || has_prefix path (codes "/ui/static/")

-- The token after "Bearer ", or "".
unfoldable pub bearer : Text → Text
unfolding has_prefix
bearer h = if ltb 7 (length h) && has_prefix h (codes "Bearer ") then drop 7 h else []

abbrev pub or_else : Text → Text → Text
or_else [] b = b
or_else (c ∷ a) b = c ∷ a

-- `got`: the header X-KAM-Token, else the bearer token, else the query parameter.
unfoldable pub presented : Request → Text
unfolding bearer
presented r = or_else r.kam_token (or_else (bearer r.authorization) r.query_token)

-- authMiddleware
unfoldable pub auth_middleware : {S : Type 0} → Text → Handler S → Handler S
unfolding is_public presented text_eq write_error
auth_middleware token next r s =
    if is_public r.path || is_empty token || text_eq (presented r) token
    then next r s
    else (s, write_error 401 unauthorized)

-- allowSet, in lower case
allow_set : List Text → List Text
unfolding text_eq to_lower
allow_set [] = []
allow_set (o ∷ allowed) =
    let rest = allow_set allowed in if text_eq o (codes "*") then rest else to_lower o ∷ rest

-- `allowAny || listed`
unfoldable pub is_allowed : List Text → Text → Bool
unfolding allow_set to_lower
is_allowed allowed origin = elem (codes "*") allowed || elem (to_lower origin) (allow_set allowed)

-- The headers that corsMiddleware sets before the next handler runs.
unfoldable pub cors_headers : List Text → Text → Table Text Text
unfolding is_allowed
cors_headers allowed origin =
    if is_empty origin
    then []
    else if is_allowed allowed origin
    then (codes "Access-Control-Allow-Origin", origin)
      ∷ (codes "Vary", codes "Origin")
      ∷ (codes "Access-Control-Allow-Methods", codes "GET, POST, DELETE, OPTIONS")
      ∷ (codes "Access-Control-Allow-Headers", codes "Content-Type, Authorization, X-KAM-Token")
      ∷ (codes "Access-Control-Allow-Credentials", codes "true")
      ∷ []
    else (codes "Vary", codes "Origin") ∷ []

-- Header().Set of the later headers on the map that has the earlier ones.
unfoldable pub set_headers : Table Text Text → Table Text Text → Table Text Text
set_headers first [] = first
set_headers first ((name, v) ∷ later) = set_headers (Table.put name v first) later

with_headers : {S : Type 0} → Table Text Text → S × Response → S × Response
unfolding set_headers
with_headers first (s, r) = (s, record r { headers = set_headers first r.headers })

-- corsMiddleware
unfoldable pub cors_middleware : {S : Type 0} → List Text → Handler S → Handler S
unfolding cors_headers with_headers text_eq
cors_middleware allowed next r s =
    if text_eq r.method (codes "OPTIONS")
    then (s, record { status = 204; headers = cors_headers allowed r.origin; body = nothing })
    else with_headers (cors_headers allowed r.origin) (next r s)

-- The handler of Run: CORS wraps auth.
unfoldable pub serve : {S : Type 0} → List Text → Text → Handler S → Handler S
unfolding cors_middleware auth_middleware
serve allowed token mux = cors_middleware allowed (auth_middleware token mux)
