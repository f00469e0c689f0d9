-- ===== src/Api/Middleware/Guards.antt =====
-- What a request without the token can do, and what a browser sees of an answer.
use mathlib.Core.Path.{ap₂}
use companion_mission_planne.Base.{
  ◌++◌, ◌&&◌, ap, sym, ltb, length, drop, has_prefix, ◌≡◌, refl, ◌∙◌, ◌⊎◌, inl, inr, arith, true,
  false, ◌||◌, some, List, [], ◌∷◌, Text, text_Eq, text_eq, text_eq_iff, codes, is_empty, ◌==◌,
  Bool-cases,
}
use companion_mission_planne.Base.Table
use companion_mission_planne.Base.Table.{Table, get-put}
use companion_mission_planne.Api.{Response, write_error}
use companion_mission_planne.Api.Middleware.{
  Request, Handler, is_public, presented, bearer, or_else, auth_middleware, is_allowed,
  cors_headers, set_headers, with_headers, cors_middleware, serve,
}

-- The requests that need no token or bring the right one: the page of the planner and its assets; the
-- token in X-KAM-Token; without that header, a bearer token; and without both, the query parameter.
pub data IsAdmitted (token : Text) (r : Request) : Type 0 where
  root : r.path ≡ codes "/" → IsAdmitted token r
  ui : r.path ≡ codes "/ui" → IsAdmitted token r
  ui_page : r.path ≡ codes "/ui/" → IsAdmitted token r
  asset : (rest : Text) → r.path ≡ codes "/ui/static/" ++ rest → IsAdmitted token r
  by_header : r.kam_token ≡ token → IsAdmitted token r
  by_bearer : r.kam_token ≡ [] → r.authorization ≡ codes "Bearer " ++ token → IsAdmitted token r
  by_query :
      r.kam_token ≡ []
      → ((t : Text) → r.authorization ≡ codes "Bearer " ++ t → t ≡ [])
      → r.query_token ≡ token
      → IsAdmitted token r

prefix-split : (s p : Text) → has_prefix s p ≡ true → (rest : Text) × (s ≡ p ++ rest)
unfolding has_prefix
prefix-split s [] h = (s, refl)
prefix-split [] (c ∷ p) h = absurd (cc)
prefix-split (b ∷ s) (c ∷ p) h =
    let (rest, e) = prefix-split s p (ground (arith, h)) in
    let same : b ≡ c = ground (arith, h) in (rest, ap₂ ◌∷◌ same e)

public-IsAdmitted : (token : Text) (r : Request) → is_public r.path ≡ true → IsAdmitted token r
unfolding is_public
public-IsAdmitted token r h = elim (Bool-cases (text_eq r.path (codes "/"))) [
  | inl a ↦ root ((text_eq_iff _ _).0 a)
  | inr a ↦ elim (Bool-cases (text_eq r.path (codes "/ui"))) [
    | inl b ↦ ui ((text_eq_iff _ _).0 b)
    | inr b ↦ elim (Bool-cases (text_eq r.path (codes "/ui/"))) [
      | inl c ↦ ui_page ((text_eq_iff _ _).0 c)
      | inr c ↦
          let under : has_prefix r.path (codes "/ui/static/") ≡ true = ground (arith, a, b, c, h) in
          let (rest, e) = prefix-split r.path (codes "/ui/static/") under in asset rest e
    ]
  ]
]

no-bearer : (t : Text) → bearer (codes "Bearer " ++ t) ≡ [] → t ≡ []
unfolding bearer has_prefix
no-bearer [] h = refl
no-bearer (c ∷ t) h =
    let long : ltb 7 (length (codes "Bearer " ++ c ∷ t)) ≡ true = ground arith in
    absurd (ground (arith, long, h))

-- There is no bearer token, or it is what follows "Bearer ".
bearer-cases :
    (h : Text)
    → ((bearer h ≡ []) × ((t : Text) → h ≡ codes "Bearer " ++ t → t ≡ []))
      ⊎ ((t : Text) × (h ≡ codes "Bearer " ++ t) × (bearer h ≡ t))
unfolding bearer has_prefix
bearer-cases h = elim (Bool-cases (ltb 7 (length h) && has_prefix h (codes "Bearer "))) [
  | inl e ↦
      let (t, q) = prefix-split h (codes "Bearer ") (ground (arith, e)) in
      let rest : bearer h ≡ drop 7 h = rw (e, bearer) refl in inr (t, q, rest ∙ ap (drop 7) q)
  | inr e ↦
      let nothing' : bearer h ≡ [] = rw (e, bearer) refl in
      inl (nothing', λ t q. no-bearer t (ap bearer (sym q) ∙ nothing'))
]

with_bearer :
    (token : Text) (r : Request) (t : Text)
    → r.kam_token ≡ []
    → r.authorization ≡ codes "Bearer " ++ t
    → bearer r.authorization ≡ t
    → or_else (bearer r.authorization) r.query_token ≡ token
    → IsAdmitted token r
with_bearer token r [] e q b h =
    by_query e (λ t k. no-bearer t (ap bearer (sym k) ∙ b))
      (sym (ap (λ (s : Text). or_else s r.query_token) b) ∙ h)
with_bearer token r (c ∷ t) e q b h =
    let same : c ∷ t ≡ token = sym (ap (λ (s : Text). or_else s r.query_token) b) ∙ h in
    by_bearer e (q ∙ ap (λ (s : Text). codes "Bearer " ++ s) same)

presented-IsAdmitted :
    (token : Text) (r : Request) (k : Text)
    → r.kam_token ≡ k
    → presented r ≡ token
    → IsAdmitted token r
unfolding presented
presented-IsAdmitted token r (c ∷ k) e h =
    let shown : presented r ≡ c ∷ k =
      ap (λ (s : Text). or_else s (or_else (bearer r.authorization) r.query_token)) e in
    by_header (e ∙ sym shown ∙ h)
presented-IsAdmitted token r [] e h =
    let shown : presented r ≡ or_else (bearer r.authorization) r.query_token =
      ap (λ (s : Text). or_else s (or_else (bearer r.authorization) r.query_token)) e in
    elim (bearer-cases r.authorization) [
      | inl (b, none_sent) ↦
          by_query e none_sent (sym (shown ∙ ap (λ (s : Text). or_else s r.query_token) b) ∙ h)
      | inr (t, q, b) ↦ with_bearer token r t e q b (sym shown ∙ h)
    ]

-- With a token configured, only an admitted request reaches the routes: any other leaves the state as
-- it is, and the answer is 401, or 204 where the method is OPTIONS.
pub serve-refuses :
    {S : Type 0} (allowed : List Text) (token : Text) (mux : Handler S) (r : Request) (s : S)
    → is_empty token ≡ false
    → IsAdmitted token r
      ⊎ (((serve allowed token mux r s).0 ≡ s)
          × (((serve allowed token mux r s).1.status ≡ 401)
              ⊎ ((r.method ≡ codes "OPTIONS") × ((serve allowed token mux r s).1.status ≡ 204))))
unfolding serve cors_middleware auth_middleware with_headers
serve-refuses allowed token mux r s t = elim (Bool-cases (is_public r.path)) [
  | inl p ↦ inl (public-IsAdmitted token r p)
  | inr p ↦ elim (Bool-cases (text_eq (presented r) token)) [
    | inl q ↦ inl (presented-IsAdmitted token r r.kam_token refl ((text_eq_iff _ _).0 q))
    | inr q ↦ elim (Bool-cases (text_eq r.method (codes "OPTIONS"))) [
      | inl o ↦ rw (o, cors_middleware) (inr (refl, inr ((text_eq_iff _ _).0 o, refl)))
      | inr o ↦ rw (o, p, t, q, cors_middleware, auth_middleware) (inr (refl, inl refl))
    ]
  ]
]

-- With the token, or on a public path, or where no token is configured, the routes see the request,
-- unless it is a preflight.
pub serve-admits :
    {S : Type 0} (allowed : List Text) (token : Text) (mux : Handler S) (r : Request) (s : S)
    → text_eq r.method (codes "OPTIONS") ≡ false
    → (is_public r.path ≡ true) ⊎ (token ≡ []) ⊎ (presented r ≡ token)
    → ((serve allowed token mux r s).0 ≡ (mux r s).0)
      × ((serve allowed token mux r s).1.status ≡ (mux r s).1.status)
unfolding serve cors_middleware auth_middleware with_headers
serve-admits allowed token mux r s o admitted =
    let open' : (is_public r.path || is_empty token || text_eq (presented r) token) ≡ true =
      ground (arith, admitted, text_eq_iff (presented r) token) in
    rw (o, open', cors_middleware, auth_middleware) (refl, refl)

set_headers-get :
    (key : Text) (first later : Table Text Text)
    → Table.has key later ≡ false
    → Table.get key (set_headers first later) ≡ Table.get key first
unfolding set_headers Table.has
set_headers-get key first [] h = refl
set_headers-get key first ((name, v) ∷ later) h = elim (Bool-cases (name == key)) [
  | inl e ↦ absurd (ground (arith, e, h))
  | inr e ↦
      set_headers-get key (Table.put name v first) later (ground (arith, e, h))
      ∙ get-put name key v first
      ∙ rw e refl
]

abbrev pub allow_origin : Text
allow_origin = codes "Access-Control-Allow-Origin"

with_headers-get :
    {S : Type 0} (key : Text) (first : Table Text Text) (out : S × Response)
    → Table.has key out.1.headers ≡ false
    → Table.get key (with_headers first out).1.headers ≡ Table.get key first
unfolding with_headers
with_headers-get key first out h = set_headers-get key first out.1.headers h

auth-headers :
    {S : Type 0} (token : Text) (mux : Handler S) (r : Request) (s : S)
    → Table.has allow_origin (mux r s).1.headers ≡ false
    → Table.has allow_origin (auth_middleware token mux r s).1.headers ≡ false
unfolding auth_middleware write_error Table.has text_eq
auth-headers token mux r s h = ground (arith, h)

allowed-origin :
    (allowed : List Text) (origin : Text)
    → is_empty origin ≡ false
    → is_allowed allowed origin ≡ true
    → Table.get allow_origin (cors_headers allowed origin) ≡ some origin
unfolding cors_headers Table.get text_eq
allowed-origin allowed origin e a = ground (arith, e, a)

-- A browser on an allowed origin can read every answer, whether it is the preflight's, a refusal of
-- the token or what the routes wrote, given that the routes do not set this header themselves.
pub serve-visible :
    {S : Type 0} (allowed : List Text) (token : Text) (mux : Handler S) (r : Request) (s : S)
    → is_empty r.origin ≡ false
    → is_allowed allowed r.origin ≡ true
    → Table.has allow_origin (mux r s).1.headers ≡ false
    → Table.get allow_origin (serve allowed token mux r s).1.headers ≡ some r.origin
unfolding serve cors_middleware
serve-visible allowed token mux r s e a h = elim (Bool-cases (text_eq r.method (codes "OPTIONS"))) [
  | inl o ↦ rw (o, cors_middleware) (allowed-origin allowed r.origin e a)
  | inr o ↦
      rw (o, cors_middleware)
        (with_headers-get allow_origin (cors_headers allowed r.origin)
            (auth_middleware token mux r s) (auth-headers token mux r s h)
          ∙ allowed-origin allowed r.origin e a)
]
