-- ===== src/ControlPlane/Routes/Paths.antt =====
-- The method and the path of each endpoint, and which one a request finds.
use deploy_os.Base.{
  String, ◌≡◌, refl, sym, ap, ◌∙◌, inl, inr, true, List, [], ◌∷◌, ◌==◌, Bool-cases,
}
use mathlib.Core.List.{Memᴰ}
use mathlib.Core.List.Memᴰ
use deploy_os.Go.Mux.{
  Pattern, Segment, literal, wildcard, found, route, path_value, match_method, fill, Fits-fill,
  route-IsFor, choose, match_path,
}
use deploy_os.ControlPlane.Routes.{Endpoint, healthz, version, register, list, commands, routes}

abbrev pub method_of : Endpoint → String
method_of register = "POST"
method_of commands = "POST"
method_of _ = "GET"

abbrev pub path_of : Endpoint → String → List String
path_of healthz id = "healthz" ∷ []
path_of version id = "version" ∷ []
path_of register id = "api" ∷ "v1" ∷ "devices" ∷ "register" ∷ []
path_of list id = "api" ∷ "v1" ∷ "devices" ∷ []
path_of commands id = "api" ∷ "v1" ∷ "devices" ∷ id ∷ "commands" ∷ []

-- The request is one for the endpoint, with the device id in its path.
abbrev pub IsAt : String → List String → Endpoint → String → Type 0
IsAt method path e id = (match_method (method_of e) method ≡ true) × (path ≡ path_of e id)

pattern_of : Endpoint → Pattern
pattern_of e = record { method = method_of e; path = shape e }
  where
    shape : Endpoint → List Segment
    shape healthz = literal "healthz" ∷ []
    shape version = literal "version" ∷ []
    shape register = literal "api" ∷ literal "v1" ∷ literal "devices" ∷ literal "register" ∷ []
    shape list = literal "api" ∷ literal "v1" ∷ literal "devices" ∷ []
    shape commands =
        literal "api" ∷ literal "v1" ∷ literal "devices" ∷ wildcard ∷ literal "commands" ∷ []

all_routes :
    routes
    ≡ (pattern_of healthz, healthz)
      ∷ (pattern_of version, version)
      ∷ (pattern_of register, register)
      ∷ (pattern_of list, list)
      ∷ (pattern_of commands, commands)
      ∷ []
unfolding routes pattern_of
all_routes = refl

same_pattern :
    (p : Pattern) (e x : Endpoint)
    → ◌≡◌ {A = Pattern × Endpoint} (p, e) (pattern_of x, x)
    → p ≡ pattern_of e
same_pattern p e x q = ap (λ y. y.0) q ∙ ap (λ y. pattern_of y.1) (sym q)

-- Each route is the one of its endpoint.
listed-pattern : (p : Pattern) (e : Endpoint) → Memᴰ (p, e) routes → p ≡ pattern_of e
listed-pattern p e m = elim (Memᴰ.cases_cons (rw all_routes at m)) [
  | inl q ↦ same_pattern p e healthz q
  | inr m1 ↦ elim (Memᴰ.cases_cons m1) [
    | inl q ↦ same_pattern p e version q
    | inr m2 ↦ elim (Memᴰ.cases_cons m2) [
      | inl q ↦ same_pattern p e register q
      | inr m3 ↦ elim (Memᴰ.cases_cons m3) [
        | inl q ↦ same_pattern p e list q
        | inr m4 ↦ same_pattern p e commands (Memᴰ.eq_of_singleton m4)
      ]
    ]
  ]
]

fill-path_of :
    (e : Endpoint) (values : List String)
    → fill (pattern_of e).path values ≡ path_of e (path_value values)
unfolding pattern_of
fill-path_of healthz values = refl
fill-path_of version values = refl
fill-path_of register values = refl
fill-path_of list values = refl
fill-path_of commands [] = refl
fill-path_of commands (v ∷ vs) = refl

pub found-IsAt :
    (method : String) (path : List String) (e : Endpoint) (values : List String)
    → route routes method path ≡ found e values
    → IsAt method path e (path_value values)
unfolding pattern_of
found-IsAt method path e values h =
    let r = route-IsFor method path e values routes h in
    let p = listed-pattern r.pattern e r.listed in
    (rw p at r.allowed, Fits-fill r.fits ∙ ap (λ y. fill y.path values) p ∙ fill-path_of e values)

-- A request for an endpoint finds it.
pub IsAt-found :
    (method : String) (path : List String) (e : Endpoint) (id : String)
    → IsAt method path e id
    → (values : List String) × (route routes method path ≡ found e values)
      × (path_of e (path_value values) ≡ path_of e id)
unfolding route routes match_path choose
IsAt-found method path healthz id (m, p) = ([], rw (p, m) refl, refl)
IsAt-found method path version id (m, p) = ([], rw (p, m) refl, refl)
IsAt-found method path register id (m, p) = ([], rw (p, m) refl, refl)
IsAt-found method path list id (m, p) = ([], rw (p, m) refl, refl)
IsAt-found method path commands id (m, p) = (
  id ∷ [],
  rw (p, m) (elim (Bool-cases ("register" == id)) [ inl e ↦ rw e refl | inr e ↦ rw e refl ]),
  refl,
)
