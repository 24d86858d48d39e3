-- ===== src/Go/Mux.antt =====
-- net/http's ServeMux, as the two commands use it: patterns of a method and a path of literal segments and wildcards that
-- stand for one segment each. A path is clean, so it is the list of its segments, none of them empty; no two of the patterns
-- that are used match the same request, so their order does not matter.
use deploy_os.Base.{
  String, ◌≡◌, refl, sym, ap, inl, inr, Bool, true, false, ◌&&◌, ◌||◌, Option, none, some, List, [],
  ◌∷◌, ◌==◌, if◌then◌else◌, Option-cases, some_inj, ==-cases,
}
use mathlib.Core.List.{Memᴰ}

pub data Segment : Type 0 where
  literal : String → Segment
  wildcard : Segment

pub record Pattern : Type 0 where
  pub method : String
  pub path : List Segment

-- The segments that the wildcards stand for.
unfoldable pub match_path : List Segment → List String → Option (List String)
match_path [] [] = some []
match_path (literal s ∷ pattern) (t ∷ path) =
    let rest = match_path pattern path in if s == t then rest else none
match_path (wildcard ∷ pattern) (t ∷ path) = elim (match_path pattern path) [
  | none ↦ none
  | some values ↦ some (t ∷ values)
]
match_path _ _ = none

-- GET stands for HEAD too.
unfoldable pub match_method : String → String → Bool
match_method pattern method = (pattern == method) || (pattern == "GET" && method == "HEAD")

-- What the multiplexer finds for a request.
pub data Routed {ℓ} (H : Type ℓ) : Type ℓ where
  found : H → List String → Routed H
  -- 405, where a pattern has the path
  no_method : Routed H
  -- 404
  no_path : Routed H

module _ {ℓ} {H : Type ℓ} where
  -- One pattern, in front of what the others give.
  unfoldable pub choose : Bool → Option (List String) → H → Routed H → Routed H
  choose allowed none h others = others
  choose true (some values) h others = found h values
  choose false (some values) h no_path = no_method
  choose false (some values) h others = others

  -- ServeMux.ServeHTTP, up to the call of the handler
  unfoldable pub route : List (Pattern × H) → String → List String → Routed H
  unfolding choose match_path match_method
  route [] method path = no_path
  route ((p, h) ∷ patterns) method path =
      choose (match_method p.method method) (match_path p.path path) h (route patterns method path)

-- The path has the pattern's shape, with the values in place of the wildcards.
pub data Fits : List Segment → List String → List String → Type 0 where
  ends : Fits [] [] []
  same :
      {pattern : List Segment} {path values : List String} (s : String)
      → Fits pattern path values
      → Fits (literal s ∷ pattern) (s ∷ path) values
  takes :
      {pattern : List Segment} {path values : List String} (t : String)
      → Fits pattern path values
      → Fits (wildcard ∷ pattern) (t ∷ path) (t ∷ values)

pub match_path-Fits :
    (pattern : List Segment) (path values : List String)
    → match_path pattern path ≡ some values
    → Fits pattern path values
unfolding match_path
match_path-Fits [] [] values h = rw (sym (some_inj h)) ends
match_path-Fits [] (t ∷ path) values h = cc
match_path-Fits (literal s ∷ pattern) [] values h = cc
match_path-Fits (wildcard ∷ pattern) [] values h = cc
match_path-Fits (literal s ∷ pattern) (t ∷ path) values h = elim (==-cases s t) [
  | inl (q, e) ↦
      let rest = match_path-Fits pattern path values (rw e at h) in rw (sym q) (same s rest)
  | inr e ↦ let bad = rw e at h in cc
]
match_path-Fits (wildcard ∷ pattern) (t ∷ path) values h =
    elim (Option-cases (match_path pattern path)) [
      | inl e ↦ let bad = rw e at h in cc
      | inr (rest, e) ↦
          let whole = some_inj (rw e at h) in
          rw (sym whole) (takes t (match_path-Fits pattern path rest e))
    ]

-- r.PathValue of the only wildcard
abbrev pub path_value : List String → String
path_value [] = ""
path_value (v ∷ vs) = v

-- The pattern's path, with the values in place of the wildcards.
abbrev pub fill : List Segment → List String → List String
fill [] values = []
fill (literal s ∷ pattern) values = s ∷ fill pattern values
fill (wildcard ∷ pattern) [] = "" ∷ fill pattern []
fill (wildcard ∷ pattern) (v ∷ vs) = v ∷ fill pattern vs

pub Fits-fill :
    {pattern : List Segment} {path values : List String}
    → Fits pattern path values
    → path ≡ fill pattern values
Fits-fill ends = refl
Fits-fill (same s f) = ap (λ l. s ∷ l) (Fits-fill f)
Fits-fill (takes t f) = ap (λ l. t ∷ l) (Fits-fill f)

-- The request is one for the pattern.
pub record IsFor {ℓ} {H : Type ℓ} (patterns : List (Pattern × H)) (method : String)
    (path : List String) (h : H) (values : List String) : Type ℓ where
  pub pattern : Pattern
  pub listed : Memᴰ (pattern, h) patterns
  pub allowed : match_method pattern.method method ≡ true
  pub fits : Fits pattern.path path values

module _ {ℓ} {H : Type ℓ} (method : String) (path : List String) (h : H)
    (values : List String) where
  later-IsFor :
      (p : Pattern × H) (patterns : List (Pattern × H))
      → IsFor patterns method path h values
      → IsFor (p ∷ patterns) method path h values
  later-IsFor p patterns r = record {
    pattern = r.pattern;
    listed = Memᴰ.tail r.listed;
    allowed = r.allowed;
    fits = r.fits;
  }

  first-IsFor :
      (p : Pattern) (g : H) (patterns : List (Pattern × H)) (vs : List String)
      → match_method p.method method ≡ true
      → match_path p.path path ≡ some vs
      → g ≡ h
      → vs ≡ values
      → IsFor ((p, g) ∷ patterns) method path h values
  first-IsFor p g patterns vs m e alike q = record {
    pattern = p;
    listed = Memᴰ.head (ap (λ x. (p, x)) (sym alike));
    allowed = m;
    fits = rw q at (match_path-Fits p.path path vs e);
  }

  choose-IsFor :
      (p : Pattern) (g : H) (patterns : List (Pattern × H)) (b : Bool) (o : Option (List String))
      (r : Routed H)
      → match_method p.method method ≡ b
      → match_path p.path path ≡ o
      → (r ≡ found h values → IsFor patterns method path h values)
      → choose b o g r ≡ found h values
      → IsFor ((p, g) ∷ patterns) method path h values
  unfolding choose
  choose-IsFor p g patterns b none r m e later c = later-IsFor (p, g) patterns (later c)
  choose-IsFor p g patterns true (some vs) r m e later c =
      first-IsFor p g patterns vs m e (cc c) (cc c)
  choose-IsFor p g patterns false (some vs) (found x xs) m e later c =
      later-IsFor (p, g) patterns (later c)
  choose-IsFor p g patterns false (some vs) no_method m e later c = cc
  choose-IsFor p g patterns false (some vs) no_path m e later c = cc

  -- What the multiplexer finds is one of the patterns, with the request's method and the shape of its path.
  pub route-IsFor :
      (patterns : List (Pattern × H))
      → route patterns method path ≡ found h values
      → IsFor patterns method path h values
  unfolding route
  route-IsFor [] q = cc
  route-IsFor ((p, g) ∷ patterns) q =
      choose-IsFor p g patterns (match_method p.method method) (match_path p.path path)
        (route patterns method path) refl refl (λ e. route-IsFor patterns e) q
