-- ===== src/Auth.antt =====
-- internal/auth/auth.go and internal/auth/supabase.go: the caller of a request, and the head that the
-- HTTP handlers share. The HTTP client, with the decoder of a response's body, is a parameter, and so is
-- the text of a status number.
use deploy_os.Base.{
  ℕ, String, concat, ◌≡◌, ap, ◌∙◌, ◌↔◌, ◌⊎◌, inl, inr, false, ◌||◌, Option, none, some, [], ◌∷◌,
  arith, eq_iff, nat_eq, ◌==◌, if◌then◌else◌, Bool-cases, Option-cases, ==-cases,
}
use deploy_os.Go.Errors.{
  Sentinel, sentinel, other, wrap, Result, ok, err, ◌>>=◌, map_error, Result-cases,
}
use deploy_os.Go.Text.{trim_suffix_slash, trim_space, after_prefix}

pub record User : Type 0 where
  pub id : String
  pub email : String

abbrev pub err_invalid_token : Sentinel
err_invalid_token = record {
  name = "auth.ErrInvalidToken";
  text = "invalid or expired access token";
}

abbrev non_empty : String → Option String
non_empty token = if token == "" then none else some token

-- BearerToken, of the request's Authorization header
unfoldable pub bearer_token : String → Option String
unfolding trim_space after_prefix
bearer_token header = elim (after_prefix header "Bearer ") [
  | none ↦ none
  | some rest ↦ non_empty (trim_space rest)
]

-- The request that SupabaseAuthenticator makes.
pub record UserRequest : Type 0 where
  pub url : String
  pub authorization : String
  pub apikey : String

-- The status, and the body as the decoder reads it.
pub record UserResponse : Type 0 where
  pub status : ℕ
  pub body : Result User

check_user : User → Result User
check_user user = if user.id == "" then err (sentinel err_invalid_token) else ok user

check_response : (ℕ → String) → UserResponse → Result User
unfolding check_user
check_response itoa r =
    if nat_eq r.status 200
    then (map_error (λ e. wrap "decoding supabase auth response: " e "") r.body >>= check_user)
    else if nat_eq r.status 401 || nat_eq r.status 403
    then err (sentinel err_invalid_token)
    else err (other (concat ("supabase auth returned status " ∷ itoa r.status ∷ [])))

-- SupabaseAuthenticator
pub record Supabase : Type 0 where
  pub base_url : String
  pub anon_key : String

-- NewSupabaseAuthenticator
unfoldable pub new_supabase_authenticator : String → String → Supabase
unfolding trim_suffix_slash
new_supabase_authenticator base_url anon_key = record {
  base_url = trim_suffix_slash base_url;
  anon_key = anon_key;
}

user_request : Supabase → String → UserRequest
user_request a access_token = record {
  url = concat (a.base_url ∷ "/auth/v1/user" ∷ []);
  authorization = concat ("Bearer " ∷ access_token ∷ []);
  apikey = a.anon_key;
}

-- SupabaseAuthenticator.Authenticate, for a base URL that makes a request
unfoldable pub authenticate_user :
    (ℕ → String) → (UserRequest → Result UserResponse) → Supabase → String → Result User
unfolding user_request check_response
authenticate_user itoa call a access_token =
    map_error (λ e. wrap "calling supabase auth: " e "") (call (user_request a access_token))
    >>= check_response itoa

-- An answer to a request: a status with a body, or writeError's status and message.
pub data Reply {ℓ} (A : Type ℓ) : Type ℓ where
  success : ℕ → A → Reply A
  failure : ℕ → String → Reply A

-- The head of every handler: the caller, or the message of a 401
unfoldable pub caller : (String → Result User) → String → String ⊎ User
unfolding bearer_token
caller authenticate header = elim (bearer_token header) [
  | none ↦ inl "missing bearer token"
  | some token ↦ elim (authenticate token) [ err e ↦ inl "unauthorized" | ok user ↦ inr user ]
]

-- The header holds a token that the authenticator accepts for the user.
pub record IsCaller (authenticate : String → Result User) (header : String) (user : User)
    : Type 0 where
  pub token : String
  pub presented : bearer_token header ≡ some token
  pub accepted : authenticate token ≡ ok user

caller-found :
    (authenticate : String → Result User) (header : String) (user : User)
    → caller authenticate header ≡ inr user
    → IsCaller authenticate header user
unfolding caller
caller-found authenticate header user h = elim (Option-cases (bearer_token header)) [
  | inl e ↦ let bad = rw (e, caller) at h in cc
  | inr (token, e) ↦ elim (Result-cases (authenticate token)) [
    | inl (u, a) ↦
        let same = rw (e, a, caller) at h in
        record { token = token; presented = e; accepted = cc (a, same) }
    | inr (er, a) ↦ let bad = rw (e, a, caller) at h in cc
  ]
]

IsCaller-caller :
    (authenticate : String → Result User) (header : String) (user : User)
    → IsCaller authenticate header user
    → caller authenticate header ≡ inr user
unfolding caller
IsCaller-caller authenticate header user c = rw (c.presented, c.accepted, caller)

-- The head of the HTTP handlers finds a user exactly when the Authorization header holds a
-- bearer token that the authenticator accepts for that user.
pub caller-IsCaller :
    (authenticate : String → Result User) (header : String) (user : User)
    → (caller authenticate header ≡ inr user) ↔ IsCaller authenticate header user
caller-IsCaller authenticate header user =
    (caller-found authenticate header user, IsCaller-caller authenticate header user)

-- The service's answer names the user, under a status 200.
pub record IsConfirmed (call : UserRequest → Result UserResponse) (a : Supabase)
    (access_token : String) (user : User) : Type 0 where
  pub response : UserResponse
  pub answered :
      call (record {
        url = concat (a.base_url ∷ "/auth/v1/user" ∷ []);
        authorization = concat ("Bearer " ∷ access_token ∷ []);
        apikey = a.anon_key;
      })
      ≡ ok response
  pub fine : response.status ≡ 200
  pub decoded : response.body ≡ ok user
  pub named : ¬ (user.id ≡ "")

check_user-ok : (u user : User) → check_user u ≡ ok user → (u ≡ user) × ¬ (user.id ≡ "")
unfolding check_user
check_user-ok u user h = elim (==-cases u.id "") [
  | inl (q, e) ↦ let bad = rw e at h in cc
  | inr e ↦
      let same : u ≡ user = cc (rw e at h) in
      (same, λ q. absurd (true_false (ap (λ (y : User). y.id) same ∙ q) e))
]
  where
    true_false : u.id ≡ "" → (u.id == "") ≡ false → ⊥
    true_false q e = ground (arith, eq_iff u.id "")

check_response-ok :
    (itoa : ℕ → String) (r : UserResponse) (user : User)
    → check_response itoa r ≡ ok user
    → (r.status ≡ 200) × (r.body ≡ ok user) × ¬ (user.id ≡ "")
unfolding check_response
check_response-ok itoa r user h = elim (Bool-cases (nat_eq r.status 200)) [
  | inl e ↦ elim (Result-cases r.body) [
    | inl (u, b) ↦
        let (same, named) = check_user-ok u user (rw (e, b) at h) in
        (ground arith, cc (b, same), named)
    | inr (er, b) ↦ let bad = rw (e, b) at h in cc
  ]
  | inr e ↦ elim (Bool-cases (nat_eq r.status 401 || nat_eq r.status 403)) [
    | inl f ↦ let bad = rw (e, f) at h in cc
    | inr f ↦ let bad = rw (e, f) at h in cc
  ]
]

-- The Supabase authenticator accepts a token for a user only when the service, asked for the
-- user of that token with the project's key, answers with status 200 and a body that decodes to
-- that user, whose id is not empty.
pub authenticate_user-IsConfirmed :
    (itoa : ℕ → String) (call : UserRequest → Result UserResponse) (a : Supabase)
    (access_token : String) (user : User)
    → authenticate_user itoa call a access_token ≡ ok user
    → IsConfirmed call a access_token user
unfolding authenticate_user user_request
authenticate_user-IsConfirmed itoa call a access_token user h =
    elim (Result-cases (call (user_request a access_token))) [
      | inl (r, e) ↦
          let (fine, decoded, named) = check_response-ok itoa r user (rw e at h) in
          record { response = r; answered = e; fine = fine; decoded = decoded; named = named }
      | inr (er, e) ↦ let bad = rw e at h in cc
    ]
