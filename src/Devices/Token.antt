-- ===== src/Devices/Token.antt =====
-- internal/devices/token.go: the issuer and the verifier of device tokens. The JWT library's signing and parsing, for the secret and the
-- method HS256, and jwt.NewNumericDate are parameters. Times are in nanoseconds, but for those of the claims, in seconds.
use deploy_os.Base.{
  ℕ, ◌+◌, ◌*◌, ◌/◌, ◌≤◌, ◌<◌, String, ◌≡◌, sym, ap, ◌∙◌, inl, inr, Bool, true, false, ◌||◌, ◌==◌,
  if◌then◌else◌, ==_false,
}
use deploy_os.Go.Errors.{
  Sentinel, GoError, sentinel, wrap, Result, ok, err, ◌>>=◌, map_error, Result-cases,
}
use deploy_os.Devices.{Device}

abbrev pub err_invalid_token : Sentinel
err_invalid_token = record {
  name = "devices.ErrInvalidToken";
  text = "invalid or expired device token";
}

-- deviceClaims
pub record DeviceClaims : Type 0 where
  pub user_id : String
  pub subject : String
  pub issued_at : ℕ
  pub expires_at : ℕ

abbrev pub second : ℕ
second = 1_000_000_000

claims_of : (ℕ → ℕ) → ℕ → ℕ → Device → DeviceClaims
claims_of numeric_date now ttl d = record {
  user_id = d.user_id;
  subject = d.id;
  issued_at = numeric_date now;
  expires_at = numeric_date (now + ttl);
}

-- JWTTokenIssuer.Issue
unfoldable pub issue :
    (DeviceClaims → Result String) → (ℕ → ℕ) → ℕ → ℕ → Device → Result (String × ℕ)
unfolding claims_of
issue sign numeric_date now ttl d =
    map_error (λ e. wrap "signing device token: " e "") (sign (claims_of numeric_date now ttl d))
    >>= λ token. ok (token, now + ttl)

check_claims : DeviceClaims → Result (String × String)
check_claims c =
    if c.subject == "" || c.user_id == ""
    then err (sentinel err_invalid_token)
    else ok (c.subject, c.user_id)

-- JWTTokenIssuer.Verify, where `parse` is ParseWithClaims with its check of the method, and whether the token is valid
unfoldable pub verify : (String → Result (DeviceClaims × Bool)) → String → Result (String × String)
unfolding check_claims
verify parse token = elim (parse token) [
  | err e ↦ err (sentinel err_invalid_token)
  | ok (claims, false) ↦ err (sentinel err_invalid_token)
  | ok (claims, true) ↦ check_claims claims
]

-- What the library documents: the parser, at some time, gives back the claims of a token that the signer made with
-- the same secret, as long as the token has not expired, and gives an error from then on; and a date is truncated
-- to seconds.
pub record IsJwt (numeric_date : ℕ → ℕ) (sign : DeviceClaims → Result String)
    (parse : ℕ → String → Result (DeviceClaims × Bool)) : Type 0 where
  pub truncates : (t : ℕ) → numeric_date t ≡ t / second
  pub signed :
      (c : DeviceClaims) (token : String) (time : ℕ)
      → sign c ≡ ok token
      → time < c.expires_at * second
      → parse time token ≡ ok (c, true)
  pub expired :
      (c : DeviceClaims) (token : String) (time : ℕ)
      → sign c ≡ ok token
      → c.expires_at * second ≤ time
      → (e : GoError) × (parse time token ≡ err e)

sign-ok :
    (sign : DeviceClaims → Result String) (numeric_date : ℕ → ℕ) (now ttl : ℕ) (d : Device)
    (token : String) (expiry : ℕ)
    → issue sign numeric_date now ttl d ≡ ok (token, expiry)
    → (sign (claims_of numeric_date now ttl d) ≡ ok token) × (expiry ≡ now + ttl)
unfolding issue
sign-ok sign numeric_date now ttl d token expiry h =
    elim (Result-cases (sign (claims_of numeric_date now ttl d))) [
      | inl (made, e) ↦ let g = pair made (rw (e, issue) at h) in (e ∙ ap (λ t. ok t) g.0, sym g.1)
      | inr (er, e) ↦ let bad = rw (e, issue) at h in cc
    ]
  where
    pair :
        (made : String)
        → ◌≡◌ {A = Result (String × ℕ)} (ok (made, now + ttl)) (ok (token, expiry))
        → (made ≡ token) × (now + ttl ≡ expiry)
    pair made q = (cc, cc)

-- Where the JWT library truncates dates to seconds, gives back the claims of a signed token
-- until it expires and gives an error from then on, a token that Issue made for a device, whose
-- id and owner are not empty, verifies as that device and owner at any time before the expiry
-- that Issue returned, truncated to seconds, and is refused with ErrInvalidToken from then on.
pub verify-issue :
    (sign : DeviceClaims → Result String) (parse : ℕ → String → Result (DeviceClaims × Bool))
    (numeric_date : ℕ → ℕ) (now ttl time : ℕ) (d : Device) (token : String) (expiry : ℕ)
    → IsJwt numeric_date sign parse
    → ¬ (d.id ≡ "")
    → ¬ (d.user_id ≡ "")
    → issue sign numeric_date now ttl d ≡ ok (token, expiry)
    → (time < expiry / second * second → verify (parse time) token ≡ ok (d.id, d.user_id))
      × (expiry / second * second ≤ time
          → verify (parse time) token ≡ err (sentinel err_invalid_token))
unfolding verify check_claims claims_of
verify-issue sign parse numeric_date now ttl time d token expiry jwt named owned h =
    let (made, e) = sign-ok sign numeric_date now ttl d token expiry h in
    let c = claims_of numeric_date now ttl d in
    (
      λ early. rw (
        jwt.signed c token time made (rw (jwt.truncates (now + ttl)) (rw e at early)),
        verify,
        ==_false d.id "" named,
        ==_false d.user_id "" owned,
      ),
      λ late.
          let (er, gone) =
            jwt.expired c token time made (rw (jwt.truncates (now + ttl)) (rw e at late)) in
          rw (gone, verify),
    )
