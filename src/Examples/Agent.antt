-- ===== src/Examples/Agent.antt =====
-- The agent's identity and the device tokens at concrete inputs.
use deploy_os.Base.{
  ℕ, ◌*◌, ◌/◌, ◌≤◌, ◌<◌, String, ◌≡◌, refl, ap, ◌⊎◌, inl, inr, Bool, true, false, ◌&&◌, none, [],
  ◌∷◌, arith, eq_iff, ltb, nat_eq, ◌==◌, if◌then◌else◌, Bool-cases,
}
use deploy_os.Go.Errors.{GoError, sentinel, other, Result, ok, err}
use deploy_os.Devices.{Device, status_registered}
use deploy_os.Devices.Token.{
  DeviceClaims, issue, verify, IsJwt, second, err_invalid_token, verify-issue,
}
use deploy_os.Agent.Identity.{Disk, load_or_create_device_id, persist_device_token, IsTrimmed}
use deploy_os.Go.Text.{trim_space}
use deploy_os.Go.Map.{lookup, insert}
use deploy_os.Go.Integer.{pos}

abbrev pub disk : Disk
disk = record {
  files = [];
  unreadable = λ name. none;
  no_directory = none;
  unwritable = λ name. none;
}

abbrev with_id : Disk
with_id = record disk { files = ("device_id", "7b1c") ∷ [] }

id-IsTrimmed : IsTrimmed "7b1c"
unfolding trim_space
id-IsTrimmed = record { ends = refl; some_text = λ q. ground (arith, eq_iff "7b1c" "") }

first_load : load_or_create_device_id "7b1c" disk ≡ (with_id, ok "7b1c")
unfolding load_or_create_device_id lookup insert
first_load = refl

abbrev with_token : Disk
with_token = record with_id { files = ("device_id", "7b1c") ∷ ("device_token", "jwt") ∷ [] }

pub token-IsTrimmed : IsTrimmed "jwt"
unfolding trim_space
token-IsTrimmed = record { ends = refl; some_text = λ q. ground (arith, eq_iff "jwt" "") }

persisted : persist_device_token "jwt" with_id ≡ (with_token, ok tt)
unfolding persist_device_token insert
persisted = refl

-- A signer of the claims of one device, and its parser.
abbrev claims : DeviceClaims
claims = record { user_id = "u-1"; subject = "d-1"; issued_at = 100; expires_at = 200 }

abbrev is_claims : DeviceClaims → Bool
is_claims c =
    c.user_id == "u-1" && c.subject == "d-1" && nat_eq c.issued_at 100 && nat_eq c.expires_at 200

-- An issue half a second behind a whole one, for a hundred seconds, and some time in between.
abbrev pub now : ℕ
now = 100_500_000_000

abbrev pub ttl : ℕ
ttl = 100_000_000_000

abbrev pub expiry : ℕ
expiry = 200_500_000_000

-- jwt.NewNumericDate
abbrev pub numeric_date : ℕ → ℕ
numeric_date t = t / second

abbrev pub in_between : ℕ
in_between = 150_000_000_000

abbrev pub sign : DeviceClaims → Result String
sign c = if is_claims c then ok "jwt" else err (other "no key")

abbrev pub parse : ℕ → String → Result (DeviceClaims × Bool)
parse time token =
    if token == "jwt" && ltb time (200 * second)
    then ok (claims, true)
    else err (other "token is expired")

same_claims : (c : DeviceClaims) → is_claims c ≡ true → c ≡ claims
same_claims c h =
    let u : c.user_id ≡ "u-1" = ground (arith, eq_iff c.user_id "u-1") in
    let s : c.subject ≡ "d-1" = ground (arith, eq_iff c.subject "d-1") in
    let i : c.issued_at ≡ 100 = ground arith in
    let x : c.expires_at ≡ 200 = ground arith in cc (u, s, i, x)

pub jwt : IsJwt numeric_date sign parse
jwt = record {
  truncates = λ t. refl;
  signed = λ c token time h early. made c token time (Bool-cases (is_claims c)) h early;
  expired = λ c token time h late. gone c token time (Bool-cases (is_claims c)) h late;
}
  where
    text : {a b : String} → ok a ≡ ok b → a ≡ b
    text q = cc

    soon : (a b : ℕ) → a < b * second → b ≡ 200 → ltb a (200 * second) ≡ true
    soon a b h e = ground arith

    past : (a b : ℕ) → b * second ≤ a → b ≡ 200 → ltb a (200 * second) ≡ false
    past a b h e = ground arith

    gone :
        (c : DeviceClaims) (token : String) (time : ℕ)
        → (is_claims c ≡ true) ⊎ (is_claims c ≡ false)
        → sign c ≡ ok token
        → c.expires_at * second ≤ time
        → (e : GoError) × (parse time token ≡ err e)
    gone c token time (inl e) h late =
        let same = same_claims c e in
        let named : "jwt" ≡ token = text (rw e at h) in
        let above : ltb time (200 * second) ≡ false =
          past time c.expires_at late (ap (λ (y : DeviceClaims). y.expires_at) same) in
        (other "token is expired", rw⁻¹ named (rw above refl))
    gone c token time (inr e) h late = let bad = rw e at h in cc

    made :
        (c : DeviceClaims) (token : String) (time : ℕ)
        → (is_claims c ≡ true) ⊎ (is_claims c ≡ false)
        → sign c ≡ ok token
        → time < c.expires_at * second
        → parse time token ≡ ok (c, true)
    made c token time (inl e) h early =
        let same = same_claims c e in
        let named : "jwt" ≡ token = text (rw e at h) in
        let below : ltb time (200 * second) ≡ true =
          soon time c.expires_at early (ap (λ (y : DeviceClaims). y.expires_at) same) in
        rw⁻¹ named (rw (below, same) refl)
    made c token time (inr e) h early = let bad = rw e at h in cc

abbrev laptop : Device
laptop = record {
  id = "d-1";
  user_id = "u-1";
  hostname = "box";
  operating_system = "linux";
  architecture = "amd64";
  cpu_cores = pos 4;
  memory_bytes = 1024;
  deployos_version = "0.1.0";
  status = status_registered;
  created_at = 5;
  updated_at = 5;
}

issued_token : issue sign numeric_date now ttl laptop ≡ ok ("jwt", expiry)
unfolding issue
issued_token = refl

named_device : ¬ (laptop.id ≡ "")
named_device q = ground (arith, eq_iff laptop.id "")

owned_device : ¬ (laptop.user_id ≡ "")
owned_device q = ground (arith, eq_iff laptop.user_id "")

verify-issue_example :
    (in_between < expiry / second * second → verify (parse in_between) "jwt" ≡ ok ("d-1", "u-1"))
    × (expiry / second * second ≤ in_between
        → verify (parse in_between) "jwt" ≡ err (sentinel err_invalid_token))
verify-issue_example =
    verify-issue sign parse numeric_date now ttl in_between laptop "jwt" expiry jwt named_device
      owned_device issued_token
