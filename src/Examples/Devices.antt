-- ===== src/Examples/Devices.antt =====
-- Devices, their registration and the authorization of commands at concrete inputs.
use deploy_os.Base.{
  ℕ, String, concat, ◌≡◌, refl, Bool, ◌||◌, Option, none, some, List, [], ◌∷◌, arith, eq_iff, ◌==◌,
  if◌then◌else◌, keep,
}
use deploy_os.Go.Errors.{GoError, other, Result, ok, err}
use deploy_os.Auth.{User, success, IsCaller, bearer_token}
use deploy_os.Devices.{Device, RegisterInput, IsComplete}
use deploy_os.Devices.Service.{RegisterResult, device_of}
use deploy_os.Devices.Table.{Database, upsert, list_by_user, repository, owned_by, values}
use deploy_os.Devices.Table.Owner.{IsTable, Upsert, upsert-Upsert, IsSameOwner}
use deploy_os.Devices.Table.Listing.{IsNewestFirst, count, list_by_user-IsNewestFirst}
use deploy_os.Devices.Handler.{RegisterResponse, register_device}
use deploy_os.Devices.Handler.Ownership.{
  IsCreated, register_device-IsCreated, register_device-IsSameOwner,
}
use deploy_os.Go.Map.{lookup}
use deploy_os.Go.Integer.{pos}

-- A parser that knows two ids, a directory of two users, and an issuer.
abbrev parse_id : String → Result (Unit {0})
parse_id s = if s == "d-1" || s == "d-2" then ok tt else err (other "invalid UUID length: 1")

abbrev pub ann : User
ann = record { id = "u-1"; email = "ann@example.com" }

abbrev pub bob : User
bob = record { id = "u-2"; email = "bob@example.com" }

abbrev pub directory : String → Result User
directory token =
    if token == "ann"
    then ok ann
    else if token == "bob"
    then ok bob
    else err (other "no such token")

abbrev issue_token : Device → Result (String × ℕ)
issue_token d = ok (concat ("token of " ∷ d.id ∷ []), 1000)

abbrev input : String → RegisterInput
input id = record {
  device_id = id;
  hostname = "box";
  operating_system = "linux";
  architecture = "amd64";
  cpu_cores = pos 4;
  memory_bytes = 1024;
  deployos_version = "0.1.0";
}

abbrev device : String → String → ℕ → Device
device id user_id time = record (device_of user_id (input id)) {
  created_at = time;
  updated_at = time;
}

abbrev pub table : Database
table = record { rows = ("d-1", device "d-1" "u-1" 5) ∷ []; now = 9; failure = none }

pub table-IsTable : IsTable table
unfolding lookup
table-IsTable = record { keys = (refl, tt); own = (refl, tt) }

input-IsComplete : IsComplete parse_id (input "d-1")
input-IsComplete = record {
  named = λ q. ground (arith, eq_iff "d-1" "");
  uuid = refl;
  host = λ q. ground (arith, eq_iff "box" "");
  system = λ q. ground (arith, eq_iff "linux" "");
  machine = λ q. ground (arith, eq_iff "amd64" "");
  cores = refl;
  memory = λ q. omega (arith, q);
  version = λ q. ground (arith, eq_iff "0.1.0" "");
}

abbrev after_register : Database
after_register = record table {
  rows = ("d-1", record (device "d-1" "u-1" 5) { updated_at = 9 }) ∷ [];
}

abbrev registered_again : RegisterResult
registered_again = record {
  device = record (device "d-1" "u-1" 5) { updated_at = 9 };
  token = "token of d-1";
  expires_at = 1000;
}

upsert-Upsert_example : Upsert (device "d-1" "u-2" 0) table (upsert (device "d-1" "u-2" 0) table)
upsert-Upsert_example = upsert-Upsert (device "d-1" "u-2" 0) table

abbrev calls : List (ℕ × Option GoError × Device)
calls =
    (10, none, device "d-2" "u-2" 0)
    ∷ (11, some (other "connection refused"), device "d-1" "u-1" 0)
    ∷ (12, none, device "d-1" "u-2" 0)
    ∷ []

first_row : lookup "d-1" table.rows ≡ some (device "d-1" "u-1" 5)
unfolding lookup
first_row = refl

abbrev two_rows : Database
two_rows = record {
  rows = ("d-1", device "d-1" "u-1" 5) ∷ ("d-2", device "d-2" "u-1" 7) ∷ [];
  now = 9;
  failure = none;
}

listed_two : list_by_user "u-1" two_rows ≡ ok (device "d-2" "u-1" 7 ∷ device "d-1" "u-1" 5 ∷ [])
unfolding list_by_user
listed_two = refl

list_by_user-IsNewestFirst_example :
    IsNewestFirst (device "d-2" "u-1" 7 ∷ device "d-1" "u-1" 5 ∷ [])
    × ((p : Device → Bool)
        → count p (device "d-2" "u-1" 7 ∷ device "d-1" "u-1" 5 ∷ [])
          ≡ count p (keep (owned_by "u-1") (values two_rows.rows)))
list_by_user-IsNewestFirst_example =
    list_by_user-IsNewestFirst "u-1" two_rows (device "d-2" "u-1" 7 ∷ device "d-1" "u-1" 5 ∷ [])
      listed_two

named : ¬ (bob.id ≡ "")
named q = ground (arith, eq_iff "u-2" "")

ann_calls : IsCaller directory "Bearer ann" ann
unfolding bearer_token
ann_calls = record { token = "ann"; presented = refl; accepted = refl }

bob_calls : IsCaller directory "Bearer  bob " bob
unfolding bearer_token
bob_calls = record { token = "bob"; presented = refl; accepted = refl }

abbrev reply : RegisterResponse
reply = record { device_id = "d-1"; token = "token of d-1"; expires_at = 1000 }

ann_registers :
    register_device repository issue_token parse_id directory "Bearer ann"
      (some (input "d-1"))
      table
    ≡ (after_register, success 201 reply)
unfolding register_device upsert lookup deploy_os.Go.Map.insert
ann_registers = refl

register_device-IsCreated_example :
    IsCreated issue_token parse_id directory "Bearer ann" (input "d-1") table after_register reply
register_device-IsCreated_example =
    register_device-IsCreated issue_token parse_id directory "Bearer ann" (input "d-1") table
      after_register reply ann_registers

other_user : ¬ (ann.id ≡ bob.id)
other_user q = ground (arith, eq_iff "u-1" "u-2")

register_device-IsSameOwner_example : IsSameOwner (device "d-1" "u-1" 5) (
    lookup "d-1"
      (register_device repository issue_token parse_id directory "Bearer ann"
        (some (input "d-1"))
        table).0.rows)
register_device-IsSameOwner_example =
    register_device-IsSameOwner issue_token parse_id directory "Bearer ann" (some (input "d-1"))
      "d-1" (device "d-1" "u-1" 5) table first_row
