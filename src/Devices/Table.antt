-- ===== src/Devices/Table.antt =====
-- internal/devices/postgres.go: the table `devices`, its rows by primary key, and the two statements on it. Rows with
-- the same created_at are listed in one of the orders that the statement allows. `now` is the time of the
-- transaction, and `failure` what the pool reports while the database is out of reach. The columns id and user_id are
-- of type uuid, which has one spelling for each value: the texts here are in that spelling.
pub mod Owner
pub mod Listing
pub mod Members
use deploy_os.Base.{
  ℕ, String, Bool, Option, none, some, List, [], ◌∷◌, leb, ◌==◌, if◌then◌else◌, keep,
}
use deploy_os.Go.Errors.{GoError, sentinel, Result, ok, err}
use deploy_os.Go.Map.{GoMap, lookup, insert, IsMap, lookup-insert, insert-IsMap}
use deploy_os.Devices.{Device, RegisterInput, err_owned_by_another_user, prefixed}
use deploy_os.Devices.Service.{Repository, list, is_owner}
use deploy_os.Go.Integer.{ℤ}

pub record Database : Type 0 where
  pub rows : List (String × Device)
  pub now : ℕ
  pub failure : Option GoError

-- A row that the INSERT makes, by the columns' defaults.
unfoldable pub inserted : ℕ → Device → Device
inserted now d = record d { created_at = now; updated_at = now }

-- DO UPDATE SET
unfoldable pub updated : ℕ → Device → Device → Device
updated now old d = record old {
  hostname = d.hostname;
  operating_system = d.operating_system;
  architecture = d.architecture;
  cpu_cores = d.cpu_cores;
  memory_bytes = d.memory_bytes;
  deployos_version = d.deployos_version;
  updated_at = now;
}

unfoldable pub put : Device → Database → Database × Result Device
put d db = (record db { rows = insert d.id d db.rows }, ok d)

-- ON CONFLICT (id), with its WHERE. No row comes back when the guard fails.
unfoldable pub on_conflict : Device → Option Device → Database → Database × Result Device
unfolding put inserted updated
on_conflict d none db = put (inserted db.now d) db
on_conflict d (some old) db =
    if old.user_id == d.user_id
    then (
      record db { rows = insert d.id (updated db.now old d) db.rows },
      ok (updated db.now old d),
    )
    else (db, err (sentinel err_owned_by_another_user))

-- The Query's answer, and what is made of it.
unfoldable pub upsert_after : Option GoError → Device → Database → Database × Result Device
unfolding on_conflict
upsert_after none d db = on_conflict d (lookup d.id db.rows) db
upsert_after (some e) d db = (db, err (prefixed "upserting device: " e))

-- PostgresRepository.Upsert
unfoldable pub upsert : Device → Database → Database × Result Device
unfolding upsert_after
upsert d db = upsert_after db.failure d db

-- A device in front of those that are not newer: ORDER BY created_at DESC.
unfoldable pub place : Device → List Device → List Device
place d [] = d ∷ []
place d (x ∷ xs) = if leb x.created_at d.created_at then d ∷ x ∷ xs else x ∷ place d xs

unfoldable pub newest_first : List Device → List Device
unfolding place
newest_first [] = []
newest_first (d ∷ ds) = place d (newest_first ds)

unfoldable pub values : List (String × Device) → List Device
values [] = []
values ((k, d) ∷ rows) = d ∷ values rows

unfoldable pub owned_by : String → Device → Bool
owned_by user_id d = d.user_id == user_id

unfoldable pub selected : Option GoError → List Device → Result (List Device)
selected none devices = ok devices
selected (some e) devices = err (prefixed "listing devices: " e)

-- PostgresRepository.ListByUser
unfoldable pub list_by_user : String → Database → Result (List Device)
unfolding newest_first values owned_by selected
list_by_user user_id db =
    selected db.failure (newest_first (keep (owned_by user_id) (values db.rows)))

abbrev pub repository : Repository Database
repository = record { upsert = upsert; list_by_user = list_by_user }
