-- ===== src/Devices/Table/Owner.antt =====
-- internal/devices/postgres.go, Upsert: each branch, the table it leaves, and that a device never changes hands.
use deploy_os.Base.{
  ℕ, String, ◌≡◌, refl, ap, ◌∙◌, inl, inr, true, Option, none, some, List, [], ◌∷◌, arith, eq_iff,
  ◌==◌, Bool-cases, some_inj, ==-cases, All,
}
use deploy_os.Go.Errors.{GoError, sentinel, Result, ok, err}
use deploy_os.Devices.Table.{Database, inserted, updated, put, on_conflict, upsert_after, upsert}
use deploy_os.Go.Map.{lookup, insert, IsMap, lookup-insert, insert-IsMap}
use deploy_os.Devices.{Device, err_owned_by_another_user, prefixed}

-- Every row stands under its own id, each id once.
pub record IsTable (db : Database) : Type 0 where
  pub keys : IsMap db.rows
  pub own : All (λ (row : String × Device). row.1.id ≡ row.0) db.rows

insert-own :
    (k : String) (d : Device) (rows : List (String × Device))
    → d.id ≡ k
    → All (λ (row : String × Device). row.1.id ≡ row.0) rows
    → All (λ (row : String × Device). row.1.id ≡ row.0) (insert k d rows)
unfolding insert
insert-own k d [] q h = (q, tt)
insert-own k d ((j, x) ∷ rows) q h = elim (==-cases j k) [
  | inl (same, e) ↦ rw e (q, h.1)
  | inr e ↦ rw e (h.0, insert-own k d rows q h.1)
]

pub lookup-own :
    (k : String) (d : Device) (rows : List (String × Device))
    → All (λ (row : String × Device). row.1.id ≡ row.0) rows
    → lookup k rows ≡ some d
    → d.id ≡ k
unfolding lookup
lookup-own k d [] h e = cc
lookup-own k d ((j, x) ∷ rows) h e = elim (==-cases j k) [
  | inl (same, q) ↦ let found = some_inj (rw q at e) in cc (h.0, found, same)
  | inr q ↦ lookup-own k d rows h.1 (rw q at e)
]

put-IsTable :
    (k : String) (d : Device) (db : Database)
    → d.id ≡ k
    → IsTable db
    → IsTable (record db { rows = insert k d db.rows })
put-IsTable k d db q t = record {
  keys = insert-IsMap k d db.rows t.keys;
  own = insert-own k d db.rows q t.own;
}

-- What an upsert does, row by row.
pub data Upsert (d : Device) (db : Database) : Database × Result Device → Type 0 where
  unreached :
      (e : GoError) → db.failure ≡ some e → Upsert d db (db, err (prefixed "upserting device: " e))
  created :
      (new : Device)
      → db.failure ≡ none
      → lookup d.id db.rows ≡ none
      → new ≡ record d { created_at = db.now; updated_at = db.now }
      → Upsert d db (record db { rows = insert d.id new db.rows }, ok new)
  refreshed :
      (old new : Device)
      → db.failure ≡ none
      → lookup d.id db.rows ≡ some old
      → old.user_id ≡ d.user_id
      → new ≡ record d {
        id = old.id;
        user_id = old.user_id;
        status = old.status;
        created_at = old.created_at;
        updated_at = db.now;
      }
      → Upsert d db (record db { rows = insert d.id new db.rows }, ok new)
  refused :
      (old : Device)
      → db.failure ≡ none
      → lookup d.id db.rows ≡ some old
      → ¬ (old.user_id ≡ d.user_id)
      → Upsert d db (db, err (sentinel err_owned_by_another_user))

conflict-Upsert :
    (d : Device) (db : Database) (o : Option Device)
    → db.failure ≡ none
    → lookup d.id db.rows ≡ o
    → Upsert d db (on_conflict d o db)
unfolding on_conflict put inserted updated
conflict-Upsert d db none f e =
    created (record d { created_at = db.now; updated_at = db.now }) f e refl
conflict-Upsert d db (some old) f e = elim (==-cases old.user_id d.user_id) [
  | inl (q, same) ↦ rw same (refreshed old (updated db.now old d) f e q refl)
  | inr differs ↦ rw differs (refused old f e (λ q. ground (arith, eq_iff old.user_id d.user_id)))
]

after-Upsert :
    (d : Device) (db : Database) (o : Option GoError)
    → db.failure ≡ o
    → Upsert d db (upsert_after o d db)
unfolding upsert_after
after-Upsert d db none e = conflict-Upsert d db (lookup d.id db.rows) e refl
after-Upsert d db (some er) e = unreached er e

-- Upsert fails with the database's error and changes nothing; or inserts the device with the
-- present time where there is no row of its id; or, where the row is the same user's, replaces
-- it and keeps its id, owner, status and time of creation; or, where the row is another user's,
-- returns ErrOwnedByAnotherUser and changes nothing. The device it returns is the row it left.
pub upsert-Upsert : (d : Device) (db : Database) → Upsert d db (upsert d db)
unfolding upsert
upsert-Upsert d db = after-Upsert d db db.failure refl

pub upserted-IsTable :
    (d : Device) (db : Database) (x : Database × Result Device)
    → IsTable db
    → Upsert d db x
    → IsTable x.0
upserted-IsTable d db x t (unreached e f) = t
upserted-IsTable d db x t (created new f e q) =
    put-IsTable d.id new db (ap (λ (y : Device). y.id) q) t
upserted-IsTable d db x t (refreshed old new f e o q) =
    put-IsTable d.id new db (ap (λ (y : Device). y.id) q ∙ lookup-own d.id old db.rows t.own e) t
upserted-IsTable d db x t (refused old f e o) = t

-- A row with this owner and creation time.
abbrev pub IsSameOwner : Device → Option Device → Type 0
IsSameOwner row none = ⊥
IsSameOwner row (some later) = (later.user_id ≡ row.user_id) × (later.created_at ≡ row.created_at)

inserted-IsSameOwner :
    (k key : String) (row new : Device) (rows : List (String × Device))
    → lookup k rows ≡ some row
    → ((key == k) ≡ true → IsSameOwner row (some new))
    → IsSameOwner row (lookup k (insert key new rows))
inserted-IsSameOwner k key row new rows e h = elim (Bool-cases (key == k)) [
  | inl same ↦ rw (lookup-insert, same) (h same)
  | inr other_key ↦ rw (lookup-insert, other_key, e) (refl, refl)
]

pub upserted-IsSameOwner :
    (k : String) (row d : Device) (db : Database) (x : Database × Result Device)
    → lookup k db.rows ≡ some row
    → Upsert d db x
    → IsSameOwner row (lookup k x.0.rows)
upserted-IsSameOwner k row d db x e (unreached er f) = rw e (refl, refl)
upserted-IsSameOwner k row d db x e (created new f absent q) =
    inserted-IsSameOwner k d.id row new db.rows e
      (λ same. absurd_of (cc (absent, e, (eq_iff d.id k).0 same)))
  where
    absurd_of : none ≡ some row → IsSameOwner row (some new)
    absurd_of bad = cc
upserted-IsSameOwner k row d db x e (refreshed old new f o same_user q) =
    inserted-IsSameOwner k d.id row new db.rows e (λ same.
      let one = some_inj {a = old} {b = row} (cc (o, e, (eq_iff d.id k).0 same)) in
      (
        cc (ap (λ (y : Device). y.user_id) q, ap (λ (y : Device). y.user_id) one),
        cc (ap (λ (y : Device). y.created_at) q, ap (λ (y : Device). y.created_at) one),
      ))
upserted-IsSameOwner k row d db x e (refused old f o q) = rw e (refl, refl)

-- Calls of Upsert, the time and the database's answer set anew in front of each.
pub upserts : List (ℕ × Option GoError × Device) → Database → Database
upserts [] db = db
upserts ((now, failure, d) ∷ calls) db =
    upserts calls (upsert d (record db { now = now; failure = failure })).0

-- Calls of Upsert keep a table in which each id has one row and each row stands under its own
-- id.
pub upserts-IsTable :
    (calls : List (ℕ × Option GoError × Device)) (db : Database)
    → IsTable db
    → IsTable (upserts calls db)
unfolding upserts
upserts-IsTable [] db t = t
upserts-IsTable ((now, failure, d) ∷ calls) db t =
    let start = record db { now = now; failure = failure } in
    upserts-IsTable calls (upsert d start).0 (
      upserted-IsTable d start (upsert d start) (record { keys = t.keys; own = t.own })
        (upsert-Upsert d start))

IsSameOwner-trans :
    (row : Device) (o p : Option Device)
    → IsSameOwner row o
    → ((later : Device) → o ≡ some later → IsSameOwner later p)
    → IsSameOwner row p
IsSameOwner-trans row none p h f = absurd h
IsSameOwner-trans row (some later) none h f = f later refl
IsSameOwner-trans row (some later) (some last) h f = let (u, c) = f later refl in (u ∙ h.0, c ∙ h.1)

-- Over any calls of Upsert, at any times and with the database in reach or not, a row keeps its
-- owner and its time of creation.
pub upserts-IsSameOwner :
    (calls : List (ℕ × Option GoError × Device)) (k : String) (row : Device) (db : Database)
    → lookup k db.rows ≡ some row
    → IsSameOwner row (lookup k (upserts calls db).rows)
unfolding upserts
upserts-IsSameOwner [] k row db e = rw e (refl, refl)
upserts-IsSameOwner ((now, failure, d) ∷ calls) k row db e =
    let start = record db { now = now; failure = failure } in
    IsSameOwner-trans row (lookup k (upsert d start).0.rows)
      (lookup k (upserts calls (upsert d start).0).rows)
      (upserted-IsSameOwner k row d start (upsert d start) e (upsert-Upsert d start))
      (λ later q. upserts-IsSameOwner calls k later (upsert d start).0 q)
