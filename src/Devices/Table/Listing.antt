-- ===== src/Devices/Table/Listing.antt =====
-- internal/devices/postgres.go, ListByUser, and internal/devices/service.go, IsOwner, on the table.
use deploy_os.Base.{
  ℕ, ◌≤◌, String, ◌≡◌, refl, ap, ◌∙◌, inl, inr, Bool, true, false, Option, none, some, List, [],
  ◌∷◌, arith, eq_iff, leb, ◌==◌, Bool-cases, ==-cases, ==_false, length, any, keep, All,
}
use deploy_os.Go.Errors.{GoError, ok}
use deploy_os.Devices.Table.{
  Database, place, newest_first, values, owned_by, selected, list_by_user, repository,
}
use deploy_os.Go.Map.{lookup, IsMap}
use deploy_os.Devices.{Device}
use deploy_os.Devices.Service.{list, is_owner}
use deploy_os.Devices.Table.Owner.{IsTable}

-- No device is newer than one in front of it.
pub IsNewestFirst : List Device → Type 0
IsNewestFirst [] = Unit
IsNewestFirst (d ∷ ds) = All (λ (x : Device). x.created_at ≤ d.created_at) ds × IsNewestFirst ds

older-All :
    (a b : ℕ) (ds : List Device)
    → a ≤ b
    → All (λ (x : Device). x.created_at ≤ a) ds
    → All (λ (x : Device). x.created_at ≤ b) ds
older-All a b [] h all_of = tt
older-All a b (x ∷ ds) h all_of = (omega (arith, h, all_of.0), older-All a b ds h all_of.1)

place-All :
    (n : ℕ) (d : Device) (ds : List Device)
    → d.created_at ≤ n
    → All (λ (x : Device). x.created_at ≤ n) ds
    → All (λ (x : Device). x.created_at ≤ n) (place d ds)
unfolding place
place-All n d [] h all_of = (h, tt)
place-All n d (x ∷ ds) h all_of = elim (Bool-cases (leb x.created_at d.created_at)) [
  | inl e ↦ rw e (h, all_of)
  | inr e ↦ rw e (all_of.0, place-All n d ds h all_of.1)
]

place-IsNewestFirst :
    (d : Device) (ds : List Device) → IsNewestFirst ds → IsNewestFirst (place d ds)
unfolding place IsNewestFirst
place-IsNewestFirst d [] h = (tt, tt)
place-IsNewestFirst d (x ∷ ds) h = elim (Bool-cases (leb x.created_at d.created_at)) [
  | inl e ↦
      let below : x.created_at ≤ d.created_at = ground arith in
      rw e ((below, older-All x.created_at d.created_at ds below h.0), h)
  | inr e ↦ rw e (place-All x.created_at d ds (ground arith) h.0, place-IsNewestFirst d ds h.1)
]

newest_first-IsNewestFirst : (ds : List Device) → IsNewestFirst (newest_first ds)
unfolding newest_first IsNewestFirst
newest_first-IsNewestFirst [] = tt
newest_first-IsNewestFirst (d ∷ ds) =
    place-IsNewestFirst d (newest_first ds) (newest_first-IsNewestFirst ds)

-- How many devices pass a test.
abbrev pub count : (Device → Bool) → List Device → ℕ
count p ds = length (keep p ds)

count-place :
    (p : Device → Bool) (d : Device) (ds : List Device) → count p (place d ds) ≡ count p (d ∷ ds)
unfolding place
count-place p d [] = refl
count-place p d (x ∷ ds) = ground (arith, count-place p d ds)

count-newest_first : (p : Device → Bool) (ds : List Device) → count p (newest_first ds) ≡ count p ds
unfolding newest_first
count-newest_first p [] = refl
count-newest_first p (d ∷ ds) =
    ground (arith, count-place p d (newest_first ds), count-newest_first p ds)

any-place :
    (p : Device → Bool) (d : Device) (ds : List Device) → any p (place d ds) ≡ any p (d ∷ ds)
unfolding place
any-place p d [] = refl
any-place p d (x ∷ ds) = ground (arith, any-place p d ds)

any-newest_first : (p : Device → Bool) (ds : List Device) → any p (newest_first ds) ≡ any p ds
unfolding newest_first
any-newest_first p [] = refl
any-newest_first p (d ∷ ds) = ground (arith, any-place p d (newest_first ds), any-newest_first p ds)

pub selected-ok :
    (o : Option GoError) (found ds : List Device) → selected o found ≡ ok ds → ds ≡ found
unfolding selected
selected-ok none found ds h = cc
selected-ok (some e) found ds h = cc

-- A listing that succeeds goes from the newest device to the oldest, and holds, counted by any
-- test, the rows of the user and no other.
pub list_by_user-IsNewestFirst :
    (user_id : String) (db : Database) (ds : List Device)
    → list_by_user user_id db ≡ ok ds
    → IsNewestFirst ds
      × ((p : Device → Bool) → count p ds ≡ count p (keep (owned_by user_id) (values db.rows)))
unfolding list_by_user
list_by_user-IsNewestFirst user_id db ds h =
    let rows = keep (owned_by user_id) (values db.rows) in
    let q = selected-ok db.failure (newest_first rows) ds h in
    (rw q (newest_first-IsNewestFirst rows), λ p. rw q (count-newest_first p rows))

-- Whether a row is there and belongs to the user.
abbrev pub owns : String → Option Device → Bool
owns user_id none = false
owns user_id (some d) = d.user_id == user_id

absent-any :
    (user_id id : String) (rows : List (String × Device))
    → lookup id rows ≡ none
    → All (λ (row : String × Device). row.1.id ≡ row.0) rows
    → any (λ d. d.id == id) (keep (owned_by user_id) (values rows)) ≡ false
unfolding lookup values owned_by
absent-any user_id id [] h own = refl
absent-any user_id id ((k, d) ∷ rows) h own =
    ground (arith, eq_iff k id, eq_iff d.id id, own.0, absent-any user_id id rows, own.1)

any-owns :
    (user_id id : String) (rows : List (String × Device))
    → IsMap rows
    → All (λ (row : String × Device). row.1.id ≡ row.0) rows
    → any (λ d. d.id == id) (keep (owned_by user_id) (values rows)) ≡ owns user_id (lookup id rows)
unfolding lookup values owned_by
any-owns user_id id [] m own = refl
any-owns user_id id ((k, d) ∷ rows) m own = elim (==-cases k id) [
  | inl (same, e) ↦
      let gone = absent-any user_id id rows (cc (m.0, ap (λ key. lookup key rows) same)) own.1 in
      let here : (d.id == id) ≡ true = (eq_iff d.id id).1 (own.0 ∙ same) in
      rw e (ground (arith, gone, here))
  | inr e ↦
      let apart : (d.id == id) ≡ false = rw own.0 e in
      let others = any-owns user_id id rows m.1 own.1 in rw e (ground (arith, apart, others))
]

-- On a table in reach whose rows stand once and under their own ids, and for a user id that is
-- not empty, IsOwner answers whether the row of the device is there and belongs to the user.
pub is_owner-owns :
    (user_id id : String) (db : Database)
    → IsTable db
    → ¬ (user_id ≡ "")
    → db.failure ≡ none
    → is_owner repository user_id id db ≡ ok (owns user_id (lookup id db.rows))
unfolding is_owner list list_by_user selected
is_owner-owns user_id id db t user reach = rw (
  ==_false user_id "" user,
  reach,
  any-newest_first (λ d. d.id == id) (keep (owned_by user_id) (values db.rows)),
  any-owns user_id id db.rows t.keys t.own,
)
