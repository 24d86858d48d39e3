-- ===== src/Devices/Table/Members.antt =====
-- internal/devices/postgres.go, ListByUser: which rows are listed.
use deploy_os.Base.{
  String, ◌≡◌, ◌↔◌, inl, inr, Bool, true, List, [], ◌∷◌, eq_iff, leb, Bool-cases, keep,
}
use deploy_os.Go.Errors.{ok}
use mathlib.Core.List.{Memᴰ}
use mathlib.Core.List.Memᴰ
use deploy_os.Devices.{Device}
use deploy_os.Devices.Table.{Database, place, newest_first, values, owned_by, list_by_user}
use deploy_os.Devices.Table.Listing.{selected-ok}

Mem-place : (x d : Device) (ds : List Device) → Memᴰ x (d ∷ ds) ↔ Memᴰ x (place d ds)
unfolding place
Mem-place x d [] = (λ m. m, λ m. m)
Mem-place x d (y ∷ ds) = elim (Bool-cases (leb y.created_at d.created_at)) [
  | inl e ↦ rw e (λ m. m, λ m. m)
  | inr e ↦
      let (into, back) = Mem-place x d ds in
      rw e (
        λ m. elim (Memᴰ.cases_cons m) [
          | inl same ↦ Memᴰ.tail (into (Memᴰ.head same))
          | inr later ↦ elim (Memᴰ.cases_cons later) [
            | inl same ↦ Memᴰ.head same
            | inr rest ↦ Memᴰ.tail (into (Memᴰ.tail rest))
          ]
        ],
        λ m. elim (Memᴰ.cases_cons m) [
          | inl same ↦ Memᴰ.tail (Memᴰ.head same)
          | inr later ↦ elim (Memᴰ.cases_cons (back later)) [
            | inl same ↦ Memᴰ.head same
            | inr rest ↦ Memᴰ.tail (Memᴰ.tail rest)
          ]
        ],
      )
]

Mem-newest_first : (x : Device) (ds : List Device) → Memᴰ x ds ↔ Memᴰ x (newest_first ds)
unfolding newest_first
Mem-newest_first x [] = (λ m. m, λ m. m)
Mem-newest_first x (d ∷ ds) =
    let (into, back) = Mem-newest_first x ds in
    let (place_into, place_back) = Mem-place x d (newest_first ds) in
    (
      λ m. place_into (elim (Memᴰ.cases_cons m) [
        | inl same ↦ Memᴰ.head same
        | inr later ↦ Memᴰ.tail (into later)
      ]),
      λ m. elim (Memᴰ.cases_cons (place_back m)) [
        | inl same ↦ Memᴰ.head same
        | inr later ↦ Memᴰ.tail (back later)
      ],
    )

Mem-keep :
    (p : Device → Bool) (x : Device) (ds : List Device)
    → (Memᴰ x ds × (p x ≡ true)) ↔ Memᴰ x (keep p ds)
Mem-keep p x [] = (λ h. h.0, λ m. elim m [ ])
Mem-keep p x (d ∷ ds) =
    let (into, back) = Mem-keep p x ds in
    elim (Bool-cases (p d)) [
      | inl e ↦ rw e (
        λ (m, h). elim (Memᴰ.cases_cons m) [
          | inl same ↦ Memᴰ.head same
          | inr later ↦ Memᴰ.tail (into (later, h))
        ],
        λ m. elim (Memᴰ.cases_cons m) [
          | inl same ↦ (Memᴰ.head same, rw same e)
          | inr later ↦ let (there, h) = back later in (Memᴰ.tail there, h)
        ],
      )
      | inr e ↦ rw e (
        λ (m, h). elim (Memᴰ.cases_cons m) [
          | inl same ↦ let bad : p d ≡ true = rw⁻¹ same h in cc
          | inr later ↦ into (later, h)
        ],
        λ m. let (there, h) = back m in (Memᴰ.tail there, h),
      )
    ]

-- A device is in a listing exactly when it is a row of the user.
pub Mem-list_by_user :
    (user_id : String) (db : Database) (ds : List Device) (x : Device)
    → list_by_user user_id db ≡ ok ds
    → (Memᴰ x (values db.rows) × (x.user_id ≡ user_id)) ↔ Memᴰ x ds
unfolding list_by_user owned_by
Mem-list_by_user user_id db ds x h =
    let rows = keep (owned_by user_id) (values db.rows) in
    let q = selected-ok db.failure (newest_first rows) ds h in
    let (into, back) = Mem-newest_first x rows in
    let (kept, unkept) = Mem-keep (owned_by user_id) x (values db.rows) in
    (
      λ (m, own). rw q (into (kept (m, (eq_iff x.user_id user_id).1 own))),
      λ m.
          let (there, own) = unkept (back (rw q at m)) in (there, (eq_iff x.user_id user_id).0 own),
    )
