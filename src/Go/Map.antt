-- ===== src/Go/Map.antt =====
-- A Go map with string keys, as an association list. The order of the list is the order in which
-- a `range` over the map happens to go. A map that `insert` and `delete` build holds each key once.
use deploy_os.Base.{
  ◌+◌, ℕ, String, ◌≡◌, refl, Option, none, some, List, [], ◌∷◌, arith, eq_iff, ◌==◌, if◌then◌else◌,
  length,
}

abbrev pub GoMap {ℓ} : Type ℓ → Type ℓ
GoMap V = List (String × V)

module _ {ℓ} {V : Type ℓ} where
  -- v, ok := m[k]
  unfoldable pub lookup : String → GoMap V → Option V
  lookup key [] = none
  lookup key ((first, new) ∷ rest) = if first == key then some new else lookup key rest

  -- m[k] = v
  unfoldable pub insert : String → V → GoMap V → GoMap V
  insert key new [] = (key, new) ∷ []
  insert key new ((first, held) ∷ rest) =
      if first == key then (key, new) ∷ rest else (first, held) ∷ insert key new rest

  -- delete(m, k)
  unfoldable pub delete : String → GoMap V → GoMap V
  delete key [] = []
  delete key ((first, new) ∷ rest) =
      let rest = delete key rest in if first == key then rest else (first, new) ∷ rest

  pub lookup-insert :
      (key first : String) (new : V) (rest : GoMap V)
      → lookup first (insert key new rest) ≡ (if key == first then some new else lookup first rest)
  unfolding lookup insert
  lookup-insert key first new [] = refl
  lookup-insert key first new ((head, held) ∷ rest) = ground (
    arith,
    eq_iff key first,
    eq_iff head key,
    eq_iff head first,
    lookup-insert key first new rest,
  )

  pub lookup-delete :
      (key first : String) (rest : GoMap V)
      → lookup first (delete key rest) ≡ (if key == first then none else lookup first rest)
  unfolding lookup delete
  lookup-delete key first [] = ground arith
  lookup-delete key first ((head, held) ∷ rest) =
      ground
        (arith, eq_iff key first, eq_iff head key, eq_iff head first, lookup-delete key first rest)

  -- Each key stands once.
  abbrev pub IsMap : GoMap V → Type ℓ
  IsMap [] = Unit
  IsMap ((key, new) ∷ rest) = (lookup key rest ≡ none) × IsMap rest

  pub insert-IsMap :
      (key : String) (new : V) (rest : GoMap V) → IsMap rest → IsMap (insert key new rest)
  unfolding insert
  insert-IsMap key new [] single = (unfold lookup in refl, tt)
  insert-IsMap key new ((first, held) ∷ rest) single = ground (
    arith,
    eq_iff first key,
    eq_iff key first,
    lookup-insert key first new rest,
    insert-IsMap key new rest single.1,
  )

  pub delete-IsMap : (key : String) (rest : GoMap V) → IsMap rest → IsMap (delete key rest)
  unfolding delete
  delete-IsMap key [] single = tt
  delete-IsMap key ((first, held) ∷ rest) single =
      ground (arith, eq_iff key first, lookup-delete key first rest, delete-IsMap key rest single.1)

  -- One for a key that is there.
  abbrev pub present : Option V → ℕ
  present none = 0
  present (some _) = 1

  pub length-insert :
      (key : String) (new : V) (rest : GoMap V)
      → length (insert key new rest) + present (lookup key rest) ≡ length rest + 1
  unfolding insert lookup
  length-insert key new [] = refl
  length-insert key new ((first, held) ∷ rest) = ground (arith, length-insert key new rest)

  delete_absent : (key : String) (rest : GoMap V) → lookup key rest ≡ none → delete key rest ≡ rest
  unfolding lookup delete
  delete_absent key [] single = refl
  delete_absent key ((first, held) ∷ rest) single = ground (arith, delete_absent key rest)

  pub length-delete :
      (key : String) (rest : GoMap V)
      → IsMap rest
      → length (delete key rest) + present (lookup key rest) ≡ length rest
  unfolding delete lookup
  length-delete key [] single = refl
  length-delete key ((first, held) ∷ rest) single =
      ground (arith, eq_iff first key, delete_absent key rest, length-delete key rest single.1)
