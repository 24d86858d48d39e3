-- ===== src/Connection/Manager.antt =====
-- internal/connection/manager.go: the registry of connected devices. The lock makes each operation
-- one step on the map.
use deploy_os.Base.{
  ℕ, ◌+◌, String, ◌≡◌, refl, Bool, true, false, Option, none, some, List, [], ◌∷◌, map, ◌==◌,
  if◌then◌else◌, length,
}
use deploy_os.Go.Map.{
  present, lookup, insert, delete, IsMap, lookup-insert, lookup-delete, insert-IsMap, delete-IsMap,
  length-insert, length-delete,
}

pub record State : Type 0 where
  pub device_id : String
  pub user_id : String
  pub session_id : String
  -- time.Time, in nanoseconds
  pub connected_at : ℕ

pub record Manager : Type 0 where
  pub active : List (String × State)

-- NewManager
unfoldable pub new_manager : Manager
new_manager = record { active = [] }

-- Manager.Add
unfoldable pub add : State → Manager → Manager
add state m = record { active = insert state.device_id state m.active }

-- Manager.Remove
unfoldable pub remove : String → Manager → Manager
remove device_id m = record { active = delete device_id m.active }

-- Manager.Get
unfoldable pub get : String → Manager → Option State
get device_id m = lookup device_id m.active

-- Manager.IsConnected
unfoldable pub is_connected : String → Manager → Bool
unfolding get
is_connected device_id m = elim (get device_id m) [ none ↦ false | some _ ↦ true ]

-- Manager.List
unfoldable pub list : Manager → List State
list m = map (λ (e : String × State). e.1) m.active

-- Manager.Count
unfoldable pub count : Manager → ℕ
count m = length m.active

pub get-add :
    (state : State) (d : String) (m : Manager)
    → get d (add state m) ≡ (if state.device_id == d then some state else get d m)
unfolding get add
get-add state d m = lookup-insert state.device_id d state m.active

pub get-remove :
    (id d : String) (m : Manager) → get d (remove id m) ≡ (if id == d then none else get d m)
unfolding get remove
get-remove id d m = lookup-delete id d m.active

pub is_connected-get :
    (d : String) (m : Manager) {s : State} → get d m ≡ some s → is_connected d m ≡ true
unfolding is_connected
is_connected-get d m h = rw (h, is_connected)

pub is_connected-none : (d : String) (m : Manager) → get d m ≡ none → is_connected d m ≡ false
unfolding is_connected
is_connected-none d m h = rw (h, is_connected)

-- The calls that change a manager.
pub data Call : Type 0 where
  adds : State → Call
  removes : String → Call

pub apply : Call → Manager → Manager
apply (adds s) m = add s m
apply (removes d) m = remove d m

pub apply_all : List Call → Manager → Manager
apply_all [] m = m
apply_all (c ∷ cs) m = apply_all cs (apply c m)

-- The specification: the last call that names the device decides.
pub last_word : String → List Call → Option State → Option State
last_word d [] old = old
last_word d (adds s ∷ cs) old = last_word d cs (if s.device_id == d then some s else old)
last_word d (removes e ∷ cs) old = last_word d cs (if e == d then none else old)

get-apply_all :
    (d : String) (cs : List Call) (m : Manager) → get d (apply_all cs m) ≡ last_word d cs (get d m)
unfolding apply_all apply last_word
get-apply_all d [] m = refl
get-apply_all d (adds s ∷ cs) m = rw (get-apply_all d cs (add s m), get-add s d m)
get-apply_all d (removes e ∷ cs) m = rw (get-apply_all d cs (remove e m), get-remove e d m)

-- After any calls on a new manager, Get answers the state that the last Add of the device
-- recorded, and nothing if there was none or a Remove of the device came later.
pub get-new_manager :
    (d : String) (cs : List Call) → get d (apply_all cs new_manager) ≡ last_word d cs none
unfolding new_manager get lookup
get-new_manager d cs = get-apply_all d cs new_manager

apply-IsMap : (c : Call) (m : Manager) → IsMap m.active → IsMap (apply c m).active
unfolding apply add remove
apply-IsMap (adds s) m h = insert-IsMap s.device_id s m.active h
apply-IsMap (removes d) m h = delete-IsMap d m.active h

pub apply_all-IsMap :
    (cs : List Call) (m : Manager) → IsMap m.active → IsMap (apply_all cs m).active
unfolding apply_all
apply_all-IsMap [] m h = h
apply_all-IsMap (c ∷ cs) m h = apply_all-IsMap cs (apply c m) (apply-IsMap c m h)

-- On the manager that any calls have built, Add counts a device that was not connected and no
-- other, and Remove uncounts a device that was connected and no other.
pub count_exact :
    (cs : List Call) (s : State) (d : String)
    → let m = apply_all cs new_manager in
      (count (add s m) + present (get s.device_id m) ≡ count m + 1)
      × (count (remove d m) + present (get d m) ≡ count m)
unfolding count add remove get new_manager
count_exact cs s d =
    let m = apply_all cs new_manager in
    (
      length-insert s.device_id s m.active,
      length-delete d m.active (apply_all-IsMap cs new_manager tt),
    )
