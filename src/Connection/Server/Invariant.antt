-- ===== src/Connection/Server/Invariant.antt =====
-- What holds of the server between any two steps of its handlers, and what each piece of a step keeps of it.
use deploy_os.Base.{
  ℕ, ◌≤◌, String, ◌≡◌, refl, sym, ap, ◌∙◌, ◌≢◌, inl, inr, Bool, true, false, Option, none, some,
  List, arith, eq_iff, nat_eq, if◌then◌else◌, Bool-cases, ==-cases,
}
use deploy_os.Connection.Server.{
  tracked, serving, close_stream, untrack, track_connection, drop_own, Phase, Connection, Server,
  update, new_server, open_stream,
}
use deploy_os.Go.Map.{lookup-delete, lookup, lookup-insert}
use deploy_os.Connection.Manager.{get-remove, get-add, State, get, new_manager}

none-ne-some : {c : Connection} → ¬ (none ≡ some c)
none-ne-some e = cc

none-ne-state : {st : State} → ¬ (none ≡ some st)
none-ne-state e = cc

-- The handler serves the device, and has not returned.
abbrev pub Serves : String → Option Connection → Type 0
Serves d none = ⊥
Serves d (some c) = c.device_id ≡ d

-- Its device is in the manager: between manager.Add and manager.Remove.
abbrev pub is_live : Phase → Bool
is_live tracked = true
is_live serving = true
is_live _ = false

-- The state was recorded by a handler that still runs, for the device, user and session that it serves.
abbrev pub Alive : (ℕ → Option Connection) → String → State → Type 0
Alive connections d st =
    (h : ℕ) × (c : Connection) × (connections h ≡ some c)
    × (is_live c.phase ≡ true)
    × (c.device_id ≡ d)
    × (c.user_id ≡ st.user_id)
    × (c.session_id ≡ st.session_id)

pub record Inv (s : Server) : Type 0 where
  pub fresh : (h : ℕ) → s.next_handle ≤ h → s.connections h ≡ none
  pub owned : (d : String) (h : ℕ) → lookup d s.streams ≡ some h → Serves d (s.connections h)
  pub alive : (d : String) (st : State) → get d s.manager ≡ some st → Alive s.connections d st

pub new_server-Inv : Inv new_server
unfolding new_server new_manager get lookup
new_server-Inv = record { fresh = λ h le. refl; owned = λ d h e. cc; alive = λ d st e. cc }

-- The new value of a handler, where the old one was live, is live too and serves the same session.
abbrev Keeps : Connection → Option Connection → Type 0
Keeps c v =
    (c' : Connection) × (v ≡ some c')
    × (is_live c'.phase ≡ true)
    × (c'.device_id ≡ c.device_id)
    × (c'.user_id ≡ c.user_id)
    × (c'.session_id ≡ c.session_id)

Alive-update :
    (f : ℕ → Option Connection) (d : String) (st : State) (h : ℕ) (v : Option Connection)
    → ((c : Connection) → f h ≡ some c → is_live c.phase ≡ true → c.device_id ≡ d → Keeps c v)
    → Alive f d st
    → Alive (update f h v) d st
Alive-update f d st h v keeps (k, c, e, live, dev, user, session) = elim (Bool-cases (nat_eq k h)) [
  | inl b ↦
      let same : f h ≡ some c = ground arith in
      let (c', e', live', dev', user', session') = keeps c same live dev in
      (k, c', rw b e', live', dev' ∙ dev, user' ∙ user, session' ∙ session)
  | inr b ↦ (k, c, rw b e, live, dev, user, session)
]

pub open_stream-Inv : (d u session : String) (s : Server) → Inv s → Inv (open_stream d u session s)
unfolding open_stream
open_stream-Inv d u session s v = record {
  fresh = λ h le. ground (arith, v.fresh h);
  owned = λ e h p.
      ground (arith, eq_iff d e, lookup-insert d e s.next_handle s.streams, v.owned e h, v.fresh h);
  alive = λ e st p.
      Alive-update s.connections e st s.next_handle _
        (λ c q _ _. absurd (none-ne-some (sym (v.fresh s.next_handle (omega arith)) ∙ q)))
        (v.alive e st p);
}

-- A step of one handler that changes neither the streams nor the manager.
pub replace-Inv :
    (s : Server) (h : ℕ) (c c' : Connection)
    → s.connections h ≡ some c
    → c'.device_id ≡ c.device_id
    → (is_live c.phase ≡ true → Keeps c (some c'))
    → Inv s
    → Inv (record s { connections = update s.connections h (some c') })
replace-Inv s h c c' e dev keeps v = record {
  fresh = λ k le. ground (arith, v.fresh k);
  owned = λ d k p. ground (arith, v.owned d k);
  alive = λ d st p.
      Alive-update s.connections d st h _ (λ c0 q live _. ground (arith, keeps)) (v.alive d st p);
}

abbrev own_state : ℕ → Connection → State
own_state now c = record {
  device_id = c.device_id;
  user_id = c.user_id;
  session_id = c.session_id;
  connected_at = now;
}

recorded_state :
    {x st : State} {t : Bool} {r : Option State} (o : Option State)
    → r ≡ (if t then some x else o)
    → t ≡ true
    → r ≡ some st
    → x ≡ st
recorded_state o e b p = ground arith

pub track-Inv :
    (now h : ℕ) (c : Connection) (s : Server)
    → s.connections h ≡ some c
    → Inv s
    → Inv (track_connection now h c s)
unfolding track_connection
track-Inv now h c s e v = record {
  fresh = λ k le. ground (arith, v.fresh k);
  owned = λ d k p. ground (arith, v.owned d k);
  alive = λ d st p. elim (==-cases c.device_id d) [
    | inl (same, b) ↦
        let recorded : own_state now c ≡ st =
          recorded_state (get d s.manager) (get-add (own_state now c) d s.manager) b p in
        (
          h,
          record c { phase = tracked },
          ground arith,
          refl,
          same,
          ap (λ (x : State). x.user_id) recorded,
          ap (λ (x : State). x.session_id) recorded,
        )
    | inr b ↦
        Alive-update s.connections d st h _ (λ c0 q _ dev. ground (arith, eq_iff c.device_id d))
          (v.alive d st (sym (get-add (own_state now c) d s.manager ∙ rw b) ∙ p))
  ];
}

pub untrack-Inv :
    (h : ℕ) (c : Connection) (s : Server) → s.connections h ≡ some c → Inv s → Inv (untrack h c s)
unfolding untrack
untrack-Inv h c s e v = record {
  fresh = λ k le. ground (arith, v.fresh k);
  owned = λ d k p. ground (arith, v.owned d k);
  alive = λ d st p. elim (==-cases c.device_id d) [
    | inl (_, b) ↦ absurd (none-ne-state (sym (get-remove c.device_id d s.manager ∙ rw b) ∙ p))
    | inr b ↦
        Alive-update s.connections d st h _ (λ c0 q _ dev. ground (arith, eq_iff c.device_id d))
          (v.alive d st (sym (get-remove c.device_id d s.manager ∙ rw b) ∙ p))
  ];
}

lookup-drop_own :
    (h : ℕ) (d e : String) (streams : List (String × ℕ)) {k : ℕ}
    → lookup e (drop_own h d streams) ≡ some k
    → (lookup e streams ≡ some k) × ((d ≡ e) → k ≢ h)
unfolding drop_own
lookup-drop_own h d e streams p = (
  ground (arith, lookup-delete d e streams, eq_iff d e),
  λ q w. ground (arith, lookup-delete d e streams, eq_iff d e),
)

pub close-Inv :
    (h : ℕ) (c : Connection) (s : Server)
    → s.connections h ≡ some c
    → is_live c.phase ≡ false
    → Inv s
    → Inv (close_stream h c s)
unfolding close_stream
close-Inv h c s e dead v = record {
  fresh = λ k le. ground (arith, v.fresh k);
  owned = λ d k p.
      let (before, apart) = lookup-drop_own h c.device_id d s.streams p in
      ground (arith, v.owned d k before, apart);
  alive =
      λ d st p. Alive-update s.connections d st h _ (λ c0 q live _. ground arith) (v.alive d st p);
}
