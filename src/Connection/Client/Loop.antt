-- ===== src/Connection/Client/Loop.antt =====
-- internal/connection/client.go, Client.Run: its loop as steps, with the context that a signal cancels at any time. connectOnce is
-- between its call and its return, in front of the positive answer or behind it; Connection/Client/Session has what it
-- does behind it. On a canceled context the stream fails, so that connectOnce returns.
pub mod Waits
pub mod Ends
use deploy_os.Base.{ℕ, ◌*◌, ◌≤◌, min, ◌≡◌, Bool, true, false, List, [], ◌∷◌, ◌++◌}
use deploy_os.Connection.Client.{Round, reset, jitter, float_steps}

-- Where Run stands.
pub data Place : Type 0 where
  -- the test of the loop
  checking : Place
  -- in connectOnce, with c.connected set or not
  connecting : Bool → Place
  -- behind connectOnce, which authenticated or not
  attempted : Bool → Place
  -- the select behind the wait's start
  sleeping : Place
  -- with nil, the only result that there is
  stopped : Place

pub record Loop : Type 0 where
  -- the context
  pub canceled : Bool
  -- c.connected
  pub connected : Bool
  pub place : Place
  pub backoff : ℕ
  -- the waits that were started, in order
  pub waits : List ℕ

-- Client.Run, in front of the loop
unfoldable pub start : ℕ → Loop
start initial = record {
  canceled = false;
  connected = false;
  place = checking;
  backoff = initial;
  waits = [];
}

-- Client.Connected
unfoldable pub is_connected : Loop → Bool
is_connected s = s.connected

-- `wait := jitter(backoff)`, behind the reset
unfoldable pub sleep : ℕ → Bool → ℕ → Loop → Loop
unfolding jitter
sleep initial authenticated draw s =
    let base = reset initial (record { authenticated = authenticated; draw = draw }) s.backoff in
    record s { place = sleeping; backoff = base; waits = s.waits ++ (jitter base draw ∷ []) }

-- One step, with the two bounds of the backoff.
pub data Step (initial max_backoff : ℕ) (s t : Loop) : Type 0 where
  cancels : s.canceled ≡ false → t ≡ record s { canceled = true } → Step initial max_backoff s t
  dials :
      s.place ≡ checking
      → s.canceled ≡ false
      → t ≡ record s { place = connecting false }
      → Step initial max_backoff s t
  -- the test of the loop fails
  leaves :
      s.place ≡ checking
      → s.canceled ≡ true
      → t ≡ record s { place = stopped }
      → Step initial max_backoff s t
  -- c.connected.Store(true)
  authenticates :
      s.place ≡ connecting false
      → t ≡ record s { place = connecting true; connected = true }
      → Step initial max_backoff s t
  -- connectOnce returns, and c.connected.Store(false)
  disconnects :
      (authenticated : Bool)
      → s.place ≡ connecting authenticated
      → t ≡ record s { place = attempted authenticated; connected = false }
      → Step initial max_backoff s t
  -- `if ctx.Err() != nil { return nil }`
  gives_up :
      (authenticated : Bool)
      → s.place ≡ attempted authenticated
      → s.canceled ≡ true
      → t ≡ record s { place = stopped }
      → Step initial max_backoff s t
  sleeps :
      (authenticated : Bool) (draw : ℕ)
      → s.place ≡ attempted authenticated
      → s.canceled ≡ false
      → draw ≤ float_steps
      → t ≡ sleep initial authenticated draw s
      → Step initial max_backoff s t
  -- case <-time.After(wait), and the doubling
  wakes :
      s.place ≡ sleeping
      → t ≡ record s { place = checking; backoff = min (s.backoff * 2) max_backoff }
      → Step initial max_backoff s t
  -- case <-ctx.Done()
  aborts :
      s.place ≡ sleeping
      → s.canceled ≡ true
      → t ≡ record s { place = stopped }
      → Step initial max_backoff s t
