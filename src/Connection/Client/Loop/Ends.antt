-- ===== src/Connection/Client/Loop/Ends.antt =====
-- Client.Run ends when its context does, and reports its connection as it is.
use deploy_os.Base.{ℕ, ◌≤◌, ◌<◌, ◌≡◌, refl, sym, ap, ◌∙◌, ◌⊎◌, inl, inr, Bool, true, false, arith}
use deploy_os.Connection.Client.Loop.{
  Place, checking, connecting, attempted, sleeping, stopped, Loop, start, sleep, Step, cancels,
  dials, leaves, authenticates, disconnects, gives_up, sleeps, wakes, aborts,
}

-- The steps that are left at most once the context is canceled.
abbrev pub place_rank : Place → ℕ
place_rank (connecting false) = 3
place_rank (connecting true) = 2
place_rank sleeping = 2
place_rank checking = 1
place_rank (attempted b) = 1
place_rank stopped = 0

abbrev pub rank : Loop → ℕ
rank s = place_rank s.place

pub Step-rank :
    (initial max_backoff : ℕ) (s t : Loop)
    → Step initial max_backoff s t
    → s.canceled ≡ true
    → (t.canceled ≡ true) × (rank t < rank s)
Step-rank initial m s t (cancels c e) h = let bad = sym c ∙ h in cc
Step-rank initial m s t (dials p c e) h = let bad = sym c ∙ h in cc
Step-rank initial m s t (leaves p c e) h = rw (e, p) (h, omega arith)
Step-rank initial m s t (authenticates p e) h = rw (e, p) (h, omega arith)
Step-rank initial m s t (disconnects false p e) h = rw (e, p) (h, omega arith)
Step-rank initial m s t (disconnects true p e) h = rw (e, p) (h, omega arith)
Step-rank initial m s t (gives_up b p c e) h = rw (e, p) (h, omega arith)
Step-rank initial m s t (sleeps b draw p c few e) h = let bad = sym c ∙ h in cc
Step-rank initial m s t (wakes p e) h = rw (e, p) (h, omega arith)
Step-rank initial m s t (aborts p c e) h = rw (e, p) (h, omega arith)

pub rank_most : (s : Loop) → rank s ≤ 3
rank_most s = most s.place
  where
    most : (p : Place) → place_rank p ≤ 3
    most (connecting false) = omega arith
    most (connecting true) = omega arith
    most sleeping = omega arith
    most checking = omega arith
    most (attempted b) = omega arith
    most stopped = omega arith

-- A further step, that leaves the context as it is.
pub record Advance (initial max_backoff : ℕ) (s : Loop) : Type 0 where
  pub after : Loop
  pub step : Step initial max_backoff s after
  pub kept : after.canceled ≡ s.canceled

pub progress :
    (initial max_backoff : ℕ) (s : Loop)
    → s.canceled ≡ true
    → (p : Place) → s.place ≡ p
    → (p ≡ stopped) ⊎ Advance initial max_backoff s
progress initial m s c stopped e = inl refl
progress initial m s c checking e =
    inr (record { after = record s { place = stopped }; step = leaves e c refl; kept = refl })
progress initial m s c sleeping e =
    inr (record { after = record s { place = stopped }; step = aborts e c refl; kept = refl })
progress initial m s c (attempted b) e =
    inr (record { after = record s { place = stopped }; step = gives_up b e c refl; kept = refl })
progress initial m s c (connecting b) e = inr (record {
  after = record s { place = attempted b; connected = false };
  step = disconnects b e refl;
  kept = refl;
})

-- c.connected is set just while connectOnce stands behind a positive answer.
abbrev pub IsConnected : Bool → Place → Type 0
IsConnected connected (connecting b) = connected ≡ b
IsConnected connected _ = connected ≡ false

pub Step-IsConnected :
    (initial max_backoff : ℕ) (s t : Loop)
    → Step initial max_backoff s t
    → IsConnected s.connected s.place
    → IsConnected t.connected t.place
unfolding sleep
Step-IsConnected initial m s t (cancels c e) h = rw e h
Step-IsConnected initial m s t (dials p c e) h = rw e (rw p at h)
Step-IsConnected initial m s t (leaves p c e) h = rw e (rw p at h)
Step-IsConnected initial m s t (authenticates p e) h = rw e refl
Step-IsConnected initial m s t (disconnects b p e) h = rw e refl
Step-IsConnected initial m s t (gives_up b p c e) h = rw e (rw p at h)
Step-IsConnected initial m s t (sleeps b draw p c few e) h = rw e (rw p at h)
Step-IsConnected initial m s t (wakes p e) h = rw e (rw p at h)
Step-IsConnected initial m s t (aborts p c e) h = rw e (rw p at h)

pub start-IsConnected : (initial : ℕ) → IsConnected (start initial).connected (start initial).place
unfolding start
start-IsConnected initial = refl

-- A Run that has returned does not go on.
pub stopped-stays :
    (initial max_backoff : ℕ) (s t : Loop)
    → Step initial max_backoff s t
    → s.place ≡ stopped
    → t.place ≡ stopped
stopped-stays initial m s t (cancels c e) h = ap (λ (y : Loop). y.place) e ∙ h
stopped-stays initial m s t (dials p c e) h = let bad = sym p ∙ h in cc
stopped-stays initial m s t (leaves p c e) h = let bad = sym p ∙ h in cc
stopped-stays initial m s t (authenticates p e) h = let bad = sym p ∙ h in cc
stopped-stays initial m s t (disconnects b p e) h = let bad = sym p ∙ h in cc
stopped-stays initial m s t (gives_up b p c e) h = let bad = sym p ∙ h in cc
stopped-stays initial m s t (sleeps b draw p c few e) h = let bad = sym p ∙ h in cc
stopped-stays initial m s t (wakes p e) h = let bad = sym p ∙ h in cc
stopped-stays initial m s t (aborts p c e) h = let bad = sym p ∙ h in cc
