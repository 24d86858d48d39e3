-- ===== src/Applications/History.antt =====
-- What every history of moves has gone through, and that no known status is a dead end.
use deploy_os.Base.{
  ℕ, ◌≤◌, String, ◌≡◌, refl, sym, ap, subst, ◌⊎◌, inl, inr, Bool, true, false, not, Option, none,
  some, List, [], ◌∷◌, arith, eq_iff, ◌==◌, if◌then◌else◌, ==-cases, length,
}
use deploy_os.Go.Errors.{GoError}
use deploy_os.Go.Map.{lookup}
use deploy_os.Applications.Status.{
  allowed_transitions, status_created, status_pending, status_building, status_deploying,
  status_running, valid, ◌⟶◌, submit, build, deploy, start, stop, redeploy, retry, fail, abandon,
}
use deploy_os.Applications.Lifecycle.{
  transition_to-Attempt, moved, refused, run, visits, visits_before,
}
use deploy_os.Applications.{Application, transition_to}

-- Which status an arrow into `t` comes from, where there is one only; none comes into `created`.
entry : String → String → Bool
entry s t =
    if t == status_running
    then s == status_deploying
    else if t == status_deploying
    then s == status_building
    else if t == status_building
    then s == status_pending
    else not (t == status_created)

⟶-entry : (s t : String) → s ⟶ t → entry s t ≡ true
unfolding entry
⟶-entry s t (submit p q) = rw (p, q)
⟶-entry s t (build p q) = rw (p, q)
⟶-entry s t (deploy p q) = rw (p, q)
⟶-entry s t (start p q) = rw (p, q)
⟶-entry s t (stop p q) = rw (p, q)
⟶-entry s t (redeploy p q) = rw (p, q)
⟶-entry s t (retry p q) = rw (p, q)
⟶-entry s t (fail _ q) = rw q
⟶-entry s t (abandon _ q) = rw q

only_deploying : (s : String) → s ⟶ status_running → s ≡ status_deploying
unfolding entry
only_deploying s h = (eq_iff s status_deploying).0 (⟶-entry s status_running h)

only_building : (s : String) → s ⟶ status_deploying → s ≡ status_building
unfolding entry
only_building s h = (eq_iff s status_building).0 (⟶-entry s status_deploying h)

only_pending : (s : String) → s ⟶ status_building → s ≡ status_pending
unfolding entry
only_pending s h = (eq_iff s status_pending).0 (⟶-entry s status_building h)

starts_elsewhere : (s t u : String) → s ≡ t → (t == u) ≡ false → ¬ (s ≡ u)
starts_elsewhere s t u e n h = ground (arith, eq_iff t u)

-- Whatever the attempts, an application that starts as created and is running at some point of
-- the history was deploying, building and pending in that history.
pub visits_running :
    (a : Application) (moves : List (ℕ × String))
    → a.status ≡ status_created
    → visits status_running a moves ≡ true
    → (visits status_deploying a moves ≡ true)
      × (visits status_building a moves ≡ true)
      × (visits status_pending a moves ≡ true)
visits_running a moves e h =
    let d =
      visits_before status_running status_deploying only_deploying a moves
        (starts_elsewhere a.status status_created status_running e refl) h in
    let b =
      visits_before status_deploying status_building only_building a moves
        (starts_elsewhere a.status status_created status_deploying e refl) d in
    let p =
      visits_before status_building status_pending only_pending a moves
        (starts_elsewhere a.status status_created status_building e refl) b in
    (d, b, p)

-- One arrow followed: the status is the target.
moved_status :
    (now : ℕ) (a : Application) (t : String) → a.status ⟶ t → (transition_to now a t).0.status ≡ t
moved_status now a t h = elim (transition_to-Attempt now a t) [
  | moved _ e ↦ ap (λ (x : Application × Option GoError). x.0.status) e
  | refused n _ _ _ ↦ absurd (n h)
]

-- Statuses to ask for, in turn, and the time given to each attempt.
pub at : ℕ → List String → List (ℕ × String)
at now [] = []
at now (t ∷ ts) = (now, t) ∷ at now ts

abbrev Arrows : String → List String → Type 0
Arrows s [] = s ≡ status_running
Arrows s (t ∷ ts) = (s ⟶ t) × Arrows t ts

run-Arrows :
    (now : ℕ) (a : Application) (ts : List String)
    → Arrows a.status ts
    → (run a (at now ts)).status ≡ status_running
unfolding run at
run-Arrows now a [] h = h
run-Arrows now a (t ∷ ts) (h, hs) =
    run-Arrows now (transition_to now a t).0 ts
      (subst (λ s. Arrows s ts) (sym (moved_status now a t h)) hs)

-- The way to running from each known status.
pub plan : String → List String
plan s =
    if s == status_running
    then []
    else if s == status_deploying
    then status_running ∷ []
    else if s == status_building
    then status_deploying ∷ status_running ∷ []
    else if s == status_pending
    then status_building ∷ status_deploying ∷ status_running ∷ []
    else status_pending ∷ status_building ∷ status_deploying ∷ status_running ∷ []

-- A status for which the table has an entry is one of its keys.
abbrev Key : String → List (String × List String) → Type 0
Key s [] = ⊥
Key s ((j, _) ∷ table) = (s ≡ j) ⊎ Key s table

lookup-Key :
    (s : String) (table : List (String × List String))
    → elim (lookup s table) [ none ↦ false | some _ ↦ true ] ≡ true
    → Key s table
unfolding lookup
lookup-Key s [] h = cc
lookup-Key s ((j, _) ∷ table) h = elim (==-cases j s) [
  | inl (e, _) ↦ inl (sym e)
  | inr b ↦ inr (lookup-Key s table (rw (b, lookup) at h))
]

abbrev Planned : String → Type 0
Planned s = Arrows s (plan s)

from_pending : Arrows status_pending (status_building ∷ status_deploying ∷ status_running ∷ [])
from_pending = (build refl refl, (deploy refl refl, (start refl refl, refl)))

plan-Arrows : (s : String) → Key s allowed_transitions → Planned s
unfolding plan
plan-Arrows s (inl e) = subst Planned (sym e) (submit refl refl, from_pending)
plan-Arrows s (inr (inl e)) = subst Planned (sym e) from_pending
plan-Arrows s (inr (inr (inl e))) = subst Planned (sym e) from_pending.1
plan-Arrows s (inr (inr (inr (inl e)))) = subst Planned (sym e) from_pending.1.1
plan-Arrows s (inr (inr (inr (inr (inl e))))) = subst Planned (sym e) refl
plan-Arrows s (inr (inr (inr (inr (inr (inl e)))))) =
    subst Planned (sym e) (redeploy refl refl, from_pending)
plan-Arrows s (inr (inr (inr (inr (inr (inr (inl e))))))) =
    subst Planned (sym e) (retry refl refl, from_pending)
plan-Arrows s (inr (inr (inr (inr (inr (inr (inr x))))))) = elim x [ ]

-- No known status is a dead end: asking for the statuses of the plan in turn, at any time, leads
-- every application with a known status to running, in at most four attempts.
pub run-plan :
    (now : ℕ) (a : Application)
    → valid a.status ≡ true
    → ((run a (at now (plan a.status))).status ≡ status_running) × (length (plan a.status) ≤ 4)
unfolding valid plan
run-plan now a h = (
  run-Arrows now a (plan a.status)
      (plan-Arrows a.status (lookup-Key a.status allowed_transitions h)),
  ground arith,
)
