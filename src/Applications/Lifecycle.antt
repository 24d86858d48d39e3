-- ===== src/Applications/Lifecycle.antt =====
-- The moves of an application: one attempt, and any sequence of attempts.
use deploy_os.Base.{
  ℕ, String, ◌≡◌, refl, sym, ap, ◌∙◌, subst, ◌↔◌, ◌⊎◌, inl, inr, Bool, true, ◌||◌, Option, none,
  some, List, [], ◌∷◌, arith, eq_iff, ◌==◌, Bool-cases, ==-cases, ==_false,
}
use deploy_os.Go.Errors.{GoError, is, ok}
use deploy_os.Applications.Errors
use deploy_os.Applications.Status.{
  valid, ◌⟶◌, submit, build, deploy, start, stop, redeploy, retry, fail, abandon, allows-⟶,
  ⟶-allows,
}
use deploy_os.Applications.Validity.{IsWellFormed, validate-IsWellFormed}
use deploy_os.Applications.{Application, validate, can_transition_to, transition_to, refusal}

-- CanTransitionTo answers true for exactly the arrows of the lifecycle diagram and the one from stopped to failed.
pub can_transition_to-⟶ :
    (a : Application) (t : String) → (can_transition_to a t ≡ true) ↔ (a.status ⟶ t)
unfolding can_transition_to
can_transition_to-⟶ a t = (allows-⟶ a.status t, ⟶-allows a.status t)

-- What an attempt to move to `t` gives.
pub data Attempt (now : ℕ) (a : Application) (t : String) (r : Application × Option GoError)
    : Type 0 where
  moved : a.status ⟶ t → r ≡ (record a { status = t; updated_at = now }, none) → Attempt now a t r
  refused :
      ¬ (a.status ⟶ t)
      → (e : GoError) → r ≡ (a, some e)
      → is e Errors.invalid_transition ≡ true
      → Attempt now a t r

-- TransitionTo follows an arrow of the lifecycle diagram in docs/application-engine.md, or goes
-- from stopped to failed, which the diagram does not have, and sets the status and the time of
-- the update and nothing else; any other attempt leaves the application as it was and returns an
-- error that is ErrInvalidTransition.
pub transition_to-Attempt :
    (now : ℕ) (a : Application) (t : String) → Attempt now a t (transition_to now a t)
unfolding transition_to is
transition_to-Attempt now a t = elim (Bool-cases (can_transition_to a t)) [
  | inl e ↦ moved ((can_transition_to-⟶ a t).0 e) (rw e)
  | inr e ↦ refused (λ h. let y = (can_transition_to-⟶ a t).1 h in cc) (refusal a t) (rw e) refl
]

-- The attempts of a history, each with its time, in turn.
unfoldable pub run : Application → List (ℕ × String) → Application
run a [] = a
run a ((now, t) ∷ moves) = run (transition_to now a t).0 moves

-- Some state of the history has the status `u`.
unfoldable pub visits : String → Application → List (ℕ × String) → Bool
visits u a [] = a.status == u
visits u a ((now, t) ∷ moves) = a.status == u || visits u (transition_to now a t).0 moves

valid_target : (s t : String) → s ⟶ t → valid t ≡ true
unfolding valid
valid_target s t (submit _ q) = rw q
valid_target s t (build _ q) = rw q
valid_target s t (deploy _ q) = rw q
valid_target s t (start _ q) = rw q
valid_target s t (stop _ q) = rw q
valid_target s t (redeploy _ q) = rw q
valid_target s t (retry _ q) = rw q
valid_target s t (fail _ q) = rw q
valid_target s t (abandon _ q) = rw q

attempt-IsWellFormed :
    (now : ℕ) (a : Application) (t : String) (r : Application × Option GoError)
    → Attempt now a t r
    → IsWellFormed a
    → IsWellFormed r.0
attempt-IsWellFormed now a t r (moved h e) w =
    subst (λ (x : Application × Option GoError). IsWellFormed x.0) (sym e)
      (record {
        has_id = w.has_id;
        has_user = w.has_user;
        slug = w.slug;
        has_runtime = w.has_runtime;
        known_status = valid_target a.status t h;
        env_names = w.env_names;
        secrets = w.secrets;
        mounts = w.mounts;
        names = w.names;
      })
attempt-IsWellFormed now a t r (refused _ e p _) w =
    subst (λ (x : Application × Option GoError). IsWellFormed x.0) (sym p) w

run-IsWellFormed :
    (a : Application) (moves : List (ℕ × String)) → IsWellFormed a → IsWellFormed (run a moves)
unfolding run
run-IsWellFormed a [] w = w
run-IsWellFormed a ((now, t) ∷ moves) w =
    run-IsWellFormed (transition_to now a t).0 moves
      (attempt-IsWellFormed now a t _ (transition_to-Attempt now a t) w)

-- An application that Validate accepts is accepted after any history of attempts to move it.
pub run-validate :
    (a : Application) (moves : List (ℕ × String))
    → validate a ≡ ok tt
    → validate (run a moves) ≡ ok tt
run-validate a moves h =
    (validate-IsWellFormed (run a moves)).1
      (run-IsWellFormed a moves ((validate-IsWellFormed a).0 h))

-- The status after an attempt is the one before it, or is reached by an arrow.
step_status :
    (now : ℕ) (a : Application) (t : String) (r : Application × Option GoError)
    → Attempt now a t r
    → (r.0.status ≡ a.status) ⊎ (a.status ⟶ r.0.status)
step_status now a t r (moved h e) =
    inr (subst (λ (x : Application × Option GoError). a.status ⟶ x.0.status) (sym e) h)
step_status now a t r (refused _ e p _) =
    inl (ap (λ (x : Application × Option GoError). x.0.status) p)

-- A status entered only from `p` is visited only if `p` is.
pub visits_before :
    (u p : String)
    → ((s : String) → s ⟶ u → s ≡ p)
    → (a : Application) (moves : List (ℕ × String)) → ¬ (a.status ≡ u)
    → visits u a moves ≡ true
    → visits p a moves ≡ true
unfolding visits
visits_before u p only a [] n h = absurd (n ((eq_iff a.status u).0 h))
visits_before u p only a ((now, t) ∷ moves) n h =
    let b = (transition_to now a t).0 in
    let later : visits u b moves ≡ true = rw (==_false a.status u n) at h in
    elim (==-cases a.status p) [
      | inl (_, e) ↦ rw e
      | inr e ↦ rw e (
          visits_before u p only b moves
            (λ q. elim (step_status now a t _ (transition_to-Attempt now a t)) [
              | inl same ↦ n (sym same ∙ q)
              | inr arrow ↦
                  let p' = only a.status (subst (λ x. a.status ⟶ x) q arrow) in
                  ground (arith, eq_iff a.status p)
            ])
            later)
    ]
