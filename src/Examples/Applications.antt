-- ===== src/Examples/Applications.antt =====
-- internal/applications at concrete inputs.
use deploy_os.Base.{ℕ, ◌≤◌, String, ◌≡◌, refl, ◌↔◌, true, false, List, [], ◌∷◌, length}
use deploy_os.Go.Errors.{ok, for_each}
use deploy_os.Go.Text.{codes}
use deploy_os.Go.Regexp.{match_string}
use deploy_os.Applications.Name.{name_re}
use deploy_os.Applications.Status.{
  status_created, status_pending, status_building, status_deploying, status_running, valid,
}
use deploy_os.Applications.Validity.{IsWellFormed, validate-IsWellFormed}
use deploy_os.Applications.Lifecycle.{Attempt, transition_to-Attempt, run, visits}
use deploy_os.Applications.History.{plan, at, run-plan}
use deploy_os.Applications.{
  Application, created, new_application, validate, can_transition_to, transition_to,
}

-- An application as NewApplication makes it.
app : Application
unfolding created
app = created "id-1" 100 "user-1" "my-app" "docker"

a_name : match_string name_re (codes "my-app") ≡ true
unfolding match_string
a_name = refl

a_hyphen_at_the_end : match_string name_re (codes "my-app-") ≡ false
unfolding match_string
a_hyphen_at_the_end = refl

validate-IsWellFormed_example : (validate app ≡ ok tt) ↔ IsWellFormed app
validate-IsWellFormed_example = validate-IsWellFormed app

app_made : new_application "id-1" 100 "user-1" "my-app" "docker" ≡ ok app
unfolding new_application app validate match_string valid for_each
app_made = refl

app_valid : validate app ≡ ok tt
unfolding validate app match_string valid for_each
app_valid = refl

transition_to-Attempt_example :
    Attempt 200 app status_running (transition_to 200 app status_running)
transition_to-Attempt_example = transition_to-Attempt 200 app status_running

-- One refused attempt among the moves that lead to running.
history : List (ℕ × String)
history =
    (101, status_pending)
    ∷ (102, status_running)
    ∷ (103, status_building)
    ∷ (104, status_deploying)
    ∷ (105, status_running)
    ∷ []

history_runs : (run app history).status ≡ status_running
unfolding run app history transition_to can_transition_to
history_runs = refl

app_created : app.status ≡ status_created
unfolding app
app_created = refl

history-visits : visits status_running app history ≡ true
unfolding visits app history transition_to can_transition_to
history-visits = refl

app_known : valid app.status ≡ true
unfolding valid app
app_known = refl

run-plan_example :
    ((run app (at 300 (plan app.status))).status ≡ status_running) × (length (plan app.status) ≤ 4)
run-plan_example = run-plan 300 app app_known
