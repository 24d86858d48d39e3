-- ===== src/Monitoring.antt =====
-- internal/monitoring/health.go: the registry of health checks and its handler. A check is a function of what it looks at,
-- and the order of the map is the one in which the range goes.
use deploy_os.Base.{
  ℕ, String, ◌≡◌, refl, sym, ap, ◌∙◌, ◌⊎◌, inl, inr, Option, none, some, List, [], ◌∷◌, eq_refl,
  ◌==◌, Bool-cases, Option-cases, some_inj, ==-cases,
}
use deploy_os.Go.Errors.{GoError}
use deploy_os.Go.Map.{lookup, insert, IsMap}

-- api.Status
pub data Status : Type 0 where
  status_ok status_degraded : Status

-- api.VersionResponse
pub record VersionResponse : Type 0 where
  pub name : String
  pub version : String

-- http.StatusServiceUnavailable is written for a status that is not ok.
code_of : Status → ℕ
code_of status_ok = 200
code_of status_degraded = 503

status-cases : (s : Status) → (s ≡ status_ok) ⊎ (s ≡ status_degraded)
status-cases status_ok = inl refl
status-cases status_degraded = inr refl

module _ {World : Type 0} where
  -- Registry.Register
  unfoldable pub register :
      String
      → (World → Option GoError)
      → List (String × (World → Option GoError))
      → List (String × (World → Option GoError))
  register name check checks = insert name check checks

  -- The range over the checks, with its break
  unfoldable pub run_checks : World → List (String × (World → Option GoError)) → Status
  run_checks w [] = status_ok
  run_checks w ((name, check) ∷ checks) = elim (check w) [
    | none ↦ run_checks w checks
    | some e ↦ status_degraded
  ]

  -- Registry.Handler: the status code, and the status in the body
  unfoldable pub health : List (String × (World → Option GoError)) → World → ℕ × Status
  unfolding run_checks code_of
  health checks w = let status = run_checks w checks in (code_of status, status)

  -- Every check that is registered passes.
  pub IsHealthy : World → List (String × (World → Option GoError)) → Type 0
  IsHealthy w checks =
      (name : String) (check : World → Option GoError)
      → lookup name checks ≡ some check
      → check w ≡ none

  run_checks-IsHealthy :
      (w : World) (checks : List (String × (World → Option GoError)))
      → run_checks w checks ≡ status_ok
      → IsHealthy w checks
  unfolding run_checks IsHealthy lookup
  run_checks-IsHealthy w [] h name check e = cc
  run_checks-IsHealthy w ((k, c) ∷ checks) h name check e = elim (Option-cases (c w)) [
    | inr (er, q) ↦ let bad = rw (q, run_checks) at h in cc
    | inl q ↦ elim (Bool-cases (k == name)) [
      | inl same ↦ let found = some_inj (rw (same, lookup) at e) in rw (← found) q
      | inr apart ↦
          run_checks-IsHealthy w checks (rw (q, run_checks) at h) name check
            (rw (apart, lookup) at e)
    ]
  ]

  IsHealthy-run_checks :
      (w : World) (checks : List (String × (World → Option GoError)))
      → IsMap checks
      → IsHealthy w checks
      → run_checks w checks ≡ status_ok
  unfolding run_checks IsHealthy lookup
  IsHealthy-run_checks w [] m h = refl
  IsHealthy-run_checks w ((k, c) ∷ checks) m h =
      rw (passes, run_checks) (IsHealthy-run_checks w checks m.1 later)
    where
      passes : c w ≡ none
      passes = h k c (rw (eq_refl k, lookup) refl)

      later :
          (name : String) (check : World → Option GoError)
          → lookup name checks ≡ some check
          → check w ≡ none
      later name check e = elim (==-cases k name) [
        | inl (same, q) ↦ absurd (clash (cc (m.0, ap (λ key. lookup key checks) same, e)))
        | inr apart ↦ h name check (rw (apart, lookup) e)
      ]
        where
          clash : none ≡ some check → ⊥
          clash q = cc

  -- For checks with each name once, GET /healthz answers 200 and the status ok when every
  -- registered check passes, and 503 and the status degraded when not.
  pub health-IsHealthy :
      (w : World) (checks : List (String × (World → Option GoError)))
      → IsMap checks
      → (IsHealthy w checks → health checks w ≡ (200, status_ok))
        × (¬ IsHealthy w checks → health checks w ≡ (503, status_degraded))
  unfolding health code_of
  health-IsHealthy w checks m = (
    λ h. rw (IsHealthy-run_checks w checks m h) refl,
    λ h. elim (status-cases (run_checks w checks)) [
      | inl q ↦ absurd (h (run_checks-IsHealthy w checks q))
      | inr q ↦ rw q refl
    ],
  )

  IsHealthy-same :
      (w : World) (checks others : List (String × (World → Option GoError)))
      → ((name : String) → lookup name checks ≡ lookup name others)
      → IsHealthy w checks
      → IsHealthy w others
  unfolding IsHealthy
  IsHealthy-same w checks others same h name check e = h name check (same name ∙ e)

  -- The answer of GET /healthz does not depend on the order in which the map gives the checks.
  pub health-same :
      (w : World) (checks others : List (String × (World → Option GoError)))
      → IsMap checks
      → IsMap others
      → ((name : String) → lookup name checks ≡ lookup name others)
      → health checks w ≡ health others w
  health-same w checks others m n same = elim (status-cases (run_checks w checks)) [
    | inl q ↦
        let h = run_checks-IsHealthy w checks q in
        (health-IsHealthy w checks m).0 h
        ∙ sym ((health-IsHealthy w others n).0 (IsHealthy-same w checks others same h))
    | inr q ↦
        let bad =
          λ (h : IsHealthy w checks). degraded (sym q ∙ IsHealthy-run_checks w checks m h) in
        (health-IsHealthy w checks m).1 bad
        ∙ sym (
            (health-IsHealthy w others n).1
              (λ h. bad (IsHealthy-same w others checks (λ name. sym (same name)) h)))
  ]
    where
      degraded : status_degraded ≡ status_ok → ⊥
      degraded e = cc
