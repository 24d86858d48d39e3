-- ===== src/Applications/Status.antt =====
-- internal/applications/status.go: the states of an application and the moves between them.
use deploy_os.Base.{
  String, ◌≡◌, sym, ◌⊎◌, inl, inr, Bool, true, false, Option, none, some, List, [], ◌∷◌, arith,
  eq_iff, ◌==◌, ==-cases, any,
}
use deploy_os.Go.Map.{lookup}

abbrev pub status_created : String
status_created = "created"

abbrev pub status_pending : String
status_pending = "pending"

abbrev pub status_building : String
status_building = "building"

abbrev pub status_deploying : String
status_deploying = "deploying"

abbrev pub status_running : String
status_running = "running"

abbrev pub status_stopped : String
status_stopped = "stopped"

abbrev pub status_failed : String
status_failed = "failed"

abbrev pub allowed_transitions : List (String × List String)
allowed_transitions =
    (status_created, status_pending ∷ [])
    ∷ (status_pending, status_building ∷ status_failed ∷ [])
    ∷ (status_building, status_deploying ∷ status_failed ∷ [])
    ∷ (status_deploying, status_running ∷ status_failed ∷ [])
    ∷ (status_running, status_stopped ∷ status_failed ∷ [])
    ∷ (status_stopped, status_pending ∷ status_failed ∷ [])
    ∷ (status_failed, status_pending ∷ [])
    ∷ []

-- Status.valid
unfoldable pub valid : String → Bool
unfolding lookup
valid s = elim (lookup s allowed_transitions) [ none ↦ false | some _ ↦ true ]

-- The value of a missing key is the nil slice.
abbrev or_nil : Option (List String) → List String
or_nil none = []
or_nil (some targets) = targets

-- The loop of Application.CanTransitionTo, over the current status.
unfoldable pub allows : String → String → Bool
unfolding lookup
allows current target = any (λ s. s == target) (or_nil (lookup current allowed_transitions))

-- The arrows of the lifecycle diagram in docs/application-engine.md, and `abandon`, which the diagram does not have and the
-- table has.
infix 40 ◌⟶◌
pub data ◌⟶◌ (s t : String) : Type 0 where
  submit : s ≡ status_created → t ≡ status_pending → s ⟶ t
  build : s ≡ status_pending → t ≡ status_building → s ⟶ t
  deploy : s ≡ status_building → t ≡ status_deploying → s ⟶ t
  start : s ≡ status_deploying → t ≡ status_running → s ⟶ t
  stop : s ≡ status_running → t ≡ status_stopped → s ⟶ t
  redeploy : s ≡ status_stopped → t ≡ status_pending → s ⟶ t
  retry : s ≡ status_failed → t ≡ status_pending → s ⟶ t
  fail :
      (s ≡ status_pending) ⊎ (s ≡ status_building) ⊎ (s ≡ status_deploying) ⊎ (s ≡ status_running)
      → t ≡ status_failed
      → s ⟶ t
  abandon : s ≡ status_stopped → t ≡ status_failed → s ⟶ t

-- What a table of targets says of a status and a target, entry by entry.
abbrev OneOf : String → List String → Type 0
OneOf t [] = ⊥
OneOf t (x ∷ xs) = (x ≡ t) ⊎ OneOf t xs

abbrev Listed : String → String → List (String × List String) → Type 0
Listed s t [] = ⊥
Listed s t ((j, targets) ∷ table) = ((j ≡ s) × OneOf t targets) ⊎ Listed s t table

any-OneOf : (t : String) (xs : List String) → any (λ s. s == t) xs ≡ true → OneOf t xs
any-OneOf t [] h = cc
any-OneOf t (x ∷ xs) h = ground (arith, eq_iff x t, any-OneOf t xs)

lookup-Listed :
    (s t : String) (table : List (String × List String))
    → any (λ x. x == t) (or_nil (lookup s table)) ≡ true
    → Listed s t table
unfolding lookup
lookup-Listed s t [] h = cc
lookup-Listed s t ((j, targets) ∷ table) h = elim (==-cases j s) [
  | inl (e, b) ↦ inl (e, any-OneOf t targets (rw (b, lookup) at h))
  | inr b ↦ inr (lookup-Listed s t table (rw (b, lookup) at h))
]

Listed-⟶ : (s t : String) → Listed s t allowed_transitions → s ⟶ t
Listed-⟶ s t (inl (p, inl q)) = submit (sym p) (sym q)
Listed-⟶ s t (inr (inl (p, inl q))) = build (sym p) (sym q)
Listed-⟶ s t (inr (inl (p, inr (inl q)))) = fail (inl (sym p)) (sym q)
Listed-⟶ s t (inr (inr (inl (p, inl q)))) = deploy (sym p) (sym q)
Listed-⟶ s t (inr (inr (inl (p, inr (inl q))))) = fail (inr (inl (sym p))) (sym q)
Listed-⟶ s t (inr (inr (inr (inl (p, inl q))))) = start (sym p) (sym q)
Listed-⟶ s t (inr (inr (inr (inl (p, inr (inl q)))))) = fail (inr (inr (inl (sym p)))) (sym q)
Listed-⟶ s t (inr (inr (inr (inr (inl (p, inl q)))))) = stop (sym p) (sym q)
Listed-⟶ s t (inr (inr (inr (inr (inl (p, inr (inl q))))))) = fail (inr (inr (inr (sym p)))) (sym q)
Listed-⟶ s t (inr (inr (inr (inr (inr (inl (p, inl q))))))) = redeploy (sym p) (sym q)
Listed-⟶ s t (inr (inr (inr (inr (inr (inl (p, inr (inl q)))))))) = abandon (sym p) (sym q)
Listed-⟶ s t (inr (inr (inr (inr (inr (inr (inl (p, inl q)))))))) = retry (sym p) (sym q)
Listed-⟶ s t (inl (_, inr x)) = elim x [ ]
Listed-⟶ s t (inr (inl (_, inr (inr x)))) = elim x [ ]
Listed-⟶ s t (inr (inr (inl (_, inr (inr x))))) = elim x [ ]
Listed-⟶ s t (inr (inr (inr (inl (_, inr (inr x)))))) = elim x [ ]
Listed-⟶ s t (inr (inr (inr (inr (inl (_, inr (inr x))))))) = elim x [ ]
Listed-⟶ s t (inr (inr (inr (inr (inr (inl (_, inr (inr x)))))))) = elim x [ ]
Listed-⟶ s t (inr (inr (inr (inr (inr (inr (inl (_, inr x)))))))) = elim x [ ]
Listed-⟶ s t (inr (inr (inr (inr (inr (inr (inr x))))))) = elim x [ ]

pub allows-⟶ : (s t : String) → allows s t ≡ true → s ⟶ t
unfolding allows
allows-⟶ s t h = Listed-⟶ s t (lookup-Listed s t allowed_transitions h)

pub ⟶-allows : (s t : String) → s ⟶ t → allows s t ≡ true
unfolding allows
⟶-allows s t (submit p q) = rw (p, q)
⟶-allows s t (build p q) = rw (p, q)
⟶-allows s t (deploy p q) = rw (p, q)
⟶-allows s t (start p q) = rw (p, q)
⟶-allows s t (stop p q) = rw (p, q)
⟶-allows s t (redeploy p q) = rw (p, q)
⟶-allows s t (retry p q) = rw (p, q)
⟶-allows s t (fail (inl p) q) = rw (p, q)
⟶-allows s t (fail (inr (inl p)) q) = rw (p, q)
⟶-allows s t (fail (inr (inr (inl p))) q) = rw (p, q)
⟶-allows s t (fail (inr (inr (inr p))) q) = rw (p, q)
⟶-allows s t (abandon p q) = rw (p, q)
