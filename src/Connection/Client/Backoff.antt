-- ===== src/Connection/Client/Backoff.antt =====
-- The waits between connection attempts.
use deploy_os.Base.{
  ℕ, zero, suc, ◌+◌, ◌*◌, ◌^◌, ◌≤◌, ◌<◌, min, ◌≡◌, refl, ap, ◌∙◌, true, false, List, [], ◌∷◌, ◌++◌,
  arith, length, All,
}
use deploy_os.Connection.Client.{float_steps, jitter, Round, reset, next_backoff, run_from, run}
use native.Mathlib.Nat.{pow-suc, mul-le-mul_right}
use native.Mathlib.Decide.{dec_le}

-- The product of the jitter, between 8/10 and 12/10 of the whole.
jitter_bounds :
    (d n : ℕ) → n ≤ float_steps → (8 * d < 10 * jitter d n + 10) × (10 * jitter d n ≤ 12 * d)
unfolding jitter
jitter_bounds d n h = let few : d * n ≤ d * float_steps = grind arith in (omega arith, omega arith)

-- Every wait is between about 0.8 times the initial backoff and 1.2 times the largest.
abbrev pub InBounds : ℕ → ℕ → ℕ → Type 0
InBounds initial max_backoff w = (8 * initial < 10 * w + 10) × (10 * w ≤ 12 * max_backoff)

run_from-All :
    (initial max_backoff b : ℕ) (rs : List Round)
    → initial ≤ b
    → b ≤ max_backoff
    → All (λ (r : Round). r.draw ≤ float_steps) rs
    → All (InBounds initial max_backoff) (run_from initial max_backoff b rs)
unfolding run_from next_backoff
run_from-All initial max_backoff b [] low high draws = tt
run_from-All initial max_backoff b (r ∷ rs) low high (draw, draws) =
    let base = reset initial r b in
    let above : initial ≤ base = ground arith in
    let below : base ≤ max_backoff = ground arith in
    (
      (
        omega (arith, jitter_bounds base r.draw draw),
        omega (arith, jitter_bounds base r.draw draw),
      ),
      run_from-All initial max_backoff (min (base * 2) max_backoff) rs (omega arith) (omega arith)
          draws,
    )

-- Whatever the attempts, each wait is more than 0.8 times the initial backoff less one
-- nanosecond, and at most 1.2 times the largest, for an initial backoff that is not above the
-- largest and draws of at most 2^53.
pub run-All :
    (initial max_backoff : ℕ) (rs : List Round)
    → initial ≤ max_backoff
    → All (λ (r : Round). r.draw ≤ float_steps) rs
    → All (InBounds initial max_backoff) (run initial max_backoff rs)
unfolding run
run-All initial max_backoff rs le draws =
    run_from-All initial max_backoff initial rs (omega arith) le draws

-- The backoff behind some rounds.
unfoldable backoff_after : ℕ → ℕ → List Round → ℕ → ℕ
backoff_after initial max_backoff [] b = b
backoff_after initial max_backoff (r ∷ rs) b =
    backoff_after initial max_backoff rs (next_backoff initial max_backoff r b)

run_from-append :
    (initial max_backoff b : ℕ) (rs : List Round) (r : Round)
    → run_from initial max_backoff b (rs ++ r ∷ [])
      ≡ run_from initial max_backoff b rs
        ++ jitter (reset initial r (backoff_after initial max_backoff rs b)) r.draw ∷ []
unfolding run_from backoff_after
run_from-append initial max_backoff b [] r = refl
run_from-append initial max_backoff b (x ∷ rs) r =
    ap (λ l. jitter (reset initial x b) x.draw ∷ l)
      (run_from-append initial max_backoff (next_backoff initial max_backoff x b) rs r)

pow_pos : (n : ℕ) → 0 < 2 ^ n
pow_pos zero = omega arith
pow_pos (suc n) = rw (pow-suc 2 n) (omega (arith, pow_pos n))

scale_by : (b m p : ℕ) → 0 < p → min (min (b * 2) m * p) m ≡ min (b * (p * 2)) m
scale_by b m p h = elim (dec_le (b * 2) m) [
  | yes le ↦ let inner : min (b * 2) m ≡ b * 2 = omega arith in rw inner (omega arith)
  | no gt ↦
      let inner : min (b * 2) m ≡ m = omega arith in
      let most : m ≤ m * p = grind arith in
      let more : m * p ≤ b * 2 * p = mul-le-mul_right p (omega arith) in rw inner (omega arith)
]

scale : (b m n : ℕ) → min (min (b * 2) m * 2 ^ n) m ≡ min (b * 2 ^ suc n) m
scale b m n = rw (pow-suc 2 n) (scale_by b m (2 ^ n) (pow_pos n))

-- A row of failed rounds doubles the backoff each time, up to the largest.
backoff_after_failures :
    (initial max_backoff b : ℕ) (fails : List Round)
    → All (λ (r : Round). r.authenticated ≡ false) fails
    → b ≤ max_backoff
    → backoff_after initial max_backoff fails b ≡ min (b * 2 ^ length fails) max_backoff
unfolding backoff_after next_backoff
backoff_after_failures initial max_backoff b [] h le = omega arith
backoff_after_failures initial max_backoff b (r ∷ fails) (h, hs) le =
    let next = min (b * 2) max_backoff in
    let ih : backoff_after initial max_backoff fails next
        ≡ min (next * 2 ^ length fails) max_backoff =
      backoff_after_failures initial max_backoff next fails hs (omega arith) in
    rw h (ih ∙ scale b max_backoff (length fails))

backoff_after-append :
    (initial max_backoff : ℕ) (rs more : List Round) (b : ℕ)
    → backoff_after initial max_backoff (rs ++ more) b
      ≡ backoff_after initial max_backoff more (backoff_after initial max_backoff rs b)
unfolding backoff_after
backoff_after-append initial max_backoff [] more b = refl
backoff_after-append initial max_backoff (r ∷ rs) more b =
    backoff_after-append initial max_backoff rs more (next_backoff initial max_backoff r b)

backoff_after_up :
    (initial max_backoff : ℕ) (rs : List Round) (up : Round) (fails : List Round)
    → initial ≤ max_backoff
    → up.authenticated ≡ true
    → All (λ (r : Round). r.authenticated ≡ false) fails
    → backoff_after initial max_backoff (rs ++ up ∷ fails) initial
      ≡ min (initial * 2 ^ suc (length fails)) max_backoff
unfolding backoff_after next_backoff
backoff_after_up initial max_backoff rs up fails le u fs =
    backoff_after-append initial max_backoff rs (up ∷ fails) initial
    ∙ rw u (
        backoff_after_failures initial max_backoff (min (initial * 2) max_backoff) fails fs
          (omega arith)
        ∙ scale initial max_backoff (length fails))

-- Behind an attempt that authenticated and k failed ones, whatever came before, a failed attempt
-- is followed by a wait of the initial backoff doubled k + 1 times, at most the largest backoff,
-- with jitter. The initial backoff is not above the largest.
pub run-doubling :
    (initial max_backoff : ℕ) (rs : List Round) (up : Round) (fails : List Round) (r : Round)
    → initial ≤ max_backoff
    → up.authenticated ≡ true
    → All (λ (r : Round). r.authenticated ≡ false) fails
    → r.authenticated ≡ false
    → run initial max_backoff ((rs ++ up ∷ fails) ++ r ∷ [])
      ≡ run initial max_backoff (rs ++ up ∷ fails)
        ++ jitter (min (initial * 2 ^ suc (length fails)) max_backoff) r.draw ∷ []
unfolding run
run-doubling initial max_backoff rs up fails r le u fs f =
    run_from-append initial max_backoff initial (rs ++ up ∷ fails) r
    ∙ ap (λ b. run_from initial max_backoff initial (rs ++ up ∷ fails) ++ jitter b r.draw ∷ [])
        (rw f (backoff_after_up initial max_backoff rs up fails le u fs))
