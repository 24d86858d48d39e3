-- ===== src/Runtime/Group.antt =====
-- golang.org/x/sync/errgroup as both commands use it, over servers of internal/runtime: the first error that a server returned is
-- kept, and cancels the context that all are given.
use deploy_os.Base.{◌≡◌, refl, sym, ◌∙◌, ◌⊎◌, inl, inr, Bool, true, Option, none, some}
use deploy_os.Go.Errors.{GoError}
use deploy_os.Runtime.{Point, returned}
use deploy_os.Runtime.HttpServer.Invariant as HttpInvariant

abbrev pub first_error : Option GoError → GoError → Option GoError
first_error none e = some e
first_error (some e) later = some e

-- The group has the result that the server returned, and an error has canceled the context.
abbrev pub Noted : Bool → Point → Bool → Option GoError → Type 0
Noted b p canceled error =
    b ≡ true
    → (r : Option GoError) × (p ≡ returned r)
      × ((e : GoError) → r ≡ some e → (canceled ≡ true) × ¬ (error ≡ none))

-- The error that is kept is one that a server returned.
abbrev pub IsKept : Option GoError → Point → Point → Type 0
IsKept none p q = Unit
IsKept (some e) p q = (p ≡ returned (some e)) ⊎ (q ≡ returned (some e))

pub Noted-moves :
    (b : Bool) (p q : Point) (canceled c : Bool) (error : Option GoError)
    → ((r : Option GoError) → p ≡ returned r → q ≡ returned r)
    → c ≡ canceled
    → Noted b p canceled error
    → Noted b q c error
Noted-moves b p q canceled c error stays same n d =
    let (r, at, noted) = n d in (r, stays r at, λ e h. (same ∙ (noted e h).0, (noted e h).1))

pub IsKept-moves :
    (error : Option GoError) (p q p' q' : Point)
    → ((r : Option GoError) → p ≡ returned r → p' ≡ returned r)
    → ((r : Option GoError) → q ≡ returned r → q' ≡ returned r)
    → IsKept error p q
    → IsKept error p' q'
IsKept-moves none p q p' q' f g h = tt
IsKept-moves (some e) p q p' q' f g (inl h) = inl (f (some e) h)
IsKept-moves (some e) p q p' q' f g (inr h) = inr (g (some e) h)

-- The first error that a server returned is kept.
pub IsKept-first :
    (error : Option GoError) (e : GoError) (p q : Point)
    → (p ≡ returned (some e)) ⊎ (q ≡ returned (some e))
    → IsKept error p q
    → IsKept (first_error error e) p q
IsKept-first none e p q h k = h
IsKept-first (some d) e p q h k = k

pub first_error-some : (error : Option GoError) (e : GoError) → ¬ (first_error error e ≡ none)
first_error-some none e = λ h. cc
first_error-some (some d) e = λ h. cc

-- One stage of the way to the end, or a further step.
pub then_stage : {A B O : Type 0} → A ⊎ O → (A → B ⊎ O) → B ⊎ O
then_stage (inl a) f = f a
then_stage (inr o) f = inr o

pub same_result : {a b : Option GoError} → returned a ≡ returned b → a ≡ b
same_result q = cc

-- Where the group keeps no error, the server returned none.
pub quiet :
    (b : Bool) (p : Point) (canceled : Bool) (r : Option GoError)
    → b ≡ true
    → p ≡ returned r
    → Noted b p canceled none
    → r ≡ none
quiet b p canceled none d h n = refl
quiet b p canceled (some e) d h n =
    let (o, at, noted) = n d in absurd ((noted e (same_result (sym at ∙ h))).1 refl)

pub http-canceled :
    (canceled : Bool) (r : Option GoError)
    → ((e : GoError) → r ≡ some e → canceled ≡ true)
    → HttpInvariant.IsOutcome canceled r
    → canceled ≡ true
http-canceled canceled r f (HttpInvariant.clean c e) = c
http-canceled canceled r f (HttpInvariant.failed e n q) = f _ q
http-canceled canceled r f (HttpInvariant.overran e c q) = c
