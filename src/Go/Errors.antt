-- ===== src/Go/Errors.antt =====
-- Go's errors: the values that the program makes with errors.New, fmt.Errorf and gRPC's status.Error, and
-- errors.Is and err.Error over them.
use deploy_os.Base.{
  eq_iff, arith, String, concat, ◌≡◌, refl, ◌⊎◌, inl, inr, Bool, true, false, List, [], ◌∷◌, ◌==◌,
}

-- A package-level `errors.New`: `errors.Is` knows it by its identity, here its qualified name.
pub record Sentinel : Type 0 where
  pub name : String
  pub text : String

-- The gRPC codes that the program uses.
pub data Code : Type 0 where
  invalid_argument unauthenticated : Code

abbrev code_name : Code → String
code_name invalid_argument = "InvalidArgument"
code_name unauthenticated = "Unauthenticated"

pub data GoError : Type 0 where
  sentinel : Sentinel → GoError
  -- An error with a text and no identity that the program asks for.
  other : String → GoError
  -- fmt.Errorf with one %w: the texts in front of and behind the error that it wraps.
  wrap : String → GoError → String → GoError
  -- status.Error(code, message)
  status_error : Code → String → GoError

unfoldable pub error_text : GoError → String
error_text (sentinel s) = s.text
error_text (other m) = m
error_text (wrap before e after) = concat (before ∷ error_text e ∷ after ∷ [])
error_text (status_error c m) = concat ("rpc error: code = " ∷ code_name c ∷ " desc = " ∷ m ∷ [])

-- errors.Is(err, target)
unfoldable pub is : GoError → Sentinel → Bool
is (sentinel s) t = s.name == t.name
is (other m) t = false
is (wrap before e after) t = is e t
is (status_error c m) t = false

-- A value, or an error with the zero value.
pub data Result {ℓ} (A : Type ℓ) : Type ℓ where
  ok : A → Result A
  err : GoError → Result A

-- `if test { return err }`
abbrev pub fail_if : Bool → GoError → Result (Unit {0})
fail_if false failure = ok tt
fail_if true failure = err failure

-- What follows `if err != nil { return err }`, with the value or without one.
infixl 5 ◌>>=◌ ◌>>◌
abbrev pub ◌>>=◌ {ℓ κ} :
    {Here : Type ℓ} {There : Type κ} → Result Here → (Here → Result There) → Result There
err failure >>= continue = err failure
ok value >>= continue = continue value

abbrev pub ◌>>◌ {κ} : {There : Type κ} → Result (Unit {0}) → Result There → Result There
err failure >> continue = err failure
ok tt >> continue = continue

-- `if err != nil { return f(err) }`
abbrev pub map_error {ℓ} : {A : Type ℓ} → (GoError → GoError) → Result A → Result A
map_error f (ok a) = ok a
map_error f (err e) = err (f e)

-- Every element of a `for range` passes the body, or the loop returns its error.
unfoldable pub for_each {ℓ} : {A : Type ℓ} → (A → Result (Unit {0})) → List A → Result (Unit {0})
for_each body [] = ok tt
for_each body (x ∷ xs) = let rest = for_each body xs in body x >>= λ _. rest

pub Result-cases {ℓ} :
    {A : Type ℓ} (r : Result A) → ((a : A) × (r ≡ ok a)) ⊎ ((e : GoError) × (r ≡ err e))
Result-cases (ok a) = inl (a, refl)
Result-cases (err e) = inr (e, refl)

-- What a chain that succeeds went through.
pub bind-ok {ℓ κ} :
    {Here : Type ℓ} {There : Type κ} (m : Result Here) (f : Here → Result There) (b : There)
    → (m >>= f) ≡ ok b
    → (a : Here) × (m ≡ ok a) × (f a ≡ ok b)
bind-ok (ok a) f b h = (a, refl, h)
bind-ok (err e) f b h = cc

pub and_then-ok {ℓ} :
    {There : Type ℓ} (m : Result (Unit {0})) (n : Result There) (b : There)
    → (m >> n) ≡ ok b
    → (m ≡ ok tt) × (n ≡ ok b)
and_then-ok (ok tt) n b h = (refl, h)
and_then-ok (err e) n b h = cc

pub fail_if-ok : (test : Bool) (e : GoError) → fail_if test e ≡ ok tt → test ≡ false
fail_if-ok false e h = refl
fail_if-ok true e h = cc

pub fail_if_empty-ok : (s : String) (e : GoError) → fail_if (s == "") e ≡ ok tt → ¬ (s ≡ "")
fail_if_empty-ok s e h q = ground (arith, eq_iff s "", fail_if-ok (s == "") e h)

pub map_error-ok {ℓ} :
    {A : Type ℓ} (f : GoError → GoError) (m : Result A) (a : A) → map_error f m ≡ ok a → m ≡ ok a
map_error-ok f (ok a) b h = h
map_error-ok f (err e) b h = cc

pub ok_inj {ℓ} : {A : Type ℓ} {a b : A} → ok a ≡ ok b → a ≡ b
ok_inj e = cc
