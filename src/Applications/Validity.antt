-- ===== src/Applications/Validity.antt =====
-- What Application.Validate checks, as a specification, and that it checks exactly that.
use deploy_os.Base.{
  subst, ℕ, String, ◌≡◌, refl, ◌↔◌, inl, inr, true, false, List, [], ◌∷◌, arith, eq_iff, ◌==◌,
  ==_false, All,
}
use deploy_os.Go.Errors.{Result, ok, for_each, Result-cases}
use deploy_os.Go.Text.{codes}
use deploy_os.Go.Regexp.{match_string}
use deploy_os.Applications.Name.{StartsAlnum, name_re, IsSlug, match_string-IsSlug}
use deploy_os.Applications.Status.{valid, status_created}
use deploy_os.Applications.{
  Application, SecretRef, Volume, check_env_var, check_secret_ref, check_volume, check_domain,
  validate, new_application, created,
}

-- A well-formed application.
pub record IsWellFormed (a : Application) : Type 0 where
  pub has_id : ¬ (a.id ≡ "")
  pub has_user : ¬ (a.user_id ≡ "")
  pub slug : IsSlug (codes a.name)
  pub has_runtime : ¬ (a.runtime ≡ "")
  pub known_status : valid a.status ≡ true
  pub env_names : All (λ (e : String × String). ¬ (e.0 ≡ "")) a.environment_variables
  pub secrets : All (λ (r : SecretRef). ¬ (r.env_var ≡ "") × ¬ (r.secret_name ≡ "")) a.secret_refs
  pub mounts : All (λ (v : Volume). ¬ (v.host_path ≡ "") × ¬ (v.container_path ≡ "")) a.volumes
  pub names : All (λ (d : String). ¬ (d ≡ "")) a.domains

-- A test for one element, over the whole loop.
module _ {ℓ κ} {A : Type ℓ} (body : A → Result (Unit {0})) (P : A → Type κ) where
  for_each-All :
      ((x : A) → body x ≡ ok tt → P x) → (xs : List A) → for_each body xs ≡ ok tt → All P xs
  unfolding for_each
  for_each-All h [] e = tt
  for_each-All h (x ∷ xs) e = elim (Result-cases (body x)) [
    | inl (tt, p) ↦ (h x p, for_each-All h xs (rw p at e))
    | inr (er, p) ↦ cc
  ]

  All-for_each :
      ((x : A) → P x → body x ≡ ok tt) → (xs : List A) → All P xs → for_each body xs ≡ ok tt
  unfolding for_each
  All-for_each h [] e = refl
  All-for_each h (x ∷ xs) e = rw (h x e.0) (All-for_each h xs e.1)

env_ok : (e : String × String) → check_env_var e ≡ ok tt → ¬ (e.0 ≡ "")
unfolding check_env_var
env_ok (k, v) h = ground (arith, eq_iff k "")

ok_env : (e : String × String) → ¬ (e.0 ≡ "") → check_env_var e ≡ ok tt
unfolding check_env_var
ok_env (k, v) h = rw (==_false k "" h)

secret_ok :
    (r : SecretRef) → check_secret_ref r ≡ ok tt → ¬ (r.env_var ≡ "") × ¬ (r.secret_name ≡ "")
unfolding check_secret_ref
secret_ok r h = ground (arith, eq_iff r.env_var "", eq_iff r.secret_name "")

ok_secret :
    (r : SecretRef) → ¬ (r.env_var ≡ "") × ¬ (r.secret_name ≡ "") → check_secret_ref r ≡ ok tt
unfolding check_secret_ref
ok_secret r (p, q) = rw (==_false r.env_var "" p, ==_false r.secret_name "" q)

volume_ok : (v : Volume) → check_volume v ≡ ok tt → ¬ (v.host_path ≡ "") × ¬ (v.container_path ≡ "")
unfolding check_volume
volume_ok v h = ground (arith, eq_iff v.host_path "", eq_iff v.container_path "")

ok_volume : (v : Volume) → ¬ (v.host_path ≡ "") × ¬ (v.container_path ≡ "") → check_volume v ≡ ok tt
unfolding check_volume
ok_volume v (p, q) = rw (==_false v.host_path "" p, ==_false v.container_path "" q)

domain_ok : (d : String) → check_domain d ≡ ok tt → ¬ (d ≡ "")
unfolding check_domain
domain_ok d h = ground (arith, eq_iff d "")

ok_domain : (d : String) → ¬ (d ≡ "") → check_domain d ≡ ok tt
unfolding check_domain
ok_domain d h = rw (==_false d "" h)

-- The tests that a successful run has passed.
abbrev Passed : Application → Type 0
Passed a =
    ((a.id == "") ≡ false)
    × ((a.user_id == "") ≡ false)
    × (match_string name_re (codes a.name) ≡ true)
    × ((a.runtime == "") ≡ false)
    × (valid a.status ≡ true)
    × (for_each check_env_var a.environment_variables ≡ ok tt)
    × (for_each check_secret_ref a.secret_refs ≡ ok tt)
    × (for_each check_volume a.volumes ≡ ok tt)
    × (for_each check_domain a.domains ≡ ok tt)

validate-Passed : (a : Application) → validate a ≡ ok tt → Passed a
unfolding validate
validate-Passed a h = ground arith

Passed-validate : (a : Application) → ((a.name == "") ≡ false) → Passed a → validate a ≡ ok tt
unfolding validate
Passed-validate a n h = ground arith

name_nonempty : (s : String) → IsSlug (codes s) → (s == "") ≡ false
name_nonempty s h = ==_false s "" (λ e. subst (λ x. StartsAlnum (codes x)) e h.first)

Passed-IsWellFormed : (a : Application) → Passed a → IsWellFormed a
Passed-IsWellFormed a (id, user, name, runtime, status, env, secrets, volumes, domains) = record {
  has_id = λ e. ground (arith, eq_iff a.id "");
  has_user = λ e. ground (arith, eq_iff a.user_id "");
  slug = (match_string-IsSlug (codes a.name)).0 name;
  has_runtime = λ e. ground (arith, eq_iff a.runtime "");
  known_status = status;
  env_names = for_each-All check_env_var _ env_ok a.environment_variables env;
  secrets = for_each-All check_secret_ref _ secret_ok a.secret_refs secrets;
  mounts = for_each-All check_volume _ volume_ok a.volumes volumes;
  names = for_each-All check_domain _ domain_ok a.domains domains;
}

IsWellFormed-Passed : (a : Application) → IsWellFormed a → Passed a
IsWellFormed-Passed a w = (
  ==_false a.id "" w.has_id,
  ==_false a.user_id "" w.has_user,
  (match_string-IsSlug (codes a.name)).1 w.slug,
  ==_false a.runtime "" w.has_runtime,
  w.known_status,
  All-for_each check_env_var _ ok_env a.environment_variables w.env_names,
  All-for_each check_secret_ref _ ok_secret a.secret_refs w.secrets,
  All-for_each check_volume _ ok_volume a.volumes w.mounts,
  All-for_each check_domain _ ok_domain a.domains w.names,
)

-- Application.Validate returns no error exactly for a well-formed application: one with an id,
-- an owner and a runtime, a name that is a DNS label, a known status, and no empty variable
-- name, secret reference, volume path or domain.
pub validate-IsWellFormed : (a : Application) → (validate a ≡ ok tt) ↔ IsWellFormed a
validate-IsWellFormed a = (
  λ h. Passed-IsWellFormed a (validate-Passed a h),
  λ w. Passed-validate a (name_nonempty a.name w.slug) (IsWellFormed-Passed a w),
)

known_created : valid status_created ≡ true
unfolding valid
known_created = refl

created_ok :
    (new_id : String) (now : ℕ) (user_id name runtime : String)
    → new_application new_id now user_id name runtime ≡ ok (created new_id now user_id name runtime)
    → validate (created new_id now user_id name runtime) ≡ ok tt
unfolding new_application
created_ok new_id now user_id name runtime h =
    elim (Result-cases (validate (created new_id now user_id name runtime))) [
      | inl (tt, e) ↦ e
      | inr (er, e) ↦ cc
    ]

-- NewApplication succeeds with the application that it built exactly when the id, the owner and
-- the runtime are not empty and the name is a DNS label; that application is then well-formed
-- and in status created.
pub new_application-created :
    (new_id : String) (now : ℕ) (user_id name runtime : String)
    → let a = created new_id now user_id name runtime in
      ((new_application new_id now user_id name runtime ≡ ok a)
        ↔ (¬ (new_id ≡ "") × ¬ (user_id ≡ "") × ¬ (runtime ≡ "") × IsSlug (codes name)))
      × (new_application new_id now user_id name runtime ≡ ok a
          → IsWellFormed a × (a.status ≡ status_created))
unfolding new_application created
new_application-created new_id now user_id name runtime =
    let a = created new_id now user_id name runtime in
    let checked : new_application new_id now user_id name runtime ≡ ok a → IsWellFormed a =
      λ h. (validate-IsWellFormed a).0 (created_ok new_id now user_id name runtime h) in
    (
      (
        λ h. let w = checked h in (w.has_id, w.has_user, w.has_runtime, w.slug),
        λ (p, q, r, s). rw (
            (validate-IsWellFormed a).1 (record {
              has_id = p;
              has_user = q;
              slug = s;
              has_runtime = r;
              known_status = known_created;
              env_names = tt;
              secrets = tt;
              mounts = tt;
              names = tt;
            })),
      ),
      λ h. (checked h, refl),
    )
