-- ===== src/ControlPlane/Setup.antt =====
-- cmd/server/main.go: with which configuration the control plane comes to serve.
use deploy_os.Base.{String, ◌≡◌, refl, sym, ap, ◌∙◌, ◌↔◌, Option, none, some}
use deploy_os.Go.Errors.{GoError, wrap, Result, ok, err, bind-ok, ok_inj}
use deploy_os.Config.{
  Config, Loader, load, validate_config, IsLoaded, IsDeployable, load-IsLoaded,
  validate_config-IsDeployable,
}
use deploy_os.ControlPlane.{no_options, setup}

-- The configuration was loaded, holds every required setting, and its database has a pool.
pub record IsReady (l : Loader) (pool : String → Option GoError) (c : Config) : Type 0 where
  pub loaded : IsLoaded l no_options c
  pub deployable : IsDeployable c
  pub pooled : pool c.supabase.database_url ≡ none

pooled-ok :
    (o : Option GoError) (s c : Config)
    → ◌≡◌ {A = Result Config}
        (elim o [ none ↦ ok s | some e ↦ err (wrap "connecting to database: " e "") ])
        (ok c)
    → (o ≡ none) × (s ≡ c)
pooled-ok none s c h = (refl, ok_inj h)
pooled-ok (some e) s c h = cc

ready :
    (l : Loader) (pool : String → Option GoError) (c : Config)
    → setup l pool ≡ ok c
    → IsReady l pool c
unfolding setup
ready l pool c h =
    let (s, h1, h2) = bind-ok (load l no_options) _ c h in
    let (done, h3, h4) = bind-ok (validate_config s) _ c h2 in
    let (none_failed, same) = pooled-ok (pool s.supabase.database_url) s c h4 in
    record {
      loaded = (load-IsLoaded l no_options c).0 (h1 ∙ ap ok same);
      deployable = (validate_config-IsDeployable c).0 (ap validate_config (sym same) ∙ h3);
      pooled = ap (λ (y : Config). pool y.supabase.database_url) (sym same) ∙ none_failed;
    }

IsReady-setup :
    (l : Loader) (pool : String → Option GoError) (c : Config)
    → IsReady l pool c
    → setup l pool ≡ ok c
unfolding setup
IsReady-setup l pool c r =
    rw
      (
        (load-IsLoaded l no_options c).1 r.loaded,
        (validate_config-IsDeployable c).1 r.deployable,
        r.pooled,
      )
      refl

-- The control plane comes to serve with a configuration exactly when the .env file and the
-- config file can each be read or are missing and the settings over the defaults decode to it,
-- with the default directory of the agent where they name none; when it names the database, the
-- address and the key of Supabase and the secret of the tokens; and when the pool of that
-- database is made. The lifetime of the tokens has a default and is not among the settings that
-- it requires.
pub setup-IsReady :
    (l : Loader) (pool : String → Option GoError) (c : Config)
    → (setup l pool ≡ ok c) ↔ IsReady l pool c
setup-IsReady l pool c = (ready l pool c, IsReady-setup l pool c)
