-- ===== src/Applications/Errors.antt =====
-- internal/applications: the errors that the package declares.
use deploy_os.Go.Errors.{Sentinel}

abbrev pub empty_id : Sentinel
empty_id = record { name = "applications.ErrEmptyID"; text = "application id must not be empty" }

abbrev pub empty_runtime : Sentinel
empty_runtime = record { name = "applications.ErrEmptyRuntime"; text = "runtime must not be empty" }

abbrev pub empty_user_id : Sentinel
empty_user_id = record { name = "applications.ErrEmptyUserID"; text = "user id must not be empty" }

abbrev pub empty_name : Sentinel
empty_name = record { name = "applications.ErrEmptyName"; text = "name must not be empty" }

abbrev pub invalid_name : Sentinel
invalid_name = record {
  name = "applications.ErrInvalidName";
  text =
      "name must be lowercase alphanumeric characters and hyphens, and must not start or end with a hyphen";
}

abbrev pub invalid_status : Sentinel
invalid_status = record {
  name = "applications.ErrInvalidStatus";
  text = "invalid application status";
}

abbrev pub empty_env_var_name : Sentinel
empty_env_var_name = record {
  name = "applications.ErrEmptyEnvVarName";
  text = "environment variable name must not be empty";
}

abbrev pub invalid_secret_ref : Sentinel
invalid_secret_ref = record {
  name = "applications.ErrInvalidSecretRef";
  text = "secret reference must have both an env var and a secret name";
}

abbrev pub invalid_volume : Sentinel
invalid_volume = record {
  name = "applications.ErrInvalidVolume";
  text = "volume must have both a host path and a container path";
}

abbrev pub invalid_domain : Sentinel
invalid_domain = record {
  name = "applications.ErrInvalidDomain";
  text = "domain must not be empty";
}

abbrev pub invalid_transition : Sentinel
invalid_transition = record {
  name = "applications.ErrInvalidTransition";
  text = "invalid application status transition";
}
