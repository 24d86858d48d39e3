-- ===== src/Examples/Main.antt =====
-- The start of the agent's command on a machine without a control plane.
use deploy_os.Base.{
  nat_eq, ◌==◌, if◌then◌else◌, String, ℕ, Option, none, [], ◌∷◌, some, refl, ◌≡◌, ℕ, String, ◌≡◌,
  refl, ◌↔◌, Option, none, some, [], ◌∷◌, nat_eq, ◌==◌, if◌then◌else◌,
}
use deploy_os.Go.Errors.{GoError, other, GoError, other, ok}
use deploy_os.Go.Integer.{pos}
use deploy_os.Agent.Start.Main.{Machine, IsStarted, IsReady, run-IsReady}
use deploy_os.Cli.{GoRuntime, doctor, run_command, print}
use deploy_os.Examples.ControlPlane.{loader}
use deploy_os.Examples.Start.{json, call, disk, box}

abbrev machine : Machine
machine = record {
  hostname = ok "box";
  memory = ok 1024;
  operating_system = "linux";
  architecture = "amd64";
  cpu_cores = pos 4;
}

run-IsReady_example :
    IsStarted loader json call "0.1.0" "7b1c" machine (λ dir. disk) box
    ↔ IsReady loader json call "0.1.0" "7b1c" machine (λ dir. disk) box
run-IsReady_example = run-IsReady loader json call "0.1.0" "7b1c" machine (λ dir. disk) box

-- The second write of `deployos doctor` fails.
abbrev go_runtime : GoRuntime
go_runtime = record { version = "go1.23"; operating_system = "linux"; architecture = "amd64" }

abbrev stat : String → Option GoError
stat path = if path == ".env" then some (other "no such file") else none

abbrev broken_pipe : ℕ → Option GoError
broken_pipe n = if nat_eq n 1 then some (other "broken pipe") else none

stops_at_failure : run_command "0.1.0" go_runtime stat broken_pipe doctor ≡ record {
  written = "go runtime:  go1.23 (linux/amd64)\n" ∷ [];
  error = some (other "broken pipe");
}
unfolding run_command print
stops_at_failure = refl
