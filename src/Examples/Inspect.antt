-- ===== src/Examples/Inspect.antt =====
-- A command to inspect a container that the engine does not know.
use deploy_os.Base.{◌≡◌, refl, sym, ap, ◌∙◌, false, [], ◌∷◌}
use deploy_os.Go.Errors.{GoError, other, is, Result, ok, err}
use deploy_os.Go.Map.{lookup, insert}
use deploy_os.Go.Integer.{pos}
use deploy_os.CommandBus.Wire.{Request, kind_inspect_container}
use deploy_os.CommandBus.Dispatcher.{dispatch, register}
use deploy_os.Containers.Docker.{Answer, ContainerInspect}
use deploy_os.Agent.Commands.{Machine, agent_dispatcher}
use deploy_os.Agent.Commands.Inspect.{
  Engine, docker_runtime, Inspection, IsForeign, inspect-Inspection,
}

abbrev engine : Engine
engine = record {
  itoa = λ n. "404";
  atoi = λ s. pos 0;
  parse_time = λ s. pos 0;
  path_escape = λ s. s;
  list = λ path. err (other "connection refused");
  inspect = λ path. ok (record {
    status = 404;
    body = err (other "no such container");
    message = "no such container";
  });
  marshal_list = λ cs. ok "[]";
  marshal_details = λ d. ok "{}";
}

engine-IsForeign : IsForeign engine
unfolding is
engine-IsForeign = record {
  transport = λ path er q. cc;
  decoder = λ path a er q b.
      let same : a.body ≡ err (other "no such container") =
        ap (λ (r : Result (Answer ContainerInspect)). body_of r) (sym q) in
      let error : er ≡ other "no such container" = ap error_of (sym b ∙ same) in rw error refl;
}
  where
    body_of : Result (Answer ContainerInspect) → Result ContainerInspect
    body_of (ok a) = a.body
    body_of (err e) = err e

    error_of : Result ContainerInspect → GoError
    error_of (ok i) = other ""
    error_of (err e) = e

abbrev machine : Machine
machine = record {
  version = "0.1.0";
  collect_system_info = err (other "no memory");
  itoa = λ z. "0";
  format_uint = λ n. "0";
}

abbrev inspect_web : Request
inspect_web = record { id = "c-1"; kind = kind_inspect_container; arguments = ("id", "web") ∷ [] }

inspect-Inspection_example :
    Inspection engine inspect_web
      (dispatch (agent_dispatcher machine (docker_runtime engine)) inspect_web)
inspect-Inspection_example = inspect-Inspection engine inspect_web machine engine-IsForeign refl

web_missing : dispatch (agent_dispatcher machine (docker_runtime engine)) inspect_web ≡ record {
  command_id = "c-1";
  success = false;
  message = "container not found: web";
  details = [];
}
unfolding dispatch agent_dispatcher docker_runtime lookup insert
    deploy_os.CommandBus.Dispatcher.new_dispatcher is
web_missing = refl
